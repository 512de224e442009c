-- ===== src/StringView/Kmp/Find.antt =====
-- find of a string, of string_view.hh, against the plain definition of its first occurrence.
use Prim.Native.Nat.add
use simlib.Common.{
  ℕ, zero, suc, ◌+◌, ◌-◌, ◌≤◌, ◌<◌, ◌≡◌, refl, Option, none, some, Bytes, arith, length, ◌==◌,
  Bool-cases, inl, inr, ap, ==_iff, List, [], ◌∷◌, ◌++◌, length-append, ◌≢◌, sym, ◌∙◌,
}
use simlib.StringView.Kmp.{at, fall_back, scan, find_str}
use simlib.StringView.Kmp.Border.{
  Ends, IsTable, advance, fall_back-Settled, Settled-advance, prefix_table-IsTable,
}

-- `s` stands in `str` at `i`.
abbrev pub Occurs : (str s : Bytes) (i : ℕ) → Type 0
Occurs str s i = (i + length s ≤ length str) × ((j : ℕ) → j < length s → at str (i + j) ≡ at s j)

-- The result of a search for the first occurrence.
abbrev pub IsFirst : (str s : Bytes) → Option ℕ → Type 0
IsFirst str s none = (i : ℕ) → ¬ Occurs str s i
IsFirst str s (some i) = Occurs str s i × ((j : ℕ) → j < i → ¬ Occurs str s j)

module _ (str s : Bytes) where
  Occurs→Ends : (i n : ℕ) → i + length s ≡ n → Occurs str s i → Ends (at str) (at s) n (length s)
  Occurs→Ends i n e (le, same) = (
    omega arith,
    λ j h. let here : (n - length s) + j ≡ i + j = omega arith in ap (at str) here ∙ same j h,
  )

  Ends→Occurs :
      (n : ℕ) → n ≤ length str → Ends (at str) (at s) n (length s) → Occurs str s (n - length s)
  Ends→Occurs n le (fit, same) = (omega arith, same)

  -- What the search knows after `i` characters, in state `k`.
  record State (i k : ℕ) : Type 0 where
    short : k < length s
    ends : Ends (at str) (at s) i k
    longest : (j : ℕ) → j < length s → Ends (at str) (at s) i j → j ≤ k
    unseen : (q : ℕ) → q + length s ≤ i → ¬ Occurs str s q

  module _ (p : List ℕ) (table : IsTable s p) (whole : length p ≡ length s) where
    abbrev next : ℕ → ℕ → ℕ
    next i k = fall_back s p (at str i) k k

    step :
        (i k : ℕ)
        → State i k
        → let k' = advance s (at str i) (next i k) in
          (next i k < length s)
          × Ends (at str) (at s) (suc i) k'
          × ((j : ℕ) → j < suc (length s) → Ends (at str) (at s) (suc i) j → j ≤ k')
    step i k st =
        let c = at str i in
        let (le, settled) =
          fall_back-Settled (at str) s p i (length s) c table k k (omega arith)
            (rw whole (omega (arith, st.short))) st.ends (λ j hj e same. st.longest j hj e) in
        let after = Settled-advance (at str) s p i (length s) c table (next i k) refl settled in
        (omega (arith, le, st.short), after.0, after.1)

    -- The state after a character that does not complete the string.
    State-next :
        (i k k' : ℕ)
        → State i k
        → k' < length s
        → Ends (at str) (at s) (suc i) k'
        → ((j : ℕ) → j < suc (length s) → Ends (at str) (at s) (suc i) j → j ≤ k')
        → State (i + 1) k'
    State-next i k k' st lt ends longest =
        let more : suc i ≡ i + 1 = omega arith in
        record {
          short = lt;
          ends = rw more at ends;
          longest = λ j hj e. longest j (omega arith) (rw (sym more) at e);
          unseen = λ q hq o. elim (Bool-cases (q + length s == suc i)) [
            | inl last ↦
                let e = Occurs→Ends q (suc i) ((==_iff _ _).0 last) o in
                omega (arith, longest (length s) (omega arith) e, lt)
            | inr inner ↦ st.unseen q (ground arith) o
          ];
        }

    scan-IsFirst : (n i k : ℕ) → i + n ≡ length str → State i k → IsFirst str s (scan s p str n i k)
    unfolding scan
    scan-IsFirst zero i k e st = λ q o. st.unseen q (omega arith) o
    scan-IsFirst (suc n) i k e st =
        let (short, ends, longest) = step i k st in
        elim (Bool-cases (at str i == at s (next i k))) [
          | inl same ↦ elim (Bool-cases (suc (next i k) == length s)) [
            | inl full ↦
                let m = (==_iff _ _).0 full in
                let here : suc i ≡ i + 1 = omega arith in
                rw (same, full, scan)
                  (
                    rw here at (Ends→Occurs (suc i) (omega arith) (rw (same, m) at ends)),
                    λ q h. st.unseen q (omega (arith, m, ends.0)),
                  )
            | inr more ↦
                rw (same, more, scan)
                  (scan-IsFirst n (i + 1) (suc (next i k)) (omega arith)
                    (State-next i k _ st (ground arith) (rw same at ends) (rw same at longest)))
          ]
          | inr differ ↦
              rw (differ, scan)
                (scan-IsFirst n (i + 1) (next i k) (omega arith)
                  (State-next i k _ st short (rw differ at ends) (rw differ at longest)))
        ]

  State-start : 0 < length s → State 0 0
  State-start h = record {
    short = h;
    ends = (omega arith, λ i p. absurd (omega arith));
    longest = λ j p (le, _). le;
    unseen = λ q p. absurd (omega arith);
  }

  -- find of a string returns the first place where it stands, `npos` exactly where it stands
  -- nowhere, and 0 for the empty string.
  pub find_str-IsFirst : IsFirst str s (find_str str s)
  unfolding find_str
  find_str-IsFirst = elim (Bool-cases (length s == 0)) [
    | inl empty ↦
        let e = (==_iff (length s) 0).0 empty in
        rw empty ((omega arith, λ j h. absurd (omega arith)), λ j h. absurd (omega arith))
    | inr some_char ↦
        let h : 0 < length s = ground arith in
        let (table, whole) = prefix_table-IsTable s h in
        rw some_char (scan-IsFirst _ table whole (length str) 0 0 (omega arith) (State-start h))
  ]

at-append_left : (xs ys : Bytes) (i : ℕ) → i < length xs → at (xs ++ ys) i ≡ at xs i
at-append_left [] ys i h = absurd (omega arith)
at-append_left (x ∷ xs) ys zero h = refl
at-append_left (x ∷ xs) ys (suc i) h = at-append_left xs ys i (omega arith)

at-append_right : (xs ys : Bytes) (i : ℕ) → at (xs ++ ys) (length xs + i) ≡ at ys i
at-append_right [] ys i = rw add.zero refl
at-append_right (x ∷ xs) ys i = rw (add.suc (length xs) i) (at-append_right xs ys i)

-- A string stands behind whatever comes before it.
pub Occurs-append : (front s rest : Bytes) → Occurs (front ++ (s ++ rest)) s (length front)
Occurs-append front s rest = (
  omega (arith, length-append front (s ++ rest), length-append s rest),
  λ j h. at-append_right front (s ++ rest) j ∙ at-append_left s rest j h,
)

-- Where find finds nothing, the string is no part of the text.
pub find_str-none : (front s rest : Bytes) → find_str (front ++ (s ++ rest)) s ≢ none
find_str-none front s rest e =
    (rw e at (find_str-IsFirst (front ++ (s ++ rest)) s)) (length front)
      (Occurs-append front s rest)
