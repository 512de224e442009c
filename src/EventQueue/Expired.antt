-- ===== src/EventQueue/Expired.antt =====
-- The turn of process_timed_handlers of src/event_queue.cc.
use simlib.Common.{
  ℕ, ◌≤◌, ◌<◌, ◌≡◌, ◌≢◌, refl, sym, ◌∙◌, subst, true, false, List, ◌∷◌, some, ltb, ltb→lt, arith,
  Bool-cases, List-cases, inl, inr,
}
use mathlib.Core.Bool.{false≢true}
use simlib.EventQueue.Table.{
  find, has_pair, same_pair, IsAscending, IsDistinct, erase-IsMap, NotBefore-has_pair,
}
use simlib.EventQueue.Invariant.{Inv, Kept, Gone, registered-lt}
use simlib.EventQueue.Calls.{
  without, without-none, find-without, find-others, find-without_gone, without-fresh,
}
use simlib.EventQueue.{
  EventQueue, timed_handler, file_handler, pop_expired, Popped, expired, broken, not_expired,
}

-- What a turn at the time `now` comes to.
abbrev pub Turn : EventQueue → ℕ → Popped → Type 0
Turn q now not_expired = (t id : ℕ) → has_pair q.timed_handlers (t, id) ≡ true → now < t
Turn q now broken = ⊥
Turn q now (expired id h q') =
    ((t : ℕ) × (find q.handlers id ≡ some (timed_handler t h))
      × (t ≤ now)
      × ((u j : ℕ) → has_pair q.timed_handlers (u, j) ≡ true → t ≤ u))
    × Kept q q'
    × Gone id q'

module _ (q : EventQueue) (inv : Inv q) where
  module _ (tp id : ℕ) (rest : List (ℕ × ℕ)) (first : q.timed_handlers ≡ (tp, id) ∷ rest) where
    distinct' : (has_pair rest (tp, id) ≡ false) × IsDistinct rest
    distinct' = rw first at inv.distinct

    ascending' : IsAscending ((tp, id) ∷ rest)
    ascending' = rw first at inv.ascending

    at_front : has_pair q.timed_handlers (tp, id) ≡ true
    at_front = rw first (ground arith)

    abbrev popped : EventQueue
    popped = record q { timed_handlers = rest; handlers = without q inv id }

    not_after : (u j : ℕ) → has_pair q.timed_handlers (u, j) ≡ true → tp ≤ u
    not_after u j h =
        let h' : has_pair ((tp, id) ∷ rest) (u, j) ≡ true = rw first at h in
        elim (Bool-cases (same_pair (u, j) (tp, id))) [
          | inl same ↦ ground arith
          | inr other ↦ NotBefore-has_pair tp rest ascending'.0 (u, j) (rw other at h')
        ]

    popped-Inv : Inv popped
    popped-Inv =
        let (h, was) = inv.of_timed tp id at_front in
        record {
          aligned = inv.aligned;
          map = erase-IsMap q.handlers id inv.map;
          fresh = without-fresh q inv id;
          ascending = ascending'.1;
          distinct = distinct'.1;
          of_timed = λ t j there.
              let before : has_pair q.timed_handlers (t, j) ≡ true = rw first (ground arith) in
              let (h', e) = inv.of_timed t j before in
              let ne : j ≢ id = λ s.
                let te : t ≡ tp = cc in
                absurd (false≢true (sym distinct'.0 ∙ rw (te, s) at there)) in
              (h', find-others q inv id j (timed_handler t h') ne e);
          timed_of = λ t h' j e.
              let (ne, old) = find-without q inv id j (timed_handler t h') e in
              let before : has_pair ((tp, id) ∷ rest) (t, j) ≡ true =
                rw first at (inv.timed_of t h' j old) in
              ground arith;
          of_polled = λ i f e.
              let (j, h', ev, at, found) = inv.of_polled i f e in
              (j, h', ev, at, find-others q inv id j (file_handler h' ev i) (λ s. cc) found);
          polled_of = λ j h' ev i e.
              inv.polled_of j h' ev i (find-without q inv id j (file_handler h' ev i) e).1;
        }

    popped-Kept : Kept q popped
    popped-Kept = record {
      inv = popped-Inv;
      longer = omega arith;
      dead = λ i lt e. e;
      gone = λ j (lt, e). (lt, without-none q inv id j e);
    }

  -- A turn calls the handler that is the first to expire, if its time has come, and no other; the
  -- handler is registered until then and no more from then on. The assertion holds.
  pub pop_expired-Turn : (now : ℕ) → Turn q now (pop_expired q now)
  unfolding pop_expired
  pop_expired-Turn now = elim (List-cases q.timed_handlers) [
    | inl e ↦
        let none_due : pop_expired q now ≡ not_expired = rw (e, pop_expired) refl in
        let no_pair : (t id : ℕ) → has_pair q.timed_handlers (t, id) ≡ true → now < t =
          λ t id h. absurd (false≢true (rw e at h)) in
        subst (Turn q now) (sym none_due) no_pair
    | inr ((tp, id), rest, e) ↦
        let (h, was) = inv.of_timed tp id (at_front tp id rest e) in
        elim (Bool-cases (ltb now tp)) [
          | inl later ↦
              let none_due : pop_expired q now ≡ not_expired = rw (e, later, pop_expired) refl in
              let all_later : (t j : ℕ) → has_pair q.timed_handlers (t, j) ≡ true → now < t =
                λ t j there. omega (arith, not_after tp id rest e t j there, ltb→lt now tp later) in
              subst (Turn q now) (sym none_due) all_later
          | inr due ↦
              let called : pop_expired q now ≡ expired id h (popped tp id rest e) =
                rw (e, due, was, pop_expired) refl in
              subst (Turn q now) (sym called) (
                (tp, was, ground arith, not_after tp id rest e),
                popped-Kept tp id rest e,
                (registered-lt q id inv (λ w. cc), find-without_gone q inv id),
              )
        ]
  ]
