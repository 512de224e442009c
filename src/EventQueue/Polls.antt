-- ===== src/EventQueue/Polls.antt =====
-- The vectors poll_events_ and poll_events_idx_to_hid_ of include/simlib/event_queue.hh, by index.
use simlib.Common.{
  ℕ, zero, suc, ◌<◌, ◌≡◌, refl, List, [], ◌∷◌, ◌++◌, Option, none, some, ltb, ◌==◌, if◌then◌else◌,
  length, get_elem?, take, arith, ap,
}
use simlib.EventQueue.{Pollfd, deactivate, set_elem}

-- The file that is polled at an index, where there is one.
abbrev pub fd_at : List Pollfd → ℕ → Option ℕ
fd_at [] i = none
fd_at (p ∷ ps) zero = p.fd
fd_at (p ∷ ps) (suc i) = fd_at ps i

module _ {ℓ} {A : Type ℓ} where
  pub get_elem?-append :
      (xs : List A) (a : A) (i : ℕ)
      → get_elem? (xs ++ a ∷ []) i ≡ (if i == length xs then some a else get_elem? xs i)
  get_elem?-append [] a zero = ground arith
  get_elem?-append [] a (suc i) = ground arith
  get_elem?-append (x ∷ xs) a zero = ground arith
  get_elem?-append (x ∷ xs) a (suc i) = ground (arith, get_elem?-append xs a i)

  pub get_elem?-set_elem :
      (xs : List A) (j : ℕ) (a : A) (i : ℕ)
      → j < length xs
      → get_elem? (set_elem xs j a) i ≡ (if i == j then some a else get_elem? xs i)
  get_elem?-set_elem [] j a i h = absurd (omega arith)
  get_elem?-set_elem (x ∷ xs) zero a zero h = ground arith
  get_elem?-set_elem (x ∷ xs) zero a (suc i) h = ground arith
  get_elem?-set_elem (x ∷ xs) (suc j) a zero h = ground arith
  get_elem?-set_elem (x ∷ xs) (suc j) a (suc i) h =
      ground (arith, get_elem?-set_elem xs j a i (omega arith))

  pub get_elem?-take :
      (n : ℕ) (xs : List A) (i : ℕ)
      → get_elem? (take n xs) i ≡ (if ltb i n then get_elem? xs i else none)
  get_elem?-take zero xs i = ground arith
  get_elem?-take (suc n) [] i = ground arith
  get_elem?-take (suc n) (x ∷ xs) zero = ground arith
  get_elem?-take (suc n) (x ∷ xs) (suc i) = ground (arith, get_elem?-take n xs i)

  pub get_elem?-lt : (xs : List A) (i : ℕ) → i < length xs → (a : A) × (get_elem? xs i ≡ some a)
  get_elem?-lt [] i h = absurd (omega arith)
  get_elem?-lt (x ∷ xs) zero h = (x, refl)
  get_elem?-lt (x ∷ xs) (suc i) h = get_elem?-lt xs i (omega arith)

  pub lt-get_elem? : (xs : List A) (i : ℕ) (a : A) → get_elem? xs i ≡ some a → i < length xs
  lt-get_elem? [] i a h = cc
  lt-get_elem? (x ∷ xs) zero a h = omega arith
  lt-get_elem? (x ∷ xs) (suc i) a h = omega (arith, lt-get_elem? xs i a h)

  pub length-set_elem : (xs : List A) (j : ℕ) (a : A) → length (set_elem xs j a) ≡ length xs
  length-set_elem [] j a = refl
  length-set_elem (x ∷ xs) zero a = refl
  length-set_elem (x ∷ xs) (suc j) a = ap suc (length-set_elem xs j a)

pub fd_at-append :
    (ps : List Pollfd) (p : Pollfd) (i : ℕ)
    → fd_at (ps ++ p ∷ []) i ≡ (if i == length ps then p.fd else fd_at ps i)
fd_at-append [] p zero = ground arith
fd_at-append [] p (suc i) = ground arith
fd_at-append (x ∷ ps) p zero = ground arith
fd_at-append (x ∷ ps) p (suc i) = ground (arith, fd_at-append ps p i)

pub fd_at-deactivate :
    (j : ℕ) (ps : List Pollfd) (i : ℕ)
    → fd_at (deactivate j ps) i ≡ (if i == j then none else fd_at ps i)
unfolding deactivate
fd_at-deactivate j [] i = ground arith
fd_at-deactivate zero (p ∷ ps) zero = ground arith
fd_at-deactivate zero (p ∷ ps) (suc i) = ground arith
fd_at-deactivate (suc j) (p ∷ ps) zero = ground arith
fd_at-deactivate (suc j) (p ∷ ps) (suc i) = ground (arith, fd_at-deactivate j ps i)

pub fd_at-set_elem :
    (ps : List Pollfd) (j : ℕ) (p : Pollfd) (i : ℕ)
    → j < length ps
    → fd_at (set_elem ps j p) i ≡ (if i == j then p.fd else fd_at ps i)
fd_at-set_elem [] j p i h = absurd (omega arith)
fd_at-set_elem (x ∷ ps) zero p zero h = ground arith
fd_at-set_elem (x ∷ ps) zero p (suc i) h = ground arith
fd_at-set_elem (x ∷ ps) (suc j) p zero h = ground arith
fd_at-set_elem (x ∷ ps) (suc j) p (suc i) h = ground (arith, fd_at-set_elem ps j p i (omega arith))

pub fd_at-take :
    (n : ℕ) (ps : List Pollfd) (i : ℕ)
    → fd_at (take n ps) i ≡ (if ltb i n then fd_at ps i else none)
fd_at-take zero ps i = ground arith
fd_at-take (suc n) [] i = ground arith
fd_at-take (suc n) (p ∷ ps) zero = ground arith
fd_at-take (suc n) (p ∷ ps) (suc i) = ground (arith, fd_at-take n ps i)

pub fd_at-get_elem? :
    (ps : List Pollfd) (i : ℕ) (p : Pollfd) → get_elem? ps i ≡ some p → fd_at ps i ≡ p.fd
fd_at-get_elem? [] i p h = cc
fd_at-get_elem? (x ∷ ps) zero p h = cc
fd_at-get_elem? (x ∷ ps) (suc i) p h = fd_at-get_elem? ps i p h

pub lt-fd_at : (ps : List Pollfd) (i f : ℕ) → fd_at ps i ≡ some f → i < length ps
lt-fd_at [] i f h = cc
lt-fd_at (p ∷ ps) zero f h = omega arith
lt-fd_at (p ∷ ps) (suc i) f h = omega (arith, lt-fd_at ps i f h)

pub length-deactivate : (j : ℕ) (ps : List Pollfd) → length (deactivate j ps) ≡ length ps
unfolding deactivate
length-deactivate j [] = refl
length-deactivate zero (p ∷ ps) = refl
length-deactivate (suc j) (p ∷ ps) = ap suc (length-deactivate j ps)
