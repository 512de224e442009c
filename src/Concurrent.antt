-- ===== src/Concurrent.antt =====
-- The semaphore and the bounded queue: include/simlib/concurrent/semaphore.hh and bounded_queue.hh.
-- A semaphore is its value; a wait that would block gives none. The part of an operation that runs
-- under the mutex of `elems_` is one function, the posts at its end included.
use simlib.Common.{
  ℕ, zero, suc, List, [], ◌∷◌, ◌++◌, Option, none, some, Bool, true, false, if◌then◌else◌,
}
pub mod Clients
pub mod Workers

-- `sem_wait`, called again as long as it is interrupted
abbrev pub wait : ℕ → Option ℕ
wait zero = none
wait (suc value) = some value

-- `sem_trywait`
abbrev pub try_wait : ℕ → Bool × ℕ
try_wait zero = (false, zero)
try_wait (suc value) = (true, value)

abbrev pub post : ℕ → ℕ
post value = suc value

pub record BoundedQueue {ℓ} (Elem : Type ℓ) : Type ℓ where
  pub free_slots : ℕ
  pub queued_elems : ℕ
  pub elems : List Elem

-- An element, or that there is none for now, or that NoMoreElems is thrown.
pub data Popped {ℓ} (Elem : Type ℓ) : Type ℓ where
  popped : Elem → Popped Elem
  nothing_yet no_more_elems : Popped Elem

module _ {ℓ} {Elem : Type ℓ} where
  abbrev pub bounded_queue : ℕ → BoundedQueue Elem
  bounded_queue max_size = record { free_slots = max_size; queued_elems = 0; elems = [] }

  -- With the other elements, those behind the front.
  abbrev pub pop_elem : BoundedQueue Elem → Elem → List Elem → Elem × BoundedQueue Elem
  pop_elem q elem rest = (elem, record q { free_slots = post q.free_slots; elems = rest })

  -- Behind `queued_elems_.wait()`; none is std::nullopt.
  unfoldable pub extract_elem_opt : BoundedQueue Elem → Option Elem × BoundedQueue Elem
  extract_elem_opt q = elim q.elems [
    | elem ∷ rest ↦ let (x, q') = pop_elem q elem rest in (some x, q')
    | [] ↦ (none, record q { queued_elems = post q.queued_elems })
  ]

  unfoldable pub extract_elem : BoundedQueue Elem → Popped Elem × BoundedQueue Elem
  extract_elem q = elim q.elems [
    | elem ∷ rest ↦ let (x, q') = pop_elem q elem rest in (popped x, q')
    | [] ↦ (no_more_elems, record q { queued_elems = post q.queued_elems })
  ]

  -- Each whole operation, run with no other between its parts. Here none means that it blocks.
  unfoldable pub pop_opt : BoundedQueue Elem → Option (Option Elem × BoundedQueue Elem)
  unfolding extract_elem_opt
  pop_opt q = elim (wait q.queued_elems) [
    | none ↦ none
    | some value ↦ some (extract_elem_opt (record q { queued_elems = value }))
  ]

  unfoldable pub pop : BoundedQueue Elem → Option (Popped Elem × BoundedQueue Elem)
  unfolding extract_elem
  pop q = elim (wait q.queued_elems) [
    | none ↦ none
    | some value ↦ some (extract_elem (record q { queued_elems = value }))
  ]

  unfoldable pub try_pop : BoundedQueue Elem → Popped Elem × BoundedQueue Elem
  unfolding extract_elem
  try_pop q =
      let (waited, value) = try_wait q.queued_elems in
      if waited then extract_elem (record q { queued_elems = value }) else (nothing_yet, q)

  -- The part of push behind `free_slots_.wait()`.
  unfoldable pub enqueue : BoundedQueue Elem → Elem → BoundedQueue Elem
  enqueue q elem = record q { elems = q.elems ++ elem ∷ []; queued_elems = post q.queued_elems }

  unfoldable pub push : BoundedQueue Elem → Elem → Option (BoundedQueue Elem)
  unfolding enqueue
  push q elem = elim (wait q.free_slots) [
    | none ↦ none
    | some value ↦ some (enqueue (record q { free_slots = value }) elem)
  ]

  unfoldable pub signal_no_more_elems : BoundedQueue Elem → BoundedQueue Elem
  signal_no_more_elems q = record q { queued_elems = post q.queued_elems }

  unfoldable pub increment_queue_size : BoundedQueue Elem → ℕ → BoundedQueue Elem
  increment_queue_size q zero = q
  increment_queue_size q (suc times) =
      increment_queue_size (record q { free_slots = post q.free_slots }) times
