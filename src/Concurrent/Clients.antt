-- ===== src/Concurrent/Clients.antt =====
-- Any number of threads at one bounded queue, interleaved in any order. A thread that has waited at a
-- semaphore has still to take the mutex, and others run in between.
use simlib.Common.{ℕ, zero, suc, ◌+◌, ◌≡◌, List, [], ◌∷◌, ◌++◌, Option, none, some, true, false}
use simlib.Concurrent.{
  BoundedQueue, bounded_queue, wait, enqueue, extract_elem_opt, signal_no_more_elems,
  increment_queue_size,
}
pub mod Conserved

-- The threads behind `free_slots_.wait()`, by the elements they bring, and the number of those behind
-- `queued_elems_.wait()`. The rest is the history: what went in and what came out, in order, and how
-- often the end was signalled and seen.
pub record Clients {ℓ} (Elem : Type ℓ) : Type ℓ where
  pub queue : BoundedQueue Elem
  pub pushing : List Elem
  pub popping : ℕ
  pub slots : ℕ
  pub came_in : List Elem
  pub came_out : List Elem
  pub signalled : ℕ
  pub refused : ℕ

module _ {ℓ} {Elem : Type ℓ} where
  abbrev pub start : ℕ → Clients Elem
  start max_size = record {
    queue = bounded_queue max_size;
    pushing = [];
    popping = 0;
    slots = max_size;
    came_in = [];
    came_out = [];
    signalled = 0;
    refused = 0;
  }

  -- `pop` throws where `pop_opt` gives nothing, and else they are the same; `try_pop` waits only where
  -- it need not block, and is then like `pop`.
  pub data Step (s : Clients Elem) : Clients Elem → Type ℓ where
    push_waits :
        (elem : Elem) (value : ℕ)
        → wait s.queue.free_slots ≡ some value
        → Step s
            (record s { queue = record s.queue { free_slots = value }; pushing = elem ∷ s.pushing })
    push_enters :
        (front back : List Elem) (elem : Elem)
        → s.pushing ≡ front ++ elem ∷ back
        → Step s (record s {
          queue = enqueue s.queue elem;
          pushing = front ++ back;
          came_in = s.came_in ++ elem ∷ [];
        })
    pop_waits :
        (value : ℕ)
        → wait s.queue.queued_elems ≡ some value
        → Step s
            (record s { queue = record s.queue { queued_elems = value }; popping = suc s.popping })
    pop_enters :
        (others : ℕ) (elem : Elem) (queue : BoundedQueue Elem)
        → s.popping ≡ suc others
        → extract_elem_opt s.queue ≡ (some elem, queue)
        → Step s (record s { queue = queue; popping = others; came_out = s.came_out ++ elem ∷ [] })
    pop_refused :
        (others : ℕ) (queue : BoundedQueue Elem)
        → s.popping ≡ suc others
        → extract_elem_opt s.queue ≡ (none, queue)
        → Step s (record s { queue = queue; popping = others; refused = suc s.refused })
    signals :
        Step s (record s { queue = signal_no_more_elems s.queue; signalled = suc s.signalled })
    increments :
        (times : ℕ)
        → Step s (record s { queue = increment_queue_size s.queue times; slots = s.slots + times })

  pub data Reach (max_size : ℕ) : Clients Elem → Type ℓ where
    at_start : Reach max_size (start max_size)
    later : {s t : Clients Elem} → Reach max_size s → Step s t → Reach max_size t
