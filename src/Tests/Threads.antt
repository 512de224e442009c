-- ===== src/Tests/Threads.antt =====
-- Short runs of threads over a bounded queue.
use simlib.Common.{ℕ, ◌+◌, ◌<◌, ◌≤◌, ◌≡◌, refl, [], ◌∷◌, ◌++◌, ◌⊎◌, none, some, arith}
use simlib.Concurrent.{BoundedQueue, enqueue, extract_elem_opt, signal_no_more_elems, pop_opt}
use simlib.Concurrent.Clients.{
  Clients, Reach, at_start, later, push_waits, push_enters, pop_waits, signals,
}
use simlib.Concurrent.Clients.Conserved.{first, Reach-fifo, Reach-no_more}
use simlib.Concurrent.Workers.{JobProcessor, producing, adding, workers_no}
use simlib.Concurrent.Workers
use simlib.Concurrent.Workers.Exact.{Complete, measure, Reach-exactly_once}

-- One thread pushed 7, another is about to pop, and the end is signalled.
abbrev busy : Clients ℕ
busy = record {
  queue = record { free_slots = 1; queued_elems = 1; elems = 7 ∷ [] };
  pushing = [];
  popping = 1;
  slots = 2;
  came_in = 7 ∷ [];
  came_out = [];
  signalled = 1;
  refused = 0;
}

busy-Reach : Reach 2 busy
unfolding enqueue signal_no_more_elems
busy-Reach =
    later (later (later (later at_start (push_waits 7 1 refl)) (push_enters [] [] 7 refl)) signals)
      (pop_waits 1 refl)

Reach-fifo_example :
    (1 + (0 + 1) ≡ 2) × (1 ≤ 2) × (busy.came_in ≡ busy.came_out ++ busy.queue.elems)
Reach-fifo_example = Reach-fifo busy-Reach

Reach-no_more_example :
    (0 < 1 → (extract_elem_opt busy.queue).0 ≡ none → 0 < 1)
    × (0 < 1
        → busy.popping ≡ 0
        → (q : BoundedQueue ℕ) × (pop_opt busy.queue ≡ some (first busy.queue.elems, q)))
Reach-no_more_example = Reach-no_more busy-Reach

-- A queue of one slot, two jobs and one more thread, as the first job is about to be added.
abbrev first_job : JobProcessor ℕ
first_job = record {
  jobs = record { free_slots = 0; queued_elems = 0; elems = [] };
  main = adding 4 (5 ∷ []);
  waiting = 1;
  popping = 0;
  returned = 0;
  processing = [];
  processed = [];
}

first_job-Reach : Workers.Reach 1 2 (4 ∷ 5 ∷ []) first_job
first_job-Reach = Workers.later Workers.at_start (Workers.add_waits 4 (5 ∷ []) 0 refl refl)

Reach-exactly_once_example :
    (((t : JobProcessor ℕ) × Workers.Step first_job t) ⊎ Complete 2 (4 ∷ 5 ∷ []) first_job)
    × ((t : JobProcessor ℕ) → Workers.Step first_job t → measure t < measure first_job)
Reach-exactly_once_example = Reach-exactly_once first_job-Reach (omega arith)
