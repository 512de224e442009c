-- ===== src/Concurrent/Workers.antt =====
-- JobProcessor (include/simlib/concurrent/job_processor.hh): one thread that produces the jobs and
-- then works like the others, over a bounded queue, interleaved in any order. The jobs that the
-- virtual produce_jobs adds, in their order, are a parameter; process_job is a step.
use Prim.Native.Nat.{max}
use simlib.Common.{
  ℕ, zero, suc, ◌+◌, ◌-◌, ◌*◌, ◌≡◌, List, [], ◌∷◌, ◌++◌, Option, none, some, Bool, if◌then◌else◌,
  length,
}
use simlib.Concurrent.{
  BoundedQueue, bounded_queue, wait, enqueue, extract_elem_opt, signal_no_more_elems,
}
pub mod Invariant
pub mod Exact

-- Where the main thread is: in produce_jobs, in add_job behind `free_slots_.wait()`, or in `worker`.
pub data Main {ℓ} (Job : Type ℓ) : Type ℓ where
  producing : List Job → Main Job
  adding : Job → List Job → Main Job
  working : Main Job

-- The workers are all alike: `waiting` of them are before `queued_elems_.wait()` and `popping` behind
-- it, one is in process_job for each job of `processing`, and `returned` have returned.
pub record JobProcessor {ℓ} (Job : Type ℓ) : Type ℓ where
  pub jobs : BoundedQueue Job
  pub main : Main Job
  pub waiting : ℕ
  pub popping : ℕ
  pub returned : ℕ
  pub processing : List Job
  pub processed : List Job

-- Of the argument, hardware_concurrency(), which may be 0, one is left to the main thread.
abbrev pub workers_no : ℕ → ℕ
workers_no hardware = max (hardware - 1) 1

module _ {ℓ} {Job : Type ℓ} where
  -- run(), once the workers are spawned.
  abbrev pub spawned : ℕ → ℕ → List Job → JobProcessor Job
  spawned max_size hardware jobs = record {
    jobs = bounded_queue max_size;
    main = producing jobs;
    waiting = workers_no hardware;
    popping = 0;
    returned = 0;
    processing = [];
    processed = [];
  }

  pub data Step (s : JobProcessor Job) : JobProcessor Job → Type ℓ where
    add_waits :
        (job : Job) (others : List Job) (value : ℕ)
        → s.main ≡ producing (job ∷ others)
        → wait s.jobs.free_slots ≡ some value
        → Step s
            (record s { jobs = record s.jobs { free_slots = value }; main = adding job others })
    add_enters :
        (job : Job) (others : List Job)
        → s.main ≡ adding job others
        → Step s (record s { jobs = enqueue s.jobs job; main = producing others })
    signals_no_more :
        s.main ≡ producing []
        → Step s (record s {
          jobs = signal_no_more_elems s.jobs;
          main = working;
          waiting = suc s.waiting;
        })
    worker_waits :
        (others value : ℕ)
        → s.waiting ≡ suc others
        → wait s.jobs.queued_elems ≡ some value
        → Step s (record s {
          jobs = record s.jobs { queued_elems = value };
          waiting = others;
          popping = suc s.popping;
        })
    worker_takes :
        (others : ℕ) (job : Job) (jobs : BoundedQueue Job)
        → s.popping ≡ suc others
        → extract_elem_opt s.jobs ≡ (some job, jobs)
        → Step s (record s { jobs = jobs; popping = others; processing = job ∷ s.processing })
    worker_processes :
        (front back : List Job) (job : Job)
        → s.processing ≡ front ++ job ∷ back
        → Step s (record s {
          waiting = suc s.waiting;
          processing = front ++ back;
          processed = s.processed ++ job ∷ [];
        })
    worker_returns :
        (others : ℕ) (jobs : BoundedQueue Job)
        → s.popping ≡ suc others
        → extract_elem_opt s.jobs ≡ (none, jobs)
        → Step s (record s { jobs = jobs; popping = others; returned = suc s.returned })

  pub data Reach (max_size hardware : ℕ) (jobs : List Job) : JobProcessor Job → Type ℓ where
    at_start : Reach max_size hardware jobs (spawned max_size hardware jobs)
    later :
        {s t : JobProcessor Job}
        → Reach max_size hardware jobs s
        → Step s t
        → Reach max_size hardware jobs t
