-- ===== src/Concurrent/Workers/Invariant.antt =====
-- JobProcessor: the invariant of its steps.
use simlib.Common.{
  ℕ, ◌+◌, ◌≤◌, ◌≡◌, refl, ap, List, [], ◌∷◌, ◌++◌, ◌⊎◌, inl, inr, Bool, if◌then◌else◌, arith,
  length, length-append,
}
use simlib.Concurrent.{enqueue, signal_no_more_elems}
use simlib.Concurrent.Clients.Conserved.{wait-some, extract_some, extract_none}
use simlib.Concurrent.Workers.{
  Main, producing, adding, working, JobProcessor, workers_no, spawned, Step, add_waits, add_enters,
  signals_no_more, worker_waits, worker_takes, worker_processes, worker_returns, Reach, at_start,
  later,
}

-- How many elements pass a test.
abbrev pub count {ℓ} : {A : Type ℓ} → (A → Bool) → List A → ℕ
count f [] = 0
count f (x ∷ xs) = (if f x then 1 else 0) + count f xs

pub count-append {ℓ} :
    {A : Type ℓ} (f : A → Bool) (xs ys : List A) → count f (xs ++ ys) ≡ count f xs + count f ys
count-append f [] ys = omega arith
count-append f (x ∷ xs) ys = omega (arith, count-append f xs ys)

module _ {ℓ} {Job : Type ℓ} where
  abbrev pub left : Main Job → List Job
  left (producing jobs) = jobs
  left (adding job jobs) = job ∷ jobs
  left working = []

  abbrev pub reserved : Main Job → ℕ
  reserved (producing jobs) = 0
  reserved (adding job jobs) = 1
  reserved working = 0

  abbrev pub signalled : Main Job → ℕ
  signalled (producing jobs) = 0
  signalled (adding job jobs) = 0
  signalled working = 1

  signalled_le : (m : Main Job) → signalled m ≤ 1
  signalled_le (producing jobs) = omega arith
  signalled_le (adding job jobs) = omega arith
  signalled_le working = omega arith

  pub record Inv (max_size hardware : ℕ) (jobs : List Job) (s : JobProcessor Job) : Type ℓ where
    pub space : s.jobs.free_slots + (reserved s.main + length s.jobs.elems) ≡ max_size
    pub tokens : s.jobs.queued_elems + s.popping ≡ length s.jobs.elems + signalled s.main
    pub workers :
        s.waiting + (s.popping + (length s.processing + s.returned))
        ≡ workers_no hardware + signalled s.main
    pub each :
        (f : Job → Bool)
        → count f jobs
          ≡ count f (left s.main)
            + (count f s.jobs.elems + (count f s.processing + count f s.processed))
    pub closed : (s.returned ≡ 0) ⊎ ((signalled s.main ≡ 1) × (length s.jobs.elems ≡ 0))

  spawned-Inv :
      (max_size hardware : ℕ) (jobs : List Job)
      → Inv max_size hardware jobs (spawned max_size hardware jobs)
  spawned-Inv max_size hardware jobs = record {
    space = omega arith;
    tokens = refl;
    workers = omega arith;
    each = λ f. omega arith;
    closed = inl refl;
  }

  Step-Inv :
      {m hw : ℕ} {all : List Job} {s t : JobProcessor Job}
      → Step s t
      → Inv m hw all s
      → Inv m hw all t
  Step-Inv {s} (add_waits job others value e w) h = record {
    space = omega (arith, h.space, ap reserved e, wait-some _ _ w);
    tokens = omega (arith, h.tokens, ap signalled e);
    workers = omega (arith, h.workers, ap signalled e);
    each = λ f. omega (arith, h.each f, ap (λ x. count f (left x)) e);
    closed = inl (omega (arith, h.closed, ap signalled e));
  }
  Step-Inv {s} (add_enters job others e) h =
      unfold enqueue in
      record {
        space = omega (arith, h.space, ap reserved e, length-append s.jobs.elems (job ∷ []));
        tokens = omega (arith, h.tokens, ap signalled e, length-append s.jobs.elems (job ∷ []));
        workers = omega (arith, h.workers, ap signalled e);
        each = λ f.
            omega (
              arith,
              h.each f,
              ap (λ x. count f (left x)) e,
              count-append f s.jobs.elems (job ∷ []),
            );
        closed = inl (omega (arith, h.closed, ap signalled e));
      }
  Step-Inv {s} (signals_no_more e) h =
      unfold signal_no_more_elems in
      record {
        space = omega (arith, h.space, ap reserved e);
        tokens = omega (arith, h.tokens, ap signalled e);
        workers = omega (arith, h.workers, ap signalled e);
        each = λ f. omega (arith, h.each f, ap (λ x. count f (left x)) e);
        closed = inl (omega (arith, h.closed, ap signalled e));
      }
  Step-Inv {s} (worker_waits others value e w) h = record {
    space = h.space;
    tokens = omega (arith, h.tokens, wait-some _ _ w);
    workers = omega (arith, h.workers, e);
    each = h.each;
    closed = h.closed;
  }
  Step-Inv {s} (worker_takes others job jobs e x) h =
      let (free, queued, elems) = extract_some s.jobs jobs job x in
      record {
        space = omega (arith, h.space, free, ap length elems);
        tokens = omega (arith, h.tokens, queued, e, ap length elems);
        workers = omega (arith, h.workers, e);
        each = λ f. omega (arith, h.each f, ap (count f) elems);
        closed = inl (omega (arith, h.closed, ap length elems));
      }
  Step-Inv {s} (worker_processes front back job e) h = record {
    space = h.space;
    tokens = h.tokens;
    workers =
        omega (
          arith,
          h.workers,
          ap length e,
          length-append front (job ∷ back),
          length-append front back,
        );
    each = λ f. omega (
      arith,
      h.each f,
      ap (count f) e,
      count-append f front (job ∷ back),
      count-append f front back,
      count-append f s.processed (job ∷ []),
    );
    closed = h.closed;
  }
  Step-Inv {s} (worker_returns others jobs e x) h =
      let (free, queued, elems, elems') = extract_none s.jobs jobs x in
      record {
        space = omega (arith, h.space, free, ap length elems, ap length elems');
        tokens = omega (arith, h.tokens, queued, e, ap length elems, ap length elems');
        workers = omega (arith, h.workers, e);
        each = λ f. omega (arith, h.each f, ap (count f) elems, ap (count f) elems');
        closed =
            inr
              (omega (arith, h.tokens, e, ap length elems, signalled_le s.main), ap length elems');
      }

  pub Reach-Inv :
      {m hw : ℕ} {all : List Job} {s : JobProcessor Job} → Reach m hw all s → Inv m hw all s
  Reach-Inv {m} {hw} {all} at_start = spawned-Inv m hw all
  Reach-Inv (later r step) = Step-Inv step (Reach-Inv r)
