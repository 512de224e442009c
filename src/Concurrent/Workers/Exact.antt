-- ===== src/Concurrent/Workers/Exact.antt =====
-- JobProcessor: what its steps lead to, and how many there can be.
use simlib.Common.{
  ℕ, zero, suc, ◌+◌, ◌*◌, ◌<◌, ◌≡◌, refl, ap, List, [], ◌∷◌, ◌⊎◌, inl, inr, none, some, Bool, arith,
  length, length-append,
}
use simlib.Concurrent.{BoundedQueue, wait, enqueue, extract_elem_opt, signal_no_more_elems}
use simlib.Concurrent.Clients.Conserved.{extract_some, extract_none}
use simlib.Concurrent.Workers.{
  Main, producing, adding, working, JobProcessor, workers_no, Step, add_waits, add_enters,
  signals_no_more, worker_waits, worker_takes, worker_processes, worker_returns, Reach,
}
use simlib.Concurrent.Workers.Invariant.{count, left, reserved, signalled, Inv, Reach-Inv}

number_cases : (n : ℕ) → (n ≡ 0) ⊎ ((k : ℕ) × (n ≡ suc k))
number_cases zero = inl refl
number_cases (suc n) = inr (n, refl)

positive : (n : ℕ) → 0 < n → (m : ℕ) × (n ≡ suc m)
positive zero h = absurd (omega arith)
positive (suc n) h = (n, refl)

length-nil {ℓ} : {A : Type ℓ} (xs : List A) → length xs ≡ 0 → xs ≡ []
length-nil [] h = refl
length-nil (x ∷ xs) h = absurd (omega arith)

wait-positive : (n : ℕ) → 0 < n → (m : ℕ) × (wait n ≡ some m)
wait-positive zero h = absurd (omega arith)
wait-positive (suc n) h = (n, refl)

module _ {ℓ} {Job : Type ℓ} where
  -- What is still to be done: each step takes some of it away.
  abbrev work_left : Main Job → ℕ
  work_left (producing jobs) = 7 * length jobs + 3
  work_left (adding job jobs) = 7 * length jobs + 9
  work_left working = 0

  abbrev pub measure : JobProcessor Job → ℕ
  measure s =
      work_left s.main
      + (5 * length s.jobs.elems + (2 * s.waiting + (s.popping + 3 * length s.processing)))

  Step-measure : {s t : JobProcessor Job} → Step s t → measure t < measure s
  Step-measure {s} (add_waits job others value e w) = omega (arith, ap work_left e)
  Step-measure {s} (add_enters job others e) =
      unfold enqueue in omega (arith, ap work_left e, length-append s.jobs.elems (job ∷ []))
  Step-measure {s} (signals_no_more e) =
      unfold signal_no_more_elems in omega (arith, ap work_left e)
  Step-measure {s} (worker_waits others value e w) = omega (arith, e)
  Step-measure {s} (worker_takes others job jobs e x) =
      let (free, queued, elems) = extract_some s.jobs jobs job x in
      omega (arith, e, ap length elems)
  Step-measure {s} (worker_processes front back job e) =
      omega (arith, ap length e, length-append front (job ∷ back), length-append front back)
  Step-measure {s} (worker_returns others jobs e x) =
      let (free, queued, elems, elems') = extract_none s.jobs jobs x in
      omega (arith, e, ap length elems, ap length elems')

  List-cases : (xs : List Job) → (xs ≡ []) ⊎ ((x : Job) × (ys : List Job) × (xs ≡ x ∷ ys))
  List-cases [] = inl refl
  List-cases (x ∷ xs) = inr (x, xs, refl)

  Enabled : JobProcessor Job → Type ℓ
  Enabled s = (t : JobProcessor Job) × Step s t

  extract_cases :
      (q : BoundedQueue Job)
      → ((x : Job) × (q' : BoundedQueue Job) × (extract_elem_opt q ≡ (some x, q')))
        ⊎ ((q' : BoundedQueue Job) × (extract_elem_opt q ≡ (none, q')))
  unfolding extract_elem_opt
  extract_cases q = go q.free_slots q.queued_elems q.elems
    where
      go :
          (free queued : ℕ) (elems : List Job)
          → let q : BoundedQueue Job = record {
            free_slots = free;
            queued_elems = queued;
            elems = elems;
          } in
            ((x : Job) × (q' : BoundedQueue Job) × (extract_elem_opt q ≡ (some x, q')))
            ⊎ ((q' : BoundedQueue Job) × (extract_elem_opt q ≡ (none, q')))
      go free queued [] = inr (_, refl)
      go free queued (x ∷ xs) = inl (x, _, refl)

  worker_enters : (s : JobProcessor Job) (others : ℕ) → s.popping ≡ suc others → Enabled s
  unfolding Enabled
  worker_enters s others e = elim (extract_cases s.jobs) [
    | inl (x, q, taken) ↦ (_, worker_takes others x q e taken)
    | inr (q, nothing) ↦ (_, worker_returns others q e nothing)
  ]

  worker_starts : (s : JobProcessor Job) → 0 < s.waiting → 0 < s.jobs.queued_elems → Enabled s
  unfolding Enabled
  worker_starts s w q =
      let (value, waits) = wait-positive s.jobs.queued_elems q in
      let (others, e) = positive s.waiting w in (_, worker_waits others value e waits)

  -- Where all have returned, and nothing is left.
  pub record Complete (hardware : ℕ) (jobs : List Job) (s : JobProcessor Job) : Type ℓ where
    pub all_returned : s.returned ≡ workers_no hardware + 1
    pub each_once : (f : Job → Bool) → count f s.processed ≡ count f jobs

  complete :
      {m hw : ℕ} {all : List Job} (s : JobProcessor Job)
      → Inv m hw all s
      → s.main ≡ working
      → s.processing ≡ []
      → s.popping ≡ 0
      → s.waiting ≡ 0
      → Complete hw all s
  complete {m} {hw} s h main idle nobody resting = record {
    all_returned = returned;
    each_once = λ f.
        omega
          (arith, h.each f, ap (λ x. count f (left x)) main, ap (count f) idle, ap (count f) empty);
  }
    where
      returned : s.returned ≡ workers_no hw + 1
      returned = omega (arith, h.workers, ap signalled main, ap length idle, nobody, resting)

      empty : s.jobs.elems ≡ []
      empty = length-nil s.jobs.elems (omega (arith, h.closed, returned))

  -- The main thread, while no worker is past its wait.
  main_moves :
      {m hw : ℕ} {all : List Job} (s : JobProcessor Job)
      → Inv m hw all s
      → 0 < m
      → s.processing ≡ []
      → s.popping ≡ 0
      → Enabled s ⊎ Complete hw all s
  unfolding Enabled
  main_moves {m} {hw} {all} s h room idle nobody = by_main s.main refl
    where
      by_main : (x : Main Job) → s.main ≡ x → Enabled s ⊎ Complete hw all s
      by_main (producing []) e = inl (_, signals_no_more e)
      by_main (producing (job ∷ others)) e = elim (number_cases s.jobs.free_slots) [
        | inl full ↦ inl (
            worker_starts s
              (omega (arith, h.workers, h.closed, ap signalled e, ap length idle, nobody))
              (omega (arith, h.tokens, h.space, full, room, ap reserved e, ap signalled e, nobody)))
        | inr (value, free) ↦ inl (_, add_waits job others value e (rw free))
      ]
      by_main (adding job others) e = inl (_, add_enters job others e)
      by_main working e = elim (number_cases s.waiting) [
        | inl resting ↦ inr (complete s h e idle nobody resting)
        | inr (others, more) ↦
            inl (worker_starts s (omega arith) (omega (arith, h.tokens, ap signalled e, nobody)))
      ]

  progress :
      {m hw : ℕ} {all : List Job} (s : JobProcessor Job)
      → Inv m hw all s
      → 0 < m
      → Enabled s ⊎ Complete hw all s
  unfolding Enabled
  progress s h room = elim (List-cases s.processing) [
    | inr (job, others, e) ↦ inl (_, worker_processes [] others job e)
    | inl idle ↦ elim (number_cases s.popping) [
      | inr (others, e) ↦ inl (worker_enters s others e)
      | inl nobody ↦ main_moves s h room idle nobody
    ]
  ]

  -- However the threads of a JobProcessor interleave, with a queue of at least one slot: there is a
  -- step to take unless all workers, the main thread included, have returned, and then each job that
  -- produce_jobs added was processed exactly once. Each step lowers a measure, so every run ends there.
  pub Reach-exactly_once :
      {m hw : ℕ} {jobs : List Job} {s : JobProcessor Job}
      → Reach m hw jobs s
      → 0 < m
      → (((t : JobProcessor Job) × Step s t) ⊎ Complete hw jobs s)
        × ((t : JobProcessor Job) → Step s t → measure t < measure s)
  unfolding Enabled
  Reach-exactly_once {s = s} r room = (progress s (Reach-Inv r) room, λ t step. Step-measure step)
