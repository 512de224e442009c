-- ===== src/EventQueue/Reached.antt =====
-- The states that the steps of src/event_queue.cc reach.
use simlib.Common.{
  ℕ, ◌+◌, ◌≤◌, ◌<◌, ◌≡◌, ◌≢◌, subst, true, false, List, Option, none, some, ◌==◌, ==_iff, length,
  arith, Bool-cases, Option-cases, inl, inr, All,
}
use simlib.EventQueue.Table.{find}
use simlib.EventQueue.Polls.{fd_at, lt-fd_at}
use simlib.EventQueue.Invariant.{Inv, Gone, Kept}
use simlib.EventQueue.Calls.{remove_handler-Kept, remove_handler-none}
use simlib.EventQueue.Expired.{Turn, pop_expired-Turn}
use simlib.EventQueue.Compact.{Dead, move_entry-Inv, resized-Inv, handler_of-registered}
use simlib.EventQueue.Kept.{
  add_time_handler-Kept, add_ready_handler-Kept, add_file_handler-Kept, paused-Kept, polled-Kept,
}
use simlib.EventQueue.Steps
use simlib.EventQueue.Steps.{
  State, Phase, idle, scanning, entered, Step, Run, here, silent, calls, SameFiles,
}
use simlib.EventQueue.{EventQueue, expired, move_entry, resized}

-- Where run is in the entries: those between the two indices poll nothing.
abbrev pub InPlace : EventQueue → Phase → Type 0
InPlace q idle = Unit
InPlace q (scanning idx new) = (new ≤ idx) × (idx ≤ length q.poll_events) × Dead q new idx
InPlace q (entered idx new) =
    (new ≤ idx) × (idx < length q.poll_events) × Dead q (new + 1) (idx + 1)

pub record Good (s : State) : Type 0 where
  pub inv : Inv s.queue
  pub place : InPlace s.queue s.phase

Kept-InPlace : (q q' : EventQueue) (p : Phase) → Kept q q' → InPlace q p → InPlace q' p
Kept-InPlace q q' idle k h = tt
Kept-InPlace q q' (scanning idx new) k (le, fit, dead) =
    (le, omega (arith, k.longer), λ i a b. k.dead i (omega arith) (dead i a b))
Kept-InPlace q q' (entered idx new) k (le, fit, dead) =
    (le, omega (arith, k.longer), λ i a b. k.dead i (omega arith) (dead i a b))

-- What a step leaves as it should be.
pub record StepKept (s t : State) : Type 0 where
  pub good : Good t
  pub gone : (id : ℕ) → Gone id s.queue → Gone id t.queue

Dead-last :
    (q : EventQueue) (i j : ℕ) → Dead q i j → fd_at q.poll_events j ≡ none → Dead q i (j + 1)
Dead-last q i j dead e k a b = elim (Bool-cases (k == j)) [
  | inl last ↦ rw ((==_iff k j).0 last) e
  | inr other ↦ dead k a (ground arith)
]

Dead-first :
    (q : EventQueue) (i j : ℕ) → Dead q (i + 1) j → fd_at q.poll_events i ≡ none → Dead q i j
Dead-first q i j dead e k a b = elim (Bool-cases (k == i)) [
  | inl first ↦ rw ((==_iff k i).0 first) e
  | inr other ↦ dead k (ground arith) b
]

module _ (s : State) (good : Good s) where
  abbrev q : EventQueue
  q = s.queue

  -- A call, in any phase.
  pub call-StepKept : (q' : EventQueue) → Kept q q' → StepKept s (record s { queue = q' })
  call-StepKept q' k = record {
    good = record { inv = k.inv; place = Kept-InPlace q q' s.phase k good.place };
    gone = k.gone;
  }

  -- A change of the phase alone.
  turn-StepKept : (p : Phase) → InPlace q p → StepKept s (record s { phase = p })
  turn-StepKept p place = record {
    good = record { inv = good.inv; place = place };
    gone = λ id g. g;
  }

  at_phase : (p : Phase) → s.phase ≡ p → InPlace q p
  at_phase p e = subst (InPlace q) e good.place

  moves-StepKept :
      (idx new fd : ℕ) (q' : EventQueue)
      → s.phase ≡ scanning idx new
      → new < idx
      → fd_at q.poll_events idx ≡ some fd
      → move_entry q new idx ≡ some q'
      → StepKept s (record { queue = q'; phase = entered idx new })
  moves-StepKept idx new fd q' e down live moved =
      let (le, fit, dead) = at_phase (scanning idx new) e in
      let (m, is, inv', fds, len, next, none_of) =
        move_entry-Inv q good.inv new idx fd down live dead in
      let same : m ≡ q' = cc in
      let emptied : Dead m (new + 1) (idx + 1) = λ k a b. elim (Bool-cases (k == idx)) [
        | inl last ↦ ground (arith, fds k)
        | inr other ↦ let d = dead k (omega arith) (ground arith) in ground (arith, fds k)
      ] in
      subst (λ w. StepKept s (record { queue = w; phase = entered idx new })) same
        (record {
          good = record {
            inv = inv';
            place = (le, omega (arith, len, lt-fd_at q.poll_events idx fd live), emptied);
          };
          gone = λ id (lt, none_before). (omega arith, none_of id none_before);
        })

  step-StepKept : {o : Option ℕ} {t : State} → Step s o t → StepKept s t
  unfolding resized
  step-StepKept (Steps.calls_add_time_handler now tp h) =
      call-StepKept _ (add_time_handler-Kept q good.inv now tp h)
  step-StepKept (Steps.calls_add_ready_handler now h) =
      call-StepKept _ (add_ready_handler-Kept q good.inv now h)
  step-StepKept (Steps.calls_add_file_handler fd events h) =
      call-StepKept _ (add_file_handler-Kept q good.inv fd events h)
  step-StepKept (Steps.calls_remove_handler id q' e) = elim (Option-cases (find q.handlers id)) [
    | inl none_of ↦ let wrong = remove_handler-none q good.inv id none_of in cc
    | inr (u, there) ↦
        let (r, is, k, _) = remove_handler-Kept q good.inv id (λ w. cc) in
        let same : r ≡ q' = cc in call-StepKept q' (subst (Kept q) same k)
  ]
  step-StepKept Steps.calls_pause_immediately = call-StepKept _ (paused-Kept q good.inv true)
  step-StepKept (Steps.expires now id h q' e) =
      let turn : Turn q now (expired id h q') =
        subst (Turn q now) e (pop_expired-Turn q good.inv now) in
      call-StepKept q' turn.1
  step-StepKept (Steps.polls ps e same) =
      let k = polled-Kept q good.inv ps same in
      record { good = record { inv = k.inv; place = tt }; gone = k.gone }
  step-StepKept (Steps.starts e) =
      turn-StepKept (scanning 0 0) (omega arith, omega arith, λ k a b. absurd (omega arith))
  step-StepKept (Steps.skips idx new e lt dead_here) =
      let (le, fit, dead) = at_phase (scanning idx new) e in
      turn-StepKept (scanning (idx + 1) new)
        (omega arith, omega arith, Dead-last q new idx dead dead_here)
  step-StepKept (Steps.stays idx fd e live) =
      turn-StepKept (entered idx idx)
        (omega arith, lt-fd_at q.poll_events idx fd live, λ k a b. absurd (omega arith))
  step-StepKept (Steps.moves idx new fd q' e down live moved) =
      moves-StepKept idx new fd q' e down live moved
  step-StepKept (Steps.passes idx new e) =
      let (le, fit, dead) = at_phase (entered idx new) e in
      turn-StepKept (scanning (idx + 1) (new + 1)) (omega arith, omega arith, dead)
  step-StepKept (Steps.drops idx new e dead_here) =
      let (le, fit, dead) = at_phase (entered idx new) e in
      turn-StepKept (scanning (idx + 1) new)
        (omega arith, omega arith, Dead-first q new (idx + 1) dead dead_here)
  step-StepKept (Steps.processes idx new fd id h e live of_entry) =
      let (le, fit, dead) = at_phase (entered idx new) e in
      turn-StepKept (scanning (idx + 1) (new + 1)) (omega arith, omega arith, dead)
  step-StepKept (Steps.resizes idx new e all) =
      let (le, fit, dead) = at_phase (scanning idx new) e in
      let cut = resized-Inv q new good.inv (λ k a b. dead k a (omega arith)) in
      record { good = record { inv = cut; place = tt }; gone = λ id g. g }
  step-StepKept Steps.leaves =
      let k = paused-Kept q good.inv false in
      record { good = record { inv = k.inv; place = tt }; gone = k.gone }

  -- Only a registered handler is called.
  called-registered : {id : ℕ} {t : State} → Step s (some id) t → find q.handlers id ≢ none
  called-registered (Steps.expires now id h q' e) none_of =
      let turn : Turn q now (expired id h q') =
        subst (Turn q now) e (pop_expired-Turn q good.inv now) in
      let (t, there, _, _) = turn.0 in cc
  called-registered (Steps.processes idx new fd id h e live of_entry) none_of =
      let (j, h', of_entry', there) = handler_of-registered q new fd good.inv live in
      let same : j ≡ id = cc in there (rw same none_of)

pub Run-Good : {s t : State} {ids : List ℕ} → Run s ids t → Good s → Good t
Run-Good (here s) g = g
Run-Good (silent st r) g = Run-Good r (step-StepKept _ g st).good
Run-Good (calls st r) g = Run-Good r (step-StepKept _ g st).good

-- A handler that is gone is not called.
pub Run-Gone :
    {s t : State} {ids : List ℕ} (id : ℕ)
    → Run s ids t
    → Good s
    → Gone id s.queue
    → All (λ j. j ≢ id) ids
Run-Gone id (here s) g away = tt
Run-Gone id (silent st r) g away =
    let k = step-StepKept _ g st in Run-Gone id r k.good (k.gone id away)
Run-Gone id (calls {id = j} st r) g away =
    let k = step-StepKept _ g st in
    ((λ same. called-registered _ g st (rw same away.1)), Run-Gone id r k.good (k.gone id away))
