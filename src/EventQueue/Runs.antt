-- ===== src/EventQueue/Runs.antt =====
-- Runs of the queue of src/event_queue.cc from its construction on.
use simlib.Common.{ℕ, ◌≤◌, ◌<◌, ◌≡◌, ◌≢◌, List, none, some, All, Option-cases, inl, inr, subst}
use simlib.EventQueue.Table.{find}
use simlib.EventQueue.Polls.{fd_at}
use simlib.EventQueue.Invariant.{Inv, Kept, Gone, no_handlers-Inv, add_file_handler-Inv}
use simlib.EventQueue.Calls.{remove_handler-Kept, remove_handler-none}
use simlib.EventQueue.Expired.{Turn, pop_expired-Turn}
use simlib.EventQueue.Compact.{move_entry-Inv, handler_of-registered}
use simlib.EventQueue.Steps.{State, idle, scanning, Run}
use simlib.EventQueue.Reached.{InPlace, Good, Run-Good, Run-Gone, call-StepKept}
use simlib.EventQueue.{
  EventQueue, timed_handler, new_queue, remove_handler, pop_expired, expired, broken, move_entry,
  handler_of,
}

-- The queue as it is constructed.
abbrev pub start : ℕ → ℕ → State
start fd h = record { queue = new_queue fd h; phase = idle }

start-Good : (fd h : ℕ) → Good (start fd h)
unfolding new_queue
start-Good fd h = record { inv = add_file_handler-Inv _ no_handlers-Inv fd _ h; place = tt }

module _ (fd h : ℕ) (ids : List ℕ) (s : State) (r : Run (start fd h) ids s) where
  reached : Good s
  reached = Run-Good r (start-Good fd h)

  -- In every state that a queue reaches, whatever its handlers call and wherever in the compression of
  -- the polled files it is: expirations and timed handlers correspond, polled entries and file
  -- handlers correspond by the index, and no entry between the two indices polls a file.
  pub Run-Inv : Inv s.queue × InPlace s.queue s.phase
  Run-Inv = (reached.inv, reached.place)

  -- From the call of remove_handler on, the handler is never called again, also where it is removed
  -- in the middle of process_file_events.
  pub Run-removed :
      (id : ℕ) (q' : EventQueue) (later : List ℕ) (t : State)
      → remove_handler s.queue id ≡ some q'
      → Run (record s { queue = q' }) later t
      → All (λ j. j ≢ id) later
  Run-removed id q' later t e after = elim (Option-cases (find s.queue.handlers id)) [
    | inl none_of ↦ let wrong = remove_handler-none s.queue reached.inv id none_of in cc
    | inr (u, there) ↦
        let (r', is, k, away) = remove_handler-Kept s.queue reached.inv id (λ w. cc) in
        let same : r' ≡ q' = cc in
        let kept : Kept s.queue q' = subst (Kept s.queue) same k in
        let gone : Gone id q' = subst (Gone id) same away in
        Run-Gone id after (call-StepKept s reached q' kept).good gone
  ]

  -- process_timed_handlers calls a handler whose time has come and that no other timed handler is to
  -- precede, and never calls it again.
  pub Run-expired :
      (now id f : ℕ) (q' : EventQueue) (later : List ℕ) (t : State)
      → pop_expired s.queue now ≡ expired id f q'
      → Run (record s { queue = q' }) later t
      → ((tp : ℕ) × (find s.queue.handlers id ≡ some (timed_handler tp f))
          × (tp ≤ now)
          × ((u j g : ℕ) → find s.queue.handlers j ≡ some (timed_handler u g) → tp ≤ u))
        × All (λ j. j ≢ id) later
  Run-expired now id f q' later t e after =
      let turn : Turn s.queue now (expired id f q') =
        subst (Turn s.queue now) e (pop_expired-Turn s.queue reached.inv now) in
      let (tp, there, due, first) = turn.0 in
      (
        (tp, there, due, λ u j g other. first u j (reached.inv.timed_of u g j other)),
        Run-Gone id after (call-StepKept s reached q' turn.1).good turn.2,
      )

  -- No assertion of run fails, and no access that it takes to succeed throws: the expired handler is
  -- a registered timed one, an entry that polls can be moved, and its handler is there.
  pub Run-accesses :
      ((now : ℕ) → pop_expired s.queue now ≢ broken)
      × ((idx new fd' : ℕ)
          → s.phase ≡ scanning idx new
          → new < idx
          → fd_at s.queue.poll_events idx ≡ some fd'
          → move_entry s.queue new idx ≢ none)
      × ((idx fd' : ℕ) → fd_at s.queue.poll_events idx ≡ some fd' → handler_of s.queue idx ≢ none)
  Run-accesses = (
    λ now e. subst (Turn s.queue now) e (pop_expired-Turn s.queue reached.inv now),
    λ idx new fd' e down live none_of.
        let (le, fit, dead) = subst (InPlace s.queue) e reached.place in
        let (m, is, _, _, _, _, _) =
          move_entry-Inv s.queue reached.inv new idx fd' down live dead in
        cc,
    λ idx fd' live none_of.
        let (id, g, is, there) = handler_of-registered s.queue idx fd' reached.inv live in cc,
  )
