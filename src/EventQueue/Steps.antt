-- ===== src/EventQueue/Steps.antt =====
-- run of src/event_queue.cc as steps. The handlers are the program's, so what a handler does is any
-- sequence of calls of the queue's operations, and the steps between which it runs are those of the
-- source. The kernel chooses what ppoll reports, and the clock the time of each look at it.
use simlib.Common.{ℕ, ◌+◌, ◌≤◌, ◌<◌, ◌≡◌, List, [], ◌∷◌, Option, none, some, false, length}
use simlib.EventQueue.Polls.{fd_at}
use simlib.EventQueue.{
  EventQueue, FileEvent, Pollfd, add_time_handler, add_ready_handler, add_file_handler,
  remove_handler, pause_immediately, pop_expired, expired, move_entry, handler_of, resized,
}

-- Where run is: `idle` outside of process_file_events, `scanning idx new` at the head of its loop, and
-- `entered idx new` where the entry of `idx` has been taken to `new` and is looked at.
pub data Phase : Type 0 where
  idle : Phase
  scanning : (idx new_poll_events_size : ℕ) → Phase
  entered : (idx new_idx : ℕ) → Phase

pub record State : Type 0 where
  pub queue : EventQueue
  pub phase : Phase

-- What ppoll leaves of the entries.
abbrev pub SameFiles : List Pollfd → List Pollfd → Type 0
SameFiles ps ps' = (length ps' ≡ length ps) × ((i : ℕ) → fd_at ps' i ≡ fd_at ps i)

-- A step, with the id of the handler that it calls.
pub data Step (s : State) : Option ℕ → State → Type 0 where
  calls_add_time_handler :
      (now tp h : ℕ) → Step s none (record s { queue = add_time_handler s.queue now tp h })
  calls_add_ready_handler :
      (now h : ℕ) → Step s none (record s { queue = add_ready_handler s.queue now h })
  calls_add_file_handler :
      (fd : ℕ) (events : FileEvent) (h : ℕ)
      → Step s none (record s { queue = add_file_handler s.queue fd events h })
  calls_remove_handler :
      (id : ℕ) (q' : EventQueue)
      → remove_handler s.queue id ≡ some q'
      → Step s none (record s { queue = q' })
  calls_pause_immediately : Step s none (record s { queue = pause_immediately s.queue })
  -- A turn of process_timed_handlers.
  expires :
      (now id h : ℕ) (q' : EventQueue)
      → pop_expired s.queue now ≡ expired id h q'
      → Step s (some id) (record s { queue = q' })
  -- ppoll, and the start of process_file_events.
  polls :
      (ps : List Pollfd)
      → s.phase ≡ idle
      → SameFiles s.queue.poll_events ps
      → Step s none (record { queue = record s.queue { poll_events = ps }; phase = idle })
  starts : s.phase ≡ idle → Step s none (record s { phase = scanning 0 0 })
  skips :
      (idx new : ℕ)
      → s.phase ≡ scanning idx new
      → idx < length s.queue.poll_events
      → fd_at s.queue.poll_events idx ≡ none
      → Step s none (record s { phase = scanning (idx + 1) new })
  stays :
      (idx fd : ℕ)
      → s.phase ≡ scanning idx idx
      → fd_at s.queue.poll_events idx ≡ some fd
      → Step s none (record s { phase = entered idx idx })
  moves :
      (idx new fd : ℕ) (q' : EventQueue)
      → s.phase ≡ scanning idx new
      → new < idx
      → fd_at s.queue.poll_events idx ≡ some fd
      → move_entry s.queue new idx ≡ some q'
      → Step s none (record { queue = q'; phase = entered idx new })
  -- There is no event of the entry, or one that is ignored.
  passes :
      (idx new : ℕ)
      → s.phase ≡ entered idx new
      → Step s none (record s { phase = scanning (idx + 1) (new + 1) })
  -- A timed handler removed the entry's handler.
  drops :
      (idx new : ℕ)
      → s.phase ≡ entered idx new
      → fd_at s.queue.poll_events new ≡ none
      → Step s none (record s { phase = scanning (idx + 1) new })
  processes :
      (idx new fd id h : ℕ)
      → s.phase ≡ entered idx new
      → fd_at s.queue.poll_events new ≡ some fd
      → handler_of s.queue new ≡ some (id, h)
      → Step s (some id) (record s { phase = scanning (idx + 1) (new + 1) })
  resizes :
      (idx new : ℕ)
      → s.phase ≡ scanning idx new
      → length s.queue.poll_events ≤ idx
      → Step s none (record { queue = resized s.queue new; phase = idle })
  -- run returns for a pause, or an exception leaves it; it may be called again.
  leaves : Step s none (record { queue = record s.queue { immediate_pause = false }; phase = idle })

-- A run, with the ids of the handlers in the order of their calls.
pub data Run : State → List ℕ → State → Type 0 where
  here : (s : State) → Run s [] s
  silent : {s t u : State} {ids : List ℕ} → Step s none t → Run t ids u → Run s ids u
  calls :
      {s t u : State} {id : ℕ} {ids : List ℕ}
      → Step s (some id) t
      → Run t ids u
      → Run s (id ∷ ids) u
