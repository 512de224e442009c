-- ===== src/Tests/Events.antt =====
-- A queue with one file and two timed handlers, in a run.
use simlib.Common.{◌≡◌, ◌≢◌, ◌≤◌, ◌<◌, refl, ℕ, true, false, [], ◌∷◌, some, none, All}
use simlib.EventQueue.Table.{find}
use simlib.EventQueue.Polls.{fd_at}
use simlib.EventQueue.Invariant.{Inv}
use simlib.EventQueue.Steps
use simlib.EventQueue.Steps.{State, Run, here, silent, calls, idle, scanning, entered}
use simlib.EventQueue.Reached.{InPlace}
use simlib.EventQueue.Runs.{start, Run-Inv, Run-removed, Run-expired, Run-accesses}
use simlib.EventQueue.{
  EventQueue, FileEvent, PollEvents, Handler, file_handler, no_events, deactivate, timed_handler,
  new_queue, add_time_handler, add_file_handler, remove_handler, pop_expired, expired, broken,
  move_entry, handler_of,
}

abbrev readable : FileEvent
readable = record { readable = true; writeable = false; closed = false }

-- Handler 1 is timed and handler 2 waits for the file 5.
abbrev loaded : EventQueue
loaded = add_file_handler (add_time_handler (new_queue 3 70) 10 20 71) 5 readable 72

abbrev at_work : State
at_work = record { queue = loaded; phase = idle }

abbrev loads : Run (start 3 70) [] at_work
loads =
    silent (Steps.calls_add_time_handler 10 20 71)
      (silent (Steps.calls_add_file_handler 5 readable 72) (here at_work))

abbrev reads : PollEvents
reads = record no_events { pollin = true }

abbrev own_handler : ℕ × Handler
own_handler = (0, file_handler 70 readable 0)

-- Without handler 2, whose entry stays with no file; and then without handler 1.
abbrev without_file : EventQueue
without_file = record {
  next_handler_id = 3;
  handlers = own_handler ∷ (1, timed_handler 20 71) ∷ [];
  timed_handlers = (20, 1) ∷ [];
  poll_events =
      record { fd = some 3; events = reads; revents = no_events }
      ∷ record { fd = none; events = reads; revents = no_events }
      ∷ [];
  poll_events_idx_to_hid = 0 ∷ 2 ∷ [];
  immediate_pause = false;
}

abbrev without_both : EventQueue
without_both = record without_file { handlers = own_handler ∷ []; timed_handlers = [] }

removes : remove_handler loaded 2 ≡ some without_file
unfolding remove_handler add_file_handler add_time_handler new_queue
removes = refl

expires_then : pop_expired without_file 25 ≡ expired 1 71 without_both
unfolding pop_expired
expires_then = refl

abbrev after_removal : State
after_removal = record { queue = without_file; phase = idle }

abbrev at_end : State
at_end = record { queue = without_both; phase = idle }

expires_later : Run after_removal (1 ∷ []) at_end
expires_later = calls (Steps.expires 25 1 71 without_both expires_then) (here at_end)

removed_at_work : Run (start 3 70) [] after_removal
removed_at_work = silent (Steps.calls_add_time_handler 10 20 71) (
    silent (Steps.calls_add_file_handler 5 readable 72)
      (silent (Steps.calls_remove_handler 2 without_file removes) (here after_removal)))

Run-Inv_example : Inv loaded × InPlace loaded idle
Run-Inv_example = Run-Inv 3 70 [] at_work loads

Run-removed_example : All (λ (j : ℕ). j ≢ 2) (1 ∷ [])
Run-removed_example =
    Run-removed 3 70 [] at_work loads 2 without_file (1 ∷ []) at_end removes expires_later

Run-expired_example :
    ((tp : ℕ) × (find without_file.handlers 1 ≡ some (timed_handler tp 71))
      × (tp ≤ 25)
      × ((u j g : ℕ) → find without_file.handlers j ≡ some (timed_handler u g) → tp ≤ u))
    × All (λ (j : ℕ). j ≢ 1) []
Run-expired_example =
    Run-expired 3 70 [] after_removal removed_at_work 25 1 71 without_both [] at_end expires_then
      (here at_end)

Run-accesses_example :
    ((now : ℕ) → pop_expired loaded now ≢ broken)
    × ((idx new fd' : ℕ)
        → idle ≡ scanning idx new
        → new < idx
        → fd_at loaded.poll_events idx ≡ some fd'
        → move_entry loaded new idx ≢ none)
    × ((idx fd' : ℕ) → fd_at loaded.poll_events idx ≡ some fd' → handler_of loaded idx ≢ none)
Run-accesses_example = Run-accesses 3 70 [] at_work loads

-- Handler 2's entry moves down over the one of a removed handler.
moves_down : move_entry (record loaded { poll_events = deactivate 0 loaded.poll_events }) 0 1 ≢ none
unfolding move_entry add_file_handler add_time_handler new_queue
moves_down e = cc
