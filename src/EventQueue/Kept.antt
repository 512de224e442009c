-- ===== src/EventQueue/Kept.antt =====
-- The operations that src/event_queue.cc and include/simlib/event_queue.hh offer, each as a change of the
-- queue's tables.
use simlib.Common.{
  ℕ, sym, ◌∙◌, Bool, List, [], ◌∷◌, some, ltb, if◌then◌else◌, length, length-append, arith,
}
use simlib.EventQueue.Polls.{fd_at-append}
use simlib.EventQueue.Invariant.{
  Inv, Kept, find-with_new-none, add_time_handler_impl-Inv, add_file_handler-Inv,
}
use simlib.EventQueue.Steps.{SameFiles}
use simlib.EventQueue.{
  EventQueue, FileEvent, Pollfd, timed_handler, file_handler, add_time_handler, add_ready_handler,
  add_time_handler_impl, add_file_handler, file_events_to_poll_events, no_events,
}

module _ (q : EventQueue) (inv : Inv q) where
  impl-Kept : (tp h : ℕ) → Kept q (add_time_handler_impl q tp h)
  unfolding add_time_handler_impl
  impl-Kept tp h = record {
    inv = add_time_handler_impl-Inv q inv tp h;
    longer = omega arith;
    dead = λ i lt e. e;
    gone = λ id (lt, e). (omega arith, find-with_new-none q inv (timed_handler tp h) id lt e);
  }

  pub add_time_handler-Kept : (now tp h : ℕ) → Kept q (add_time_handler q now tp h)
  unfolding add_time_handler
  add_time_handler-Kept now tp h = impl-Kept (if ltb tp now then now else tp) h

  pub add_ready_handler-Kept : (now h : ℕ) → Kept q (add_ready_handler q now h)
  unfolding add_ready_handler
  add_ready_handler-Kept now h = impl-Kept now h

  pub add_file_handler-Kept :
      (fd : ℕ) (events : FileEvent) (h : ℕ) → Kept q (add_file_handler q fd events h)
  unfolding add_file_handler
  add_file_handler-Kept fd events h =
      let new_poll : Pollfd = record {
        fd = some fd;
        events = file_events_to_poll_events events;
        revents = no_events;
      } in
      record {
        inv = add_file_handler-Inv q inv fd events h;
        longer = omega (arith, length-append q.poll_events (new_poll ∷ []));
        dead = λ i lt e. ground (arith, fd_at-append q.poll_events new_poll i);
        gone = λ id (lt, e). (
          omega arith,
          find-with_new-none q inv (file_handler h events (length q.poll_events)) id lt e,
        );
      }

  pub paused-Kept : (b : Bool) → Kept q (record q { immediate_pause = b })
  paused-Kept b = record {
    inv = record {
      aligned = inv.aligned;
      map = inv.map;
      fresh = inv.fresh;
      ascending = inv.ascending;
      distinct = inv.distinct;
      of_timed = inv.of_timed;
      timed_of = inv.timed_of;
      of_polled = inv.of_polled;
      polled_of = inv.polled_of;
    };
    longer = omega arith;
    dead = λ i lt e. e;
    gone = λ id g. g;
  }

  pub polled-Kept :
      (ps : List Pollfd) → SameFiles q.poll_events ps → Kept q (record q { poll_events = ps })
  polled-Kept ps (len, same) = record {
    inv = record {
      aligned = len ∙ inv.aligned;
      map = inv.map;
      fresh = inv.fresh;
      ascending = inv.ascending;
      distinct = inv.distinct;
      of_timed = inv.of_timed;
      timed_of = inv.timed_of;
      of_polled = λ i f e. inv.of_polled i f (sym (same i) ∙ e);
      polled_of =
          λ id h ev i e. let (f, at, found) = inv.polled_of id h ev i e in (f, same i ∙ at, found);
    };
    longer = omega arith;
    dead = λ i lt e. same i ∙ e;
    gone = λ id g. g;
  }
