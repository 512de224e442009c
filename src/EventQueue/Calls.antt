-- ===== src/EventQueue/Calls.antt =====
-- remove_handler and the turn of process_timed_handlers of src/event_queue.cc: they leave the tables
-- in accord.
use simlib.Common.{
  ℕ, ◌≤◌, ◌<◌, ◌≡◌, ◌≢◌, refl, ◌∙◌, true, false, List, none, some, ◌==◌, ==_iff, arith, Bool-cases,
  Option-cases, inl, inr,
}
use simlib.EventQueue.Table.{
  find, erase, erase_value, has_pair, find-erase, erase-IsMap, has_pair-erase_value,
  erase_value-IsAscending, erase_value-IsDistinct,
}
use simlib.EventQueue.Polls.{fd_at, fd_at-deactivate, length-deactivate}
use simlib.EventQueue.Invariant.{Inv, Kept, Gone, registered-lt}
use simlib.EventQueue.{
  EventQueue, Handler, timed_handler, file_handler, FileEvent, remove_handler, deactivate,
}

module _ (q : EventQueue) (inv : Inv q) (gone : ℕ) where
  abbrev pub without : List (ℕ × Handler)
  without = erase gone q.handlers

  pub find-without_gone : find without gone ≡ none
  find-without_gone = ground (arith, find-erase q.handlers gone gone inv.map)

  -- What is still registered was, under another id.
  pub find-without :
      (id : ℕ) (u : Handler)
      → find without id ≡ some u
      → (id ≢ gone) × (find q.handlers id ≡ some u)
  find-without id u e = elim (Bool-cases (id == gone)) [
    | inl same ↦ ground (arith, find-erase q.handlers gone id inv.map)
    | inr other ↦ ((λ s. ground arith), ground (arith, find-erase q.handlers gone id inv.map))
  ]

  pub find-others :
      (id : ℕ) (u : Handler) → id ≢ gone → find q.handlers id ≡ some u → find without id ≡ some u
  find-others id u ne e = ground (arith, find-erase q.handlers gone id inv.map)

  pub without-fresh : (id : ℕ) → q.next_handler_id ≤ id → find without id ≡ none
  without-fresh id h = ground (arith, find-erase q.handlers gone id inv.map, inv.fresh id)

  abbrev timed_removed : ℕ → EventQueue
  timed_removed time = record q {
    timed_handlers = erase_value (time, gone) q.timed_handlers;
    handlers = without;
  }

  timed_removed-Inv :
      (time h : ℕ) → find q.handlers gone ≡ some (timed_handler time h) → Inv (timed_removed time)
  timed_removed-Inv time h was =
      let pairs = has_pair-erase_value (time, gone) q.timed_handlers in
      record {
        aligned = inv.aligned;
        map = erase-IsMap q.handlers gone inv.map;
        fresh = without-fresh;
        ascending = erase_value-IsAscending (time, gone) q.timed_handlers inv.ascending;
        distinct = erase_value-IsDistinct (time, gone) q.timed_handlers inv.distinct;
        of_timed = λ t id there.
            let before : has_pair q.timed_handlers (t, id) ≡ true = ground (arith, pairs (t, id)) in
            let (h', e) = inv.of_timed t id before in
            let ne : id ≢ gone = λ s. let te : t ≡ time = cc in ground (arith, pairs (t, id)) in
            (h', find-others id (timed_handler t h') ne e);
        timed_of = λ t h' id e.
            let (ne, old) = find-without id (timed_handler t h') e in
            ground (arith, pairs (t, id), inv.timed_of t h' id old);
        of_polled = λ i f e.
            let (id, h', ev, at, found) = inv.of_polled i f e in
            (id, h', ev, at, find-others id (file_handler h' ev i) (λ s. cc) found);
        polled_of =
            λ id h' ev i e. inv.polled_of id h' ev i (find-without id (file_handler h' ev i) e).1;
      }

  abbrev file_removed : ℕ → EventQueue
  file_removed idx = record q { poll_events = deactivate idx q.poll_events; handlers = without }

  file_removed-Inv :
      (h idx : ℕ) (ev : FileEvent)
      → find q.handlers gone ≡ some (file_handler h ev idx)
      → Inv (file_removed idx)
  file_removed-Inv h idx ev was =
      let fds = fd_at-deactivate idx q.poll_events in
      record {
        aligned = length-deactivate idx q.poll_events ∙ inv.aligned;
        map = erase-IsMap q.handlers gone inv.map;
        fresh = without-fresh;
        ascending = inv.ascending;
        distinct = inv.distinct;
        of_timed = λ t id there.
            let (h', e) = inv.of_timed t id there in
            (h', find-others id (timed_handler t h') (λ s. cc) e);
        timed_of = λ t h' id e. inv.timed_of t h' id (find-without id (timed_handler t h') e).1;
        of_polled = λ i f e.
            let before : fd_at q.poll_events i ≡ some f = ground (arith, fds i) in
            let (id, h', ev', at, found) = inv.of_polled i f before in
            let ne : id ≢ gone = λ s. let ie : i ≡ idx = cc in ground (arith, fds i) in
            (id, h', ev', at, find-others id (file_handler h' ev' i) ne found);
        polled_of = λ id h' ev' i e.
            let (ne, old) = find-without id (file_handler h' ev' i) e in
            let (f, at, found) = inv.polled_of id h' ev' i old in
            let own = inv.polled_of gone h ev idx was in
            let apart : (i == idx) ≡ false = elim (Bool-cases (i == idx)) [
              | inl same ↦ let ie = (==_iff i idx).0 same in absurd (ne cc)
              | inr other ↦ other
            ] in
            (f, ground (arith, fds i), found);
      }

  pub without-none : (id : ℕ) → find q.handlers id ≡ none → find without id ≡ none
  without-none id e = ground (arith, find-erase q.handlers gone id inv.map)

  timed_removed-Kept :
      (time h : ℕ)
      → find q.handlers gone ≡ some (timed_handler time h)
      → Kept q (timed_removed time)
  timed_removed-Kept time h was = record {
    inv = timed_removed-Inv time h was;
    longer = omega arith;
    dead = λ i lt e. e;
    gone = λ id (lt, e). (lt, without-none id e);
  }

  file_removed-Kept :
      (h idx : ℕ) (ev : FileEvent)
      → find q.handlers gone ≡ some (file_handler h ev idx)
      → Kept q (file_removed idx)
  file_removed-Kept h idx ev was = record {
    inv = file_removed-Inv h idx ev was;
    longer = omega (arith, length-deactivate idx q.poll_events);
    dead = λ i lt e. ground (arith, fd_at-deactivate idx q.poll_events i);
    gone = λ id (lt, e). (lt, without-none id e);
  }

  -- remove_handler succeeds for every registered id, which is gone from then on.
  pub remove_handler-Kept :
      find q.handlers gone ≢ none
      → (q' : EventQueue) × (remove_handler q gone ≡ some q') × Kept q q' × Gone gone q'
  unfolding remove_handler
  remove_handler-Kept registered =
      let away : (gone < q.next_handler_id) × (find without gone ≡ none) =
        (registered-lt q gone inv registered, find-without_gone) in
      elim (Option-cases (find q.handlers gone)) [
        | inl e ↦ absurd (registered e)
        | inr (timed_handler t h, e) ↦
            (timed_removed t, rw (e, remove_handler) refl, timed_removed-Kept t h e, away)
        | inr (file_handler h ev i, e) ↦
            (file_removed i, rw (e, remove_handler) refl, file_removed-Kept h i ev e, away)
      ]

  pub remove_handler-none : find q.handlers gone ≡ none → remove_handler q gone ≡ none
  unfolding remove_handler
  remove_handler-none e = rw (e, remove_handler) refl
