-- ===== src/EventQueue/Compact.antt =====
-- The moves of entries in process_file_events of src/event_queue.cc, and the resize behind them.
use simlib.Common.{
  ℕ, ◌≤◌, ◌<◌, ◌≡◌, ◌≢◌, refl, sym, ◌∙◌, ap, true, none, some, ltb, ltb→lt, ◌==◌, ==_iff,
  if◌then◌else◌, length, length-take, get_elem?, arith, Bool-cases, inl, inr,
}
use simlib.EventQueue.Table.{find, assign, find-assign, assign-IsMap}
use simlib.EventQueue.Polls.{
  fd_at, get_elem?-set_elem, get_elem?-take, fd_at-deactivate, fd_at-set_elem, fd_at-take,
  fd_at-get_elem?, lt-fd_at, length-deactivate, length-set_elem, get_elem?-lt,
}
use simlib.EventQueue.Invariant.{Inv}
use simlib.EventQueue.{
  EventQueue, Pollfd, file_handler, FileEvent, deactivate, set_elem, move_entry, handler_of,
  resized,
}

-- No entry from `i` on and before `j` polls a file.
abbrev pub Dead : EventQueue → ℕ → ℕ → Type 0
Dead q i j = (k : ℕ) → i ≤ k → k < j → fd_at q.poll_events k ≡ none

module _ (q : EventQueue) (inv : Inv q) (new idx f : ℕ) (down : new < idx)
    (live : fd_at q.poll_events idx ≡ some f) (dead : Dead q new idx) where
  module _ (entry : Pollfd) (id h : ℕ) (ev : FileEvent) (own : fd_at q.poll_events idx ≡ entry.fd)
      (at_idx : get_elem? q.poll_events_idx_to_hid idx ≡ some id)
      (found : find q.handlers id ≡ some (file_handler h ev idx)) where
    abbrev moved : EventQueue
    moved = record q {
      poll_events = deactivate idx (set_elem q.poll_events new entry);
      poll_events_idx_to_hid = set_elem q.poll_events_idx_to_hid new id;
      handlers = assign id (file_handler h ev new) q.handlers;
    }

    inside : idx < length q.poll_events
    inside = lt-fd_at q.poll_events idx f live

    fds :
        (i : ℕ)
        → fd_at moved.poll_events i
          ≡ (if i == idx then none else if i == new then some f else fd_at q.poll_events i)
    fds i =
        fd_at-deactivate idx (set_elem q.poll_events new entry) i
        ∙ ap (λ o. if i == idx then none else o)
            (fd_at-set_elem q.poll_events new entry i (omega (arith, inside))
              ∙ ap (λ o. if i == new then o else fd_at q.poll_events i) (sym own ∙ live))

    ids :
        (i : ℕ)
        → get_elem? moved.poll_events_idx_to_hid i
          ≡ (if i == new then some id else get_elem? q.poll_events_idx_to_hid i)
    ids i =
        get_elem?-set_elem q.poll_events_idx_to_hid new id i (omega (arith, inside, inv.aligned))

    finds :
        (j : ℕ)
        → find moved.handlers j
          ≡ (if j == id then some (file_handler h ev new) else find q.handlers j)
    finds j = find-assign q.handlers id (file_handler h ev new) j (λ e. cc)

    moved-Inv : Inv moved
    moved-Inv = record {
      aligned = omega (
        arith,
        length-deactivate idx (set_elem q.poll_events new entry),
        length-set_elem q.poll_events new entry,
        length-set_elem q.poll_events_idx_to_hid new id,
        inv.aligned,
      );
      map = assign-IsMap q.handlers id (file_handler h ev new) inv.map;
      fresh = λ j le. let none_of = inv.fresh j le in ground (arith, finds j);
      ascending = inv.ascending;
      distinct = inv.distinct;
      of_timed = λ t j there.
          let (h', e) = inv.of_timed t j there in
          let ne : j ≢ id = λ s. cc in (h', ground (arith, finds j));
      timed_of = λ t h' j e. elim (Bool-cases (j == id)) [
        | inl same ↦ ground (arith, finds j)
        | inr other ↦ inv.timed_of t h' j (ground (arith, finds j))
      ];
      of_polled = λ i g e. elim (Bool-cases (i == idx)) [
        | inl last ↦ ground (arith, fds i)
        | inr before ↦ elim (Bool-cases (i == new)) [
          | inl first ↦
              let ie = (==_iff i new).0 first in
              (id, h, ev, ground (arith, ids i), rw ie (ground (arith, finds id)))
          | inr other ↦
              let old : fd_at q.poll_events i ≡ some g = ground (arith, fds i) in
              let (j, h', ev', at, e') = inv.of_polled i g old in
              let ne : j ≢ id = λ s. let ie : i ≡ idx = cc in ground arith in
              (j, h', ev', ground (arith, ids i), ground (arith, finds j))
        ]
      ];
      polled_of = λ j h' ev' i e. elim (Bool-cases (j == id)) [
        | inl same ↦
            let now : some (file_handler h ev new) ≡ some (file_handler h' ev' i) =
              ground (arith, finds j) in
            let ie : new ≡ i = cc in
            let je = (==_iff j id).0 same in (f, ground (arith, fds i), ground (arith, ids i))
        | inr other ↦
            let old : find q.handlers j ≡ some (file_handler h' ev' i) = ground (arith, finds j) in
            let (g, at, e') = inv.polled_of j h' ev' i old in
            let below : i ≢ new = λ s. let d = dead new (omega arith) (omega arith) in cc in
            let ne : i ≢ idx = λ s. let je : j ≡ id = cc in ground arith in
            (g, ground (arith, fds i), ground (arith, ids i))
      ];
    }

  -- The accesses of a move succeed. The entry then polls at its new index, no other entry moves, and
  -- the same ids are registered.
  pub move_entry-Inv :
      (q' : EventQueue) × (move_entry q new idx ≡ some q')
      × Inv q'
      × ((i : ℕ)
          → fd_at q'.poll_events i
            ≡ (if i == idx then none else if i == new then some f else fd_at q.poll_events i))
      × (length q'.poll_events ≡ length q.poll_events)
      × (q'.next_handler_id ≡ q.next_handler_id)
      × ((j : ℕ) → find q.handlers j ≡ none → find q'.handlers j ≡ none)
  unfolding move_entry
  move_entry-Inv =
      let (id, h, ev, at_idx, found) = inv.of_polled idx f live in
      let (entry, got) = get_elem?-lt q.poll_events idx (lt-fd_at q.poll_events idx f live) in
      let own = fd_at-get_elem? q.poll_events idx entry got in
      (
        moved entry id h ev own at_idx found,
        rw (got, at_idx, found, move_entry) refl,
        moved-Inv entry id h ev own at_idx found,
        fds entry id h ev own at_idx found,
        length-deactivate idx (set_elem q.poll_events new entry)
            ∙ length-set_elem q.poll_events new entry,
        refl,
        λ j none_of. ground (arith, finds entry id h ev own at_idx found j),
      )

-- The handler of an entry that polls is registered, so the accesses before its call succeed.
pub handler_of-registered :
    (q : EventQueue) (i f : ℕ)
    → Inv q
    → fd_at q.poll_events i ≡ some f
    → (id h : ℕ) × (handler_of q i ≡ some (id, h)) × (find q.handlers id ≢ none)
unfolding handler_of
handler_of-registered q i f inv live =
    let (id, h, ev, at_idx, found) = inv.of_polled i f live in
    (id, h, rw (at_idx, found, handler_of) refl, λ e. cc)

-- The resize cuts off entries that poll nothing.
pub resized-Inv :
    (q : EventQueue) (n : ℕ) → Inv q → Dead q n (length q.poll_events) → Inv (resized q n)
unfolding resized
resized-Inv q n inv dead =
    let fds = fd_at-take n q.poll_events in
    let ids = get_elem?-take n q.poll_events_idx_to_hid in
    record {
      aligned =
          omega (
            arith,
            length-take n q.poll_events,
            length-take n q.poll_events_idx_to_hid,
            inv.aligned,
          );
      map = inv.map;
      fresh = inv.fresh;
      ascending = inv.ascending;
      distinct = inv.distinct;
      of_timed = inv.of_timed;
      timed_of = inv.timed_of;
      of_polled = λ i f e.
          let old : fd_at q.poll_events i ≡ some f = ground (arith, fds i) in
          let (id, h, ev, at, found) = inv.of_polled i f old in
          let kept : ltb i n ≡ true = ground (arith, fds i) in
          (id, h, ev, ids i ∙ rw kept at, found);
      polled_of = λ id h ev i e.
          let (f, at, found) = inv.polled_of id h ev i e in
          let inside = lt-fd_at q.poll_events i f at in
          let kept : i < n = elim (Bool-cases (ltb i n)) [
            | inl lt ↦ ltb→lt i n lt
            | inr ge ↦ let d = dead i (ground arith) inside in cc
          ] in
          (f, ground (arith, fds i), ground (arith, ids i));
    }
