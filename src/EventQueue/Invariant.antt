-- ===== src/EventQueue/Invariant.antt =====
-- What the tables of include/simlib/event_queue.hh say about each other.
use simlib.Common.{
  ℕ, ◌+◌, ◌≤◌, ◌<◌, ◌≡◌, ◌≢◌, refl, true, false, List, [], ◌∷◌, none, some, ltb, ltb→lt, ◌==◌,
  ==_iff, length, length-append, get_elem?, arith, Bool-cases, inl, inr, ◌⊎◌, &&-true,
}
use simlib.EventQueue.Table.{
  find, emplace, has_pair, same_pair, IsMap, IsAscending, IsDistinct, insert-IsDistinct,
  find-emplace, emplace-IsMap, has_pair-insert, insert-IsAscending,
}
use simlib.EventQueue.Polls.{fd_at, get_elem?-append, fd_at-append, lt-fd_at}
use simlib.EventQueue.{
  EventQueue, Handler, timed_handler, file_handler, FileEvent, Pollfd, no_handlers,
  add_time_handler_impl, add_file_handler, file_events_to_poll_events, no_events,
}

-- The entry at an index polls a file for the handler of an id.
abbrev pub Polls : EventQueue → ℕ → ℕ → Type 0
Polls q i id =
    (f : ℕ) × (fd_at q.poll_events i ≡ some f) × (get_elem? q.poll_events_idx_to_hid i ≡ some id)

pub record Inv (q : EventQueue) : Type 0 where
  pub aligned : length q.poll_events ≡ length q.poll_events_idx_to_hid
  pub map : IsMap q.handlers
  pub fresh : (id : ℕ) → q.next_handler_id ≤ id → find q.handlers id ≡ none
  pub ascending : IsAscending q.timed_handlers
  pub distinct : IsDistinct q.timed_handlers
  -- A timed handler is registered exactly where its expiration is in the set.
  pub of_timed :
      (t id : ℕ)
      → has_pair q.timed_handlers (t, id) ≡ true
      → (h : ℕ) × (find q.handlers id ≡ some (timed_handler t h))
  pub timed_of :
      (t h id : ℕ)
      → find q.handlers id ≡ some (timed_handler t h)
      → has_pair q.timed_handlers (t, id) ≡ true
  -- A file handler's index is the entry that polls for it, and each polled entry has a handler.
  pub of_polled :
      (i f : ℕ)
      → fd_at q.poll_events i ≡ some f
      → (id h : ℕ) × (e : FileEvent) × (get_elem? q.poll_events_idx_to_hid i ≡ some id)
        × (find q.handlers id ≡ some (file_handler h e i))
  pub polled_of :
      (id h : ℕ) (e : FileEvent) (i : ℕ)
      → find q.handlers id ≡ some (file_handler h e i)
      → Polls q i id

-- The id was given to a handler, which is registered no more.
abbrev pub Gone : ℕ → EventQueue → Type 0
Gone id q = (id < q.next_handler_id) × (find q.handlers id ≡ none)

-- How a call may change the queue: no inactive entry is activated, none is taken away, and no id
-- comes back.
pub record Kept (q q' : EventQueue) : Type 0 where
  pub inv : Inv q'
  pub longer : length q.poll_events ≤ length q'.poll_events
  pub dead :
      (i : ℕ)
      → i < length q.poll_events
      → fd_at q.poll_events i ≡ none
      → fd_at q'.poll_events i ≡ none
  pub gone : (id : ℕ) → Gone id q → Gone id q'

pub no_handlers-Inv : Inv no_handlers
unfolding find
no_handlers-Inv = record {
  aligned = refl;
  map = tt;
  fresh = λ id h. refl;
  ascending = tt;
  distinct = tt;
  of_timed = λ t id h. cc;
  timed_of = λ t h id e. cc;
  of_polled = λ i f e. cc;
  polled_of = λ id h e i f. cc;
}

pub registered-lt :
    (q : EventQueue) (id : ℕ) → Inv q → find q.handlers id ≢ none → id < q.next_handler_id
registered-lt q id inv there = elim (Bool-cases (ltb id q.next_handler_id)) [
  | inl lt ↦ ltb→lt id q.next_handler_id lt
  | inr ge ↦ absurd (there (inv.fresh id (ground arith)))
]

-- A new handler under the next id, in the table of handlers.
module _ (q : EventQueue) (inv : Inv q) (v : Handler) where
  abbrev pub with_new : List (ℕ × Handler)
  with_new = emplace q.next_handler_id v q.handlers

  absent : find q.handlers q.next_handler_id ≡ none
  absent = inv.fresh q.next_handler_id (omega arith)

  pub find-new : find with_new q.next_handler_id ≡ some v
  find-new = ground (arith, find-emplace q.handlers q.next_handler_id v q.next_handler_id absent)

  pub find-old : (id : ℕ) (u : Handler) → find q.handlers id ≡ some u → find with_new id ≡ some u
  find-old id u e = ground (arith, find-emplace q.handlers q.next_handler_id v id absent, absent)

  -- A registered handler is the new one or one from before.
  pub find-with_new :
      (id : ℕ) (u : Handler)
      → find with_new id ≡ some u
      → ((id ≡ q.next_handler_id) × (u ≡ v)) ⊎ (find q.handlers id ≡ some u)
  find-with_new id u e = elim (Bool-cases (id == q.next_handler_id)) [
    | inl new ↦ inl (
      (==_iff id q.next_handler_id).0 new,
      ground (arith, find-emplace q.handlers q.next_handler_id v id absent),
    )
    | inr old ↦ inr (ground (arith, find-emplace q.handlers q.next_handler_id v id absent))
  ]

  pub find-with_new-none :
      (id : ℕ) → id < q.next_handler_id → find q.handlers id ≡ none → find with_new id ≡ none
  find-with_new-none id lt e = ground (arith, find-emplace q.handlers q.next_handler_id v id absent)

  pub with_new-IsMap : IsMap with_new
  with_new-IsMap = emplace-IsMap q.handlers q.next_handler_id v absent inv.map

  pub with_new-fresh : (id : ℕ) → q.next_handler_id + 1 ≤ id → find with_new id ≡ none
  with_new-fresh id h =
      ground (arith, find-emplace q.handlers q.next_handler_id v id absent, inv.fresh id)

module _ (q : EventQueue) (inv : Inv q) where
  new_pair : (tp : ℕ) → has_pair q.timed_handlers (tp, q.next_handler_id) ≡ false
  new_pair tp = elim (Bool-cases (has_pair q.timed_handlers (tp, q.next_handler_id))) [
    | inl there ↦
        let (h, e) = inv.of_timed tp q.next_handler_id there in
        let none_of = inv.fresh q.next_handler_id (omega arith) in cc
    | inr absent_pair ↦ absent_pair
  ]

  pub add_time_handler_impl-Inv : (tp handler : ℕ) → Inv (add_time_handler_impl q tp handler)
  unfolding add_time_handler_impl
  add_time_handler_impl-Inv tp handler =
      let v = timed_handler tp handler in
      let pairs = has_pair-insert (tp, q.next_handler_id) q.timed_handlers in
      record {
        aligned = inv.aligned;
        map = with_new-IsMap q inv v;
        fresh = with_new-fresh q inv v;
        ascending = insert-IsAscending (tp, q.next_handler_id) q.timed_handlers inv.ascending;
        distinct =
            insert-IsDistinct (tp, q.next_handler_id) q.timed_handlers (new_pair tp) inv.distinct;
        of_timed = λ t id h. elim (Bool-cases (same_pair (t, id) (tp, q.next_handler_id))) [
          | inl new ↦
              let (at, ai) = &&-true (t == tp) (id == q.next_handler_id) new in
              let te : t ≡ tp = (==_iff t tp).0 at in
              let ie : id ≡ q.next_handler_id = (==_iff id q.next_handler_id).0 ai in
              (handler, rw (te, ie) (find-new q inv v))
          | inr old ↦
              let before : has_pair q.timed_handlers (t, id) ≡ true =
                ground (arith, pairs (t, id)) in
              let (h', e) = inv.of_timed t id before in
              (h', find-old q inv v id (timed_handler t h') e)
        ];
        timed_of = λ t h id e. elim (find-with_new q inv v id (timed_handler t h) e) [
          | inl (ie, same) ↦ let te : t ≡ tp = cc in ground (arith, pairs (t, id))
          | inr old ↦ ground (arith, pairs (t, id), inv.timed_of t h id old)
        ];
        of_polled = λ i f e.
            let (id, h, ev, at, found) = inv.of_polled i f e in
            (id, h, ev, at, find-old q inv v id (file_handler h ev i) found);
        polled_of = λ id h ev i e. elim (find-with_new q inv v id (file_handler h ev i) e) [
          | inl (_, wrong) ↦ cc
          | inr old ↦ inv.polled_of id h ev i old
        ];
      }

  pub add_file_handler-Inv :
      (fd : ℕ) (events : FileEvent) (handler : ℕ) → Inv (add_file_handler q fd events handler)
  unfolding add_file_handler
  add_file_handler-Inv fd events handler =
      let n = length q.poll_events in
      let v = file_handler handler events n in
      let new_poll : Pollfd = record {
        fd = some fd;
        events = file_events_to_poll_events events;
        revents = no_events;
      } in
      let fds = fd_at-append q.poll_events new_poll in
      let ids = get_elem?-append q.poll_events_idx_to_hid q.next_handler_id in
      record {
        aligned = omega (
          arith,
          length-append q.poll_events (new_poll ∷ []),
          length-append q.poll_events_idx_to_hid (q.next_handler_id ∷ []),
          inv.aligned,
        );
        map = with_new-IsMap q inv v;
        fresh = with_new-fresh q inv v;
        ascending = inv.ascending;
        distinct = inv.distinct;
        of_timed = λ t id h.
            let (h', e) = inv.of_timed t id h in (h', find-old q inv v id (timed_handler t h') e);
        timed_of = λ t h id e. elim (find-with_new q inv v id (timed_handler t h) e) [
          | inl (_, wrong) ↦ cc
          | inr old ↦ inv.timed_of t h id old
        ];
        of_polled = λ i f e. elim (Bool-cases (i == n)) [
          | inl new ↦
              let ie : i ≡ n = (==_iff i n).0 new in
              (
                q.next_handler_id,
                handler,
                events,
                ground (arith, ids i, inv.aligned),
                rw ie (find-new q inv v),
              )
          | inr old ↦
              let before : fd_at q.poll_events i ≡ some f = ground (arith, fds i) in
              let (id, h, ev, at, found) = inv.of_polled i f before in
              (
                id,
                h,
                ev,
                ground (arith, ids i, inv.aligned),
                find-old q inv v id (file_handler h ev i) found,
              )
        ];
        polled_of = λ id h ev i e. elim (find-with_new q inv v id (file_handler h ev i) e) [
          | inl (ie, same) ↦
              let at_n : i ≡ n = cc in
              (fd, ground (arith, fds i), ground (arith, ids i, inv.aligned))
          | inr old ↦
              let (f, at, found) = inv.polled_of id h ev i old in
              (
                f,
                ground (arith, fds i, lt-fd_at q.poll_events i f at),
                ground (arith, ids i, inv.aligned, lt-fd_at q.poll_events i f at),
              )
        ];
      }
