-- ===== src/EventQueue.antt =====
-- src/event_queue.cc and include/simlib/event_queue.hh: the queue's tables and the parts of run. A
-- handler is a function object, which a number names here; what it does is a sequence of calls of
-- the queue's operations, in the child module `Steps`. Times are numbers of the clock's unit.
pub mod Table
pub mod Polls
pub mod Steps
pub mod Invariant
pub mod Calls
pub mod Expired
pub mod Compact
pub mod Kept
pub mod Reached
pub mod Runs
use simlib.Common.{
  ℕ, zero, suc, ◌+◌, ◌-◌, Bool, true, false, not, ◌&&◌, ◌||◌, List, [], ◌∷◌, ◌++◌, Option, none,
  some, ltb, if◌then◌else◌, length, get_elem?, take,
}
use simlib.EventQueue.Table.{find, emplace, erase, assign, insert, erase_value}

-- A set of flags.
pub record FileEvent : Type 0 where
  pub readable : Bool
  pub writeable : Bool
  pub closed : Bool

-- `pollfd::events` and `pollfd::revents`, flag by flag; `other` is any flag beside these.
pub record PollEvents : Type 0 where
  pub pollin : Bool
  pub pollout : Bool
  pub pollerr : Bool
  pub pollhup : Bool
  pub pollpri : Bool
  pub pollrdhup : Bool
  pub other : Bool

abbrev pub no_events : PollEvents
no_events = record {
  pollin = false;
  pollout = false;
  pollerr = false;
  pollhup = false;
  pollpri = false;
  pollrdhup = false;
  other = false;
}

-- `fd` is `none` for the -1 that deactivates the entry.
pub record Pollfd : Type 0 where
  pub fd : Option ℕ
  pub events : PollEvents
  pub revents : PollEvents

pub data Handler : Type 0 where
  timed_handler : (time handler : ℕ) → Handler
  file_handler : (handler : ℕ) (events : FileEvent) (poll_event_idx : ℕ) → Handler

pub record EventQueue : Type 0 where
  pub next_handler_id : ℕ
  pub handlers : List (ℕ × Handler)
  pub timed_handlers : List (ℕ × ℕ)
  pub poll_events : List Pollfd
  pub poll_events_idx_to_hid : List ℕ
  pub immediate_pause : Bool

-- The queue before the constructor adds the handler of its own file.
abbrev pub no_handlers : EventQueue
no_handlers = record {
  next_handler_id = 0;
  handlers = [];
  timed_handlers = [];
  poll_events = [];
  poll_events_idx_to_hid = [];
  immediate_pause = false;
}

abbrev pub are_there_file_file_handlers : EventQueue → Bool
are_there_file_file_handlers q = ltb (length q.timed_handlers) (length q.handlers)

abbrev pub pause_immediately : EventQueue → EventQueue
pause_immediately q = record q { immediate_pause = true }

-- The id of the new handler is `next_handler_id` as it was.
unfoldable pub add_time_handler_impl : EventQueue → ℕ → ℕ → EventQueue
unfolding emplace insert
add_time_handler_impl q tp handler =
    let handler_id = q.next_handler_id in
    record q {
      next_handler_id = handler_id + 1;
      handlers = emplace handler_id (timed_handler tp handler) q.handlers;
      timed_handlers = insert (tp, handler_id) q.timed_handlers;
    }

unfoldable pub add_time_handler : EventQueue → ℕ → ℕ → ℕ → EventQueue
unfolding add_time_handler_impl
add_time_handler q now tp handler = add_time_handler_impl q (if ltb tp now then now else tp) handler

unfoldable pub add_ready_handler : EventQueue → ℕ → ℕ → EventQueue
unfolding add_time_handler_impl
add_ready_handler q now handler = add_time_handler_impl q now handler

unfoldable pub file_events_to_poll_events : FileEvent → PollEvents
file_events_to_poll_events events = record no_events {
  pollin = events.readable;
  pollout = events.writeable;
}

unfoldable pub poll_events_to_file_events : PollEvents → FileEvent
poll_events_to_file_events events = record {
  readable = events.pollin;
  writeable = events.pollout;
  closed = events.pollerr || events.pollhup;
}

unfoldable pub add_file_handler : EventQueue → ℕ → FileEvent → ℕ → EventQueue
unfolding emplace file_events_to_poll_events
add_file_handler q fd events handler =
    let handler_id = q.next_handler_id in
    record q {
      next_handler_id = handler_id + 1;
      handlers = emplace handler_id (file_handler handler events (length q.poll_events)) q.handlers;
      poll_events_idx_to_hid = q.poll_events_idx_to_hid ++ handler_id ∷ [];
      poll_events =
          q.poll_events
          ++ record {
            fd = some fd;
            events = file_events_to_poll_events events;
            revents = no_events;
          }
            ∷ [];
    }

-- `EventQueue()`: the file's handler is the one that pauses the queue.
unfoldable pub new_queue : ℕ → ℕ → EventQueue
unfolding add_file_handler
new_queue immediate_pause_fd handler =
    add_file_handler no_handlers immediate_pause_fd
      (record { readable = true; writeable = false; closed = false }) handler

-- `poll_events_[idx].fd = -1;`
unfoldable pub deactivate : ℕ → List Pollfd → List Pollfd
deactivate i [] = []
deactivate zero (p ∷ ps) = record p { fd = none } ∷ ps
deactivate (suc i) (p ∷ ps) = p ∷ deactivate i ps

-- `none` where `handlers_.at` throws.
unfoldable pub remove_handler : EventQueue → ℕ → Option EventQueue
unfolding find erase erase_value deactivate
remove_handler q handler_id = elim (find q.handlers handler_id) [
  | none ↦ none
  | some (timed_handler time h) ↦ some (record q {
    timed_handlers = erase_value (time, handler_id) q.timed_handlers;
    handlers = erase handler_id q.handlers;
  })
  | some (file_handler h events idx) ↦ some (record q {
    poll_events = deactivate idx q.poll_events;
    handlers = erase handler_id q.handlers;
  })
]

-- A turn of the loop of process_timed_handlers: nothing has expired, or the handler to call with the
-- queue as it is then. `broken` is a failed assertion, or the wrong alternative of the variant.
pub data Popped : Type 0 where
  not_expired broken : Popped
  expired : (handler_id handler : ℕ) → EventQueue → Popped

unfoldable pub pop_expired : EventQueue → ℕ → Popped
unfolding find erase
pop_expired q now = elim q.timed_handlers [
  | [] ↦ not_expired
  | (tp, handler_id) ∷ rest ↦
      if ltb now tp then not_expired else elim (find q.handlers handler_id) [
        | some (timed_handler time h) ↦
            expired handler_id h
              (record q { timed_handlers = rest; handlers = erase handler_id q.handlers })
        | _ ↦ broken
      ]
]

-- The timeout of ppoll: `none` is the negative one, which waits without end.
unfoldable pub poll_timeout : EventQueue → ℕ → Option ℕ
poll_timeout q now = elim q.timed_handlers [
  | [] ↦ none
  | (first_expiration, _) ∷ _ ↦
      some (if ltb first_expiration now then 0 else first_expiration - now)
]

-- A write to an entry of a vector.
abbrev pub set_elem {ℓ} : {A : Type ℓ} → List A → ℕ → A → List A
set_elem [] i a = []
set_elem (x ∷ xs) zero a = a ∷ xs
set_elem (x ∷ xs) (suc i) a = x ∷ set_elem xs i a

-- "Move entry" of process_file_events, where new_idx and idx differ. `none` is an `at` or a `get`
-- that throws.
unfoldable pub move_entry : EventQueue → ℕ → ℕ → Option EventQueue
unfolding find assign deactivate
move_entry q new_idx idx = elim (get_elem? q.poll_events idx) [
  | none ↦ none
  | some entry ↦ elim (get_elem? q.poll_events_idx_to_hid idx) [
    | none ↦ none
    | some handler_id ↦ elim (find q.handlers handler_id) [
      | some (file_handler h events _) ↦ some (record q {
        poll_events = deactivate idx (set_elem q.poll_events new_idx entry);
        poll_events_idx_to_hid = set_elem q.poll_events_idx_to_hid new_idx handler_id;
        handlers = assign handler_id (file_handler h events new_idx) q.handlers;
      })
      | _ ↦ none
    ]
  ]
]

-- The handler that "Process event" calls for an entry; `none` is an `at` or a `get` that throws.
unfoldable pub handler_of : EventQueue → ℕ → Option (ℕ × ℕ)
unfolding find
handler_of q new_idx = elim (get_elem? q.poll_events_idx_to_hid new_idx) [
  | none ↦ none
  | some handler_id ↦ elim (find q.handlers handler_id) [
    | some (file_handler h events _) ↦ some (handler_id, h)
    | _ ↦ none
  ]
]

-- The two calls of `resize` behind the loop.
unfoldable pub resized : EventQueue → ℕ → EventQueue
resized q new_poll_events_size = record q {
  poll_events = take new_poll_events_size q.poll_events;
  poll_events_idx_to_hid = take new_poll_events_size q.poll_events_idx_to_hid;
}
