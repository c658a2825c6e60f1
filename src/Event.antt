-- ===== src/Event.antt =====
-- components/stark_event/stark_event_core.c: the event bus, a ring of events and a table of
-- subscribers. The lock is not a value of the model: a function's critical section is one step,
-- and what handlers and other tasks do on the bus between two sections is given by a `World`.
pub mod Queue
pub mod Publish
pub mod Ages
pub mod Dispatch
pub mod Quiet
mod Tests
use stark_one.Base.{
  ℕ, zero, suc, ◌+◌, ◌-◌, ◌%◌, ◌^◌, bit_and, Bool, true, false, ◌&&◌, ◌||◌, not, Option, none, some,
  List, [], ◌∷◌, ◌++◌, length, get_or, set, ltb, leb, ◌==◌, ◌!=◌, if◌then◌else◌, word, wrap,
}
use stark_one.Err.{Err, ok, invalid_arg, no_mem}

-- The union of `stark_event_t`; an `int32_t` is its bit pattern.
pub data Payload : Type 0 where
  empty : Payload
  key : ℕ → ℕ → ℕ → Payload
  app : ℕ → ℕ → Payload
  system : ℕ → ℕ → Payload

pub record Event : Type 0 where
  pub type : ℕ
  pub ts_us : ℕ
  pub payload : Payload

-- `fn` and `ctx` name a handler and its argument; they are only passed on.
pub record Sub : Type 0 where
  pub mask : ℕ
  pub fn : ℕ
  pub ctx : ℕ

-- `subs` is `subs[0 .. sub_count - 1]`.
pub record Bus : Type 0 where
  pub storage : List Event
  pub capacity : ℕ
  pub head : ℕ
  pub count : ℕ
  pub subs : List Sub
  pub dispatching : Bool
  pub published : ℕ
  pub dropped : ℕ
  pub max_depth : ℕ

-- STARK_EVENT_CORE_MAX_SUBS
abbrev pub max_subs : ℕ
max_subs = 8

-- STARK_EVT_TYPE_LAST
abbrev pub type_last : ℕ
type_last = 4

abbrev pub no_event : Event
no_event = record { type = 0; ts_us = 0; payload = empty }

unfoldable pub type_valid : ℕ → Bool
type_valid t = ltb 0 t && leb t type_last

-- `has_lock` says that both functions of the lock are given; `none` is STARK_ERR_INVALID_ARG.
pub init : Option (List Event) → ℕ → Bool → Option Bus
init none capacity has_lock = none
init (some storage) capacity has_lock =
    if capacity == 0 || not has_lock
    then none
    else some (record {
      storage = storage;
      capacity = capacity;
      head = 0;
      count = 0;
      subs = [];
      dispatching = false;
      published = 0;
      dropped = 0;
      max_depth = 0;
    })

-- The branch of `publish` for a full ring.
drop_oldest : Bus → Bus
drop_oldest b =
    if b.count == b.capacity
    then record b {
      head = wrap b.capacity b.head 1;
      count = b.count - 1;
      dropped = (b.dropped + 1) % word;
    }
    else b

-- `count` is below `capacity` here, so `count++` does not wrap.
append : Bus → Event → Bus
append b e = record b {
  storage = set b.storage (wrap b.capacity b.head b.count) e;
  count = b.count + 1;
  published = (b.published + 1) % word;
  max_depth = if ltb b.max_depth (b.count + 1) then (b.count + 1) % word else b.max_depth;
}

pub publish : Bus → Option Event → Err × Bus
unfolding drop_oldest append type_valid
publish b none = (invalid_arg, b)
publish b (some e) = if type_valid e.type then (ok, append (drop_oldest b) e) else (invalid_arg, b)

pub subscribe : Bus → ℕ → Option ℕ → ℕ → Err × Bus
subscribe b mask none ctx = (invalid_arg, b)
subscribe b mask (some fn) ctx =
    if mask == 0
    then (invalid_arg, b)
    else if ltb (length b.subs) max_subs
    then (ok, record b { subs = b.subs ++ (record { mask = mask; fn = fn; ctx = ctx } ∷ []) })
    else (no_mem, b)

-- What a handler, or another task, may do on the bus while `dispatch` runs. A nested `dispatch`
-- is not among the calls, since it leaves the bus as it is (`idle_stays`).
pub data Call : Type 0 where
  publishes : Option Event → Call
  subscribes : ℕ → Option ℕ → ℕ → Call

pub perform : Bus → List Call → Bus
perform b [] = b
perform b (publishes e ∷ cs) = perform (publish b e).1 cs
perform b (subscribes mask fn ctx ∷ cs) = perform (subscribe b mask fn ctx).1 cs

pub record Delivery : Type 0 where
  pub sub : Sub
  pub event : Event

-- The calls that a handler makes, and those of other tasks between two critical sections, by all
-- that was delivered before, the latest first.
pub record World : Type 0 where
  pub handler : List Delivery → Sub → Event → List Call
  pub elsewhere : List Delivery → List Call

-- A dispatch under way: `consumed` lists the events taken off the ring, oldest first.
pub record Run : Type 0 where
  pub bus : Bus
  pub log : List Delivery
  pub consumed : List Event
  pub delivered : ℕ

-- STARK_EVT_MASK, and the test of a subscriber's mask
abbrev pub hits : Event → Sub → Bool
hits e s = bit_and s.mask (2 ^ e.type % word) != 0

call_handler : World → Event → Sub → Bus × List Delivery → Bus × List Delivery
call_handler w e s (b, log) =
    if hits e s
    then (perform b (w.handler log s e), record { sub = s; event = e } ∷ log)
    else (b, log)

-- The `for` over the copy of the subscribers.
pub deliver : World → Event → List Sub → Bus × List Delivery → Bus × List Delivery
unfolding call_handler
deliver w e [] bl = bl
deliver w e (s ∷ ss) bl = deliver w e ss (call_handler w e s bl)

abbrev pub oldest : Bus → Event
oldest b = get_or b.storage b.head no_event

pub take_oldest : Bus → Bus
take_oldest b = record b { head = wrap b.capacity b.head 1; count = b.count - 1 }

-- One round of the `while`, for a bus that holds an event to deliver.
pub consume : World → Bus → Run → Run
unfolding take_oldest
consume w b r =
    let (b', log) = deliver w (oldest b) b.subs (take_oldest b, r.log) in
    record {
      bus = b';
      log = log;
      consumed = r.consumed ++ (oldest b ∷ []);
      delivered = r.delivered + 1;
    }

-- The events published since `start`, in `uint32_t`.
abbrev pub newer : Bus → ℕ → ℕ
newer b start = (b.published + word - start) % word

-- The `while`, by the rounds that `max_events` leaves.
pub loop : ℕ → World → ℕ → Run → Run
unfolding consume
loop zero w start r = r
loop (suc k) w start r =
    let b = perform r.bus (w.elsewhere r.log) in
    elim (ltb (newer b start) b.count) [
      | true ↦ loop k w start (consume w b r)
      | false ↦ record r { bus = b }
    ]

pub started : Bus → Run
started b = record { bus = record b { dispatching = true }; log = []; consumed = []; delivered = 0 }

pub finished : World → Run → Run
finished w r = record r { bus = record (perform r.bus (w.elsewhere r.log)) { dispatching = false } }

-- Returns the bus, what was delivered to whom, and the events consumed with their number.
pub dispatch : World → Bus → ℕ → Run
unfolding loop started finished
dispatch w b max_events =
    let idle : Run = record { bus = b; log = []; consumed = []; delivered = 0 } in
    let run = finished w (loop max_events w b.published (started b)) in
    if max_events == 0 then idle else if b.dispatching then idle else run
