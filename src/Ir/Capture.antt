-- ===== src/Ir/Capture.antt =====
-- components/stark_ir/ir_capture.c: the ring of captures that wait for the UI.
pub mod Queue
mod Tests
use stark_one.Base.{
  ℕ, ◌+◌, ◌-◌, ◌%◌, false, Option, none, some, List, [], ◌∷◌, get_or, set, ◌==◌, if◌then◌else◌,
  word,
}
use stark_one.Ir.{Signal, Frame, unknown}

-- IR_CAPTURE_SLOTS
abbrev pub slots : ℕ
slots = 4

-- zeroed memory
abbrev pub no_signal : Signal
no_signal = record {
  timings = [];
  carrier_hz = 0;
  frame = record { protocol = unknown; address = 0; command = 0; repeat = false; toggle = 0 };
}

-- `ir_capture_t`
pub record Capture : Type 0 where
  pub slot : List Signal
  pub head : ℕ
  pub count : ℕ
  pub dropped : ℕ

-- `ir_capture_init`, of a ring in zeroed memory
pub init : Capture
init = record {
  slot = no_signal ∷ no_signal ∷ no_signal ∷ no_signal ∷ [];
  head = 0;
  count = 0;
  dropped = 0;
}

pub drop_oldest : Capture → Capture
drop_oldest r =
    if r.count == slots
    then record r {
      head = (r.head + 1) % slots;
      count = r.count - 1;
      dropped = (r.dropped + 1) % word;
    }
    else r

pub store : Capture → Signal → Capture
store r s = record r { slot = set r.slot ((r.head + r.count) % slots) s; count = r.count + 1 }

pub push : Capture → Signal → Capture
push r s = store (drop_oldest r) s

-- The oldest capture and the ring without it; `none` of an empty one.
pub take : Capture → Option (Signal × Capture)
take r =
    if r.count == 0
    then none
    else some (
      get_or r.slot r.head no_signal,
      record r { head = (r.head + 1) % slots; count = r.count - 1 },
    )
