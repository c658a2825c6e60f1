-- ===== src/Module/Slot/Tests.antt =====
-- A polling round on a concrete slot.
use stark_one.Base.{◌+◌, ◌%◌, ◌≡◌, ◌⊎◌, refl, true, false, none, some, [], ◌∷◌, arith, word}
use stark_one.Err.{ok}
use stark_one.Module.Desc.Tests.{raw}
use stark_one.Module.Slot.{Slot, Reply, cleared, tick_slot}
use stark_one.Module.Slot.Invariant.{SlotOk, tick_slot-SlotOk}
use stark_one.Module.Slot.Debounce.{Polled, unpolled, polled, Reason, tick_slot_debounced}

-- a slot whose content was read once
abbrev pub read_once : Slot
read_once = record {
  e = cleared 0;
  wire = record { addr = 80; cs = some 3; irq0 = some 4; irq1 = none };
  owner = none;
  claimed = 0;
  gen = 0;
  misses = 0;
  read_errors = 0;
  valid = false;
  seen = true;
  accepted = false;
  seen_hash = 1086982752;
  accepted_hash = 0;
}

abbrev pub plugged : Reply
plugged = record { probe = ok; read = ok; raw = raw }

-- a slot before its first poll
abbrev new_slot : Slot
new_slot = record read_once { seen = false; seen_hash = 0 }

abbrev polled_once : Slot
polled_once = (tick_slot new_slot plugged).0

polled_once-Polled : Polled (plugged ∷ []) polled_once
polled_once-Polled = polled plugged (unpolled new_slot refl refl refl)

new_slot-SlotOk : SlotOk new_slot
new_slot-SlotOk = ground arith

tick_slot_debounced_example :
    (((tick_slot polled_once plugged).1 ≡ false)
      × ((tick_slot polled_once plugged).0.e ≡ polled_once.e)
      × ((tick_slot polled_once plugged).0.owner ≡ polled_once.owner)
      × ((tick_slot polled_once plugged).0.gen ≡ polled_once.gen))
    ⊎ (((tick_slot polled_once plugged).1 ≡ true)
        × ((tick_slot polled_once plugged).0.owner ≡ none)
        × ((tick_slot polled_once plugged).0.claimed ≡ 0)
        × ((tick_slot polled_once plugged).0.gen ≡ (polled_once.gen + 1) % word)
        × Reason (plugged ∷ []) polled_once plugged)
tick_slot_debounced_example =
    tick_slot_debounced (plugged ∷ []) polled_once plugged polled_once-Polled
      (tick_slot-SlotOk new_slot plugged new_slot-SlotOk)
