-- ===== src/Event/Tests.antt =====
-- The event bus on concrete rings.
use stark_one.Base.{
  word, ◌-◌, ℕ, ◌+◌, ◌%◌, ◌≤◌, ◌≡◌, refl, false, some, [], ◌∷◌, length, take, drop, arith, InOrder,
}
use stark_one.Err.{ok, invalid_arg}
use stark_one.Event.{
  Event, Sub, Bus, World, publishes, empty, type_valid, publish, dispatch, perform, deliver,
}
use stark_one.Event.Queue
use stark_one.Event.Publish.{IsValid, contents, publish_refines}
use stark_one.Event.Dispatch.{Bounded, dispatch_delivers}
use stark_one.Event.Quiet.{heard_all, logged, dispatch_quiet}

abbrev tick : ℕ → Event
tick t = record { type = 2; ts_us = t; payload = empty }

abbrev key_sub : Sub
key_sub = record { mask = 2; fn = 1; ctx = 0 }

abbrev tick_sub : Sub
tick_sub = record { mask = 4; fn = 2; ctx = 7 }

-- a full ring of three, gone round once
abbrev full_bus : Bus
full_bus = record {
  storage = tick 4 ∷ tick 2 ∷ tick 3 ∷ [];
  capacity = 3;
  head = 1;
  count = 3;
  subs = key_sub ∷ tick_sub ∷ [];
  dispatching = false;
  published = 4;
  dropped = 1;
  max_depth = 3;
}

-- handlers that publish another tick for each that they hear
abbrev echo : World
echo = record { handler = λ log s e. publishes (some (tick 9)) ∷ []; elsewhere = λ log. [] }

abbrev still : World
still = record { handler = λ log s e. []; elsewhere = λ log. [] }

full_bus-IsValid : IsValid full_bus
full_bus-IsValid = omega arith

publish_bad_type : publish full_bus (some (record (tick 1) { type = 5 })) ≡ (invalid_arg, full_bus)
unfolding publish
publish_bad_type = refl

-- The second echo pushes out the last of the events that were queued at first.
dispatch-echo : (dispatch echo full_bus 8).consumed ≡ tick 2 ∷ tick 3 ∷ tick 4 ∷ []
unfolding dispatch deliver perform publish
dispatch-echo = refl

publish_refines_example :
    let (r, b') = publish full_bus (some (tick 5)) in
    (r ≡ ok)
    × (contents b' ≡ Queue.push 3 (contents full_bus) (tick 5))
    × (b'.dropped ≡ (1 + 1) % word)
    × (b'.published ≡ (4 + 1) % word)
    × IsValid b'
unfolding type_valid
publish_refines_example = publish_refines full_bus (tick 5) full_bus-IsValid refl

echo-Bounded : Bounded echo 1
echo-Bounded = record { handled = λ log s e. omega arith; meanwhile = λ log. omega arith }

-- as the firmware calls it, with no limit to the events
dispatch_delivers_example :
    let r = dispatch echo full_bus (word - 1) in
    InOrder r.consumed (contents full_bus)
    × (r.delivered ≡ length r.consumed)
    × (r.delivered ≤ word - 1)
    × IsValid r.bus
    × (r.bus.dispatching ≡ false)
dispatch_delivers_example =
    dispatch_delivers echo 1 full_bus (word - 1) echo-Bounded (omega arith) full_bus-IsValid refl

dispatch_quiet_example :
    let r = dispatch still full_bus 2 in
    (r.consumed ≡ take 2 (contents full_bus))
    × (contents r.bus ≡ drop 2 (contents full_bus))
    × (r.log ≡ logged (heard_all (take 2 (contents full_bus)) full_bus.subs) [])
dispatch_quiet_example =
    dispatch_quiet still full_bus 2 (record { handles = λ log s e. refl; waits = λ log. refl })
      full_bus-IsValid refl
