-- ===== src/Input/Key/Tests.antt =====
-- One key on a concrete sample.
use stark_one.Base.{◌≤◌, ◌≡◌, ◌≢◌, true, false, [], ◌∷◌, arith}
use stark_one.Input.Key.{
  Timing, KeyState, released, elapsed, sampled, update_released, update_sampled, update_key,
}
use stark_one.Input.Key.Debounce.{Tracked, at_rest, sample, stable_since, update_key_debounced}

abbrev timing : Timing
timing = record { debounce_ms = 20; long_ms = 500; repeat_delay_ms = 400; repeat_interval_ms = 120 }

-- down at 10, still down at 18 and at 30
abbrev after_two : KeyState
after_two = (update_key 4 (update_key 4 released true 10 timing false).0 true 18 timing false).0

after_two-Tracked : Tracked 4 ((true, 18) ∷ (true, 10) ∷ []) after_two
after_two-Tracked = sample true 18 timing false (sample true 10 timing false at_rest)

abbrev gone_down : KeyState
gone_down = (update_key 4 after_two true 30 timing false).0

gone_down-changed : gone_down.pressed ≢ after_two.pressed
unfolding update_key update_sampled sampled update_released
gone_down-changed h = ground arith

update_key_debounced_example :
    (gone_down.pressed ≡ true)
    × (20 ≤ elapsed 30 (stable_since ((true, 30) ∷ (true, 18) ∷ (true, 10) ∷ [])))
update_key_debounced_example =
    update_key_debounced 4 ((true, 18) ∷ (true, 10) ∷ []) after_two true 30 timing false
      after_two-Tracked gone_down-changed
