-- ===== src/Nfc/Idle/Tests.antt =====
-- A reader that is pulled out.
use stark_one.Base.{◌≡◌, true, false, [], ◌∷◌}
use stark_one.Nfc.Idle.{idle_step}
use stark_one.Nfc.Idle.Misses.{Seen, after, expected, idle_step-expected}

abbrev seen : Seen
seen = (false, true) ∷ (true, true) ∷ (true, false) ∷ []

idle_step-expected_example : (idle_step (after seen) false true).1 ≡ expected ((false, true) ∷ seen)
idle_step-expected_example = idle_step-expected seen false true
