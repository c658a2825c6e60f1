-- ===== src/Input/Tests.antt =====
-- Keys on concrete samples.
use stark_one.Base.{
  ℕ, ◌≤◌, ◌≡◌, refl, Bool, true, false, some, List, [], ◌∷◌, length, replicate, take,
}
use stark_one.Input.{Core, default_timing, key_count, update}
use stark_one.Input.Key.{KeyState, released}
use stark_one.Input.Key.Grammar.{Phase, up, run, Fits}
use stark_one.Input.Samples.{Sample, track, track_accepted}
use stark_one.Input.Output.{update_discards}

abbrev at_ms : Bool → ℕ → Sample
at_ms raw now = record { raw = raw; now = now; quiet = false; t = default_timing }

-- OK pressed for 600 ms
abbrev held_ok : List Sample
held_ok = at_ms true 10 ∷ at_ms true 30 ∷ at_ms true 530 ∷ at_ms false 630 ∷ at_ms false 650 ∷ []

track_accepted_example :
    (q : Phase) × (run (up false) (track 4 released held_ok).1 ≡ some q)
    × Fits q (track 4 released held_ok).0
track_accepted_example = track_accepted 4 held_ok

abbrev going_down : KeyState
going_down = record released { raw = true; raw_since = 10 }

abbrev core : Core
core = record { keys = replicate 6 going_down; t = default_timing; chord = false }

update_discards_example :
    ((update core 63 30 3).0 ≡ (update core 63 30 13).0)
    × ((update core 63 30 3).1 ≡ take 3 (update core 63 30 13).1)
    × (length (update core 63 30 3).1 ≤ 13)
    × (length (update core 63 30 3).0.keys ≡ key_count)
update_discards_example = update_discards core 63 30 3 refl
