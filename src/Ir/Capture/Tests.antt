-- ===== src/Ir/Capture/Tests.antt =====
-- A capture put into an empty ring.
use stark_one.Base.{◌%◌, ◌+◌, ◌≡◌, ◌⊎◌, none, some, [], ◌∷◌, length, ◌==◌, if◌then◌else◌, word}
use stark_one.Ir.{Signal}
use stark_one.Ir.Capture.{slots, no_signal, Capture, init, push, take}
use stark_one.Ir.Capture.Queue.{IsValid, contents, pushed, init-IsValid, capture_refines}

capture_refines_example :
    IsValid (push init no_signal)
    × (contents (push init no_signal) ≡ pushed (contents init) no_signal)
    × ((push init no_signal).dropped
        ≡ (if length (contents init) == slots then (init.dropped + 1) % word else init.dropped))
    × ((take init ≡ none) × (contents init ≡ [])
        ⊎ ((x : Signal) × (r' : Capture) × (take init ≡ some (x, r'))
            × (contents init ≡ x ∷ contents r')
            × IsValid r'))
capture_refines_example = capture_refines init no_signal init-IsValid
