-- ===== src/Nfc/Tests.antt =====
-- NFC frames on concrete bytes.
use stark_one.Base.{◌+◌, true, false, List, ◌≡◌, some, [], ◌∷◌, ◌++◌, length, arith}
use stark_one.Err.{ok, io}
use stark_one.Nfc.Poll.{idle, init}
use stark_one.Nfc.Poll.Watch.{Call, IsValid, follow_all, watch, polled, redetected, watch_told}
use stark_one.Nfc.Frame.{data_frame, build, parse}
use stark_one.Nfc.Frame.RoundTrip.{parse-build}

-- SAMConfiguration, with two bytes of another frame behind it
parse-build_example :
    (length (build 20 (1 ∷ 0 ∷ 1 ∷ []) 32) ≡ 3 + 9)
    × (parse (build 20 (1 ∷ 0 ∷ 1 ∷ []) 32 ++ (0 ∷ 0 ∷ []))
        ≡ (ok, some (data_frame (212 ∷ 20 ∷ 1 ∷ 0 ∷ 1 ∷ []))))
parse-build_example = parse-build 20 (1 ∷ 0 ∷ 1 ∷ []) 32 (0 ∷ 0 ∷ []) (omega arith) (omega arith)

-- a tag comes, the reader fails three times and is found again
abbrev calls : List Call
calls =
    polled ok true (4 ∷ 1 ∷ 2 ∷ 3 ∷ []) 0
    ∷ polled io false [] 100
    ∷ polled io false [] 200
    ∷ polled io false [] 300
    ∷ redetected io 1300
    ∷ redetected ok 2300
    ∷ []

watch_told_example :
    (follow_all idle (watch init calls).1 ≡ some (watch init calls).0.state)
    × IsValid (watch init calls).0
watch_told_example = watch_told calls
