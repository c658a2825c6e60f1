-- ===== src/Ir/Tests.antt =====
-- Infrared frames and the transmit gate on concrete values.
use stark_one.Base.{ℕ, ◌≡◌, refl, inr, false, some, List, [], ◌∷◌, arith}
use stark_one.Err.{ok}
use stark_one.Ir.{Frame, Signal, necx}
use stark_one.Ir.Match.{Close}
use stark_one.Ir.Nec.{repeat_frame, encode, decode}
use stark_one.Ir.Nec.RoundTrip.{Fits, heard_as, decode-encode}
use stark_one.Ir.Nec.Sound.{Matches, decode-Matches}
use stark_one.Ir.Guard.{Plan, check}
use stark_one.Ir.Guard.Limits.{Allowed, Spaced, total, check_lem}

Close-self : (t : List ℕ) → Close t t
Close-self t = record {
  same_length = refl;
  near = λ i. record { above = omega arith; below = omega arith };
}

-- an extended address whose bytes are complements, 0x04 and 0xfb
abbrev disguised : Frame
disguised = record { protocol = necx; address = 0xfb04; command = 8; repeat = false; toggle = 1 }

disguised-Fits : Fits disguised
disguised-Fits = ground arith

decode-encode_example :
    ((encode disguised).0 ≡ ok) × (decode (encode disguised).1 ≡ some (heard_as disguised))
decode-encode_example =
    decode-encode disguised (encode disguised).1 (inr disguised-Fits)
      (Close-self (encode disguised).1)

decode-Matches_example :
    ((encode (heard_as disguised)).0 ≡ ok)
    × Matches (encode disguised).1 (encode (heard_as disguised)).1
decode-Matches_example =
    decode-Matches (encode disguised).1 (heard_as disguised) decode-encode_example.1

abbrev beep : Signal
beep = record { timings = 9000 ∷ 2250 ∷ 560 ∷ []; carrier_hz = 38000; frame = repeat_frame }

check_lem_example :
    (Allowed beep 3
      → (plan : Plan) × (check (some beep) 3 ≡ (ok, some plan))
        × Spaced (total beep.timings) 3 plan)
    × ((plan : Plan) → check (some beep) 3 ≡ (ok, some plan) → Allowed beep 3)
check_lem_example = check_lem beep 3 (omega arith)
