-- ===== src/Ir/Sirc/Tests.antt =====
-- A frame of a Sony remote control.
use stark_one.Base.{◌≡◌, refl, some, arith}
use stark_one.Err.{ok}
use stark_one.Ir.{sirc12}
use stark_one.Ir.Sirc.{encode, decode}
use stark_one.Ir.Sirc.Reading.{twelve, sirc_frame, decode-encode_sirc}

decode-encode_sirc_example :
    ((encode (sirc_frame sirc12 1 21)).0 ≡ ok)
    × (decode (encode (sirc_frame sirc12 1 21)).1 ≡ some (sirc_frame sirc12 1 21))
decode-encode_sirc_example =
    decode-encode_sirc sirc12 1 21 (encode (sirc_frame sirc12 1 21)).1 twelve (omega arith)
      (omega arith)
      (record {
        same_length = refl;
        near = λ i. record { above = omega arith; below = omega arith };
      })
