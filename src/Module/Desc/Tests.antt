-- ===== src/Module/Desc/Tests.antt =====
-- Descriptors on concrete bytes.
use stark_one.Base.{ℕ, ◌≡◌, refl, some, List, [], ◌∷◌, ◌++◌, replicate, arith}
use stark_one.Module.Desc.{Desc, desc_ok, parse, crc16, all_are, fields_valid, name_valid}
use stark_one.Module.Desc.Valid.{IsName, Obeys, parse_validates}
use stark_one.Module.Desc.RoundTrip.{IsDesc, encode, parse-encode}

-- "NFC" in 18 bytes
abbrev pub nfc_name : List ℕ
nfc_name = 78 ∷ 70 ∷ 67 ∷ replicate 15 0

nfc_name-IsName : IsName nfc_name
nfc_name-IsName = record {
  first = 78;
  others = 70 ∷ 67 ∷ [];
  padding = replicate 15 0;
  layout = refl;
  printable = omega arith;
  not_space = omega arith;
  padded = omega arith;
}

nfc-IsDesc : IsDesc 5 1 4 nfc_name
nfc-IsDesc = record {
  id_pos = omega arith;
  id_in = omega arith;
  rev_in = omega arith;
  caps_in = omega arith;
  name_size = refl;
  name_ok = nfc_name-IsName;
}

parse-encode_example :
    parse (some (encode 5 1 4 nfc_name))
    ≡ (desc_ok, some (record { id = 5; rev = 1; caps = 4; name = nfc_name ++ (0 ∷ []) }))
parse-encode_example = parse-encode 5 1 4 nfc_name nfc-IsDesc

abbrev pub raw : List ℕ
raw = 83 ∷ 77 ∷ 1 ∷ 0 ∷ 5 ∷ 0 ∷ 1 ∷ 0 ∷ 4 ∷ 0 ∷ 0 ∷ 0 ∷ (nfc_name ++ (203 ∷ 0 ∷ []))

abbrev nfc_desc : Desc
nfc_desc = record { id = 5; rev = 1; caps = 4; name = nfc_name ++ (0 ∷ []) }

parse-raw : parse (some raw) ≡ (desc_ok, some nfc_desc)
unfolding parse crc16 all_are fields_valid name_valid
parse-raw = refl

parse_validates_example : Obeys raw nfc_desc
parse_validates_example = parse_validates raw nfc_desc (omega arith) parse-raw
