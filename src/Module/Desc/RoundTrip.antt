-- ===== src/Module/Desc/RoundTrip.antt =====
-- docs/module-format.md as an encoder, which the firmware does not have: what it writes, the
-- firmware reads back.
use stark_one.Base.{
  ℕ, ◌*◌, ◌/◌, ◌%◌, ◌^◌, ◌≤◌, ◌<◌, ◌≡◌, refl, sym, ap, ap₂, ◌∙◌, bit_or, true, false, some, List,
  [], ◌∷◌, ◌++◌, length, length-append, get_or, get_or-append, take, take-append, take_all, arith,
  word,
}
use stark_one.Base.Bits.{bit_or_high}
use stark_one.Module.Desc.{
  desc_ok, crc16, crc_from, all_are, scan_text, name_valid, fields_valid, byte, le16, le32,
  name_bytes, parse, desc_size, crc_offset,
}
use stark_one.Module.Desc.Valid.{le32_sum, IsName, Printable, Zeros}

pub record IsDesc (id rev caps : ℕ) (name : List ℕ) : Type 0 where
  pub id_pos : 0 < id
  pub id_in : id < 0xffff
  pub rev_in : rev < 256
  pub caps_in : caps < word
  pub name_size : length name ≡ 18
  pub name_ok : IsName name

-- bytes 0 to 11
abbrev fixed_part : ℕ → ℕ → ℕ → List ℕ
fixed_part id rev caps =
    0x53
    ∷ 0x4d
    ∷ 1
    ∷ 0
    ∷ (id % 256)
    ∷ (id / 256)
    ∷ rev
    ∷ 0
    ∷ (caps % 256)
    ∷ (caps / 256 % 256)
    ∷ (caps / 65536 % 256)
    ∷ (caps / 16777216)
    ∷ []

-- bytes 0 to 29
abbrev body : ℕ → ℕ → ℕ → List ℕ → List ℕ
body id rev caps name = fixed_part id rev caps ++ name

pub encode : ℕ → ℕ → ℕ → List ℕ → List ℕ
encode id rev caps name =
    let crc = crc16 (body id rev caps name) in
    fixed_part id rev caps ++ (name ++ ((crc % 256) ∷ (crc / 256) ∷ []))

Zeros-all_are : (l : List ℕ) → Zeros l → all_are 0 l ≡ true
unfolding all_are
Zeros-all_are [] z = refl
Zeros-all_are (x ∷ l) z = ground (arith, Zeros-all_are l)

scan_text-Zeros : (l : List ℕ) → Zeros l → scan_text l ≡ some (0, l)
unfolding scan_text
scan_text-Zeros [] z = refl
scan_text-Zeros (x ∷ l) z = ground arith

scan_text-Printable :
    (text rest : List ℕ)
    → Printable text
    → Zeros rest
    → scan_text (text ++ rest) ≡ some (length text, rest)
unfolding scan_text
scan_text-Printable [] rest p z = scan_text-Zeros rest z
scan_text-Printable (c ∷ cs) rest p z = ground (arith, scan_text-Printable cs rest p.2 z)

IsName-name_valid : (n : List ℕ) → IsName n → name_valid n ≡ true
unfolding name_valid
IsName-name_valid n h =
    let e =
      ap scan_text h.layout
      ∙ scan_text-Printable (h.first ∷ h.others) h.padding h.printable h.padded in
    let f = ap (λ (l : List ℕ). get_or l 0 0) h.layout in
    ground (arith, e, f, Zeros-all_are h.padding h.padded)

crc_from-lt : (l : List ℕ) (crc : ℕ) → crc < 65536 → crc_from crc l < 65536
unfolding crc_from
crc_from-lt [] crc h = h
crc_from-lt (b ∷ l) crc h = crc_from-lt l _ (omega arith)

crc16-lt : (l : List ℕ) → crc16 l < 65536
unfolding crc16
crc16-lt l = crc_from-lt l 0xffff (omega arith)

accepted :
    (raw : List ℕ)
    → 32 ≤ length raw
    → all_are 0xff (take desc_size raw) ≡ false
    → byte raw 0 ≡ 0x53
    → byte raw 1 ≡ 0x4d
    → byte raw 2 ≡ 1
    → crc16 (take crc_offset raw) ≡ le16 raw 30
    → fields_valid raw ≡ true
    → parse (some raw) ≡ (
      desc_ok,
      some (record {
        id = le16 raw 4;
        rev = byte raw 6;
        caps = le32 raw 8;
        name = name_bytes raw ++ (0 ∷ []);
      }),
    )
unfolding parse
accepted raw l b m0 m1 m2 c f = ground arith

module _ (id rev caps : ℕ) (name : List ℕ) (v : IsDesc id rev caps name) where
  raw : List ℕ
  raw = encode id rev caps name

  le16_id : le16 raw 4 ≡ id
  unfolding raw encode
  le16_id = bit_or_high 8 (id % 256) (id / 256) (omega arith) ∙ omega arith

  le32_caps : le32 raw 8 ≡ caps
  unfolding raw encode
  le32_caps =
      le32_sum (caps % 256) (caps / 256 % 256) (caps / 65536 % 256) (caps / 16777216) (omega arith)
        (omega arith) (omega arith)
      ∙ omega arith

  crc_stored : le16 raw 30 ≡ crc16 (body id rev caps name)
  unfolding raw encode
  crc_stored =
      let crc = crc16 (body id rev caps name) in
      let post : List ℕ = (crc % 256) ∷ (crc / 256) ∷ [] in
      ap₂ (λ a b. bit_or a (b * 2 ^ 8)) (get_or-append name post 0 18 0 v.name_size)
        (get_or-append name post 1 18 0 v.name_size)
      ∙ bit_or_high 8 (crc % 256) (crc / 256) (omega arith)
      ∙ omega arith

  name_kept : (post : List ℕ) → take 18 (name ++ post) ≡ name
  name_kept post =
      take-append 18 name post (omega (arith, v.name_size))
      ∙ take_all 18 name (omega (arith, v.name_size))

  name_read : name_bytes raw ≡ name
  unfolding raw encode
  name_read = name_kept _

  body_read : take crc_offset raw ≡ body id rev caps name
  unfolding raw encode
  body_read = ap (λ l. fixed_part id rev caps ++ l) (name_kept _)

  fields_pass : fields_valid raw ≡ true
  unfolding raw encode fields_valid
  fields_pass = ground (arith, le16_id, name_read, IsName-name_valid name v.name_ok, v)

  long : 32 ≤ length raw
  unfolding raw encode
  long = omega (arith, length-append name (0 ∷ 0 ∷ []), length-append name _, v.name_size)

  not_blank : all_are 0xff (take desc_size raw) ≡ false
  unfolding raw encode all_are
  not_blank = refl

  read_back : parse (some raw) ≡ (
    desc_ok,
    some (record {
      id = le16 raw 4;
      rev = rev;
      caps = le32 raw 8;
      name = name_bytes raw ++ (0 ∷ []);
    }),
  )
  unfolding raw encode
  read_back =
      accepted raw long not_blank refl refl refl (ap crc16 body_read ∙ sym crc_stored) fields_pass

  -- Whatever descriptor the format allows, encoded as the format says, is read back as it was.
  pub parse-encode :
      parse (some (encode id rev caps name))
      ≡ (desc_ok, some (record { id = id; rev = rev; caps = caps; name = name ++ (0 ∷ []) }))
  unfolding raw
  parse-encode =
      read_back
      ∙ ap
          (λ i. (
            desc_ok,
            some (record {
              id = i;
              rev = rev;
              caps = le32 raw 8;
              name = name_bytes raw ++ (0 ∷ []);
            }),
          ))
          le16_id
      ∙ ap
          (λ c. (
            desc_ok,
            some (record { id = id; rev = rev; caps = c; name = name_bytes raw ++ (0 ∷ []) }),
          ))
          le32_caps
      ∙ ap (λ n. (desc_ok, some (record { id = id; rev = rev; caps = caps; name = n ++ (0 ∷ []) })))
          name_read
