-- ===== src/Module/Desc/Valid.antt =====
-- What a descriptor that is accepted is known to hold.
use stark_one.Base.{
  ℕ, zero, suc, ◌+◌, ◌*◌, ◌^◌, ◌≤◌, ◌<◌, ◌≡◌, ◌≢◌, inl, inr, refl, ap, ◌∙◌, bit_or, true, some,
  List, [], ◌∷◌, ◌++◌, length, get_or, take, ◌==◌, Bool-cases, Option-cases, arith,
}
use stark_one.Base.Bits.{bit_or_high}
use stark_one.Module.Desc.{
  Desc, desc_ok, crc16, all_are, scan_text, name_valid, fields_valid, byte, le16, le32, name_bytes,
  parse, crc_offset,
}

crc_check : crc16 (0x31 ∷ 0x32 ∷ 0x33 ∷ 0x34 ∷ 0x35 ∷ 0x36 ∷ 0x37 ∷ 0x38 ∷ 0x39 ∷ []) ≡ 0x29b1
unfolding crc16
crc_check = refl

abbrev pub Printable : List ℕ → Type 0
Printable [] = Unit {0}
Printable (c ∷ cs) = (0x20 ≤ c) × (c ≤ 0x7e) × Printable cs

abbrev pub Zeros : List ℕ → Type 0
Zeros [] = Unit {0}
Zeros (c ∷ cs) = (c ≡ 0) × Zeros cs

abbrev pub Bytes : List ℕ → Type 0
Bytes [] = Unit {0}
Bytes (c ∷ cs) = (c < 256) × Bytes cs

-- A name: printable text that does not begin with a space, then NULs.
pub record IsName (n : List ℕ) : Type 0 where
  pub first : ℕ
  pub others : List ℕ
  pub padding : List ℕ
  pub layout : n ≡ first ∷ (others ++ padding)
  pub printable : Printable (first ∷ others)
  pub not_space : first ≢ 0x20
  pub padded : Zeros padding

all_are-Zeros : (l : List ℕ) → all_are 0 l ≡ true → Zeros l
unfolding all_are
all_are-Zeros [] h = tt
all_are-Zeros (x ∷ l) h = ground (arith, all_are-Zeros l)

-- what `scan_text` finds
scan_text_lem :
    (l : List ℕ) (n : ℕ) (rest : List ℕ)
    → scan_text l ≡ some (n, rest)
    → (text : List ℕ) × (l ≡ text ++ rest) × (length text ≡ n) × Printable text
unfolding scan_text
scan_text_lem [] n rest h = ([], ground arith, ground arith, tt)
scan_text_lem (c ∷ cs) n rest h = elim (Bool-cases (c == 0)) [
  | inl z ↦ ([], ground arith, ground arith, tt)
  | inr z ↦ elim (Option-cases (scan_text cs)) [
    | inl e ↦ absurd (ground arith)
    | inr (p, e) ↦
        let (text, layout, size, printable) = scan_text_lem cs p.0 p.1 e in
        (c ∷ text, ground arith, ground arith, (ground arith, ground arith, printable))
  ]
]

byte-lt : (raw : List ℕ) (i : ℕ) → Bytes raw → byte raw i < 256
byte-lt [] i b = omega arith
byte-lt (c ∷ cs) zero b = b.0
byte-lt (c ∷ cs) (suc i) b = byte-lt cs i b.1

pub le16_lem : (raw : List ℕ) (i : ℕ) → Bytes raw → le16 raw i ≡ byte raw i + byte raw (i + 1) * 256
le16_lem raw i b = bit_or_high 8 (byte raw i) (byte raw (i + 1)) (byte-lt raw i b)

pub le32_sum :
    (a b c d : ℕ)
    → a < 256
    → b < 256
    → c < 256
    → bit_or (bit_or (bit_or a (b * 2 ^ 8)) (c * 2 ^ 16)) (d * 2 ^ 24)
      ≡ a + b * 256 + c * 65536 + d * 16777216
le32_sum a b c d ha hb hc =
    ap (λ (t : ℕ). bit_or (bit_or t (c * 65536)) (d * 16777216)) (bit_or_high 8 a b ha)
    ∙ ap (λ (t : ℕ). bit_or t (d * 16777216)) (bit_or_high 16 (a + b * 256) c (omega arith))
    ∙ bit_or_high 24 (a + b * 256 + c * 65536) d (omega arith)

le32_lem :
    (raw : List ℕ) (i : ℕ)
    → Bytes raw
    → le32 raw i
      ≡ byte raw i + byte raw (i + 1) * 256 + byte raw (i + 2) * 65536 + byte raw (i + 3) * 16777216
le32_lem raw i b =
    le32_sum (byte raw i) (byte raw (i + 1)) (byte raw (i + 2)) (byte raw (i + 3)) (byte-lt raw i b)
      (byte-lt raw (i + 1) b) (byte-lt raw (i + 2) b)

named :
    (n text rest : List ℕ)
    → n ≡ text ++ rest
    → Printable text
    → 0 < length text
    → Zeros rest
    → get_or n 0 0 ≢ 0x20
    → IsName n
named n [] rest e p l z s = absurd (omega arith)
named n (c ∷ cs) rest e p l z s = record {
  first = c;
  others = cs;
  padding = rest;
  layout = e;
  printable = p;
  not_space = λ q. s (ap (λ (l : List ℕ). get_or l 0 0) e ∙ q);
  padded = z;
}

name_valid-IsName : (n : List ℕ) → name_valid n ≡ true → IsName n
unfolding name_valid
name_valid-IsName n h = elim (Option-cases (scan_text n)) [
  | inl e ↦ absurd (ground arith)
  | inr (p, e) ↦
      let (text, layout, size, printable) = scan_text_lem n p.0 p.1 e in
      named n text p.1 layout printable (ground arith) (all_are-Zeros p.1 (ground arith))
        (ground arith)
]

-- the tests that a descriptor passes
passed :
    (raw : List ℕ) (d : Desc)
    → parse (some raw) ≡ (desc_ok, some d)
    → (32 ≤ length raw)
      × (byte raw 0 ≡ 0x53)
      × (byte raw 1 ≡ 0x4d)
      × (byte raw 2 ≡ 1)
      × (crc16 (take crc_offset raw) ≡ le16 raw crc_offset)
      × (fields_valid raw ≡ true)
      × (d.id ≡ le16 raw 4)
      × (d.rev ≡ byte raw 6)
      × (d.caps ≡ le32 raw 8)
      × (d.name ≡ name_bytes raw ++ (0 ∷ []))
unfolding parse
passed raw d h = ground arith

fields_checked :
    (raw : List ℕ)
    → fields_valid raw ≡ true
    → (byte raw 3 ≡ 0)
      × (byte raw 7 ≡ 0)
      × (le16 raw 4 ≢ 0)
      × (le16 raw 4 ≢ 0xffff)
      × (name_valid (name_bytes raw) ≡ true)
unfolding fields_valid
fields_checked raw h = ground arith

-- The 32 bytes of a descriptor by the format: the magic "SM", version 1, zeros in the reserved
-- bytes 3 and 7, then the module's ID, which is neither 0 nor 0xffff, its revision and its
-- capabilities, all little-endian, 18 bytes of name, and the CRC of what stands before it.
pub record Obeys (raw : List ℕ) (d : Desc) : Type 0 where
  pub long : 32 ≤ length raw
  pub magic : (byte raw 0 ≡ 0x53) × (byte raw 1 ≡ 0x4d)
  pub version : byte raw 2 ≡ 1
  pub reserved : (byte raw 3 ≡ 0) × (byte raw 7 ≡ 0)
  pub id : d.id ≡ byte raw 4 + byte raw 5 * 256
  pub id_pos : 0 < d.id
  pub id_in : d.id < 0xffff
  pub rev : d.rev ≡ byte raw 6
  pub caps : d.caps ≡ byte raw 8 + byte raw 9 * 256 + byte raw 10 * 65536 + byte raw 11 * 16777216
  pub name : d.name ≡ name_bytes raw ++ (0 ∷ [])
  pub name_ok : IsName (name_bytes raw)
  pub crc : crc16 (take crc_offset raw) ≡ byte raw 30 + byte raw 31 * 256

-- A descriptor is accepted only from 32 bytes or more that obey the format: magic, version, zeros in
-- the reserved bytes, an ID that is neither 0 nor 0xffff, a CRC that is right, and a name that is
-- printable text, not empty, with no leading space, padded by NULs; its ID, revision, capabilities
-- and name are the little-endian fields at their offsets.
pub parse_validates :
    (raw : List ℕ) (d : Desc) → Bytes raw → parse (some raw) ≡ (desc_ok, some d) → Obeys raw d
parse_validates raw d b h =
    let (long, m0, m1, version, crc, fields, id, rev, caps, name) = passed raw d h in
    let (r3, r7, nonzero, other, named) = fields_checked raw fields in
    record {
      long = long;
      magic = (m0, m1);
      version = version;
      reserved = (r3, r7);
      id = id ∙ le16_lem raw 4 b;
      id_pos = omega arith;
      id_in = omega (arith, le16_lem raw 4 b, byte-lt raw 4 b, byte-lt raw 5 b);
      rev = rev;
      caps = caps ∙ le32_lem raw 8 b;
      name = name;
      name_ok = name_valid-IsName (name_bytes raw) named;
      crc = crc ∙ le16_lem raw 30 b;
    }
