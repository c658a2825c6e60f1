-- ===== src/Module/Desc.antt =====
-- components/stark_module/module_desc.c: the descriptor in a module's ID EEPROM, read from
-- untrusted bytes.
pub mod Valid
pub mod RoundTrip
pub mod Tests
use stark_one.Base.{
  ℕ, zero, suc, ◌+◌, ◌*◌, ◌%◌, ◌^◌, bit_and, bit_or, bit_xor, Bool, true, false, ◌&&◌, ◌||◌, not,
  Option, none, some, List, [], ◌∷◌, ◌++◌, length, get_or, take, drop, ltb, ◌==◌, ◌!=◌,
  if◌then◌else◌, word,
}
use mathlib.Core.Option

-- `module_desc_t`; `name` is the array of MODULE_NAME_MAX + 1 bytes.
pub record Desc : Type 0 where
  pub id : ℕ
  pub rev : ℕ
  pub caps : ℕ
  pub name : List ℕ

-- `module_desc_result_t`
pub data DescResult : Type 0 where
  desc_ok blank bad_magic bad_version bad_crc bad_field truncated : DescResult

-- MODULE_DESC_SIZE
abbrev pub desc_size : ℕ
desc_size = 32

-- MODULE_NAME_MAX
abbrev pub name_max : ℕ
name_max = 18

abbrev pub name_offset : ℕ
name_offset = 12

abbrev pub crc_offset : ℕ
crc_offset = 30

crc_bit : ℕ → ℕ
crc_bit c = if bit_and c 0x8000 != 0 then bit_xor (c * 2 % word) 0x1021 else c * 2 % word

-- the loop over the eight bits of a byte
crc_bits : ℕ → ℕ → ℕ
unfolding crc_bit
crc_bits zero c = c
crc_bits (suc n) c = crc_bits n (crc_bit c)

crc_from : ℕ → List ℕ → ℕ
unfolding crc_bits
crc_from crc [] = crc
crc_from crc (b ∷ bs) = crc_from (crc_bits 8 (bit_xor crc (b * 2 ^ 8)) % 2 ^ 16) bs

pub crc16 : List ℕ → ℕ
unfolding crc_from
crc16 bs = crc_from 0xffff bs

pub all_are : ℕ → List ℕ → Bool
all_are v [] = true
all_are v (b ∷ bs) = b == v && all_are v bs

-- The first loop of `name_valid`: the bytes before the first NUL counted, with those from it on;
-- `none` at a byte that cannot be printed.
pub scan_text : List ℕ → Option (ℕ × List ℕ)
scan_text [] = some (0, [])
scan_text (c ∷ cs) =
    if c == 0
    then some (0, c ∷ cs)
    else if ltb c 0x20 || ltb 0x7e c
    then none
    else Option.map (λ p. (p.0 + 1, p.1)) (scan_text cs)

-- for the MODULE_NAME_MAX bytes of the name
pub name_valid : List ℕ → Bool
unfolding scan_text all_are
name_valid n = elim (scan_text n) [
  | none ↦ false
  | some (len, rest) ↦ all_are 0 rest && (ltb 0 len && get_or n 0 0 != 0x20)
]

abbrev pub byte : List ℕ → ℕ → ℕ
byte raw i = get_or raw i 0

-- `raw[i] | raw[i + 1] << 8`
abbrev pub le16 : List ℕ → ℕ → ℕ
le16 raw i = bit_or (byte raw i) (byte raw (i + 1) * 2 ^ 8)

abbrev pub le32 : List ℕ → ℕ → ℕ
le32 raw i =
    bit_or (bit_or (bit_or (byte raw i) (byte raw (i + 1) * 2 ^ 8)) (byte raw (i + 2) * 2 ^ 16))
      (byte raw (i + 3) * 2 ^ 24)

abbrev pub name_bytes : List ℕ → List ℕ
name_bytes raw = take name_max (drop name_offset raw)

-- The reserved bytes, the module ID and the name.
pub fields_valid : List ℕ → Bool
fields_valid raw =
    byte raw 3 == 0
    && (byte raw 7 == 0
        && (le16 raw 4 != 0 && (le16 raw 4 != 0xffff && name_valid (name_bytes raw))))

-- `none` is a NULL; the length is that of the list.
pub parse : Option (List ℕ) → DescResult × Option Desc
parse none = (truncated, none)
parse (some raw) =
    if ltb (length raw) desc_size
    then (truncated, none)
    else if all_are 0xff (take desc_size raw)
    then (blank, none)
    else if byte raw 0 != 0x53 || byte raw 1 != 0x4d
    then (bad_magic, none)
    else if byte raw 2 != 1
    then (bad_version, none)
    else if crc16 (take crc_offset raw) != le16 raw crc_offset
    then (bad_crc, none)
    else if not (fields_valid raw)
    then (bad_field, none)
    else (
      desc_ok,
      some (record {
        id = le16 raw 4;
        rev = byte raw 6;
        caps = le32 raw 8;
        name = name_bytes raw ++ (0 ∷ []);
      }),
    )

-- The bits of stark_caps.h.
abbrev pub cap_ir_tx : ℕ
cap_ir_tx = 2 ^ 0

abbrev pub cap_ir_rx : ℕ
cap_ir_rx = 2 ^ 1

abbrev pub cap_nfc : ℕ
cap_nfc = 2 ^ 2

abbrev pub cap_mod_spi : ℕ
cap_mod_spi = 2 ^ 3

abbrev pub cap_mod_irq : ℕ
cap_mod_irq = 2 ^ 4

pub caps_supported : ℕ → Bool
caps_supported caps =
    if bit_and caps (bit_or cap_ir_tx cap_ir_rx) != 0
    then false
    else bit_and caps cap_nfc == 0 || bit_and caps cap_mod_spi == 0
