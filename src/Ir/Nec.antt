-- ===== src/Ir/Nec.antt =====
-- components/stark_ir/ir_nec.c: NEC frames, with 8-bit or 16-bit addresses, and the repeat code.
pub mod Word
pub mod RoundTrip
pub mod Sound
use stark_one.Base.{
  ℕ, zero, suc, ◌+◌, ◌-◌, ◌*◌, ◌/◌, ◌%◌, ◌^◌, bit_and, bit_or, bit_xor, Bool, true, false, ◌&&◌,
  ◌||◌, not, Option, none, some, List, [], ◌∷◌, ◌++◌, length, get_or, ltb, leb, ◌==◌, ◌!=◌,
  if◌then◌else◌, word,
}
use stark_one.Err.{Err, ok, invalid_arg}
use stark_one.Ir.{Protocol, Frame, nec, necx, matches, push, tol_pct}

-- LEAD_MARK
abbrev pub lead_mark : ℕ
lead_mark = 9000

-- LEAD_SPACE
abbrev pub lead_space : ℕ
lead_space = 4500

-- REPEAT_SPACE
abbrev pub repeat_space : ℕ
repeat_space = 2250

-- BIT_MARK
abbrev pub bit_mark : ℕ
bit_mark = 560

-- ZERO_SPACE
abbrev pub zero_space : ℕ
zero_space = 560

-- ONE_SPACE
abbrev pub one_space : ℕ
one_space = 1690

abbrev pub is_nec : Protocol → Bool
is_nec nec = true
is_nec _ = false

-- `~x & 0xFFu`
abbrev pub inverted : ℕ → ℕ
inverted x = bit_and (word - 1 - x) 0xff

-- The 32 bits of a frame.
pub frame_word : Frame → ℕ
frame_word f =
    let addr =
      if is_nec f.protocol then bit_or f.address (inverted f.address * 2 ^ 8) else f.address in
    bit_or (bit_or addr (f.command * 2 ^ 16)) (inverted f.command * 2 ^ 24)

-- The loop of the encoder at bit `i`, with `k` bits to go.
pub push_bits : ℕ → ℕ → ℕ → List ℕ → List ℕ
push_bits zero i w t = t
push_bits (suc k) i w t =
    push_bits k (i + 1) w
      (push (push t bit_mark) (if bit_and (w / 2 ^ i) 1 != 0 then one_space else zero_space))

-- The result, and the timings written to `*out`.
pub encode : Frame → Err × List ℕ
encode f =
    if f.repeat
    then (ok, push (push (push [] lead_mark) repeat_space) bit_mark)
    else if ltb 0xff f.command || (is_nec f.protocol && ltb 0xff f.address)
    then (invalid_arg, [])
    else (ok, push (push_bits 32 0 (frame_word f) (push (push [] lead_mark) lead_space)) bit_mark)

abbrev pub at : List ℕ → ℕ → ℕ
at t i = get_or t i 0

abbrev pub near : ℕ → ℕ → Bool
near measured nominal = matches measured nominal tol_pct

-- One bit of the decoder's loop; `none` is its `return false`.
pub read_bit : ℕ → List ℕ → Option Bool
read_bit i t =
    let mark = at t (2 + 2 * i) in
    let space = at t (3 + 2 * i) in
    if not (near mark bit_mark)
    then none
    else if near space one_space
    then some true
    else if not (near space zero_space)
    then none
    else some false

-- The loop at bit `i`, with `k` bits to go and the bits read so far.
pub read_bits : ℕ → ℕ → List ℕ → ℕ → Option ℕ
read_bits zero i t w = some w
read_bits (suc k) i t w = elim (read_bit i t) [
  | none ↦ none
  | some one ↦ read_bits k (i + 1) t (if one then bit_or w (1 * 2 ^ i) else w)
]

-- What the decoder makes of the 32 bits.
pub read_word : ℕ → Option Frame
read_word w =
    let a = bit_and w 0xff in
    let na = bit_and (w / 2 ^ 8) 0xff in
    let c = bit_and (w / 2 ^ 16) 0xff in
    let nc = bit_and (w / 2 ^ 24) 0xff in
    if bit_xor c nc != 0xff
    then none
    else some (record {
      protocol = if bit_xor a na == 0xff then nec else necx;
      address = if bit_xor a na == 0xff then a else bit_or a (na * 2 ^ 8) % 2 ^ 16;
      command = c;
      repeat = false;
      toggle = 0;
    })

abbrev pub read_words : Option ℕ → Option Frame
read_words none = none
read_words (some w) = read_word w

pub is_repeat : List ℕ → Bool
is_repeat t =
    length t == 3 && near (at t 0) lead_mark && near (at t 1) repeat_space && near (at t 2) bit_mark

abbrev pub repeat_frame : Frame
repeat_frame = record { protocol = nec; address = 0; command = 0; repeat = true; toggle = 0 }

-- `none` when the timings are not those of a NEC frame.
pub decode : List ℕ → Option Frame
decode t =
    if is_repeat t
    then some repeat_frame
    else if length t != 67
        || not (near (at t 0) lead_mark)
        || not (near (at t 1) lead_space)
        || not (near (at t 66) bit_mark)
    then none
    else read_words (read_bits 32 0 t 0)
