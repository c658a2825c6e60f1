-- ===== src/Ir/Sirc.antt =====
-- components/stark_ir/ir_sirc.c: Sony SIRC frames of 12, 15 and 20 bits.
pub mod Reading
mod Tests
use stark_one.Base.{
  ℕ, zero, suc, ◌+◌, ◌-◌, ◌*◌, ◌/◌, ◌%◌, ◌^◌, bit_and, bit_or, Bool, true, false, ◌&&◌, ◌||◌, not,
  Option, none, some, List, [], ◌∷◌, length, get_or, ltb, ◌==◌, ◌!=◌, if◌then◌else◌,
}
use stark_one.Err.{Err, ok, invalid_arg}
use stark_one.Ir.{Protocol, Frame, sirc12, sirc15, sirc20, matches, push, tol_pct}

-- START_MARK
abbrev pub start_mark : ℕ
start_mark = 2400

-- SPACE
abbrev pub space : ℕ
space = 600

-- ONE_MARK
abbrev pub one_mark : ℕ
one_mark = 1200

-- ZERO_MARK
abbrev pub zero_mark : ℕ
zero_mark = 600

abbrev pub bits_of : Protocol → ℕ
bits_of sirc12 = 12
bits_of sirc15 = 15
bits_of _ = 20

-- The loop of the encoder at bit `i`, with `k` bits to go.
pub push_bits : ℕ → ℕ → ℕ → List ℕ → List ℕ
push_bits zero i w t = t
push_bits (suc k) i w t =
    push_bits k (i + 1) w
      (push (push t space) (if bit_and (w / 2 ^ i) 1 != 0 then one_mark else zero_mark))

-- the frame's bits
abbrev pub frame_word : Frame → ℕ
frame_word f = bit_or f.command (f.address * 2 ^ 7)

-- The result, and the timings written to `*out`.
pub encode : Frame → Err × List ℕ
encode f =
    let bits = bits_of f.protocol in
    let addr_max = 1 * 2 ^ (bits - 7) - 1 in
    if ltb 0x7f f.command || ltb addr_max f.address
    then (invalid_arg, [])
    else (ok, push_bits bits 0 (frame_word f) (push [] start_mark))

abbrev pub at : List ℕ → ℕ → ℕ
at t i = get_or t i 0

abbrev pub near : ℕ → ℕ → Bool
near measured nominal = matches measured nominal tol_pct

-- The `switch` on the number of durations.
abbrev pub variant : ℕ → Option Protocol
variant n =
    if n == 25
    then some sirc12
    else if n == 31
    then some sirc15
    else if n == 41
    then some sirc20
    else none

-- One bit of the decoder's loop; `none` is its `return false`.
pub read_bit : ℕ → List ℕ → Option Bool
read_bit i t =
    if not (near (at t (1 + 2 * i)) space)
    then none
    else if near (at t (2 + 2 * i)) one_mark
    then some true
    else if not (near (at t (2 + 2 * i)) zero_mark)
    then none
    else some false

-- The loop at bit `i`, with `k` bits to go and the bits read so far.
pub read_bits : ℕ → ℕ → List ℕ → ℕ → Option ℕ
read_bits zero i t w = some w
read_bits (suc k) i t w = elim (read_bit i t) [
  | none ↦ none
  | some one ↦ read_bits k (i + 1) t (if one then bit_or w (1 * 2 ^ i) else w)
]

abbrev pub frame_of : Protocol → Option ℕ → Option Frame
frame_of p none = none
frame_of p (some w) = some (record {
  protocol = p;
  address = w / 2 ^ 7 % 2 ^ 16;
  command = bit_and w 0x7f % 2 ^ 16;
  repeat = false;
  toggle = 0;
})

abbrev pub decode_as : Option Protocol → List ℕ → Option Frame
decode_as none t = none
decode_as (some p) t =
    if not (near (at t 0) start_mark) then none else frame_of p (read_bits (bits_of p) 0 t 0)

-- `none` when the timings are not those of a SIRC frame.
pub decode : List ℕ → Option Frame
decode t = decode_as (variant (length t)) t
