-- ===== src/Ir/Nec/Word.antt =====
-- The 32 bits of a NEC frame, and what the decoder makes of them.
use stark_one.Base.{
  ℕ, ◌+◌, ◌-◌, ◌*◌, ◌/◌, ◌%◌, ◌^◌, ◌≤◌, ◌<◌, ◌≡◌, ◌≢◌, refl, ap, ap₂, ◌∙◌, bit_and, bit_or, bit_xor,
  false, some, ◌==◌, ne→==, arith, word,
}
use stark_one.Base.Bits.{bit_and_low, bit_or_high}
use stark_one.Base.Xor.{sum-bit_xor, bit_xor-complement}
use stark_one.Ir.{nec, necx}
use stark_one.Ir.Nec.{inverted, frame_word, read_word}

pub inverted_lem : (x : ℕ) → x ≤ 255 → inverted x ≡ 255 - x
inverted_lem x h = omega (arith, bit_and_low 8 (word - 1 - x))

-- the bits by their fields
abbrev pub packed : ℕ → ℕ → ℕ
packed addr c = addr + c * 65536 + (255 - c) * 16777216

pack :
    (addr c : ℕ)
    → addr < 65536
    → c ≤ 255
    → bit_or (bit_or addr (c * 2 ^ 16)) (inverted c * 2 ^ 24) ≡ packed addr c
pack addr c p q =
    ap₂ (λ (x y : ℕ). bit_or x (y * 2 ^ 24)) (bit_or_high 16 addr c p) (inverted_lem c q)
    ∙ bit_or_high 24 (addr + c * 2 ^ 16) (255 - c) (omega arith)

pub frame_word-standard :
    (a c : ℕ)
    → a ≤ 255
    → c ≤ 255
    → frame_word (record { protocol = nec; address = a; command = c; repeat = false; toggle = 0 })
      ≡ packed (a + (255 - a) * 256) c
unfolding frame_word
frame_word-standard a c p q =
    ap (λ (x : ℕ). bit_or (bit_or x (c * 2 ^ 16)) (inverted c * 2 ^ 24))
      (ap (λ (y : ℕ). bit_or a (y * 2 ^ 8)) (inverted_lem a p)
        ∙ bit_or_high 8 a (255 - a) (omega arith))
    ∙ pack (a + (255 - a) * 256) c (omega arith) q

pub frame_word-extended :
    (a c : ℕ)
    → a < 65536
    → c ≤ 255
    → frame_word (record { protocol = necx; address = a; command = c; repeat = false; toggle = 0 })
      ≡ packed a c
unfolding frame_word
frame_word-extended a c p q = pack a c p q

fields :
    (addr c : ℕ)
    → addr < 65536
    → c ≤ 255
    → (bit_and (packed addr c) 0xff ≡ addr % 256)
      × (bit_and (packed addr c / 2 ^ 8) 0xff ≡ addr / 256)
      × (bit_and (packed addr c / 2 ^ 16) 0xff ≡ c)
      × (bit_and (packed addr c / 2 ^ 24) 0xff ≡ 255 - c)
fields addr c p q = (
  omega (arith, bit_and_low 8 (packed addr c)),
  omega (arith, bit_and_low 8 (packed addr c / 2 ^ 8)),
  omega (arith, bit_and_low 8 (packed addr c / 2 ^ 16)),
  omega (arith, bit_and_low 8 (packed addr c / 2 ^ 24)),
)

complement-byte : (c : ℕ) → c ≤ 255 → bit_xor c (255 - c) ≡ 255
complement-byte c h = bit_xor-complement 8 c (omega arith)

pub read_word-standard :
    (a c : ℕ)
    → a ≤ 255
    → c ≤ 255
    → read_word (packed (a + (255 - a) * 256) c)
      ≡ some (record { protocol = nec; address = a; command = c; repeat = false; toggle = 0 })
unfolding read_word
read_word-standard a c p q =
    let (e0, e1, e2, e3) = fields (a + (255 - a) * 256) c (omega arith) q in
    let f0 : (a + (255 - a) * 256) % 256 ≡ a = omega arith in
    let f1 : (a + (255 - a) * 256) / 256 ≡ 255 - a = omega arith in
    rw (e0, e1, e2, e3, f0, f1, complement-byte c q, complement-byte a p) refl

pub read_word-extended :
    (a c : ℕ)
    → a < 65536
    → a % 256 + a / 256 ≢ 255
    → c ≤ 255
    → read_word (packed a c)
      ≡ some (record { protocol = necx; address = a; command = c; repeat = false; toggle = 0 })
unfolding read_word
read_word-extended a c p n q =
    let (e0, e1, e2, e3) = fields a c p q in
    let other : (bit_xor (a % 256) (a / 256) == 255) ≡ false =
      ne→== _ _ (λ h. n (sum-bit_xor 8 (a % 256) (a / 256) (omega arith) (omega arith) h)) in
    let whole : bit_or (a % 256) (a / 256 * 2 ^ 8) % 2 ^ 16 ≡ a =
      omega (arith, bit_or_high 8 (a % 256) (a / 256) (omega arith)) in
    rw (e0, e1, e2, e3, complement-byte c q, other, whole) refl
