-- ===== src/Ir/Nec/Sound.antt =====
-- What the decoder accepts: only captures that match what the encoder makes of the frame.
use stark_one.Base.{
  ℕ, zero, suc, ◌+◌, ◌-◌, ◌*◌, ◌/◌, ◌%◌, ◌^◌, ◌≤◌, ◌<◌, ◌≡◌, refl, sym, ap, subst, ◌∙◌, bit_and,
  bit_or, bit_xor, Bool, true, false, ◌&&◌, ◌||◌, not, Option, none, some, List, [], ◌∷◌, length,
  ltb, ◌==◌, ◌!=◌, ==→eq, ==→ne, ltb→lt, ltb→le, Bool-cases, Option-cases, inl, inr, if◌then◌else◌,
  arith,
}
use stark_one.Base.Bits.{bit_and_low, bit_or_high}
use stark_one.Base.Xor.{sum-bit_xor}
use native.Mathlib.Nat.{one-le-pow, pow-suc, mod-lt, mod-eq_of_lt}
use stark_one.Err.{ok}
use stark_one.Ir.{Frame, nec, necx, push}
use stark_one.Ir.Push.{low_bit}
use stark_one.Ir.Nec.{
  lead_mark, lead_space, repeat_space, bit_mark, one_space, zero_space, at, near, encode, read_bit,
  read_bits, read_word, read_words, is_repeat, repeat_frame, decode,
}
use stark_one.Ir.Nec.Word.{packed, frame_word-standard, frame_word-extended}
use stark_one.Ir.Nec.RoundTrip.{space_of, pulses_at, sent, encode_bits}

digits : (p x y b c : ℕ) → x < p → y < p → b ≤ 1 → c ≤ 1 → x + b * p ≡ y + c * p → (x ≡ y) × (b ≡ c)
digits p x y zero zero h k l m e = (omega arith, refl)
digits p x y zero (suc zero) h k l m e = absurd (omega arith)
digits p x y (suc zero) zero h k l m e = absurd (omega arith)
digits p x y (suc zero) (suc zero) h k l m e = (omega arith, refl)
digits p x y (suc (suc b)) c h k l m e = absurd (omega arith)
digits p x y b (suc (suc c)) h k l m e = absurd (omega arith)

-- The two pulses of bit `j` match the mark and the space of that bit of `v`.
abbrev Pulse : List ℕ → ℕ → ℕ → Type 0
Pulse t v j =
    (near (at t (2 + 2 * j)) bit_mark ≡ true) × (near (at t (3 + 2 * j)) (space_of v j) ≡ true)

read_bit-near :
    (i : ℕ) (t : List ℕ) (b : Bool)
    → read_bit i t ≡ some b
    → (near (at t (2 + 2 * i)) bit_mark ≡ true)
      × (near (at t (3 + 2 * i)) (if b then one_space else zero_space) ≡ true)
unfolding read_bit
read_bit-near i t true h = ground arith
read_bit-near i t false h = ground arith

-- What the loop has read, from bit `i` up to bit `n`.
record Reads (t : List ℕ) (i n w v : ℕ) : Type 0 where
  size : v < 2 ^ n
  low : v % 2 ^ i ≡ w
  heard : (j : ℕ) → i ≤ j → j < n → Pulse t v j

abbrev digit : Bool → ℕ
digit b = if b then 1 else 0

digit_in : (b : Bool) → digit b ≤ 1
digit_in true = omega arith
digit_in false = omega arith

digit_test : (b : Bool) → (digit b != 0) ≡ b
digit_test true = refl
digit_test false = refl

with_digit :
    (i w : ℕ) (b : Bool) → w < 2 ^ i → (if b then bit_or w (1 * 2 ^ i) else w) ≡ w + digit b * 2 ^ i
with_digit i w true h = bit_or_high i w 1 h
with_digit i w false h = omega arith

with_digit_in :
    (i w : ℕ) (b : Bool) → w < 2 ^ i → 2 ^ (i + 1) ≡ 2 * 2 ^ i → w + digit b * 2 ^ i < 2 ^ (i + 1)
with_digit_in i w true h e = omega arith
with_digit_in i w false h e = omega arith

next_bit :
    (i w v : ℕ) (b : Bool)
    → w < 2 ^ i
    → v % 2 ^ (i + 1) ≡ (if b then bit_or w (1 * 2 ^ i) else w)
    → (v % 2 ^ i ≡ w) × ((bit_and (v / 2 ^ i) 1 != 0) ≡ b)
next_bit i w v b h e =
    let pos : 0 < 2 ^ i = one-le-pow i 2 (omega arith) in
    let (x, y) =
      digits (2 ^ i) (v % 2 ^ i) w (bit_and (v / 2 ^ i) 1) (digit b) (mod-lt v pos) h
        (omega (arith, bit_and_low 1 (v / 2 ^ i))) (digit_in b)
        (sym (low_bit v i) ∙ e ∙ with_digit i w b h) in
    (x, ap (λ (n : ℕ). n != 0) y ∙ digit_test b)

below : (i w : ℕ) (b : Bool) → w < 2 ^ i → (if b then bit_or w (1 * 2 ^ i) else w) < 2 ^ (i + 1)
below i w b h =
    let double : 2 ^ (i + 1) ≡ 2 * 2 ^ i =
      ap (λ (m : ℕ). 2 ^ m) {y = suc i} (omega arith) ∙ pow-suc 2 i ∙ omega arith in
    subst (λ n. n < 2 ^ (i + 1)) (sym (with_digit i w b h)) (with_digit_in i w b h double)

read_bits-Reads :
    (k i n : ℕ) (t : List ℕ) (w v : ℕ)
    → n ≡ i + k
    → w < 2 ^ i
    → read_bits k i t w ≡ some v
    → Reads t i n w v
unfolding read_bits
read_bits-Reads zero i n t w v e h r =
    let q : w ≡ v = cc in
    let l : v < 2 ^ i = subst (λ x. x < 2 ^ i) q h in
    record {
      size = subst (λ m. v < 2 ^ m) {x = i} {y = n} (omega arith) l;
      low = mod-eq_of_lt l ∙ sym q;
      heard = λ j p m. absurd (omega arith);
    }
read_bits-Reads (suc k) i n t w v e h r = elim (Option-cases (read_bit i t)) [
  | inl q ↦ let r' = rw (q, read_bits) at r in absurd (ground arith)
  | inr (b, q) ↦
      let r' : read_bits k (i + 1) t (if b then bit_or w (1 * 2 ^ i) else w) ≡ some v =
        rw (q, read_bits) at r in
      let g = read_bits-Reads k (i + 1) n t _ v (omega arith) (below i w b h) r' in
      let (x, y) = next_bit i w v b h g.low in
      let (m, s) = read_bit-near i t b q in
      record {
        size = g.size;
        low = x;
        heard = λ j p l. elim (Bool-cases (i == j)) [
          | inl z ↦ subst (Pulse t v) (==→eq i j z) (
            m,
            subst (λ c. near (at t (3 + 2 * i)) (if c then one_space else zero_space) ≡ true)
                (sym y) s,
          )
          | inr z ↦ g.heard j (ground arith) l
        ];
      }
]

-- The durations `t` match the nominal ones of `u`, one by one, within the decoder's tolerance.
pub record Matches (t u : List ℕ) : Type 0 where
  pub same_length : length t ≡ length u
  pub each : (i : ℕ) → i < length t → near (at t i) (at u i) ≡ true

-- the four bytes of a word
word_bytes :
    (v : ℕ)
    → v < 2 ^ 32
    → v
      ≡ bit_and v 0xff
        + bit_and (v / 2 ^ 8) 0xff * 256
        + bit_and (v / 2 ^ 16) 0xff * 65536
        + bit_and (v / 2 ^ 24) 0xff * 16777216
word_bytes v h = omega (
  arith,
  bit_and_low 8 v,
  bit_and_low 8 (v / 2 ^ 8),
  bit_and_low 8 (v / 2 ^ 16),
  bit_and_low 8 (v / 2 ^ 24),
)

byte_in : (w : ℕ) → bit_and w 0xff < 256
byte_in w = omega (arith, bit_and_low 8 w)

-- the frame of four bytes
abbrev made : ℕ → ℕ → ℕ → ℕ → Option Frame
made a na c nc =
    if bit_xor c nc != 0xff
    then none
    else some (record {
      protocol = if bit_xor a na == 0xff then nec else necx;
      address = if bit_xor a na == 0xff then a else bit_or a (na * 2 ^ 8) % 2 ^ 16;
      command = c;
      repeat = false;
      toggle = 0;
    })

-- What the encoder does with a frame: it sends the 32 bits of `v`.
record Sends (f : Frame) (v : ℕ) : Type 0 where
  accepts : (encode f).0 ≡ ok
  sends : (encode f).1 ≡ sent v

Sends-nec :
    (a c : ℕ)
    → a ≤ 255
    → c ≤ 255
    → Sends
        (record { protocol = nec; address = a; command = c; repeat = false; toggle = 0 })
        (packed (a + (255 - a) * 256) c)
unfolding encode
Sends-nec a c p q =
    let l : ltb 0xff c ≡ false = ground arith in
    let m : ltb 0xff a ≡ false = ground arith in
    record {
      accepts = rw (l, m) refl;
      sends = rw (l, m) (encode_bits _ ∙ ap sent (frame_word-standard a c p q));
    }

Sends-necx :
    (a c : ℕ)
    → a < 65536
    → c ≤ 255
    → Sends
        (record { protocol = necx; address = a; command = c; repeat = false; toggle = 0 })
        (packed a c)
unfolding encode
Sends-necx a c p q =
    let l : ltb 0xff c ≡ false = ground arith in
    record {
      accepts = rw l refl;
      sends = rw l (encode_bits _ ∙ ap sent (frame_word-extended a c p q));
    }

some_inj : (f g : Frame) → some f ≡ some g → f ≡ g
some_inj f g e = cc

made-Sends :
    (a na c nc v : ℕ) (f : Frame)
    → a < 256
    → na < 256
    → c < 256
    → nc < 256
    → v ≡ a + na * 256 + c * 65536 + nc * 16777216
    → made a na c nc ≡ some f
    → Sends f v
made-Sends a na c nc v f p n q m e h = elim (Bool-cases (bit_xor c nc != 0xff)) [
  | inl u ↦ let e = rw u at h in absurd (ground arith)
  | inr u ↦
      let check : c + nc ≡ 255 = sum-bit_xor 8 c nc q m (ground arith) in
      elim (Bool-cases (bit_xor a na == 0xff)) [
        | inl t ↦
            let twin : a + na ≡ 255 = sum-bit_xor 8 a na p n (==→eq _ _ t) in
            subst (λ g. Sends g v) (some_inj _ f (rw (u, t) at h))
              (subst (Sends _) {x = packed (a + (255 - a) * 256) c} {y = v} (omega arith)
                (Sends-nec a c (omega arith) (omega arith)))
        | inr t ↦
            let whole : bit_or a (na * 2 ^ 8) % 2 ^ 16 ≡ a + na * 256 =
              omega (arith, bit_or_high 8 a na p) in
            subst (λ g. Sends g v) (some_inj _ f (rw (u, t, whole) at h))
              (subst (Sends _) {x = packed (a + na * 256) c} {y = v} (omega arith)
                (Sends-necx (a + na * 256) c (omega arith) (omega arith)))
      ]
]

read_word-Sends : (v : ℕ) (f : Frame) → v < 2 ^ 32 → read_word v ≡ some f → Sends f v
unfolding read_word
read_word-Sends v f l h =
    made-Sends (bit_and v 0xff) (bit_and (v / 2 ^ 8) 0xff) (bit_and (v / 2 ^ 16) 0xff)
      (bit_and (v / 2 ^ 24) 0xff) v f (byte_in v) (byte_in (v / 2 ^ 8)) (byte_in (v / 2 ^ 16))
      (byte_in (v / 2 ^ 24)) (word_bytes v l) h

-- the durations from the third on, by the bit they belong to
body-near :
    (t : List ℕ) (v j : ℕ)
    → j < 32
    → Pulse t v j
    → (near (at t (2 + 2 * j)) (at (sent v) (2 + 2 * j)) ≡ true)
      × (near (at t (3 + 2 * j)) (at (sent v) (3 + 2 * j)) ≡ true)
body-near t v j l (m, s) =
    let (a, b) = pulses_at 32 0 v j (bit_mark ∷ []) l in
    let mark : at (sent v) (2 + 2 * j) ≡ bit_mark =
      ap (λ (n : ℕ). at (sent v) n) {x = 2 + 2 * j} {y = suc (suc (2 * j))} (omega arith) ∙ a in
    let space : at (sent v) (3 + 2 * j) ≡ space_of v j =
      ap (λ (n : ℕ). at (sent v) n) {x = 3 + 2 * j} {y = suc (suc (2 * j + 1))} (omega arith)
      ∙ b
      ∙ ap (space_of v) {x = 0 + j} (omega arith) in
    (
      subst (λ n. near (at t (2 + 2 * j)) n ≡ true) (sym mark) m,
      subst (λ n. near (at t (3 + 2 * j)) n ≡ true) (sym space) s,
    )

pair-near :
    (t : List ℕ) (v i : ℕ)
    → ((j : ℕ) → j < 32 → Pulse t v j)
    → i < 64
    → near (at t (2 + i)) (at (sent v) (2 + i)) ≡ true
pair-near t v i h l =
    let j = i / 2 in
    let (m, s) = body-near t v j (omega arith) (h j (omega arith)) in
    elim (Bool-cases (i % 2 == 0)) [
      | inl e ↦
          subst (λ (x : ℕ). near (at t x) (at (sent v) x) ≡ true) {x = 2 + 2 * j} {y = 2 + i}
            (omega (arith, ==→eq _ _ e)) m
      | inr e ↦
          subst (λ (x : ℕ). near (at t x) (at (sent v) x) ≡ true) {x = 3 + 2 * j} {y = 2 + i}
            (omega (arith, ==→ne _ _ e)) s
    ]

sent_near :
    (t : List ℕ) (v i : ℕ)
    → near (at t 0) lead_mark ≡ true
    → near (at t 1) lead_space ≡ true
    → near (at t 66) bit_mark ≡ true
    → ((j : ℕ) → j < 32 → Pulse t v j)
    → i < 67
    → near (at t i) (at (sent v) i) ≡ true
sent_near t v zero m0 m1 m66 h l = m0
sent_near t v (suc zero) m0 m1 m66 h l = m1
sent_near t v (suc (suc i)) m0 m1 m66 h l = elim (Bool-cases (ltb i 64)) [
  | inl e ↦
      subst (λ (x : ℕ). near (at t x) (at (sent v) x) ≡ true) {x = 2 + i} {y = suc (suc i)}
        (omega arith) (pair-near t v i h (ltb→lt _ _ e))
  | inr e ↦
      subst (λ (x : ℕ). near (at t x) (at (sent v) x) ≡ true) {x = 66} {y = suc (suc i)}
        (omega (arith, ltb→le _ _ e)) m66
]

sent-Matches :
    (t : List ℕ) (v : ℕ)
    → length t ≡ 67
    → near (at t 0) lead_mark ≡ true
    → near (at t 1) lead_space ≡ true
    → near (at t 66) bit_mark ≡ true
    → ((j : ℕ) → j < 32 → Pulse t v j)
    → Matches t (sent v)
sent-Matches t v n m0 m1 m66 h = record {
  same_length = n;
  each = λ i l. sent_near t v i m0 m1 m66 h (omega arith);
}

passed :
    (b : Bool) (o : Option Frame) (f : Frame)
    → (if b then none else o) ≡ some f
    → (b ≡ false) × (o ≡ some f)
passed true o f h = absurd (ground arith)
passed false o f h = (refl, h)

all_pass :
    (a b c d : Bool)
    → (a || not b || not c || not d) ≡ false
    → (a ≡ false) × (b ≡ true) × (c ≡ true) × (d ≡ true)
all_pass a b c d h = ground arith

all_hold :
    (a b c d : Bool) → (a && b && c && d) ≡ true → (a ≡ true) × (b ≡ true) × (c ≡ true) × (d ≡ true)
all_hold a b c d h = ground arith

-- the tests that a capture passes that is not a repeat code
whole_frame :
    (t : List ℕ) (f : Frame)
    → is_repeat t ≡ false
    → decode t ≡ some f
    → (length t ≡ 67)
      × (near (at t 0) lead_mark ≡ true)
      × (near (at t 1) lead_space ≡ true)
      × (near (at t 66) bit_mark ≡ true)
      × (read_words (read_bits 32 0 t 0) ≡ some f)
unfolding decode
whole_frame t f r h =
    let (p, q) = passed _ (read_words (read_bits 32 0 t 0)) f (rw r at h) in
    let (a, b, c, d) = all_pass _ _ _ _ p in (ground arith, b, c, d, q)

read_words-word :
    (o : Option ℕ) (f : Frame)
    → read_words o ≡ some f
    → (v : ℕ) × (o ≡ some v) × (read_word v ≡ some f)
read_words-word none f h = absurd (ground arith)
read_words-word (some v) f h = (v, refl, h)

three-near :
    (t : List ℕ) (i : ℕ)
    → near (at t 0) lead_mark ≡ true
    → near (at t 1) repeat_space ≡ true
    → near (at t 2) bit_mark ≡ true
    → i < 3
    → near (at t i) (at (lead_mark ∷ repeat_space ∷ bit_mark ∷ []) i) ≡ true
three-near t zero a b c l = a
three-near t (suc zero) a b c l = b
three-near t (suc (suc zero)) a b c l = c
three-near t (suc (suc (suc i))) a b c l = absurd (omega arith)

repeat-Matches : (t : List ℕ) → is_repeat t ≡ true → Matches t (encode repeat_frame).1
unfolding is_repeat encode push
repeat-Matches t h =
    let (a, b, c, d) = all_hold _ _ _ _ h in
    let n : length t ≡ 3 = ==→eq _ _ a in
    record { same_length = n; each = λ i l. three-near t i b c d (omega arith) }

-- The decoder accepts only what the encoder makes: a frame that it makes of a capture is one that the
-- encoder sends, and the capture has as many durations as what is sent, each of which matches the one
-- sent there within the tolerance of 25 percent, or 60 us. So the leader, all 32 bits, the inverted command
-- and, for plain NEC, the inverted address are as they should be.
pub decode-Matches :
    (t : List ℕ) (f : Frame) → decode t ≡ some f → ((encode f).0 ≡ ok) × Matches t (encode f).1
unfolding decode encode
decode-Matches t f h = elim (Bool-cases (is_repeat t)) [
  | inl e ↦
      subst (λ g. ((encode g).0 ≡ ok) × Matches t (encode g).1)
        (some_inj repeat_frame f (rw e at h)) (refl, repeat-Matches t e)
  | inr e ↦
      let (n, m0, m1, m66, r) = whole_frame t f e h in
      let (v, q, w) = read_words-word (read_bits 32 0 t 0) f r in
      let g = read_bits-Reads 32 0 32 t 0 v refl (omega arith) q in
      let x = read_word-Sends v f g.size w in
      (
        x.accepts,
        subst (Matches t) (sym x.sends)
            (sent-Matches t v n m0 m1 m66 (λ j l. g.heard j (omega arith) l)),
      )
]
