-- ===== src/Ir/Push.antt =====
-- What the encoders and decoders of all protocols share: appending durations, and words bit by bit.
use stark_one.Base.{
  ℕ, suc, ◌+◌, ◌*◌, ◌/◌, ◌%◌, ◌^◌, ◌≤◌, ◌<◌, ◌≡◌, sym, ap, ◌∙◌, bit_and, bit_or, List, [], ◌∷◌,
  ◌++◌, length, ◌!=◌, if◌then◌else◌, arith,
}
use stark_one.Base.Bits.{bit_and_low, bit_or_high}
use native.Mathlib.Nat.{pow-suc, one-le-pow, div-add-mod, div-div-eq-div-mul, mod-lt}
use stark_one.Ir.{push, max_durations}

pub push_lem :
    (t : List ℕ) (us : ℕ)
    → length t < max_durations
    → 0 < us
    → us ≤ 65535
    → push t us ≡ t ++ (us ∷ [])
unfolding push
push_lem t us h p q = ground arith

-- the bits of `v` below the `n`-th
pub low_bit : (v n : ℕ) → v % 2 ^ (n + 1) ≡ v % 2 ^ n + bit_and (v / 2 ^ n) 1 * 2 ^ n
low_bit v n =
    let p = 2 ^ n in
    let q = v / p in
    let double : 2 ^ (n + 1) ≡ p * 2 =
      ap (λ (m : ℕ). 2 ^ m) {y = suc n} (omega arith) ∙ pow-suc 2 n ∙ omega arith in
    let half : v / 2 ^ (n + 1) ≡ q / 2 =
      ap (λ (m : ℕ). v / m) double ∙ sym (div-div-eq-div-mul v p 2) in
    let split : p * q ≡ p * (q / 2) * 2 + p * (q % 2) =
      ap (λ (m : ℕ). p * m) {y = q / 2 * 2 + q % 2} (omega arith) ∙ omega arith in
    let high = ap (λ (m : ℕ). 2 ^ (n + 1) * m) half in
    let twice = ap (λ (m : ℕ). m * (q / 2)) double in
    let bit = ap (λ (m : ℕ). m * p) (bit_and_low 1 q) in
    omega (arith, div-add-mod v p, div-add-mod v (2 ^ (n + 1)))

-- the decoder's word with bit `i` of `v` read
pub next_word :
    (v i w : ℕ)
    → w ≡ v % 2 ^ i
    → (if bit_and (v / 2 ^ i) 1 != 0 then bit_or w (1 * 2 ^ i) else w) ≡ v % 2 ^ (i + 1)
next_word v i w q =
    let l = low_bit v i in
    let b = bit_and_low 1 (v / 2 ^ i) in
    let pos : 0 < 2 ^ i = one-le-pow i 2 (omega arith) in
    let r = bit_or_high i w 1 (omega (arith, mod-lt v pos)) in ground arith
