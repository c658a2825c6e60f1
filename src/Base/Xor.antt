-- ===== src/Base/Xor.antt =====
-- `^` on unsigned words: which bytes are complements of each other.
use Prim.Native.Nat.{
  ℕ, zero, suc, ◌+◌, ◌-◌, ◌*◌, ◌/◌, ◌%◌, ◌^◌, ◌<◌, bit_xor, differ, bit_xor-bitwise,
}
use mathlib.Core.Path.{◌≡◌, refl, sym, ap, ◌∙◌}
use native.Mathlib.Nat.{pow-suc, one-le-pow}
use native.Mathlib.Omega.{arith}
use stark_one.Base.Bits.{bitwise_lem}

zero-bit_xor : (b : ℕ) → bit_xor 0 b ≡ b
zero-bit_xor b = λ i. bit_xor-bitwise 0 b i

xor_low : (a b : ℕ) → bit_xor a b ≡ bit_xor (a / 2) (b / 2) * 2 + differ (a % 2) (b % 2)
xor_low zero b = omega (arith, zero-bit_xor b, zero-bit_xor (b / 2))
xor_low (suc a) b =
    (λ i. bit_xor-bitwise (suc a) b i)
    ∙ bitwise_lem (λ b. b) differ a b
    ∙ sym (λ i. bit_xor-bitwise (suc a / 2) (b / 2) i * 2 + differ (suc a % 2) (b % 2))

differ_digits : (x y : ℕ) → x < 2 → y < 2 → differ x y ≡ (x + y) % 2
differ_digits zero zero p q = refl
differ_digits zero (suc zero) p q = refl
differ_digits (suc zero) zero p q = refl
differ_digits (suc zero) (suc zero) p q = refl
differ_digits x (suc (suc y)) p q = absurd (omega arith)
differ_digits (suc (suc x)) y p q = absurd (omega arith)

xor_half : (x y : ℕ) → bit_xor x y ≡ bit_xor (x / 2) (y / 2) * 2 + (x % 2 + y % 2) % 2
xor_half x y =
    xor_low x y
    ∙ ap (λ (t : ℕ). bit_xor (x / 2) (y / 2) * 2 + t)
        (differ_digits (x % 2) (y % 2) (omega arith) (omega arith))

-- Two numbers of `k` bits whose exclusive or is all ones are complements.
pub sum-bit_xor : (k x y : ℕ) → x < 2 ^ k → y < 2 ^ k → bit_xor x y ≡ 2 ^ k - 1 → x + y ≡ 2 ^ k - 1
sum-bit_xor zero x y p q h = omega arith
sum-bit_xor (suc k) x y p q h =
    let e = pow-suc 2 k in
    let l = one-le-pow k 2 (omega arith) in
    let s = xor_half x y in
    let high : bit_xor (x / 2) (y / 2) ≡ 2 ^ k - 1 = omega arith in
    omega (arith, sum-bit_xor k (x / 2) (y / 2) (omega arith) (omega arith) high)

-- and the other way round
pub bit_xor-complement : (k x : ℕ) → x < 2 ^ k → bit_xor x (2 ^ k - 1 - x) ≡ 2 ^ k - 1
bit_xor-complement zero x p =
    ap (λ (v : ℕ). bit_xor v (0 - v)) {y = 0} (omega arith) ∙ zero-bit_xor 0
bit_xor-complement (suc k) x p =
    let e = pow-suc 2 k in
    let l = one-le-pow k 2 (omega arith) in
    let r = bit_xor-complement k (x / 2) (omega arith) in
    let s = xor_half x (2 ^ suc k - 1 - x) in
    let half : (2 ^ suc k - 1 - x) / 2 ≡ 2 ^ k - 1 - x / 2 = omega arith in
    let t = ap (λ (v : ℕ). bit_xor (x / 2) v) half in omega arith
