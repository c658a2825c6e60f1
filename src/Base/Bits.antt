-- ===== src/Base/Bits.antt =====
-- Laws of `&`, `|` and `~` on unsigned words, by the bits of a number.
use Prim.Native.Nat.{
  ℕ, zero, suc, ◌+◌, ◌-◌, ◌*◌, ◌/◌, ◌%◌, ◌^◌, ◌≤◌, ◌<◌, min, max, bit_and, bit_or, digits, bitwise,
  bit_and-bitwise, bit_or-bitwise,
}
use mathlib.Core.Path.{◌≡◌, refl, sym, ap, ◌∙◌}
use native.Mathlib.Nat.{
  pow-suc, one-le-pow, mod-eq-sub-mul-div, div-div-eq-div-mul, div-mul-le_self,
}
use native.Mathlib.Omega.{arith}

-- the recursion of the native operations does not depend on its count of digits
digits_fuel :
    (z : ℕ → ℕ) (f : ℕ → ℕ → ℕ) (n m a b : ℕ) → a ≤ n → a ≤ m → digits z f n a b ≡ digits z f m a b
digits_fuel z f zero zero a b p q = refl
digits_fuel z f zero (suc m) zero b p q = refl
digits_fuel z f zero (suc m) (suc a) b p q = absurd (omega arith)
digits_fuel z f (suc n) zero zero b p q = refl
digits_fuel z f (suc n) zero (suc a) b p q = absurd (omega arith)
digits_fuel z f (suc n) (suc m) zero b p q = refl
digits_fuel z f (suc n) (suc m) (suc a) b p q =
    ap (λ (t : ℕ). t * 2 + f (suc a % 2) (b % 2))
      (digits_fuel z f n m (suc a / 2) (b / 2) (omega arith) (omega arith))

pub bitwise_lem :
    (z : ℕ → ℕ) (f : ℕ → ℕ → ℕ) (a b : ℕ)
    → bitwise z f (suc a) b ≡ bitwise z f (suc a / 2) (b / 2) * 2 + f (suc a % 2) (b % 2)
bitwise_lem z f a b =
    ap (λ (t : ℕ). t * 2 + f (suc a % 2) (b % 2))
      (digits_fuel z f a (suc a / 2) (suc a / 2) (b / 2) (omega arith) (omega arith))

zero-bit_and : (b : ℕ) → bit_and 0 b ≡ 0
zero-bit_and b = λ i. bit_and-bitwise 0 b i

zero-bit_or : (b : ℕ) → bit_or 0 b ≡ b
zero-bit_or b = λ i. bit_or-bitwise 0 b i

and_low : (a b : ℕ) → bit_and a b ≡ bit_and (a / 2) (b / 2) * 2 + min (a % 2) (b % 2)
and_low zero b = omega (arith, zero-bit_and b, zero-bit_and (b / 2))
and_low (suc a) b =
    (λ i. bit_and-bitwise (suc a) b i)
    ∙ bitwise_lem (λ b. zero) min a b
    ∙ sym (λ i. bit_and-bitwise (suc a / 2) (b / 2) i * 2 + min (suc a % 2) (b % 2))

or_low : (a b : ℕ) → bit_or a b ≡ bit_or (a / 2) (b / 2) * 2 + max (a % 2) (b % 2)
or_low zero b = omega (arith, zero-bit_or b, zero-bit_or (b / 2))
or_low (suc a) b =
    (λ i. bit_or-bitwise (suc a) b i)
    ∙ bitwise_lem (λ b. b) max a b
    ∙ sym (λ i. bit_or-bitwise (suc a / 2) (b / 2) i * 2 + max (suc a % 2) (b % 2))

-- bit `k` of a number, 0 or 1
abbrev pub bit : ℕ → ℕ → ℕ
bit zero x = x % 2
bit (suc k) x = bit k (x / 2)

pub bit-bit_and : (k x y : ℕ) → bit k (bit_and x y) ≡ min (bit k x) (bit k y)
bit-bit_and zero x y = omega (arith, and_low x y)
bit-bit_and (suc k) x y =
    ap (bit k) {y = bit_and (x / 2) (y / 2)} (omega (arith, and_low x y))
    ∙ bit-bit_and k (x / 2) (y / 2)

pub bit-bit_or : (k x y : ℕ) → bit k (bit_or x y) ≡ max (bit k x) (bit k y)
bit-bit_or zero x y = omega (arith, or_low x y)
bit-bit_or (suc k) x y =
    ap (bit k) {y = bit_or (x / 2) (y / 2)} (omega (arith, or_low x y))
    ∙ bit-bit_or k (x / 2) (y / 2)

pub bit-le : (k x : ℕ) → bit k x ≤ 1
bit-le zero x = omega arith
bit-le (suc k) x = bit-le k (x / 2)

-- `~x` in `n` bits
pub bit-complement : (k n x : ℕ) → k < n → x < 2 ^ n → bit k (2 ^ n - 1 - x) ≡ 1 - bit k x
bit-complement k zero x h l = absurd (omega arith)
bit-complement zero (suc n) x h l = omega (arith, pow-suc 2 n, one-le-pow n 2)
bit-complement (suc k) (suc n) x h l =
    ap (bit k) {y = 2 ^ n - 1 - x / 2} (omega (arith, pow-suc 2 n, one-le-pow n 2))
    ∙ bit-complement k n (x / 2) (omega arith) (omega (arith, pow-suc 2 n))

-- `r | q << k`, for fields that do not overlap
pub bit_or_high : (k r q : ℕ) → r < 2 ^ k → bit_or r (q * 2 ^ k) ≡ r + q * 2 ^ k
bit_or_high zero r q h =
    ap (λ (t : ℕ). bit_or t (q * 1)) {y = 0} (omega arith) ∙ zero-bit_or (q * 1) ∙ omega arith
bit_or_high (suc k) r q h =
    let e : q * 2 ^ suc k ≡ 2 * (q * 2 ^ k) = omega (arith, ap (λ (t : ℕ). q * t) (pow-suc 2 k)) in
    or_low r (q * 2 ^ suc k)
    ∙ ap (λ (t : ℕ). bit_or (r / 2) (t / 2) * 2 + max (r % 2) (t % 2)) e
    ∙ ap (λ (t : ℕ). bit_or (r / 2) t * 2 + max (r % 2) (2 * (q * 2 ^ k) % 2)) {y = q * 2 ^ k}
        (omega arith)
    ∙ omega (arith, bit_or_high k (r / 2) q (omega (arith, pow-suc 2 k)), e)

bit_and-zero : (n x : ℕ) → x ≤ n → bit_and x 0 ≡ 0
bit_and-zero zero x h = ap (λ (t : ℕ). bit_and t 0) {y = 0} (omega arith) ∙ zero-bit_and 0
bit_and-zero (suc n) x h = omega (arith, and_low x 0, bit_and-zero n (x / 2) (omega arith))

mod_double : (x p : ℕ) → 0 < p → (x / 2 % p) * 2 + x % 2 ≡ x % (2 * p)
mod_double x p h = omega (
  arith,
  mod-eq-sub-mul-div x (2 * p),
  ap (λ (t : ℕ). 2 * p * t) (div-div-eq-div-mul x 2 p),
  mod-eq-sub-mul-div (x / 2) p,
  div-mul-le_self (x / 2) p,
)

-- `x & ((1 << k) - 1)`
pub bit_and_low : (k x : ℕ) → bit_and x (2 ^ k - 1) ≡ x % 2 ^ k
bit_and_low zero x = bit_and-zero x x (omega arith) ∙ omega arith
bit_and_low (suc k) x =
    ap (bit_and x) {y = 2 * 2 ^ k - 1} (omega (arith, pow-suc 2 k))
    ∙ and_low x (2 * 2 ^ k - 1)
    ∙ ap (λ (t : ℕ). bit_and (x / 2) t * 2 + min (x % 2) ((2 * 2 ^ k - 1) % 2)) {y = 2 ^ k - 1}
        (omega arith)
    ∙ ap (λ (t : ℕ). t * 2 + min (x % 2) ((2 * 2 ^ k - 1) % 2)) (bit_and_low k (x / 2))
    ∙ omega (arith, one-le-pow k 2)
    ∙ mod_double x (2 ^ k) (one-le-pow k 2 (omega arith))
    ∙ ap (λ (t : ℕ). x % t) (omega (arith, pow-suc 2 k))

-- `x & 1 << k`
pub bit_and-bit : (k x : ℕ) → bit_and x (2 ^ k) ≡ bit k x * 2 ^ k
bit_and-bit zero x = omega (arith, and_low x 1, bit_and-zero (x / 2) (x / 2) (omega arith))
bit_and-bit (suc k) x =
    and_low x (2 ^ suc k)
    ∙ ap (λ (t : ℕ). bit_and (x / 2) t * 2 + min (x % 2) (2 ^ suc k % 2)) {y = 2 ^ k}
        (omega (arith, pow-suc 2 k))
    ∙ ap (λ (t : ℕ). t * 2 + min (x % 2) (2 ^ suc k % 2)) (bit_and-bit k (x / 2))
    ∙ omega (arith, pow-suc 2 k, ap (λ (t : ℕ). bit k (x / 2) * t) (pow-suc 2 k))
