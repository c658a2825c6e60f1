-- ===== src/Base/Words.antt =====
-- `size_t` and `uint32_t` of the ESP32-S3, and the index arithmetic of its circular buffers.
use Prim.Native.Nat.{ℕ, ◌+◌, ◌%◌, ◌^◌, ◌≤◌, ◌<◌}
use mathlib.Core.Path.{◌≡◌, ap}
use native.Mathlib.Omega.{arith}

-- The range of `size_t` and of `uint32_t`.
abbrev pub word : ℕ
word = 2 ^ 32

-- `(i + k) % capacity` in `size_t`
abbrev pub wrap : ℕ → ℕ → ℕ → ℕ
wrap capacity i k = (i + k) % word % capacity

pub wrap_lem :
    (capacity i k : ℕ)
    → i ≤ capacity
    → k ≤ capacity
    → capacity ≤ 2 ^ 31
    → i + k < word
    → wrap capacity i k ≡ (i + k) % capacity
wrap_lem capacity i k hi hk s h = ap (λ j. j % capacity) {x = (i + k) % word} (omega arith)
