-- ===== src/Base/Window.antt =====
-- The part of a circular buffer that is in use, as a list: what the event bus and the log ring
-- hold, oldest first.
use Prim.Native.Nat.{ℕ, zero, suc, ◌+◌, ◌-◌, ◌%◌, ◌≤◌, ◌<◌}
use mathlib.Core.Path.{◌≡◌, refl, sym, ap, ap₂, ◌∙◌}
use mathlib.Core.Logic.{◌≢◌}
use mathlib.Core.List.{List, [], ◌∷◌, ◌++◌}
use native.Mathlib.Nat.{mod-add-mod, mod-eq_of_lt, mod-eq-sub-mod, add-zero}
use native.Mathlib.Decide.{dec_lt}
use native.Mathlib.Omega.{arith}
use stark_one.Base.Lists.{length, get_or, set, get_or-set_self, get_or-set_ne}

-- Indices less than a lap apart fall on different cells.
pub lap_ne : (size p q : ℕ) → p < q → q < p + size → p % size ≢ q % size
lap_ne size p q h k e = elim (dec_lt (p % size + (q - p)) size) [
  | yes s ↦ omega (arith, shift, mod-eq_of_lt s)
  | no s ↦ omega (
    arith,
    shift,
    mod-eq-sub-mod {n = p % size + (q - p)} {m = size} (omega arith),
    mod-eq_of_lt {n = p % size + (q - p) - size} {m = size} (omega arith),
  )
]
  where
    shift : (p % size + (q - p)) % size ≡ q % size
    shift = mod-add-mod p size (q - p) ∙ ap (λ k. k % size) (omega arith)

module _ {ℓ} {A : Type ℓ} (d : A) (size : ℕ) where
  -- the `n` cells from the `i`-th behind `head` on
  abbrev pub window : List A → ℕ → ℕ → ℕ → List A
  window buf head i zero = []
  window buf head i (suc n) = get_or buf ((head + i) % size) d ∷ window buf head (i + 1) n

  pub length-window : (buf : List A) (head i n : ℕ) → length (window buf head i n) ≡ n
  length-window buf head i zero = refl
  length-window buf head i (suc n) = ap suc (length-window buf head (i + 1) n)

  -- A new head `k` cells on is the old head with the first `k` cells left out.
  pub window-advance :
      (buf : List A) (head k i n : ℕ)
      → window buf ((head + k) % size) i n ≡ window buf head (k + i) n
  window-advance buf head k i zero = refl
  window-advance buf head k i (suc n) =
      ap₂ ◌∷◌ (ap (λ j. get_or buf j d) same)
        (window-advance buf head k (i + 1) n ∙ ap (λ j. window buf head j n) (omega arith))
    where
      same : ((head + k) % size + i) % size ≡ (head + (k + i)) % size
      same = mod-add-mod (head + k) size i ∙ ap (λ j. j % size) (omega arith)

  pub window-add :
      (buf : List A) (head i m n j : ℕ)
      → j ≡ i + m
      → window buf head i m ++ window buf head j n ≡ window buf head i (m + n)
  window-add buf head i zero n j e =
      ap₂ (λ a b. window buf head a b) {y = i} (omega arith) (omega arith)
  window-add buf head i (suc m) n j e =
      ap (λ l. get_or buf ((head + i) % size) d ∷ l)
        (window-add buf head (i + 1) m n j (omega arith))
      ∙ ap (λ k. window buf head i k) {x = suc (m + n)} (omega arith)

  -- A write ahead of the window, less than a lap away, does not show in it.
  pub window-set_ahead :
      (buf : List A) (head i n j : ℕ) (v : A)
      → i + n ≤ j
      → j < i + size
      → window (set buf ((head + j) % size) v) head i n ≡ window buf head i n
  window-set_ahead buf head i zero j v p q = refl
  window-set_ahead buf head i (suc n) j v p q =
      ap₂ ◌∷◌
        (get_or-set_ne buf ((head + j) % size) ((head + i) % size) v d
          (λ e. lap_ne size (head + i) (head + j) (omega arith) (omega arith) (sym e)))
        (window-set_ahead buf head (i + 1) n j v (omega arith) (omega arith))

  -- Writing the cell just behind the window extends it.
  pub window-set :
      (buf : List A) (head n : ℕ) (v : A)
      → n < size
      → size ≤ length buf
      → window (set buf ((head + n) % size) v) head 0 (n + 1) ≡ window buf head 0 n ++ (v ∷ [])
  window-set buf head n v h s =
      sym (window-add (set buf ((head + n) % size) v) head 0 n 1 n (omega arith))
      ∙ ap₂ ◌++◌ (window-set_ahead buf head 0 n n v (omega arith) (omega arith))
          (ap (λ x. x ∷ []) (get_or-set_self buf ((head + n) % size) v d (omega arith)))

  -- Taking the first cell of a window and moving the head on.
  pub window-pop :
      (buf : List A) (head n : ℕ)
      → head < size
      → 0 < n
      → window buf head 0 n ≡ get_or buf head d ∷ window buf ((head + 1) % size) 0 (n - 1)
  window-pop buf head zero h k = absurd (omega arith)
  window-pop buf head (suc n) h k =
      ap₂ ◌∷◌
        (ap (λ j. get_or buf j d)
          (mod-eq_of_lt {n = head + 0} {m = size} (omega arith) ∙ add-zero head))
        (ap₂ (λ i k. window buf head i k) {y = 1 + 0} (omega arith) (omega arith)
          ∙ sym (window-advance buf head 1 0 (suc n - 1)))
