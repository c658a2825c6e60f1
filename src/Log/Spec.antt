-- ===== src/Log/Spec.antt =====
-- What the capture ring promises: a list of bytes that loses its oldest lines whole.
use stark_one.Base.{ℕ, suc, ◌+◌, ◌≤◌, ◌<◌, List, [], ◌∷◌, length, take, ◌==◌, ◌&&◌, if◌then◌else◌}
use stark_one.Log.{newline}

-- The bytes behind the first newline; none if there is no newline.
unfoldable pub without_line : List ℕ → List ℕ
without_line [] = []
without_line (x ∷ xs) = if x == newline then xs else without_line xs

-- `q` becomes `q'` by the loss of as many oldest lines as it takes, and no more, until `n` further
-- bytes fit into `cap`.
pub data Evicts (cap n : ℕ) : ℕ → List ℕ → List ℕ → Type 0 where
  fits : (q : List ℕ) → length q + n ≤ cap → Evicts cap n 0 q q
  loses :
      (k : ℕ) (q q' : List ℕ)
      → cap < length q + n
      → Evicts cap n k (without_line q) q'
      → Evicts cap n (suc k) q q'

-- The longest prefix of whole lines.
unfoldable pub whole_lines : List ℕ → List ℕ
whole_lines [] = []
whole_lines (x ∷ xs) = elim (whole_lines xs) [
  | [] ↦ if x == newline then x ∷ [] else []
  | y ∷ ys ↦ x ∷ y ∷ ys
]

-- What a read of at most `max` bytes takes: whole lines, or a piece of one that is longer.
unfoldable pub chunk : ℕ → List ℕ → List ℕ
chunk max q =
    let lines = whole_lines (take max q) in
    if length lines == 0 && length (take max q) == max then take max q else lines
