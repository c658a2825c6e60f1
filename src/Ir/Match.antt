-- ===== src/Ir/Match.antt =====
-- Which measured durations match which nominal ones, and captures close to what was sent.
use stark_one.Base.{ℕ, ◌+◌, ◌≤◌, ◌≡◌, true, List, length, get_or, arith}
use stark_one.Ir.{matches, tol_floor, tol_pct}

-- at most `tol_floor` apart
pub record Near (measured nominal : ℕ) : Type 0 where
  pub above : nominal ≤ measured + tol_floor
  pub below : measured ≤ nominal + tol_floor

-- A capture of what was sent, each duration off by at most `tol_floor`.
pub record Close (heard sent : List ℕ) : Type 0 where
  pub same_length : length heard ≡ length sent
  pub near : (i : ℕ) → Near (get_or heard i 0) (get_or sent i 0)

-- Every duration that a protocol here sends is far below 2 ^ 32 / 25.
pub matches-Near : (m n : ℕ) → n ≤ 10000 → Near m n → matches m n tol_pct ≡ true
matches-Near m n h near = ground (arith, near)
