-- ===== src/Nfc/Idle/Misses.antt =====
-- The idle watch, by what it has seen.
use stark_one.Base.{
  ℕ, ◌+◌, ◌%◌, ◌≡◌, refl, Bool, true, false, ◌&&◌, ◌||◌, not, List, [], ◌∷◌, ltb, ◌==◌,
  if◌then◌else◌, arith,
}
use stark_one.Nfc.Idle.{IdleAction, nothing, detect, lost, Idle, idle_misses, idle_step}

-- What was seen: whether the reader answered and whether it was taken to be ready, the latest first.
abbrev pub Seen : Type 0
Seen = List (Bool × Bool)

abbrev pub start : Idle
start = record { misses = 0 }

pub after : Seen → Idle
after [] = start
after ((answered, ready) ∷ h) = (idle_step (after h) answered ready).0

-- how many times in a row, up to now, a ready reader has not answered
pub missed : Seen → ℕ
missed [] = 0
missed ((answered, ready) ∷ h) = if answered || not ready then 0 else missed h + 1

after-missed : (h : Seen) → (after h).misses ≡ missed h % idle_misses
unfolding after missed idle_step
after-missed [] = refl
after-missed ((true, ready) ∷ h) = refl
after-missed ((false, false) ∷ h) = refl
after-missed ((false, true) ∷ h) = let e = after-missed h in ground arith

-- the action by the whole history
pub expected : Seen → IdleAction
expected [] = nothing
expected ((answered, ready) ∷ h) =
    let n = missed ((answered, ready) ∷ h) in
    if answered && not ready
    then detect
    else if ltb 0 n && n % idle_misses == 0
    then lost
    else nothing

-- After any history, the watch asks for a detection exactly when a reader that is not ready answers, and
-- gives a ready reader up exactly at each second miss in a row.
pub idle_step-expected :
    (h : Seen) (answered ready : Bool)
    → (idle_step (after h) answered ready).1 ≡ expected ((answered, ready) ∷ h)
unfolding idle_step expected missed
idle_step-expected h true true = refl
idle_step-expected h true false = refl
idle_step-expected h false false = refl
idle_step-expected h false true = let e = after-missed h in ground arith
