-- ===== src/Nfc/Idle.antt =====
-- components/stark_nfc/nfc_poll.c: `nfc_idle_step`, which watches the reader while no app polls.
pub mod Misses
mod Tests
use stark_one.Base.{ℕ, ◌+◌, Bool, true, false, not, ltb, if◌then◌else◌}

-- `nfc_idle_action_t`
pub data IdleAction : Type 0 where
  nothing detect lost : IdleAction

-- `nfc_idle_t`
pub record Idle : Type 0 where
  pub misses : ℕ

-- NFC_IDLE_MISSES
abbrev pub idle_misses : ℕ
idle_misses = 2

pub idle_step : Idle → Bool → Bool → Idle × IdleAction
idle_step s answered ready =
    if answered
    then (record { misses = 0 }, if ready then nothing else detect)
    else if not ready
    then (record { misses = 0 }, nothing)
    else if ltb (s.misses + 1) idle_misses
    then (record { misses = s.misses + 1 }, nothing)
    else (record { misses = 0 }, lost)
