-- ===== src/Ir.antt =====
-- components/stark_ir: the infrared lab. A capture or a transmission is the list of its durations in
-- microseconds, a mark first (`ir_timings_t`; its length is `n`).
pub mod Guard
pub mod Match
pub mod Nec
pub mod Push
pub mod Capture
pub mod Sirc
mod Tests
use stark_one.Base.{
  ℕ, zero, suc, ◌+◌, ◌-◌, ◌*◌, ◌/◌, ◌%◌, ◌^◌, bit_and, bit_or, Bool, true, false, ◌&&◌, ◌||◌, not,
  List, [], ◌∷◌, ◌++◌, length, ltb, leb, ◌==◌, if◌then◌else◌, word,
}

-- `ir_protocol_t`
pub data Protocol : Type 0 where
  unknown nec necx rc5 rc6 sirc12 sirc15 sirc20 count : Protocol

-- `ir_frame_t`
pub record Frame : Type 0 where
  pub protocol : Protocol
  pub address : ℕ
  pub command : ℕ
  pub repeat : Bool
  pub toggle : ℕ

-- `ir_signal_t`
pub record Signal : Type 0 where
  pub timings : List ℕ
  pub carrier_hz : ℕ
  pub frame : Frame

-- IR_MAX_DURATIONS
abbrev pub max_durations : ℕ
max_durations = 256

-- IR_TOL_FLOOR_US
abbrev pub tol_floor : ℕ
tol_floor = 60

-- IR_TOL_PCT
abbrev pub tol_pct : ℕ
tol_pct = 25

-- `ir_match`
abbrev pub matches : ℕ → ℕ → ℕ → Bool
matches measured nominal pct =
    let share = nominal * pct % word / 100 in
    let tol = if ltb share tol_floor then tol_floor else share in
    let lo = if ltb tol nominal then nominal - tol else 0 in
    leb lo measured && leb measured ((nominal + tol) % word)

-- `ir_push`, whose result the encoders ignore
pub push : List ℕ → ℕ → List ℕ
push t us = if leb max_durations (length t) || us == 0 || ltb 65535 us then t else t ++ (us ∷ [])
