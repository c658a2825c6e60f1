-- ===== src/Ir/Guard.antt =====
-- components/stark_ir/ir_tx_guard.c: the gate that every transmission passes.
pub mod Limits
use stark_one.Base.{
  ℕ, zero, suc, ◌+◌, ◌-◌, ◌*◌, ◌/◌, ◌%◌, ◌^◌, Bool, true, false, ◌&&◌, ◌||◌, not, Option, none,
  some, List, [], ◌∷◌, length, ltb, leb, ◌==◌, if◌then◌else◌, word,
}
use stark_one.Err.{Err, ok, invalid_arg, busy}
use stark_one.Ir.{
  Protocol, Signal, max_durations, unknown, nec, necx, rc5, rc6, sirc12, sirc15, sirc20, count,
}

-- IR_TX_MIN_US
abbrev pub min_us : ℕ
min_us = 50

-- IR_TX_MAX_TOTAL_US
abbrev pub max_total_us : ℕ
max_total_us = 1000000

-- IR_TX_MAX_REPEATS
abbrev pub max_repeats : ℕ
max_repeats = 3

-- IR_TX_CARRIER_MIN
abbrev pub carrier_min : ℕ
carrier_min = 30000

-- IR_TX_CARRIER_MAX
abbrev pub carrier_max : ℕ
carrier_max = 60000

-- `ir_tx_plan_t`
pub record Plan : Type 0 where
  pub signal_us : ℕ
  pub period_ms : ℕ
  pub total_ms : ℕ

-- `(us + 999) / 1000`
abbrev pub to_ms : ℕ → ℕ
to_ms us = (us + 999) % word / 1000

pub period_ms : Protocol → ℕ → ℕ
period_ms nec us = 108
period_ms necx us = 108
period_ms rc5 us = 114
period_ms rc6 us = 114
period_ms sirc12 us = 45
period_ms sirc15 us = 45
period_ms sirc20 us = 45
period_ms unknown us = (to_ms us + 100) % word
period_ms count us = (to_ms us + 100) % word

-- The loop over the durations, with what was summed up so far; `none` is its early return.
pub sum_up : ℕ → List ℕ → Option ℕ
sum_up signal [] = some signal
sum_up signal (d ∷ ds) = if ltb d min_us then none else sum_up ((signal + d) % word) ds

-- What the check makes of the sum.
pub plan_of : Protocol → ℕ → Option ℕ → Err × Option Plan
unfolding period_ms
plan_of p repeats none = (invalid_arg, none)
plan_of p repeats (some signal) =
    if ltb max_total_us (signal * (repeats + 1))
    then (invalid_arg, none)
    else (let frame_ms = to_ms signal in
        let period = if ltb (period_ms p signal) frame_ms then frame_ms else period_ms p signal in
        (
          ok,
          some (record {
            signal_us = signal;
            period_ms = period;
            total_ms = (period * repeats % word + frame_ms) % word;
          }),
        ))

-- The tests before the loop.
abbrev pub header_ok : Signal → ℕ → Bool
header_ok s repeats = not (
    length s.timings == 0
    || ltb max_durations (length s.timings)
    || length s.timings % 2 == 0
    || ltb max_repeats repeats
    || ltb s.carrier_hz carrier_min
    || ltb carrier_max s.carrier_hz)

-- A NULL signal is `none`; the plan is what is written to `*plan`.
pub check : Option Signal → ℕ → Err × Option Plan
unfolding sum_up plan_of
check none repeats = (invalid_arg, none)
check (some s) repeats =
    if header_ok s repeats
    then plan_of s.frame.protocol repeats (sum_up 0 s.timings)
    else (invalid_arg, none)

-- The rate limit; `now_ms - last_end_ms` in 32 bits.
pub rate : Bool → ℕ → ℕ → ℕ → Err
rate have_last last_end_ms now_ms min_interval_ms =
    if not have_last
    then ok
    else if leb min_interval_ms ((now_ms + (word - last_end_ms)) % word)
    then ok
    else busy
