-- ===== src/Storage/Mount/Tests.antt =====
-- A card slot at work.
use stark_one.Base.{ℕ, ◌≡◌, refl, true, false, some}
use stark_one.Err.{ok, io}
use stark_one.Storage.Mount.{
  Core, Timing, Driver, Ran, mounted, tick, probe_result, init, step, run,
}
use stark_one.Storage.Mount.Calls.{held_after, holds, run_ends}
use stark_one.Storage.Mount.Due.{Accounts, step-Accounts}

abbrev timing : Timing
timing = record { retry_ms = 2000; probe_ms = 1000 }

abbrev booted : Core
booted = init true timing 5

abbrev in_use : Core
in_use = record {
  state = mounted;
  timing = timing;
  due_ms = 4294967000;
  due_now = false;
  announced = true;
  generation = 7;
}

-- a card that answers, and a clock that stands still
abbrev good_card : Driver ℕ
good_card = record { ask = λ m a. (ok, m); clock = λ m. m }

run_ends_example :
    (r : Ran ℕ) × (run good_card booted tick 5 ≡ some r)
    × (held_after (holds booted) r.calls ≡ some (holds r.core))
run_ends_example = run_ends good_card booted tick 5 refl

step-Accounts_example : Accounts in_use (step in_use probe_result io 100)
step-Accounts_example = step-Accounts in_use probe_result io 100 refl
