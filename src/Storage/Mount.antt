-- ===== src/Storage/Mount.antt =====
-- components/stark_storage/storage_core.c: the mount state machine, and `run` of stark_storage.c, which
-- performs what it asks for.
pub mod Calls
pub mod Due
mod Tests
use stark_one.Base.{
  ℕ, zero, suc, ◌+◌, ◌-◌, ◌%◌, ◌^◌, Bool, true, false, ◌&&◌, ◌||◌, not, Option, none, some, List,
  [], ◌∷◌, ◌++◌, ltb, if◌then◌else◌, word,
}
use mathlib.Core.Option
use stark_one.Err.{Err, ok, not_found}

-- `stark_storage_state_t`
pub data State : Type 0 where
  not_fitted absent mounted unusable removed ejected : State

-- `storage_input_t`
pub data Input : Type 0 where
  tick mount_result probe_result present_result io_error req_mount req_eject : Input

-- `storage_action_t`
pub data Action : Type 0 where
  nothing try_mount probe present_check unmount : Action

-- `storage_timing_t`
pub record Timing : Type 0 where
  pub retry_ms : ℕ
  pub probe_ms : ℕ

-- `storage_core_t`
pub record Core : Type 0 where
  pub state : State
  pub timing : Timing
  pub due_ms : ℕ
  pub due_now : Bool
  pub announced : Bool
  pub generation : ℕ

-- `storage_step_t`, with the core it leaves
pub record Step : Type 0 where
  pub core : Core
  pub action : Action
  pub changed : Bool

-- `(int32_t)(now_ms - due_ms) >= 0`
abbrev pub is_due : Core → ℕ → Bool
is_due c now = c.due_now || ltb ((now + (word - c.due_ms)) % word) (2 ^ 31)

abbrev pub schedule : Core → ℕ → ℕ → Core
schedule c now after = record c { due_now = false; due_ms = (now + after) % word }

abbrev pub same_state : State → State → Bool
same_state not_fitted not_fitted = true
same_state absent absent = true
same_state mounted mounted = true
same_state unusable unusable = true
same_state removed removed = true
same_state ejected ejected = true
same_state _ _ = false

abbrev pub entered : Core → State → Core
entered c next = record c { state = next; announced = true }

-- `enter`: whether the change is to be reported.
abbrev pub enter_changed : Core → State → Bool
enter_changed c next = not (same_state next c.state) || not c.announced

pub init : Bool → Timing → ℕ → Core
init fitted timing now = record {
  state = if fitted then absent else not_fitted;
  timing = timing;
  due_ms = now;
  due_now = fitted;
  announced = not fitted;
  generation = 0;
}

abbrev pub still : Core → Step
still c = record { core = c; action = nothing; changed = false }

-- `on_tick`, when something is due
pub on_due : Core → State → ℕ → Step
on_due c mounted now = record {
  core = schedule c now c.timing.probe_ms;
  action = probe;
  changed = false;
}
on_due c ejected now = record {
  core = schedule c now c.timing.retry_ms;
  action = present_check;
  changed = false;
}
on_due c not_fitted now = still c
on_due c absent now = record {
  core = schedule c now c.timing.retry_ms;
  action = try_mount;
  changed = false;
}
on_due c unusable now = record {
  core = schedule c now c.timing.retry_ms;
  action = try_mount;
  changed = false;
}
on_due c removed now = record {
  core = schedule c now c.timing.retry_ms;
  action = try_mount;
  changed = false;
}

pub on_tick : Core → ℕ → Step
unfolding on_due
on_tick c now = if is_due c now then on_due c c.state now else still c

pub on_mount_result : Core → Err → ℕ → Step
on_mount_result c ok now = record {
  core = schedule (entered c mounted) now c.timing.probe_ms;
  action = nothing;
  changed = enter_changed c mounted;
}
on_mount_result c not_found now =
    if same_state c.state removed
    then still c
    else record { core = entered c absent; action = nothing; changed = enter_changed c absent }
on_mount_result c _ now = record {
  core = entered c unusable;
  action = nothing;
  changed = enter_changed c unusable;
}

-- The volume is given up for `next`.
abbrev pub leave : Core → State → ℕ → Step
leave c next now = record {
  core =
      schedule (entered (record c { generation = (c.generation + 1) % word }) next) now
        c.timing.retry_ms;
  action = unmount;
  changed = enter_changed c next;
}

pub on_probe_result : Core → Err → ℕ → Step
on_probe_result c ok now = still c
on_probe_result c _ now = leave c removed now

abbrev pub is_ok : Err → Bool
is_ok ok = true
is_ok _ = false

pub on_present_result : Core → Err → Step
on_present_result c result =
    if same_state c.state ejected && not (is_ok result)
    then record { core = entered c absent; action = nothing; changed = enter_changed c absent }
    else still c

pub on_req_mount : Core → ℕ → Step
on_req_mount c now =
    if not (same_state c.state mounted)
    then record { core = schedule c now c.timing.retry_ms; action = try_mount; changed = false }
    else still c

pub on_req_eject : Core → ℕ → Step
on_req_eject c now = if same_state c.state mounted then leave c ejected now else still c

-- The `switch` of `storage_core_step`.
pub dispatch : Core → Input → Err → ℕ → Step
unfolding on_tick on_mount_result on_probe_result on_present_result on_req_mount on_req_eject
dispatch c tick result now = on_tick c now
dispatch c mount_result result now = on_mount_result c result now
dispatch c probe_result result now = on_probe_result c result now
dispatch c present_result result now = on_present_result c result
dispatch c req_mount result now = on_req_mount c now
dispatch c req_eject result now = on_req_eject c now
dispatch c io_error result now =
    still (if same_state c.state mounted then record c { due_now = true } else c)

abbrev pub is_tick : Input → Bool
is_tick tick = true
is_tick _ = false

pub step : Core → Input → Err → ℕ → Step
step c i result now =
    if same_state c.state not_fitted && not (is_tick i) then still c else dispatch c i result now

pub wait_ms : Core → ℕ → ℕ
wait_ms c now =
    if same_state c.state not_fitted
    then word - 1
    else if is_due c now
    then 0
    else (c.due_ms + (word - now)) % word

-- What `run` does besides the steps: calls on the medium, with their answers, and the file helpers told
-- that their handles are stale.
pub data Call : Type 0 where
  mount_call probe_call present_call : Err → Call
  invalidate_call unmount_call : Call

-- What `run` leaves: the core, the medium, the calls made and the states reported, in order.
pub record Ran (M : Type 0) : Type 0 where
  pub core : Core
  pub medium : M
  pub calls : List Call
  pub reports : List State

-- The medium's driver, by its answer to an action, and the clock.
pub record Driver (M : Type 0) : Type 0 where
  pub ask : M → Action → Err × M
  pub clock : M → ℕ

abbrev pub report : Step → List State
report s = if s.changed then s.core.state ∷ [] else []

module _ {M : Type 0} (d : Driver M) where
  -- an action whose result is the input `i` of a further round
  abbrev pub again :
      (Step → M → Option (Ran M)) → Action → Input → (Err → Call) → Step → M → Option (Ran M)
  again rec a i call s m =
      let (e, m') = d.ask m a in
      Option.map
        (λ (r : Ran M). record r { calls = call e ∷ r.calls; reports = report s ++ r.reports })
        (rec (step s.core i e (d.clock m')) m')

  -- The `switch` of `run` on the action; `rec` is the rest of the loop.
  pub perform : (Step → M → Option (Ran M)) → Action → Step → M → Option (Ran M)
  perform rec try_mount s m = again rec try_mount mount_result mount_call s m
  perform rec probe s m = again rec probe probe_result probe_call s m
  perform rec present_check s m = again rec present_check present_result present_call s m
  perform rec unmount s m = some (record {
    core = s.core;
    medium = (d.ask m unmount).1;
    calls = invalidate_call ∷ unmount_call ∷ [];
    reports = report s;
  })
  perform rec nothing s m =
      some (record { core = s.core; medium = m; calls = []; reports = report s })

  -- The loop of `run`; `none` is a loop that goes on after `k` rounds.
  pub run_loop : ℕ → Step → M → Option (Ran M)
  unfolding perform
  run_loop zero s m = none
  run_loop (suc k) s m = perform (run_loop k) s.action s m

  -- On two rounds: an action and what its result asks for.
  pub run : Core → Input → M → Option (Ran M)
  unfolding run_loop
  run c i m = run_loop 2 (step c i ok (d.clock m)) m
