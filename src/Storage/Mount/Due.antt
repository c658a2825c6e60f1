-- ===== src/Storage/Mount/Due.antt =====
-- The state machine sleeps exactly until its next work, and accounts for every change of state.
use stark_one.Base.{
  ℕ, ◌+◌, ◌%◌, ◌≡◌, inl, inr, Bool-cases, Bool, true, false, ◌&&◌, not, if◌then◌else◌, arith, word,
}
use stark_one.Err.{Err}
use stark_one.Storage.Mount.{
  State, Input, Action, Core, Step, not_fitted, absent, mounted, unusable, removed, ejected, tick,
  mount_result, probe_result, present_result, io_error, req_mount, req_eject, nothing, try_mount,
  probe, present_check, unmount, same_state, is_due, still, is_tick, on_due, on_tick,
  on_mount_result, on_probe_result, on_present_result, on_req_mount, on_req_eject, dispatch, step,
}

-- what a card slot does in each state when its time has come
abbrev pub own_action : State → Action
own_action not_fitted = nothing
own_action mounted = probe
own_action ejected = present_check
own_action _ = try_mount

-- whether an input fits a volume that is held or not
abbrev pub in_place : Input → Bool → Bool
in_place mount_result held = not held
in_place probe_result held = held
in_place _ held = true

abbrev pub holds : Core → Bool
holds c = same_state c.state mounted

-- What a step owes to the rest: a change of state is reported, and once a state has been announced
-- nothing else is; the volume is unmounted just when it goes away, which starts a new generation.
pub record Accounts (c : Core) (s : Step) : Type 0 where
  pub reported : s.changed ≡ false → s.core.state ≡ c.state
  pub told : c.announced ≡ true → s.changed ≡ true → same_state s.core.state c.state ≡ false
  pub lost : holds c ≡ true → holds s.core ≡ false → s.action ≡ unmount
  pub unmounts : s.action ≡ unmount → (holds c ≡ true) × (holds s.core ≡ false)
  pub gone : holds c ≡ true → holds s.core ≡ false → s.core.generation ≡ (c.generation + 1) % word
  pub stays : (holds c ≡ true → holds s.core ≡ true) → s.core.generation ≡ c.generation

still-Accounts : (c : Core) → Accounts c (still c)
still-Accounts c = ground arith

on_due-Accounts : (c : Core) (s : State) (now : ℕ) → Accounts c (on_due c s now)
unfolding on_due
on_due-Accounts c not_fitted now = ground arith
on_due-Accounts c absent now = ground arith
on_due-Accounts c mounted now = ground arith
on_due-Accounts c unusable now = ground arith
on_due-Accounts c removed now = ground arith
on_due-Accounts c ejected now = ground arith

on_tick-Accounts : (c : Core) (now : ℕ) → Accounts c (on_tick c now)
unfolding on_tick
on_tick-Accounts c now = elim (Bool-cases (is_due c now)) [
  | inl e ↦ let f = on_due-Accounts c c.state now in simp e f
  | inr e ↦ let f = still-Accounts c in simp e f
]

on_mount_result-Accounts :
    (c : Core) (e : Err) (now : ℕ) → holds c ≡ false → Accounts c (on_mount_result c e now)
unfolding on_mount_result
on_mount_result-Accounts c e now h = ground arith

on_probe_result-Accounts :
    (c : Core) (e : Err) (now : ℕ) → holds c ≡ true → Accounts c (on_probe_result c e now)
unfolding on_probe_result
on_probe_result-Accounts c e now h = ground arith

on_present_result-Accounts : (c : Core) (e : Err) → Accounts c (on_present_result c e)
unfolding on_present_result
on_present_result-Accounts c e = ground arith

on_req_mount-Accounts : (c : Core) (now : ℕ) → Accounts c (on_req_mount c now)
unfolding on_req_mount
on_req_mount-Accounts c now = ground arith

on_req_eject-Accounts : (c : Core) (now : ℕ) → Accounts c (on_req_eject c now)
unfolding on_req_eject
on_req_eject-Accounts c now = ground arith

io_error-Accounts :
    (c : Core)
    → Accounts c (still (if same_state c.state mounted then record c { due_now = true } else c))
io_error-Accounts c = ground arith

dispatch-Accounts :
    (c : Core) (i : Input) (e : Err) (now : ℕ)
    → in_place i (holds c) ≡ true
    → Accounts c (dispatch c i e now)
unfolding dispatch
dispatch-Accounts c tick e now h = on_tick-Accounts c now
dispatch-Accounts c mount_result e now h = on_mount_result-Accounts c e now (ground arith)
dispatch-Accounts c probe_result e now h = on_probe_result-Accounts c e now h
dispatch-Accounts c present_result e now h = on_present_result-Accounts c e
dispatch-Accounts c req_mount e now h = on_req_mount-Accounts c now
dispatch-Accounts c req_eject e now h = on_req_eject-Accounts c now
dispatch-Accounts c io_error e now h = io_error-Accounts c

-- A step reports a change of state, and nothing else once a first state has been announced; it asks
-- for an unmount when a mounted volume goes away and only then, and counts the generation on just then,
-- so that a handle of an earlier generation is stale. The result of a mount comes in only while no
-- volume is mounted, that of a probe only while one is.
pub step-Accounts :
    (c : Core) (i : Input) (e : Err) (now : ℕ)
    → in_place i (holds c) ≡ true
    → Accounts c (step c i e now)
unfolding step
step-Accounts c i e now h = elim (Bool-cases (same_state c.state not_fitted && not (is_tick i))) [
  | inl t ↦ let f = still-Accounts c in simp t f
  | inr u ↦ let f = dispatch-Accounts c i e now h in simp u f
]
