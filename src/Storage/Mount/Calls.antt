-- ===== src/Storage/Mount/Calls.antt =====
-- What `run` does with the card: it ends, and mounts and unmounts go in turns.
use stark_one.Base.{
  ℕ, suc, ◌≡◌, ◌⊎◌, subst, inl, inr, Bool-cases, refl, sym, ap, ◌∙◌, Bool, true, false, ◌&&◌, not,
  Option, none, some, List, [], ◌∷◌, if◌then◌else◌, arith,
}
use mathlib.Core.Option
use stark_one.Err.{Err, ok}
use stark_one.Storage.Mount.{
  State, Input, Action, Core, Step, Call, Ran, Driver, not_fitted, absent, mounted, unusable,
  removed, ejected, tick, mount_result, probe_result, present_result, io_error, req_mount,
  req_eject, nothing, try_mount, probe, present_check, unmount, mount_call, probe_call,
  present_call, invalidate_call, unmount_call, same_state, is_due, still, is_ok, on_due, on_tick,
  on_mount_result, on_probe_result, on_present_result, on_req_mount, on_req_eject, dispatch, step,
  is_tick, perform, again, run_loop, run,
}

-- The calls that make sense while the volume is held, or is not, and whether it is held after them: it
-- is mounted only when it is not held, probed and unmounted only when it is, and the handles are told
-- before it goes.
pub held_after : Bool → List Call → Option Bool
held_after h [] = some h
held_after false (mount_call e ∷ cs) = held_after (is_ok e) cs
held_after true (probe_call e ∷ cs) = held_after true cs
held_after false (present_call e ∷ cs) = held_after false cs
held_after true (invalidate_call ∷ unmount_call ∷ cs) = held_after false cs
held_after _ _ = none

abbrev pub holds : Core → Bool
holds c = same_state c.state mounted

-- What an action Needs of the volume before it, and of the core after it.
abbrev Needs : Action → Bool → Core → Type 0
Needs nothing h c = (holds c ≡ h)
Needs try_mount h c = (h ≡ false) × (holds c ≡ false) × (same_state c.state not_fitted ≡ false)
Needs probe h c = (h ≡ true) × (holds c ≡ true)
Needs present_check h c = (h ≡ false) × (holds c ≡ false)
Needs unmount h c = (h ≡ true) × (holds c ≡ false)

Fits : Bool → Step → Type 0
Fits h s = Needs s.action h s.core

-- The inputs that come from outside of `run`.
abbrev pub is_external : Input → Bool
is_external tick = true
is_external io_error = true
is_external req_mount = true
is_external req_eject = true
is_external _ = false

still-Fits : (c : Core) → Fits (holds c) (still c)
unfolding Fits
still-Fits c = refl

on_due-Fits : (c : Core) (s : State) (now : ℕ) → s ≡ c.state → Fits (holds c) (on_due c s now)
unfolding Fits on_due
on_due-Fits c not_fitted now e = refl
on_due-Fits c absent now e = ground arith
on_due-Fits c mounted now e = ground arith
on_due-Fits c unusable now e = ground arith
on_due-Fits c removed now e = ground arith
on_due-Fits c ejected now e = ground arith

on_tick-Fits : (c : Core) (now : ℕ) → Fits (holds c) (on_tick c now)
unfolding on_tick
on_tick-Fits c now = elim (Bool-cases (is_due c now)) [
  | inl e ↦ let f = on_due-Fits c c.state now refl in simp e f
  | inr e ↦ let f = still-Fits c in simp e f
]

on_req_mount-Fits :
    (c : Core) (now : ℕ)
    → same_state c.state not_fitted ≡ false
    → Fits (holds c) (on_req_mount c now)
unfolding Fits on_req_mount
on_req_mount-Fits c now n = ground arith

on_req_eject-Fits : (c : Core) (now : ℕ) → Fits (holds c) (on_req_eject c now)
unfolding Fits on_req_eject
on_req_eject-Fits c now = ground arith

io_error-Fits :
    (c : Core)
    → Fits (holds c) (still (if same_state c.state mounted then record c { due_now = true } else c))
unfolding Fits
io_error-Fits c = ground arith

dispatch-Fits :
    (c : Core) (i : Input) (e : Err) (now : ℕ)
    → is_external i ≡ true
    → (same_state c.state not_fitted && not (is_tick i)) ≡ false
    → Fits (holds c) (dispatch c i e now)
unfolding dispatch
dispatch-Fits c tick e now x n = on_tick-Fits c now
dispatch-Fits c mount_result e now x n = absurd (ground arith)
dispatch-Fits c probe_result e now x n = absurd (ground arith)
dispatch-Fits c present_result e now x n = absurd (ground arith)
dispatch-Fits c io_error e now x n = io_error-Fits c
dispatch-Fits c req_mount e now x n = on_req_mount-Fits c now (ground arith)
dispatch-Fits c req_eject e now x n = on_req_eject-Fits c now

step-Fits :
    (c : Core) (i : Input) (e : Err) (now : ℕ)
    → is_external i ≡ true
    → Fits (holds c) (step c i e now)
unfolding step
step-Fits c i e now x = elim (Bool-cases (same_state c.state not_fitted && not (is_tick i))) [
  | inl t ↦ let f = still-Fits c in simp t f
  | inr u ↦ let f = dispatch-Fits c i e now x u in simp u f
]

after_mount :
    (c : Core) (e : Err) (now : ℕ)
    → holds c ≡ false
    → same_state c.state not_fitted ≡ false
    → let s = step c mount_result e now in (s.action ≡ nothing) × (holds s.core ≡ is_ok e)
unfolding step dispatch on_mount_result
after_mount c e now h n = ground arith

after_probe :
    (c : Core) (e : Err) (now : ℕ)
    → holds c ≡ true
    → let s = step c probe_result e now in
      (is_ok e ≡ true → (s.action ≡ nothing) × (holds s.core ≡ true))
      × (is_ok e ≡ false → (s.action ≡ unmount) × (holds s.core ≡ false))
unfolding step dispatch on_probe_result
after_probe c e now h = ground arith

after_present :
    (c : Core) (e : Err) (now : ℕ)
    → holds c ≡ false
    → let s = step c present_result e now in (s.action ≡ nothing) × (holds s.core ≡ false)
unfolding step dispatch on_present_result
after_present c e now h = ground arith

-- A step after which the loop ends.
Last : Bool → Step → Type 0
Last h s = ((s.action ≡ nothing) ⊎ (s.action ≡ unmount)) × Needs s.action h s.core

quiet-Last : (h : Bool) (s : Step) → s.action ≡ nothing → holds s.core ≡ h → Last h s
unfolding Last
quiet-Last h s e f = (inl e, subst (λ a. Needs a h s.core) (sym e) f)

unmount-Last : (s : Step) → s.action ≡ unmount → holds s.core ≡ false → Last true s
unfolding Last
unmount-Last s e f = (inr e, subst (λ a. Needs a true s.core) (sym e) (refl, f))

after_mount-Last :
    (c : Core) (e : Err) (now : ℕ)
    → holds c ≡ false
    → same_state c.state not_fitted ≡ false
    → Last (is_ok e) (step c mount_result e now)
after_mount-Last c e now h n = let (a, b) = after_mount c e now h n in quiet-Last (is_ok e) _ a b

after_probe-Last :
    (c : Core) (e : Err) (now : ℕ) → holds c ≡ true → Last true (step c probe_result e now)
after_probe-Last c e now h =
    let (good, bad) = after_probe c e now h in
    elim (Bool-cases (is_ok e)) [
      | inl t ↦ let (a, b) = good t in quiet-Last true (step c probe_result e now) a b
      | inr f ↦ let (a, b) = bad f in unmount-Last (step c probe_result e now) a b
    ]

after_present-Last :
    (c : Core) (e : Err) (now : ℕ) → holds c ≡ false → Last false (step c present_result e now)
after_present-Last c e now h = let (a, b) = after_present c e now h in quiet-Last false _ a b

module _ {M : Type 0} (d : Driver M) where
  -- The loop ends, and its calls are in turns.
  abbrev Ends : Bool → Option (Ran M) → Type 0
  Ends h o = (r : Ran M) × (o ≡ some r) × (held_after h r.calls ≡ some (holds r.core))

  -- a round after an action that Needs no result
  Ends-here :
      (rec : Step → M → Option (Ran M)) (a : Action) (h : Bool) (s : Step) (m : M)
      → (a ≡ nothing) ⊎ (a ≡ unmount)
      → Needs a h s.core
      → Ends h (perform d rec a s m)
  unfolding perform held_after
  Ends-here rec nothing h s m x f = (_, refl, ap some (sym f))
  Ends-here rec unmount h s m x (f, g) = (_, refl, rw (f, g) refl)
  Ends-here rec try_mount h s m x f = absurd (ground arith)
  Ends-here rec probe h s m x f = absurd (ground arith)
  Ends-here rec present_check h s m x f = absurd (ground arith)

  Last-round : (k : ℕ) (h : Bool) (s : Step) (m : M) → Last h s → Ends h (run_loop d (suc k) s m)
  unfolding run_loop Last
  Last-round k h s m (x, f) = Ends-here (λ t n. run_loop d k t n) s.action h s m x f

  -- an action followed by a round that ends with `held_after h' = some …`
  and_then :
      (rec : Step → M → Option (Ran M)) (a : Action) (i : Input) (call : Err → Call) (h h' : Bool)
      (s : Step) (m : M)
      → ((cs : List Call) → held_after h (call (d.ask m a).0 ∷ cs) ≡ held_after h' cs)
      → Ends h' (rec (step s.core i (d.ask m a).0 (d.clock (d.ask m a).1)) (d.ask m a).1)
      → Ends h (again d rec a i call s m)
  and_then rec a i call h h' s m first (r, e, g) = (_, ap (Option.map _) e, first r.calls ∙ g)

  call_held :
      (e : Err) (cs : List Call)
      → (held_after false (mount_call e ∷ cs) ≡ held_after (is_ok e) cs)
        × (held_after true (probe_call e ∷ cs) ≡ held_after true cs)
        × (held_after false (present_call e ∷ cs) ≡ held_after false cs)
  unfolding held_after
  call_held e cs = (refl, refl, refl)

  Ends-after :
      (k : ℕ) (a : Action) (h : Bool) (s : Step) (m : M)
      → Needs a h s.core
      → Ends h (perform d (λ t n. run_loop d (suc k) t n) a s m)
  unfolding perform
  Ends-after k nothing h s m f =
      Ends-here (λ t n. run_loop d (suc k) t n) nothing h s m (inl refl) f
  Ends-after k unmount h s m f =
      Ends-here (λ t n. run_loop d (suc k) t n) unmount h s m (inr refl) f
  Ends-after k try_mount h s m (f, g, n) =
      let (e, m') = d.ask m try_mount in
      let t = step s.core mount_result e (d.clock m') in
      and_then (λ t n. run_loop d (suc k) t n) try_mount mount_result mount_call h (is_ok e) s m
        (λ cs. ap (λ b. held_after b (mount_call e ∷ cs)) f ∙ (call_held e cs).0)
        (Last-round k (is_ok e) t m' (after_mount-Last s.core e (d.clock m') g n))
  Ends-after k probe h s m (f, g) =
      let (e, m') = d.ask m probe in
      let t = step s.core probe_result e (d.clock m') in
      and_then (λ t n. run_loop d (suc k) t n) probe probe_result probe_call h true s m
        (λ cs. ap (λ b. held_after b (probe_call e ∷ cs)) f ∙ (call_held e cs).1)
        (Last-round k true t m' (after_probe-Last s.core e (d.clock m') g))
  Ends-after k present_check h s m (f, g) =
      let (e, m') = d.ask m present_check in
      let t = step s.core present_result e (d.clock m') in
      and_then (λ t n. run_loop d (suc k) t n) present_check present_result present_call h false s m
        (λ cs. ap (λ b. held_after b (present_call e ∷ cs)) f ∙ (call_held e cs).2)
        (Last-round k false t m' (after_present-Last s.core e (d.clock m') g))

-- Whatever the card answers, an input from outside ends after at most two actions, and the calls made
-- on the card are in turns: it is mounted only while it is not held and unmounted or probed only while
-- it is, the file handles are told before it goes, and it is held in the end just if the state is
-- MOUNTED.
pub run_ends :
    {M : Type 0} (d : Driver M) (c : Core) (i : Input) (m : M)
    → is_external i ≡ true
    → (r : Ran M) × (run d c i m ≡ some r) × (held_after (holds c) r.calls ≡ some (holds r.core))
unfolding run run_loop Fits
run_ends d c i m x =
    let s = step c i ok (d.clock m) in
    Ends-after d 0 s.action (holds c) s m (step-Fits c i ok (d.clock m) x)
