-- ===== src/Module/Lease/History.antt =====
-- The module table through any sequence of its operations.
use stark_one.Base.{ℕ, zero, suc, ◌+◌, ◌≡◌, Bool, some, List, length, ◌!=◌, if_both}
use stark_one.Err.{ok}
use stark_one.Module.Slot.{Kind, Wiring, Reply}
use stark_one.Module.Core.{Core, init, recompute, poll, tick_slots, tick, confirm, provide}
use stark_one.Module.Core.Invariant.{
  CoreOk, init-CoreOk, poll-CoreOk, recompute-CoreOk, confirm-CoreOk, provide-CoreOk,
}
use stark_one.Module.Lease.{Lease, claim, release}
use stark_one.Module.Lease.Claims.{claim_exclusive, release_lem}

-- One locked section. A tick is a sequence of them, of `poll_step` and then perhaps a
-- `recompute_step`, with those of other tasks in between. A claim that is refused leaves the table as it is.
pub data Step (c : Core) : Core → Type 0 where
  poll_step : (bus : ℕ → Reply) (i : ℕ) → Step c (poll bus c i).0
  recompute_step : Step c (recompute c).0
  confirm_step : (caps : ℕ) (present : Bool) → Step c (confirm c caps present).0
  provide_step : (kind : Kind) (name : List ℕ) (caps : ℕ) → Step c (provide c kind name caps)
  claim_step :
      (slot caps owner : ℕ) {c' : Core} {l : Lease}
      → claim c slot caps (some owner) ≡ (ok, c', some l)
      → Step c c'
  release_step : (l : Lease) → Step c (release c (some l))

-- The tables that the operations make from `init`.
pub data Reach (wires : List Wiring) : Core → Type 0 where
  start : Reach wires (init wires)
  later : {c d : Core} → Reach wires c → Step c d → Reach wires d

Step-CoreOk : (c d : Core) → Step c d → CoreOk c → CoreOk d
Step-CoreOk c d (poll_step bus i) v = poll-CoreOk bus c i v
Step-CoreOk c d recompute_step v = recompute-CoreOk c v
Step-CoreOk c d (confirm_step caps present) v = confirm-CoreOk c caps present v
Step-CoreOk c d (provide_step kind name caps) v = provide-CoreOk c kind name caps v
Step-CoreOk c d (claim_step slot caps owner {c'} {l} e) v =
    (claim_exclusive c slot caps owner c' l v e).2
Step-CoreOk c d (release_step l) v = (release_lem c l v).1

tick_slots-Reach :
    (wires : List Wiring) (others : ℕ → Core → Core) (bus : ℕ → Reply) (k i : ℕ) (c : Core)
    → ((j : ℕ) (d : Core) → Reach wires d → Reach wires (others j d))
    → Reach wires c
    → Reach wires (tick_slots others bus k i c).0
unfolding tick_slots
tick_slots-Reach wires others bus zero i c o r = r
tick_slots-Reach wires others bus (suc k) i c o r =
    tick_slots-Reach wires others bus k (i + 1) (poll bus (others i c) i).0 o
      (later (o i c r) (poll_step bus i))

-- A whole tick, with other tasks at work between its sections.
pub tick-Reach :
    (wires : List Wiring) (others : ℕ → Core → Core) (bus : ℕ → Reply) (c : Core)
    → ((j : ℕ) (d : Core) → Reach wires d → Reach wires (others j d))
    → Reach wires c
    → Reach wires (tick others bus c).0
unfolding tick
tick-Reach wires others bus c o r =
    let n = length c.slots in
    let p = tick_slots-Reach wires others bus n 0 c o r in
    if_both (λ (x : Core × ℕ). Reach wires x.0) ((tick_slots others bus n 0 c).1 != 0) _ _
      (later (o n (tick_slots others bus n 0 c).0 p) recompute_step) p

-- In whatever order the locked sections of ticks, of confirmations and withdrawals by drivers, and of
-- claims and releases come: an owned slot holds a KNOWN module and its owner only lines that the module
-- declares, the effective capabilities are confirmed ones, known ones, and none of the wiring of a slot.
pub Reach-CoreOk : (wires : List Wiring) (c : Core) → Reach wires c → CoreOk c
Reach-CoreOk wires c start = init-CoreOk wires
Reach-CoreOk wires d (later {c} r s) = Step-CoreOk c d s (Reach-CoreOk wires c r)
