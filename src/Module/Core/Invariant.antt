-- ===== src/Module/Core/Invariant.antt =====
-- What holds of the module table between any two critical sections.
use stark_one.Base.{
  ℕ, zero, suc, ◌+◌, ◌≤◌, ◌≡◌, inl, inr, refl, ap, ◌∙◌, min, bit_and, bit_or, Bool, true, ◌&&◌,
  Option, none, some, get_elem?, set, All-set, All-get, length-set, List, [], ◌∷◌, length,
  length-append, length-take, All, All-map, map, take, ltb, ltb→lt, Bool-cases, arith,
}
use stark_one.Base.Bits.{bit, bit-bit_and}
use stark_one.Module.Slot.{Slot, Kind, Wiring, Reply, revoke, tick_slot}
use stark_one.Module.Slot.Invariant.{SlotOk, tick_slot-SlotOk}
use stark_one.Module.Core.{
  Core, complement, caps_wiring, caps_known, unconflict, conflicted, exclusive, clash, against,
  first_against, conflicts, resolve_conflicts, recompute, fresh_slots, init, poll_slot, poll,
  confirm, provide, max_slots, max_providers,
}

pub record CoreOk (c : Core) : Type 0 where
  pub slots_ok : All SlotOk c.slots
  pub slots_in : length c.slots ≤ max_slots
  pub providers_in : length c.providers ≤ max_providers
  pub confirmed_only : (k : ℕ) → bit k c.caps ≤ bit k c.confirmed
  pub no_wiring : (bit 3 c.caps ≡ 0) × (bit 4 c.caps ≡ 0)
  pub known_only : (k : ℕ) → bit (suc (suc (suc (suc (suc k))))) c.caps ≡ 0

unconflict-SlotOk : (s : Slot) → SlotOk s → SlotOk (unconflict s)
unconflict-SlotOk s v = ground arith

conflicted-SlotOk : (s : Slot) → SlotOk s → s.valid ≡ true → SlotOk (conflicted s)
unfolding revoke
conflicted-SlotOk s v h = ground arith

against-ok :
    (a : Slot) (bs : List Slot) (w : ℕ)
    → SlotOk a
    → a.valid ≡ true
    → All SlotOk bs
    → let (a', bs', w') = against a bs w in SlotOk a' × All SlotOk bs' × (length bs' ≡ length bs)
unfolding against revoke
against-ok a [] w va h vb = (va, tt, refl)
against-ok a (b ∷ bs) w va h vb = elim (Bool-cases (b.valid && clash a b)) [
  | inl t ↦ rw t (
      let (x, y, z) =
        against-ok (conflicted a) bs (bit_or w (exclusive a b)) (conflicted-SlotOk a va h) h vb.1 in
      (x, (conflicted-SlotOk b vb.0 (ground arith), y), omega arith))
  | inr f ↦ rw f (let (x, y, z) = against-ok a bs w va h vb.1 in (x, (vb.0, y), omega arith))
]

first_against-ok :
    (a : Slot) (bs : List Slot) (w : ℕ)
    → SlotOk a
    → All SlotOk bs
    → let (a', bs', w') = first_against a bs w in
      SlotOk a' × All SlotOk bs' × (length bs' ≡ length bs)
unfolding first_against
first_against-ok a bs w va vb = elim (Bool-cases a.valid) [
  | inl t ↦ simp t (against-ok a bs w va t vb)
  | inr f ↦ simp f (va, vb, refl)
]

conflicts-ok :
    (k : ℕ) (ss : List Slot) (w : ℕ)
    → All SlotOk ss
    → let (ss', w') = conflicts k ss w in All SlotOk ss' × (length ss' ≡ length ss)
unfolding conflicts
conflicts-ok zero ss w v = (v, refl)
conflicts-ok (suc k) [] w v = (tt, refl)
conflicts-ok (suc k) (a ∷ bs) w v =
    let (x, y, z) = first_against-ok a bs w v.0 v.1 in
    let (p, q) = conflicts-ok k (first_against a bs w).1 (first_against a bs w).2 y in
    ((x, p), omega arith)

length-map : (ss : List Slot) → length (map unconflict ss) ≡ length ss
length-map [] = refl
length-map (s ∷ ss) = ap suc (length-map ss)

resolve_conflicts-ok :
    (ss : List Slot)
    → All SlotOk ss
    → All SlotOk (resolve_conflicts ss).0 × (length (resolve_conflicts ss).0 ≡ length ss)
unfolding resolve_conflicts
resolve_conflicts-ok ss v =
    let (p, q) =
      conflicts-ok (length ss) (map unconflict ss) 0
        (All-map SlotOk unconflict unconflict-SlotOk ss v) in
    (p, q ∙ length-map ss)

pub bit-zero : (k : ℕ) → bit k 0 ≡ 0
bit-zero zero = refl
bit-zero (suc k) = bit-zero k

-- the capabilities that `recompute` lets through, by the confirmed and the withheld ones
abbrev effective : ℕ → ℕ → ℕ
effective confirmed withheld =
    bit_and (bit_and (bit_and confirmed (complement withheld)) caps_known) (complement caps_wiring)

pub bit-effective :
    (k confirmed withheld : ℕ)
    → bit k (effective confirmed withheld)
      ≡ min
          (min (min (bit k confirmed) (bit k (complement withheld))) (bit k caps_known))
          (bit k (complement caps_wiring))
bit-effective k c w = omega (
  arith,
  bit-bit_and k (bit_and (bit_and c (complement w)) caps_known) (complement caps_wiring),
  bit-bit_and k (bit_and c (complement w)) caps_known,
  bit-bit_and k c (complement w),
)

recompute_from :
    (c : Core)
    → All SlotOk c.slots
    → length c.slots ≤ max_slots
    → length c.providers ≤ max_providers
    → CoreOk (recompute c).0
unfolding recompute
recompute_from c v l p =
    let (ok, size) = resolve_conflicts-ok c.slots v in
    let w = (resolve_conflicts c.slots).1 in
    record {
      slots_ok = ok;
      slots_in = omega arith;
      providers_in = p;
      confirmed_only = λ k. omega (arith, bit-effective k c.confirmed w);
      no_wiring = (
        omega (arith, bit-effective 3 c.confirmed w),
        omega (arith, bit-effective 4 c.confirmed w),
      );
      known_only = λ k.
          omega (arith, bit-effective (suc (suc (suc (suc (suc k))))) c.confirmed w, bit-zero k);
    }

pub recompute-CoreOk : (c : Core) → CoreOk c → CoreOk (recompute c).0
recompute-CoreOk c v = recompute_from c v.slots_ok v.slots_in v.providers_in

pub with_slot-CoreOk :
    (c : Core) (i : ℕ) (s : Slot)
    → CoreOk c
    → SlotOk s
    → CoreOk (record c { slots = set c.slots i s })
with_slot-CoreOk c i s v h = record {
  slots_ok = All-set SlotOk c.slots i s v.slots_ok h;
  slots_in = omega (arith, length-set c.slots i s, v.slots_in);
  providers_in = v.providers_in;
  confirmed_only = v.confirmed_only;
  no_wiring = v.no_wiring;
  known_only = v.known_only;
}

poll_slot-CoreOk :
    (bus : ℕ → Reply) (c : Core) (i : ℕ) (o : Option Slot)
    → get_elem? c.slots i ≡ o
    → CoreOk c
    → CoreOk (poll_slot bus c i o).0
unfolding poll_slot
poll_slot-CoreOk bus c i none e v = v
poll_slot-CoreOk bus c i (some s) e v =
    with_slot-CoreOk c i (tick_slot s (bus s.wire.addr)).0 v
      (tick_slot-SlotOk s (bus s.wire.addr) (All-get SlotOk c.slots i s v.slots_ok e))

pub poll-CoreOk : (bus : ℕ → Reply) (c : Core) (i : ℕ) → CoreOk c → CoreOk (poll bus c i).0
unfolding poll
poll-CoreOk bus c i v = poll_slot-CoreOk bus c i (get_elem? c.slots i) refl v

pub confirm-CoreOk :
    (c : Core) (caps : ℕ) (present : Bool) → CoreOk c → CoreOk (confirm c caps present).0
unfolding confirm
confirm-CoreOk c caps present v = recompute_from _ v.slots_ok v.slots_in v.providers_in

pub provide-CoreOk :
    (c : Core) (kind : Kind) (name : List ℕ) (caps : ℕ)
    → CoreOk c
    → CoreOk (provide c kind name caps)
unfolding provide
provide-CoreOk c kind name caps v = elim (Bool-cases (ltb (length c.providers) max_providers)) [
  | inr f ↦ rw f v
  | inl t ↦ rw t (record {
    slots_ok = v.slots_ok;
    slots_in = v.slots_in;
    providers_in = omega (
      arith,
      ltb→lt _ _ t,
      length-append c.providers (record { kind = kind; name = name; caps = caps } ∷ []),
    );
    confirmed_only = v.confirmed_only;
    no_wiring = v.no_wiring;
    known_only = v.known_only;
  })
]

fresh_slots-ok :
    (i : ℕ) (ws : List Wiring)
    → All SlotOk (fresh_slots i ws) × (length (fresh_slots i ws) ≡ length ws)
unfolding fresh_slots
fresh_slots-ok i [] = (tt, refl)
fresh_slots-ok i (w ∷ ws) =
    let (p, q) = fresh_slots-ok (i + 1) ws in ((ground arith, p), omega arith)

pub init-CoreOk : (wires : List Wiring) → CoreOk (init wires)
unfolding init
init-CoreOk wires =
    let (p, q) = fresh_slots-ok 0 (take max_slots wires) in
    record {
      slots_ok = p;
      slots_in = omega (arith, length-take max_slots wires);
      providers_in = omega arith;
      confirmed_only = λ k. omega arith;
      no_wiring = (refl, refl);
      known_only = bit-zero;
    }
