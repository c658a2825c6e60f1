-- ===== src/Module/Core.antt =====
-- components/stark_module/module_core.c, the table: discovery, effective capabilities and leases.
pub mod Invariant
pub mod Conflict
use stark_one.Base.{
  ℕ, zero, suc, ◌+◌, ◌-◌, ◌*◌, ◌%◌, ◌^◌, bit_and, bit_or, Bool, true, false, ◌&&◌, ◌||◌, not,
  Option, none, some, List, [], ◌∷◌, ◌++◌, length, get_elem?, set, take, map, ltb, ◌==◌, ◌!=◌,
  if◌then◌else◌, word,
}
use stark_one.Err.{Err, ok, invalid_arg, not_found, not_supported, busy, state}
use stark_one.Module.Desc.{cap_ir_tx, cap_ir_rx, cap_nfc, cap_mod_spi, cap_mod_irq}
use stark_one.Module.Slot.{
  Slot, Entry, Wiring, Kind, State, in_slot, absent, known, generic, conflict, Reply, is_known,
  cleared, clear_entry, revoke, tick_slot,
}

-- `provider[]` of `module_core_t`; a name is given by its bytes.
pub record Provider : Type 0 where
  pub kind : Kind
  pub name : List ℕ
  pub caps : ℕ

-- `slots` is `slot[0 .. n - 1]`, `providers` is `provider[0 .. n_providers - 1]`.
pub record Core : Type 0 where
  pub slots : List Slot
  pub providers : List Provider
  pub confirmed : ℕ
  pub caps : ℕ

-- STARK_MODULE_SLOTS
abbrev pub max_slots : ℕ
max_slots = 2

-- the length of `provider[]`
abbrev pub max_providers : ℕ
max_providers = 2

-- `~x` in `uint32_t`
abbrev pub complement : ℕ → ℕ
complement x = 2 ^ 32 - 1 - x

-- CAPS_EXCLUSIVE
abbrev pub caps_exclusive : ℕ
caps_exclusive = cap_nfc

-- CAPS_WIRING
abbrev pub caps_wiring : ℕ
caps_wiring = bit_or cap_mod_spi cap_mod_irq

-- STARK_CAPS_KNOWN
abbrev pub caps_known : ℕ
caps_known = bit_or (bit_or (bit_or (bit_or cap_ir_tx cap_ir_rx) cap_nfc) cap_mod_spi) cap_mod_irq

-- The first loop of `resolve_conflicts`, for one slot.
abbrev pub unconflict : Slot → Slot
unconflict s = if s.valid then record s { e = record (s.e) { state = known } } else s

abbrev pub conflicted : Slot → Slot
conflicted s = revoke (record s { e = record (s.e) { state = conflict } })

abbrev pub exclusive : Slot → Slot → ℕ
exclusive a b = bit_and (bit_or a.e.declared b.e.declared) caps_exclusive

-- Two valid slots that claim the same exclusive capability, or are the same module with one.
abbrev pub clash : Slot → Slot → Bool
clash a b =
    bit_and (bit_and a.e.declared b.e.declared) caps_exclusive != 0
    || (a.e.id == b.e.id && exclusive a b != 0)

-- The inner loop: slot `a` against the later slots, with the capabilities withheld so far.
pub against : Slot → List Slot → ℕ → Slot × List Slot × ℕ
against a [] withheld = (a, [], withheld)
against a (b ∷ bs) withheld =
    let hit = b.valid && clash a b in
    let a' = if hit then conflicted a else a in
    let b' = if hit then conflicted b else b in
    let w = if hit then bit_or withheld (exclusive a b) else withheld in
    let (a'', bs', w') = against a' bs w in (a'', b' ∷ bs', w')

-- One round of the outer loop.
pub first_against : Slot → List Slot → ℕ → Slot × List Slot × ℕ
first_against a bs withheld = if a.valid then against a bs withheld else (a, bs, withheld)

-- The outer loop, by the slots to go.
pub conflicts : ℕ → List Slot → ℕ → List Slot × ℕ
conflicts zero ss withheld = (ss, withheld)
conflicts (suc k) [] withheld = ([], withheld)
conflicts (suc k) (a ∷ bs) withheld =
    let (a', bs', w) = first_against a bs withheld in
    let (rest, w') = conflicts k bs' w in (a' ∷ rest, w')

pub resolve_conflicts : List Slot → List Slot × ℕ
unfolding conflicts
resolve_conflicts ss = conflicts (length ss) (map unconflict ss) 0

-- The effective capabilities; the flag says whether they changed.
pub recompute : Core → Core × Bool
unfolding resolve_conflicts
recompute c =
    let (ss, withheld) = resolve_conflicts c.slots in
    let caps =
      bit_and (bit_and (bit_and c.confirmed (complement withheld)) caps_known)
        (complement caps_wiring) in
    (record c { slots = ss; caps = caps }, caps != c.caps)

-- the slots of `module_core_init`, from the `i`-th on; all else is zero
fresh_slots : ℕ → List Wiring → List Slot
fresh_slots i [] = []
fresh_slots i (w ∷ ws) =
    record {
      e = cleared i;
      wire = w;
      owner = none;
      claimed = 0;
      gen = 0;
      misses = 0;
      read_errors = 0;
      valid = false;
      seen = false;
      accepted = false;
      seen_hash = 0;
      accepted_hash = 0;
    }
    ∷ fresh_slots (i + 1) ws

pub init : List Wiring → Core
unfolding fresh_slots
init wires = record {
  slots = fresh_slots 0 (take max_slots wires);
  providers = [];
  confirmed = 0;
  caps = 0;
}

-- One locked section of `module_core_tick`: the `i`-th slot after its bus calls, which the bus answers
-- by address.
pub poll_slot : (ℕ → Reply) → Core → ℕ → Option Slot → Core × Bool
poll_slot bus c i none = (c, false)
poll_slot bus c i (some s) =
    let (s', changed) = tick_slot s (bus s.wire.addr) in
    (record c { slots = set c.slots i s' }, changed)

pub poll : (ℕ → Reply) → Core → ℕ → Core × Bool
unfolding poll_slot
poll bus c i = poll_slot bus c i (get_elem? c.slots i)

-- Its loop, from the `i`-th slot on with `k` to go; `others i` is what other tasks do to the table
-- before the section of slot `i`, while the lock is free.
unfoldable pub tick_slots : (ℕ → Core → Core) → (ℕ → Reply) → ℕ → ℕ → Core → Core × ℕ
unfolding poll
tick_slots others bus zero i c = (c, 0)
tick_slots others bus (suc k) i c =
    let (c', changed) = poll bus (others i c) i in
    let (c'', mask) = tick_slots others bus k (i + 1) c' in
    (c'', if changed then bit_or mask (2 ^ i) else mask)

-- `others n` comes before the last section, for a table of `n` slots.
unfoldable pub tick : (ℕ → Core → Core) → (ℕ → Reply) → Core → Core × ℕ
unfolding tick_slots
tick others bus c =
    let n = length c.slots in
    let (c', changed) = tick_slots others bus n 0 c in
    if changed != 0 then ((recompute (others n c')).0, changed) else (c', changed)

pub confirm : Core → ℕ → Bool → Core × Bool
confirm c caps present = recompute (record c {
  confirmed = if present then bit_or c.confirmed caps else bit_and c.confirmed (complement caps);
})

pub provide : Core → Kind → List ℕ → ℕ → Core
provide c kind name caps =
    if ltb (length c.providers) max_providers
    then record c {
      providers = c.providers ++ (record { kind = kind; name = name; caps = caps } ∷ []);
    }
    else c
