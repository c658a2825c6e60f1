-- ===== src/Module/Slot.antt =====
-- components/stark_module/module_core.c, one slot: its entry, and how probes and reads change it.
pub mod Invariant
pub mod Debounce
pub mod Tests
use stark_one.Base.{
  ℕ, zero, suc, ◌+◌, ◌*◌, ◌%◌, ◌^◌, bit_xor, Bool, true, false, ◌&&◌, ◌||◌, not, Option, none, some,
  List, [], ◌∷◌, length, replicate, take, ltb, ◌==◌, ◌!=◌, if◌then◌else◌, word,
}
use stark_one.Err.{Err, ok}
use stark_one.Module.Desc.{Desc, DescResult, desc_ok, truncated, desc_size, parse, caps_supported}

-- `stark_module_kind_t`
pub data Kind : Type 0 where
  onboard on_bus in_slot : Kind

-- `stark_module_state_t`
pub data State : Type 0 where
  absent known generic conflict : State

-- `stark_module_entry_t`
pub record Entry : Type 0 where
  pub kind : Kind
  pub state : State
  pub slot : ℕ
  pub id : ℕ
  pub rev : ℕ
  pub declared : ℕ
  pub confirmed : ℕ
  pub why : DescResult
  pub unsupported : Bool
  pub name : List ℕ

-- `module_wiring_t`; `none` is a line that the board does not wire (a negative pin).
pub record Wiring : Type 0 where
  pub addr : ℕ
  pub cs : Option ℕ
  pub irq0 : Option ℕ
  pub irq1 : Option ℕ

-- `module_slot_t`; an owner is a name, given by a number.
pub record Slot : Type 0 where
  pub e : Entry
  pub wire : Wiring
  pub owner : Option ℕ
  pub claimed : ℕ
  pub gen : ℕ
  pub misses : ℕ
  pub read_errors : ℕ
  pub valid : Bool
  pub seen : Bool
  pub accepted : Bool
  pub seen_hash : ℕ
  pub accepted_hash : ℕ

-- MODULE_MISS_LIMIT
abbrev pub miss_limit : ℕ
miss_limit = 2

-- MODULE_READ_LIMIT
abbrev pub read_limit : ℕ
read_limit = 3

hash_from : ℕ → List ℕ → ℕ
hash_from h [] = h
hash_from h (b ∷ bs) = hash_from (bit_xor h b * 16777619 % word) bs

pub hash32 : List ℕ → ℕ
unfolding hash_from
hash32 bs = hash_from 2166136261 bs

abbrev pub is_absent : State → Bool
is_absent absent = true
is_absent _ = false

abbrev pub is_known : State → Bool
is_known known = true
is_known _ = false

-- An entry of zero bytes but for its kind, state and slot.
abbrev pub cleared : ℕ → Entry
cleared index = record {
  kind = in_slot;
  state = absent;
  slot = index;
  id = 0;
  rev = 0;
  declared = 0;
  confirmed = 0;
  why = desc_ok;
  unsupported = false;
  name = replicate 19 0;
}

pub clear_entry : Slot → Slot
clear_entry s = record s { e = cleared s.e.slot; valid = false }

pub make_generic : Slot → DescResult → Slot
unfolding clear_entry
make_generic s why = record s {
  e = record (cleared s.e.slot) { state = generic; why = why };
  valid = false;
}

-- The entry of a descriptor that was parsed.
abbrev pub described : ℕ → Desc → Entry
described index d = record (cleared index) {
  state = if caps_supported d.caps then known else generic;
  id = d.id;
  rev = d.rev;
  declared = d.caps;
  unsupported = not (caps_supported d.caps);
  name = d.name;
}

accept_parsed : Slot → DescResult × Option Desc → Slot
unfolding make_generic
accept_parsed s (r, none) = make_generic s r
accept_parsed s (r, some d) = record s { e = described s.e.slot d; valid = caps_supported d.caps }

pub accept : Slot → List ℕ → Slot
unfolding accept_parsed
accept s raw = accept_parsed s (parse (some (take desc_size raw)))

-- Every lease on the slot goes stale.
unfoldable pub revoke : Slot → Slot
revoke s = record s { gen = (s.gen + 1) % word; owner = none; claimed = 0 }

-- What the bus answered: the result of the probe, that of the read (made only if the probe went
-- well) and the bytes read.
pub record Reply : Type 0 where
  pub probe : Err
  pub read : Err
  pub raw : List ℕ

abbrev pub is_ok : Err → Bool
is_ok ok = true
is_ok _ = false

apply_missed : Slot → Slot × Bool
unfolding clear_entry
apply_missed s =
    let misses = if ltb s.misses miss_limit then s.misses + 1 else s.misses in
    let t = record s { seen = false; read_errors = 0; misses = misses } in
    if ltb misses miss_limit || is_absent s.e.state
    then (t, false)
    else (clear_entry (record t { accepted = false }), true)

apply_unread : Slot → Slot × Bool
unfolding make_generic
apply_unread s =
    let errors = if ltb s.read_errors read_limit then s.read_errors + 1 else s.read_errors in
    let t = record s { misses = 0; seen = false; read_errors = errors } in
    if not (is_absent s.e.state) || ltb errors read_limit
    then (t, false)
    else (make_generic t truncated, true)

apply_read : Slot → List ℕ → Slot × Bool
apply_read s raw =
    let h = hash32 (take desc_size raw) in
    let t = record s { misses = 0; read_errors = 0; seen = true; seen_hash = h } in
    if not (s.seen && h == s.seen_hash) || (s.accepted && h == s.accepted_hash)
    then (t, false)
    else (accept (record t { accepted = true; accepted_hash = h }) raw, true)

-- One slot's work after its bus calls; true if the entry changed.
pub apply : Slot → Reply → Slot × Bool
apply s r =
    if not (is_ok r.probe)
    then apply_missed s
    else if not (is_ok r.read)
    then apply_unread s
    else apply_read s r.raw

-- One slot of a polling round, inside the lock.
pub tick_slot : Slot → Reply → Slot × Bool
tick_slot s r = let (s', changed) = apply s r in if changed then (revoke s', true) else (s', false)
