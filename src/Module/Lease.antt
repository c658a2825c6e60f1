-- ===== src/Module/Lease.antt =====
-- components/stark_module/module_core.c, the table's clients: claims on a slot's lines, and the list
-- of entries. A NULL argument that the code refuses is `none`.
pub mod Claims
pub mod History
mod Tests
use stark_one.Base.{
  ℕ, zero, suc, ◌+◌, ◌-◌, bit_and, bit_or, Bool, true, false, ◌&&◌, ◌||◌, not, Option, none, some,
  List, [], ◌∷◌, ◌++◌, length, get_elem?, set, take, replicate, map, ltb, ◌==◌, ◌!=◌, if◌then◌else◌,
}
use stark_one.Err
use stark_one.Err.{Err, ok, invalid_arg, not_found, not_supported, busy}
use stark_one.Module.Desc.{cap_mod_spi, cap_mod_irq, desc_ok}
use stark_one.Module.Slot.{Slot, Entry, in_slot, absent, known, is_known, cleared, revoke}
use stark_one.Module.Core.{Core, Provider, complement, caps_wiring}

-- `stark_module_lease_t`
pub record Lease : Type 0 where
  pub slot : ℕ
  pub gen : ℕ

abbrev pub is_some {ℓ} : {A : Type ℓ} → Option A → Bool
is_some none = false
is_some (some _) = true

-- The lines that `caps` names are wired.
abbrev pub wired : Slot → ℕ → Bool
wired s caps =
    (bit_and caps cap_mod_spi == 0 || is_some s.wire.cs)
    && (bit_and caps cap_mod_irq == 0 || (is_some s.wire.irq0 && is_some s.wire.irq1))

-- What `claim` answers for a slot that is there.
pub claim_answer : Slot → ℕ → Err
claim_answer s caps =
    if not (is_known s.e.state)
    then not_found
    else if bit_and s.e.declared caps != caps || not (wired s caps)
    then not_supported
    else if is_some s.owner
    then busy
    else ok

abbrev pub is_ok : Err → Bool
is_ok ok = true
is_ok _ = false

claim_slot : Core → ℕ → ℕ → ℕ → Slot → Err × Core × Option Lease
claim_slot c slot caps owner s =
    if is_ok (claim_answer s caps)
    then (
      ok,
      record c { slots = set c.slots slot (record s { owner = some owner; claimed = caps }) },
      some (record { slot = slot; gen = s.gen }),
    )
    else (claim_answer s caps, c, none)

claim_at : Core → ℕ → ℕ → ℕ → Option Slot → Err × Core × Option Lease
claim_at c slot caps owner none = (invalid_arg, c, none)
claim_at c slot caps owner (some s) =
    if caps == 0 || bit_and caps (complement caps_wiring) != 0
    then (invalid_arg, c, none)
    else claim_slot c slot caps owner s

-- The lease is what is written to `*out`.
pub claim : Core → ℕ → ℕ → Option ℕ → Err × Core × Option Lease
claim c slot caps none = (invalid_arg, c, none)
claim c slot caps (some owner) = claim_at c slot caps owner (get_elem? c.slots slot)

abbrev pub holds : Lease → Slot → Bool
holds l s = is_some s.owner && s.gen == l.gen

leased_slot : Lease → Option Slot → Option Slot
leased_slot l none = none
leased_slot l (some s) = if holds l s then some s else none

-- The slot that a lease holds.
pub leased : Core → Option Lease → Option Slot
unfolding leased_slot
leased c none = none
leased c (some l) = leased_slot l (get_elem? c.slots l.slot)

pub release_slot : Core → Lease → Option Slot → Core
release_slot c l none = c
release_slot c l (some s) = record c { slots = set c.slots l.slot (revoke s) }

pub release : Core → Option Lease → Core
unfolding leased release_slot
release c none = c
release c (some l) = release_slot c l (leased c (some l))

pub lease_valid : Core → Option Lease → Bool
unfolding leased
lease_valid c l = is_some (leased c l)

-- The lines of a lease, `none` for one that is not claimed.
pub lease_pins : Core → Option Lease → Err × Option (Option ℕ × Option ℕ × Option ℕ)
unfolding leased
lease_pins c l = elim (leased c l) [
  | none ↦ (Err.state, none)
  | some s ↦ (
    ok,
    some (
      if bit_and s.claimed cap_mod_spi != 0 then s.wire.cs else none,
      if bit_and s.claimed cap_mod_irq != 0 then s.wire.irq0 else none,
      if bit_and s.claimed cap_mod_irq != 0 then s.wire.irq1 else none,
    ),
  )
]

-- The entry that `module_core_list` makes of a slot.
abbrev pub slot_entry : ℕ → Slot → Entry
slot_entry confirmed s = record (s.e) { confirmed = bit_and s.e.declared confirmed }

-- and of a provider; `snprintf` cuts its name to the zeroed array.
abbrev pub provider_entry : ℕ → Provider → Entry
provider_entry confirmed p = record (cleared 0) {
  kind = p.kind;
  declared = p.caps;
  confirmed = bit_and p.caps confirmed;
  state = if bit_and p.caps confirmed != 0 then known else absent;
  name = take 18 p.name ++ replicate (19 - length (take 18 p.name)) 0;
}

-- The entries written to `out` and how many exist.
pub list : Core → ℕ → List Entry × ℕ
list c max = (
  take max (map (slot_entry c.confirmed) c.slots ++ map (provider_entry c.confirmed) c.providers),
  length c.slots + length c.providers,
)
