-- ===== src/Module/Lease/Tests.antt =====
-- The table on concrete modules: conflicts, claims, releases, histories.
use stark_one.Base.{ℕ, ◌⊎◌, ◌≡◌, ◌≢◌, refl, true, false, none, some, [], ◌∷◌, arith}
use stark_one.Err.{ok}
use stark_one.Module.Desc.Tests.{nfc_name}
use stark_one.Module.Slot.{Slot, Wiring, Reply, known, cleared}
use stark_one.Module.Slot.Tests.{read_once, plugged}
use stark_one.Module.Core.{Core, init, tick, confirm}
use stark_one.Module.Core.Invariant.{CoreOk, bit-zero}
use stark_one.Module.Core.Conflict.{Refused, Shared, recompute_conflict}
use stark_one.Module.Lease.{Lease, claim, claim_at, claim_slot, claim_answer, release, lease_valid}
use stark_one.Module.Lease.Claims.{Granted, Ended, claim_exclusive, release_lem}
use stark_one.Module.Lease.History.{confirm_step, start, later, tick-Reach, Reach-CoreOk}

abbrev wire : Wiring
wire = record { addr = 80; cs = some 3; irq0 = some 4; irq1 = none }

abbrev module_slot : ℕ → Slot
module_slot caps = record read_once {
  e = record (cleared 0) { state = known; id = 5; declared = caps; name = nfc_name };
  valid = true;
  accepted = true;
}

-- two slots with an NFC module each, and one with a module on the SPI bus
abbrev crowded : Core
crowded = record {
  slots = module_slot 4 ∷ module_slot 4 ∷ [];
  providers = [];
  confirmed = 5;
  caps = 0;
}

abbrev spi_core : Core
spi_core = record { slots = module_slot 8 ∷ []; providers = []; confirmed = 0; caps = 0 }

recompute_conflict_example :
    Refused crowded (module_slot 4) (module_slot 4) ⊎ Shared crowded (module_slot 4) (module_slot 4)
recompute_conflict_example =
    recompute_conflict crowded (module_slot 4) (module_slot 4) refl refl refl

spi_core-CoreOk : CoreOk spi_core
spi_core-CoreOk = record {
  slots_ok = ground arith;
  slots_in = omega arith;
  providers_in = omega arith;
  confirmed_only = λ k. omega arith;
  no_wiring = omega arith;
  known_only = bit-zero;
}

abbrev spi_lease : Lease
spi_lease = record { slot = 0; gen = 0 }

abbrev lent : Core
lent = record spi_core { slots = record (module_slot 8) { owner = some 7; claimed = 8 } ∷ [] }

claim-spi : claim spi_core 0 8 (some 7) ≡ (ok, lent, some spi_lease)
unfolding claim claim_at claim_slot claim_answer
claim-spi = refl

claim_exclusive_example :
    Granted spi_core 0 8 7 lent spi_lease
    × (lease_valid lent (some spi_lease) ≡ true)
    × CoreOk lent
    × ((caps' other : ℕ) → (claim lent 0 caps' (some other)).0 ≢ ok)
claim_exclusive_example = claim_exclusive spi_core 0 8 7 lent spi_lease spi_core-CoreOk claim-spi

release_lem_example :
    (((lease_valid lent (some spi_lease) ≡ false) × (release lent (some spi_lease) ≡ lent))
      ⊎ Ended lent spi_lease (release lent (some spi_lease)))
    × CoreOk (release lent (some spi_lease))
release_lem_example = release_lem lent spi_lease claim_exclusive_example.2

abbrev bus : ℕ → Reply
bus addr = plugged

-- before each section a driver confirms NFC
abbrev others : ℕ → Core → Core
others j c = (confirm c 4 true).0

Reach-CoreOk_example : CoreOk (tick others bus (init (wire ∷ []))).0
Reach-CoreOk_example = Reach-CoreOk (wire ∷ []) (tick others bus (init (wire ∷ []))).0 (
    tick-Reach (wire ∷ []) others bus (init (wire ∷ [])) (λ j d r. later r (confirm_step 4 true))
      start)
