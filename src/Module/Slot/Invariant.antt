-- ===== src/Module/Slot/Invariant.antt =====
-- What holds of a slot between two rounds.
use stark_one.Base.{
  ℕ, ◌≤◌, ◌<◌, ◌≡◌, ◌≢◌, inl, inr, refl, sym, ap, ap₂, ◌∙◌, bit_and, Bool, true, false, Option,
  none, some, List, take, Bool-cases, arith, word,
}
use stark_one.Module.Desc.{DescResult, Desc, desc_size}
use stark_one.Module.Slot.{
  Slot, Entry, State, Reply, absent, known, generic, conflict, clear_entry, make_generic,
  accept_parsed, accept, revoke, apply_missed, apply_unread, apply_read, apply, tick_slot, hash32,
  miss_limit, read_limit,
}

-- The states that go with a supported descriptor, and those without one.
abbrev pub settled : Bool → State → Bool
settled true known = true
settled true conflict = true
settled false absent = true
settled false generic = true
settled _ _ = false

pub record SlotOk (s : Slot) : Type 0 where
  pub states : settled s.valid s.e.state ≡ true
  pub lent : s.owner ≢ none → s.e.state ≡ known
  pub covered : s.owner ≢ none → bit_and s.e.declared s.claimed ≡ s.claimed
  pub unclaimed : s.owner ≡ none → s.claimed ≡ 0
  pub gen_in : s.gen < word
  pub misses_in : s.misses ≤ miss_limit
  pub errors_in : s.read_errors ≤ read_limit

accept_parsed-states :
    (s : Slot) (p : DescResult × Option Desc)
    → settled (accept_parsed s p).valid (accept_parsed s p).e.state ≡ true
unfolding accept_parsed make_generic
accept_parsed-states s (r, none) = refl
accept_parsed-states s (r, some d) = ground arith

pub revoke-SlotOk :
    (s : Slot)
    → settled s.valid s.e.state ≡ true
    → s.misses ≤ miss_limit
    → s.read_errors ≤ read_limit
    → SlotOk (revoke s)
unfolding revoke
revoke-SlotOk s st m e = ground arith

-- What `apply` leaves: a slot whose entry, claim and generation are untouched, or one whose entry
-- is new and goes with its descriptor.
pub record Applied (s : Slot) (out : Slot × Bool) : Type 0 where
  pub kept :
      out.1 ≡ false
      → (out.0.e ≡ s.e)
        × (out.0.valid ≡ s.valid)
        × (out.0.owner ≡ s.owner)
        × (out.0.claimed ≡ s.claimed)
        × (out.0.gen ≡ s.gen)
  states : out.1 ≡ true → settled out.0.valid out.0.e.state ≡ true
  misses_in : out.0.misses ≤ miss_limit
  errors_in : out.0.read_errors ≤ read_limit

apply_missed-Applied : (s : Slot) → SlotOk s → Applied s (apply_missed s)
unfolding apply_missed clear_entry
apply_missed-Applied s v = ground arith

apply_unread-Applied : (s : Slot) → SlotOk s → Applied s (apply_unread s)
unfolding apply_unread make_generic
apply_unread-Applied s v = ground arith

accept_parsed-counters :
    (s : Slot) (p : DescResult × Option Desc)
    → ((accept_parsed s p).misses ≡ s.misses) × ((accept_parsed s p).read_errors ≡ s.read_errors)
unfolding accept_parsed make_generic
accept_parsed-counters s (r, none) = (refl, refl)
accept_parsed-counters s (r, some d) = (refl, refl)

accept-counters :
    (s : Slot) (raw : List ℕ)
    → ((accept s raw).misses ≡ s.misses) × ((accept s raw).read_errors ≡ s.read_errors)
unfolding accept
accept-counters s raw = accept_parsed-counters s _

accept-states :
    (s : Slot) (raw : List ℕ) → settled (accept s raw).valid (accept s raw).e.state ≡ true
unfolding accept
accept-states s raw = accept_parsed-states s _

-- the slot when `accept` reads its content
abbrev read_anew : Slot → List ℕ → Slot
read_anew s raw = record s {
  misses = 0;
  read_errors = 0;
  seen = true;
  seen_hash = hash32 (take desc_size raw);
  accepted = true;
  accepted_hash = hash32 (take desc_size raw);
}

apply_read-Applied : (s : Slot) (raw : List ℕ) → SlotOk s → Applied s (apply_read s raw)
unfolding apply_read
apply_read-Applied s raw v =
    ground (arith, accept-states (read_anew s raw) raw, accept-counters (read_anew s raw) raw)

pub apply-Applied : (s : Slot) (r : Reply) → SlotOk s → Applied s (apply s r)
unfolding apply
apply-Applied s r v =
    ground (arith, apply_missed-Applied s v, apply_unread-Applied s v, apply_read-Applied s r.raw v)

unchanged-SlotOk :
    (s t : Slot)
    → SlotOk s
    → (t.e ≡ s.e)
      × (t.valid ≡ s.valid)
      × (t.owner ≡ s.owner)
      × (t.claimed ≡ s.claimed)
      × (t.gen ≡ s.gen)
    → t.misses ≤ miss_limit
    → t.read_errors ≤ read_limit
    → SlotOk t
unchanged-SlotOk s t v (e, valid, owner, claimed, gen) m r = record {
  states = ap₂ (λ (b : Bool) (x : Entry). settled b x.state) valid e ∙ v.states;
  lent = λ h. ap (λ (x : Entry). x.state) e ∙ v.lent (λ o. h (owner ∙ o));
  covered = λ h.
      ap₂ (λ (x : Entry) c. bit_and x.declared c) e claimed
      ∙ v.covered (λ o. h (owner ∙ o))
      ∙ sym claimed;
  unclaimed = λ h. claimed ∙ v.unclaimed (sym owner ∙ h);
  gen_in = omega (arith, v.gen_in);
  misses_in = m;
  errors_in = r;
}

-- A round keeps the slot's invariant: in particular only a KNOWN slot stays lent out.
pub tick_slot-SlotOk : (s : Slot) (r : Reply) → SlotOk s → SlotOk (tick_slot s r).0
unfolding tick_slot
tick_slot-SlotOk s r v =
    let a = apply-Applied s r v in
    elim (Bool-cases (apply s r).1) [
      | inl t ↦ rw (t, tick_slot) (revoke-SlotOk (apply s r).0 (a.states t) a.misses_in a.errors_in)
      | inr f ↦
          rw (f, tick_slot) (unchanged-SlotOk s (apply s r).0 v (a.kept f) a.misses_in a.errors_in)
    ]
