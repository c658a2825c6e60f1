-- ===== src/Module/Lease/Claims.antt =====
-- Claims and releases: a slot's lines are held by one owner at a time, on a KNOWN module only.
use stark_one.Base.{
  ℕ, ◌+◌, ◌%◌, ◌<◌, ◌≡◌, ◌≢◌, ◌⊎◌, get_elem?-set_ne, ne→==, ==→eq, ==→ne, if_both, word, inl, inr,
  refl, sym, ap, subst, ◌∙◌, bit_and, true, false, ◌||◌, Option, none, some, get_elem?,
  get_elem?-set_self, set, All-get, ◌==◌, ◌!=◌, Bool-cases, arith,
}
use stark_one.Err.{Err, ok}
use stark_one.Module.Slot.{Slot, known, revoke}
use stark_one.Module.Slot.Invariant.{SlotOk, revoke-SlotOk}
use stark_one.Module.Core.{Core, complement, caps_wiring}
use stark_one.Module.Core.Invariant.{CoreOk, with_slot-CoreOk}
use stark_one.Module.Lease.{
  Lease, is_some, is_ok, claim_answer, claim_slot, claim_at, claim, holds, leased_slot, leased,
  release_slot, release, lease_valid,
}

abbrev lent_slot : Slot → ℕ → ℕ → Slot
lent_slot s owner caps = record s { owner = some owner; claimed = caps }

-- What a claim that is granted found, and what it leaves.
pub record Granted (c : Core) (slot caps owner : ℕ) (c' : Core) (l : Lease) : Type 0 where
  pub s : Slot
  pub there : get_elem? c.slots slot ≡ some s
  pub free : s.owner ≡ none
  pub on_known : s.e.state ≡ known
  pub lines : bit_and s.e.declared caps ≡ caps
  pub lease : l ≡ record { slot = slot; gen = s.gen }
  pub after : c' ≡ record c { slots = set c.slots slot (lent_slot s owner caps) }

answer_ok :
    (s : Slot) (caps : ℕ)
    → is_ok (claim_answer s caps) ≡ true
    → (s.owner ≡ none) × (s.e.state ≡ known) × (bit_and s.e.declared caps ≡ caps)
unfolding claim_answer
answer_ok s caps h = ground arith

granted_slot :
    (c : Core) (slot caps owner : ℕ) (s : Slot) (c' : Core) (l : Lease)
    → claim_slot c slot caps owner s ≡ (ok, c', some l)
    → (is_ok (claim_answer s caps) ≡ true)
      × (l ≡ record { slot = slot; gen = s.gen })
      × (c' ≡ record c { slots = set c.slots slot (lent_slot s owner caps) })
unfolding claim_slot
granted_slot c slot caps owner s c' l h = elim (Bool-cases (is_ok (claim_answer s caps))) [
  | inl t ↦ let e = rw t at h in (t, cc, cc)
  | inr f ↦ let e = rw f at h in absurd (ground arith)
]

granted_at :
    (c : Core) (slot caps owner : ℕ) (o : Option Slot) (c' : Core) (l : Lease)
    → claim_at c slot caps owner o ≡ (ok, c', some l)
    → (s : Slot) × (o ≡ some s) × (claim_slot c slot caps owner s ≡ (ok, c', some l))
unfolding claim_at
granted_at c slot caps owner none c' l h = absurd (ground arith)
granted_at c slot caps owner (some s) c' l h =
    elim (Bool-cases (caps == 0 || bit_and caps (complement caps_wiring) != 0)) [
      | inl t ↦ let e = rw t at h in absurd (ground arith)
      | inr f ↦ (s, refl, rw f at h)
    ]

granted :
    (c : Core) (slot caps owner : ℕ) (c' : Core) (l : Lease)
    → claim c slot caps (some owner) ≡ (ok, c', some l)
    → Granted c slot caps owner c' l
unfolding claim
granted c slot caps owner c' l h =
    let (s, there, h') = granted_at c slot caps owner (get_elem? c.slots slot) c' l h in
    let (answer, lease, after) = granted_slot c slot caps owner s c' l h' in
    let (free, on_known, lines) = answer_ok s caps answer in
    record {
      s = s;
      there = there;
      free = free;
      on_known = on_known;
      lines = lines;
      lease = lease;
      after = after;
    }

lent_slot-SlotOk :
    (s : Slot) (owner caps : ℕ)
    → SlotOk s
    → s.e.state ≡ known
    → bit_and s.e.declared caps ≡ caps
    → SlotOk (lent_slot s owner caps)
lent_slot-SlotOk s owner caps v k d = record {
  states = v.states;
  lent = λ _. k;
  covered = λ _. d;
  unclaimed = λ e. absurd (ground arith);
  gen_in = v.gen_in;
  misses_in = v.misses_in;
  errors_in = v.errors_in;
}

Granted-CoreOk :
    (c : Core) (slot caps owner : ℕ) (c' : Core) (l : Lease)
    → Granted c slot caps owner c' l
    → CoreOk c
    → CoreOk c'
Granted-CoreOk c slot caps owner c' l g v = subst CoreOk (sym g.after) (
    with_slot-CoreOk c slot (lent_slot g.s owner caps) v (
      lent_slot-SlotOk g.s owner caps (All-get SlotOk c.slots slot g.s v.slots_ok g.there)
        g.on_known g.lines))

after_grant :
    (c : Core) (slot caps owner : ℕ) (c' : Core) (l : Lease)
    → (g : Granted c slot caps owner c' l)
    → get_elem? c'.slots slot ≡ some (lent_slot g.s owner caps)
after_grant c slot caps owner c' l g =
    ap (λ (x : Core). get_elem? x.slots slot) g.after
    ∙ get_elem?-set_self c.slots slot g.s (lent_slot g.s owner caps) g.there

answer_busy : (s : Slot) (caps : ℕ) → s.owner ≢ none → is_ok (claim_answer s caps) ≡ false
answer_busy s caps h = elim (Bool-cases (is_ok (claim_answer s caps))) [
  | inl t ↦ absurd (h (answer_ok s caps t).0)
  | inr f ↦ f
]

is_ok-false : (e : Err) → is_ok e ≡ false → e ≢ ok
is_ok-false e h p = ground arith

busy_slot :
    (c : Core) (slot caps owner : ℕ) (s : Slot)
    → s.owner ≢ none
    → (claim_at c slot caps owner (some s)).0 ≢ ok
unfolding claim_at claim_slot
busy_slot c slot caps owner s h =
    elim (Bool-cases (caps == 0 || bit_and caps (complement caps_wiring) != 0)) [
      | inl t ↦ rw t (λ e. ground arith)
      | inr f ↦
          rw (f, answer_busy s caps h) (is_ok-false (claim_answer s caps) (answer_busy s caps h))
    ]

holds_slot : (l : Lease) (s : Slot) → holds l s ≡ true → leased_slot l (some s) ≡ some s
unfolding leased_slot
holds_slot l s h = rw h

-- A claim that is granted finds a free slot with a KNOWN module that declares the lines; its lease is
-- valid, the table stays well formed, and until something changes no further claim on the slot is
-- granted, whoever makes it.
pub claim_exclusive :
    (c : Core) (slot caps owner : ℕ) (c' : Core) (l : Lease)
    → CoreOk c
    → claim c slot caps (some owner) ≡ (ok, c', some l)
    → Granted c slot caps owner c' l
      × (lease_valid c' (some l) ≡ true)
      × CoreOk c'
      × ((caps' other : ℕ) → (claim c' slot caps' (some other)).0 ≢ ok)
unfolding lease_valid leased claim
claim_exclusive c slot caps owner c' l v h =
    let g = granted c slot caps owner c' l h in
    let t : Slot = lent_slot g.s owner caps in
    let there : get_elem? c'.slots slot ≡ some t = after_grant c slot caps owner c' l g in
    let lease : Lease = record { slot = slot; gen = g.s.gen } in
    (
      g,
      ap (λ x. is_some (leased_slot x (get_elem? c'.slots x.slot))) g.lease
          ∙ ap (λ o. is_some (leased_slot lease o)) there
          ∙ ap is_some (holds_slot lease t (ground arith)),
      Granted-CoreOk c slot caps owner c' l g v,
      λ caps' other.
          subst (λ o. (claim_at c' slot caps' other o).0 ≢ ok) (sym there)
            (busy_slot c' slot caps' other t (λ e. ground arith)),
    )

leased_slot_there : (l : Lease) (o : Option Slot) (s : Slot) → leased_slot l o ≡ some s → o ≡ some s
unfolding leased_slot
leased_slot_there l none s h = h
leased_slot_there l (some t) s h = elim (Bool-cases (holds l t)) [
  | inl p ↦ rw p at h
  | inr p ↦ let e = rw p at h in absurd (ground arith)
]

-- Whatever is in the lease's slot, if anything, is of another generation.
pub Stale : Lease → Core → Type 0
Stale l c = (s : Slot) → get_elem? c.slots l.slot ≡ some s → s.gen ≢ l.gen

leased_slot_stale :
    (l : Lease) (o : Option Slot)
    → ((s : Slot) → o ≡ some s → s.gen ≢ l.gen)
    → leased_slot l o ≡ none
unfolding leased_slot
leased_slot_stale l none h = refl
leased_slot_stale l (some s) h = let n = ne→== s.gen l.gen (h s refl) in ground arith

Stale-invalid : (l : Lease) (c : Core) → Stale l c → lease_valid c (some l) ≡ false
unfolding Stale lease_valid leased
Stale-invalid l c h = ap is_some (leased_slot_stale l (get_elem? c.slots l.slot) h)

abbrev gen_of : Option Slot → ℕ
gen_of none = 0
gen_of (some s) = s.gen

-- a claim that is granted changes no generation
lent_slot-Stale :
    (l : Lease) (c : Core) (i : ℕ) (s : Slot) (owner caps : ℕ)
    → get_elem? c.slots i ≡ some s
    → Stale l c
    → Stale l (record c { slots = set c.slots i (lent_slot s owner caps) })
unfolding Stale
lent_slot-Stale l c i s owner caps there h t e = elim (Bool-cases (i == l.slot)) [
  | inr f ↦
      h t (sym (get_elem?-set_ne c.slots i l.slot (lent_slot s owner caps) (==→ne i l.slot f)) ∙ e)
  | inl p ↦
      let q = ==→eq i l.slot p in
      let there' = ap (get_elem? c.slots) (sym q) ∙ there in
      let self = get_elem?-set_self c.slots l.slot s (lent_slot s owner caps) there' in
      let same =
        ap (λ (j : ℕ). get_elem? (set c.slots j (lent_slot s owner caps)) l.slot) (sym q) ∙ e in
      let kept = ap gen_of (sym self ∙ same) in λ g. h s there' (kept ∙ g)
]

claim_at-Stale :
    (l : Lease) (c : Core) (slot caps owner : ℕ) (o : Option Slot)
    → get_elem? c.slots slot ≡ o
    → Stale l c
    → Stale l (claim_at c slot caps owner o).1
unfolding claim_at claim_slot
claim_at-Stale l c slot caps owner none e h = h
claim_at-Stale l c slot caps owner (some s) e h =
    if_both (λ (x : Err × Core × Option Lease). Stale l x.1)
      (caps == 0 || bit_and caps (complement caps_wiring) != 0) _ _ h
      (if_both (λ (x : Err × Core × Option Lease). Stale l x.1) (is_ok (claim_answer s caps)) _ _
        (lent_slot-Stale l c slot s owner caps e h) h)

claim-Stale :
    (l : Lease) (c : Core) (slot caps : ℕ) (owner : Option ℕ)
    → Stale l c
    → Stale l (claim c slot caps owner).1
unfolding claim
claim-Stale l c slot caps none h = h
claim-Stale l c slot caps (some owner) h =
    claim_at-Stale l c slot caps owner (get_elem? c.slots slot) refl h

-- The lease `l` of table `c` was held and is ended in `c'`: its slot is free and of the next
-- generation, all else is as it was, and no claim that follows makes the lease valid again.
pub record Ended (c : Core) (l : Lease) (c' : Core) : Type 0 where
  pub s : Slot
  pub there : get_elem? c.slots l.slot ≡ some s
  pub owned : s.owner ≢ none
  pub current : s.gen ≡ l.gen
  pub after : c' ≡ record c {
    slots = set c.slots l.slot (record s { gen = (s.gen + 1) % word; owner = none; claimed = 0 });
  }
  pub invalid : lease_valid c' (some l) ≡ false
  pub for_good :
      (slot caps : ℕ) (owner : Option ℕ) → lease_valid (claim c' slot caps owner).1 (some l) ≡ false

abbrev owner_of : Option Slot → Option ℕ
owner_of none = none
owner_of (some s) = s.owner

held_now : (l : Lease) (t : Slot) → holds l t ≡ true → (t.owner ≢ none) × (t.gen ≡ l.gen)
held_now l t p = ground arith

leased_slot_holds :
    (l : Lease) (o : Option Slot) (s : Slot)
    → leased_slot l o ≡ some s
    → (s.owner ≢ none) × (s.gen ≡ l.gen)
unfolding leased_slot
leased_slot_holds l none s h = absurd (ground arith)
leased_slot_holds l (some t) s h = elim (Bool-cases (holds l t)) [
  | inr p ↦ let e = rw p at h in absurd (ground arith)
  | inl p ↦
      let e = rw p at h in
      let q = held_now l t p in
      subst (λ (o : Option Slot). (owner_of o ≢ none) × (gen_of o ≡ l.gen)) e q
]

revoke-Stale :
    (c : Core) (l : Lease) (s : Slot)
    → get_elem? c.slots l.slot ≡ some s
    → s.gen ≡ l.gen
    → s.gen < word
    → Stale l (record c { slots = set c.slots l.slot (revoke s) })
unfolding Stale revoke
revoke-Stale c l s there e b t h =
    let g = ap gen_of (sym (get_elem?-set_self c.slots l.slot s (revoke s) there) ∙ h) in
    λ q. omega (arith, g, q)

release_slot_lem :
    (c : Core) (l : Lease) (o : Option Slot)
    → CoreOk c
    → leased_slot l (get_elem? c.slots l.slot) ≡ o
    → (((is_some o ≡ false) × (release_slot c l o ≡ c)) ⊎ Ended c l (release_slot c l o))
      × CoreOk (release_slot c l o)
unfolding release_slot revoke
release_slot_lem c l none v e = (inl (refl, refl), v)
release_slot_lem c l (some s) v e =
    let there = leased_slot_there l (get_elem? c.slots l.slot) s e in
    let (owned, current) = leased_slot_holds l (get_elem? c.slots l.slot) s e in
    let ok_s = All-get SlotOk c.slots l.slot s v.slots_ok there in
    let stale = revoke-Stale c l s there current ok_s.gen_in in
    (
      inr (record {
        s = s;
        there = there;
        owned = owned;
        current = current;
        after = refl;
        invalid = Stale-invalid l _ stale;
        for_good = λ slot caps owner. Stale-invalid l _ (claim-Stale l _ slot caps owner stale);
      }),
      with_slot-CoreOk c l.slot (revoke s) v
          (revoke-SlotOk s ok_s.states ok_s.misses_in ok_s.errors_in),
    )

-- Releasing a lease that is not valid changes nothing; releasing a valid one frees its slot, counts the
-- slot's generation on, leaves all else alone, and ends the lease for good: neither then nor after a
-- further claim, by whomever, is it valid. The table stays well formed.
pub release_lem :
    (c : Core) (l : Lease)
    → CoreOk c
    → (((lease_valid c (some l) ≡ false) × (release c (some l) ≡ c))
        ⊎ Ended c l (release c (some l)))
      × CoreOk (release c (some l))
unfolding release lease_valid leased
release_lem c l v = release_slot_lem c l (leased_slot l (get_elem? c.slots l.slot)) v refl
