-- ===== src/Module/Core/Conflict.antt =====
-- Two modules that need the same exclusive hardware.
use stark_one.Base.{
  ℕ, ◌+◌, ◌*◌, ◌%◌, ◌≡◌, ◌≢◌, ◌⊎◌, inl, inr, min, max, Bool-cases, ap, ap₂, ◌∙◌, bit_and, bit_or,
  true, false, none, List, [], ◌∷◌, arith, word,
}
use stark_one.Base.Bits.{bit, bit-bit_and, bit-bit_or, bit-le, bit_and-bit}
use stark_one.Module.Slot.{Slot, known, conflict, revoke}
use stark_one.Module.Core.Invariant.{bit-effective}
use stark_one.Module.Core.{
  Core, complement, caps_exclusive, unconflict, conflicted, exclusive, clash, against,
  first_against, conflicts, resolve_conflicts, recompute,
}

abbrev outer : ℕ → Slot × List Slot × ℕ → List Slot × ℕ
outer k p = (p.0 ∷ (conflicts k p.1 p.2).0, (conflicts k p.1 p.2).1)

first_against_one :
    (a b : Slot) (w : ℕ)
    → a.valid ≡ true
    → b.valid ≡ true
    → clash a b ≡ true
    → first_against a (b ∷ []) w ≡ (conflicted a, conflicted b ∷ [], bit_or w (exclusive a b))
unfolding first_against against
first_against_one a b w va vb h = simp (va, vb, h)

first_against_other :
    (a b : Slot) (w : ℕ) → clash a b ≡ false → first_against a (b ∷ []) w ≡ (a, b ∷ [], w)
unfolding first_against against
first_against_other a b w h = ground arith

first_against_nil : (a : Slot) (w : ℕ) → first_against a [] w ≡ (a, [], w)
unfolding first_against against
first_against_nil a w = ground arith

conflicts_pair :
    (a b : Slot)
    → a.valid ≡ true
    → b.valid ≡ true
    → clash a b ≡ true
    → conflicts 2 (a ∷ b ∷ []) 0 ≡ (conflicted a ∷ conflicted b ∷ [], bit_or 0 (exclusive a b))
unfolding conflicts
conflicts_pair a b va vb h =
    ap (outer 1) (first_against_one a b 0 va vb h)
    ∙ ap (λ (q : List Slot × ℕ). (conflicted a ∷ q.0, q.1))
        (ap (outer 0) (first_against_nil (conflicted b) _))

conflicts_none : (a b : Slot) → clash a b ≡ false → conflicts 2 (a ∷ b ∷ []) 0 ≡ (a ∷ b ∷ [], 0)
unfolding conflicts
conflicts_none a b h =
    ap (outer 1) (first_against_other a b 0 h)
    ∙ ap (λ (q : List Slot × ℕ). (a ∷ q.0, q.1)) (ap (outer 0) (first_against_nil b 0))

abbrev again : Slot → Slot
again s = record s { e = record (s.e) { state = known } }

unconflict_lem : (s : Slot) → s.valid ≡ true → unconflict s ≡ again s
unconflict_lem s v = simp v

resolve_pair :
    (a b : Slot)
    → a.valid ≡ true
    → b.valid ≡ true
    → clash a b ≡ true
    → resolve_conflicts (a ∷ b ∷ [])
      ≡ (conflicted (again a) ∷ conflicted (again b) ∷ [], bit_or 0 (exclusive a b))
unfolding resolve_conflicts
resolve_pair a b va vb h =
    ap₂ (λ (x y : Slot). conflicts 2 (x ∷ y ∷ []) 0) (unconflict_lem a va) (unconflict_lem b vb)
    ∙ conflicts_pair (again a) (again b) va vb h

resolve_apart :
    (a b : Slot)
    → a.valid ≡ true
    → b.valid ≡ true
    → clash a b ≡ false
    → resolve_conflicts (a ∷ b ∷ []) ≡ (again a ∷ again b ∷ [], 0)
unfolding resolve_conflicts
resolve_apart a b va vb h =
    ap₂ (λ (x y : Slot). conflicts 2 (x ∷ y ∷ []) 0) (unconflict_lem a va) (unconflict_lem b vb)
    ∙ conflicts_none (again a) (again b) h

-- A module kept out of use.
pub record Denied (before after : Slot) : Type 0 where
  pub in_conflict : after.e.state ≡ conflict
  pub unowned : after.owner ≡ none
  pub stale : after.gen ≡ (before.gen + 1) % word
  pub still_valid : after.valid ≡ true

-- Two modules that cannot both be served: both need NFC, which the board wires once, or they are the
-- same module twice and one of them needs it.
pub Rivals : Slot → Slot → Type 0
Rivals a b =
    ((bit 2 a.e.declared ≡ 1) × (bit 2 b.e.declared ≡ 1))
    ⊎ ((a.e.id ≡ b.e.id) × (bit 2 a.e.declared + bit 2 b.e.declared ≢ 0))

-- A module in use.
pub record Served (before after : Slot) : Type 0 where
  pub is_known : after.e.state ≡ known
  pub owner_kept : after.owner ≡ before.owner
  pub gen_kept : after.gen ≡ before.gen
  pub kept_valid : after.valid ≡ true

-- `clash` in terms of the bit of NFC in either mask
clash_bits :
    (a b : Slot)
    → (exclusive a b ≡ max (bit 2 a.e.declared) (bit 2 b.e.declared) * 4)
      × (bit_and (bit_and a.e.declared b.e.declared) caps_exclusive
          ≡ min (bit 2 a.e.declared) (bit 2 b.e.declared) * 4)
clash_bits a b = (
  omega (
    arith,
    bit_and-bit 2 (bit_or a.e.declared b.e.declared),
    bit-bit_or 2 a.e.declared b.e.declared,
  ),
  omega (
    arith,
    bit_and-bit 2 (bit_and a.e.declared b.e.declared),
    bit-bit_and 2 a.e.declared b.e.declared,
  ),
)

clash-Rivals : (a b : Slot) → clash a b ≡ true → Rivals a b
unfolding Rivals
clash-Rivals a b h =
    let (x, y) = clash_bits a b in
    let p = bit-le 2 a.e.declared in let q = bit-le 2 b.e.declared in ground arith

clash-not-Rivals : (a b : Slot) → clash a b ≡ false → ¬ Rivals a b
unfolding Rivals
clash-not-Rivals a b h r =
    let (x, y) = clash_bits a b in
    let p = bit-le 2 a.e.declared in let q = bit-le 2 b.e.declared in ground arith

clash-exclusive : (a b : Slot) → clash a b ≡ true → exclusive a b ≡ 4
clash-exclusive a b h =
    let (x, y) = clash_bits a b in
    let p = bit-le 2 a.e.declared in let q = bit-le 2 b.e.declared in ground arith

-- What becomes of two valid modules in slots `a` and `b`, and of NFC.
pub record Refused (c : Core) (a b : Slot) : Type 0 where
  pub rivals : Rivals a b
  pub first : Slot
  pub second : Slot
  pub table : (recompute c).0.slots ≡ first ∷ second ∷ []
  pub first_denied : Denied a first
  pub second_denied : Denied b second
  pub withheld : bit 2 (recompute c).0.caps ≡ 0

pub record Shared (c : Core) (a b : Slot) : Type 0 where
  pub no_rivals : ¬ Rivals a b
  pub first : Slot
  pub second : Slot
  pub table : (recompute c).0.slots ≡ first ∷ second ∷ []
  pub first_served : Served a first
  pub second_served : Served b second
  pub passed_on : bit 2 (recompute c).0.caps ≡ bit 2 c.confirmed

recompute_refuses :
    (c : Core) (a b : Slot)
    → c.slots ≡ a ∷ b ∷ []
    → a.valid ≡ true
    → b.valid ≡ true
    → clash a b ≡ true
    → Refused c a b
unfolding recompute revoke
recompute_refuses c a b e va vb h =
    let p = ap resolve_conflicts e ∙ resolve_pair a b va vb h in
    record {
      rivals = clash-Rivals a b h;
      first = conflicted (again a);
      second = conflicted (again b);
      table = ap (λ q. q.0) p;
      first_denied = ground arith;
      second_denied = ground arith;
      withheld = omega (
        arith,
        bit-effective 2 c.confirmed (resolve_conflicts c.slots).1,
        ap (λ q. bit 2 (complement q.1)) p,
        ap (λ (x : ℕ). bit 2 (complement (bit_or 0 x))) (clash-exclusive a b h),
      );
    }

recompute_shares :
    (c : Core) (a b : Slot)
    → c.slots ≡ a ∷ b ∷ []
    → a.valid ≡ true
    → b.valid ≡ true
    → clash a b ≡ false
    → Shared c a b
unfolding recompute
recompute_shares c a b e va vb h =
    let p = ap resolve_conflicts e ∙ resolve_apart a b va vb h in
    record {
      no_rivals = clash-not-Rivals a b h;
      first = again a;
      second = again b;
      table = ap (λ q. q.0) p;
      first_served = ground arith;
      second_served = ground arith;
      passed_on = omega (
        arith,
        bit-effective 2 c.confirmed (resolve_conflicts c.slots).1,
        ap (λ q. bit 2 (complement q.1)) p,
        bit-le 2 c.confirmed,
      );
    }

-- Two valid modules are refused when both need NFC, or when they have the same ID and one needs it:
-- then both entries are in CONFLICT, their leases are gone, and NFC is withheld from the effective
-- capabilities although a driver may have confirmed it. Else both are KNOWN, keep their leases, and
-- NFC is effective just when it is confirmed.
pub recompute_conflict :
    (c : Core) (a b : Slot)
    → c.slots ≡ a ∷ b ∷ []
    → a.valid ≡ true
    → b.valid ≡ true
    → Refused c a b ⊎ Shared c a b
recompute_conflict c a b e va vb = elim (Bool-cases (clash a b)) [
  | inl t ↦ inl (recompute_refuses c a b e va vb t)
  | inr f ↦ inr (recompute_shares c a b e va vb f)
]
