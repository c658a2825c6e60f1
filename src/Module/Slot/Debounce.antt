-- ===== src/Module/Slot/Debounce.antt =====
-- What it takes to change a slot's entry, over the history of its probes and reads.
use stark_one.Base.{
  ℕ, ◌+◌, ◌%◌, ◌≤◌, ◌<◌, ◌≡◌, ◌≢◌, ◌⊎◌, inl, inr, refl, sym, ap, subst, ◌∙◌, Bool, true, false,
  ◌&&◌, ◌||◌, not, Option, none, some, List, [], ◌∷◌, take, ◌==◌, Bool-cases, if_both,
  if◌then◌else◌, arith, word,
}
use stark_one.Module.Desc.{DescResult, Desc, desc_size}
use stark_one.Module.Slot.{
  Slot, Reply, absent, is_ok, clear_entry, make_generic, accept_parsed, accept, revoke,
  apply_missed, apply_unread, apply_read, apply, tick_slot, hash32,
}
use stark_one.Module.Slot.Invariant.{SlotOk, apply-Applied}

-- The kinds of a reply: no module answered, its EEPROM could not be read, or it was read.
abbrev missed : Reply → Bool
missed r = if is_ok r.probe then false else true

abbrev unread : Reply → Bool
unread r = if is_ok r.probe then (if is_ok r.read then false else true) else false

abbrev content : Reply → ℕ
content r = hash32 (take desc_size r.raw)

-- How many of the latest replies, the first of the list the latest, were misses in a row, or failed
-- reads in a row.
pub misses_run : List Reply → ℕ
misses_run [] = 0
misses_run (r ∷ h) = if missed r then misses_run h + 1 else 0

pub unread_run : List Reply → ℕ
unread_run [] = 0
unread_run (r ∷ h) = if unread r then unread_run h + 1 else 0

-- The latest reply was a read of a content with hash `x`.
pub ReadLast : List Reply → ℕ → Type 0
ReadLast [] x = ⊥
ReadLast (r ∷ h) x = (missed r ≡ false) × (unread r ≡ false) × (content r ≡ x)

-- what claims, releases and conflicts leave alone
pub record SameCounters (s t : Slot) : Type 0 where
  pub misses : t.misses ≡ s.misses
  pub read_errors : t.read_errors ≡ s.read_errors
  pub seen : t.seen ≡ s.seen
  pub seen_hash : t.seen_hash ≡ s.seen_hash

-- The states of a slot by the history of its replies, from one that was never polled. In between,
-- others may change whatever is not a counter.
pub data Polled : List Reply → Slot → Type 0 where
  unpolled : (s : Slot) → s.misses ≡ 0 → s.read_errors ≡ 0 → s.seen ≡ false → Polled [] s
  polled : {h : List Reply} {s : Slot} (r : Reply) → Polled h s → Polled (r ∷ h) (tick_slot s r).0
  touched : {h : List Reply} {s : Slot} (t : Slot) → Polled h s → SameCounters s t → Polled h t

-- The counters say no more than the history.
record Counts (h : List Reply) (s : Slot) : Type 0 where
  misses : s.misses ≤ misses_run h
  errors : s.read_errors ≤ unread_run h
  last : s.seen ≡ true → ReadLast h s.seen_hash

-- what each way of `apply` does to the counters
missed-counters :
    (s : Slot)
    → ((apply_missed s).0.misses ≤ s.misses + 1)
      × ((apply_missed s).0.read_errors ≡ 0)
      × ((apply_missed s).0.seen ≡ false)
      × ((apply_missed s).0.gen ≡ s.gen)
unfolding apply_missed clear_entry
missed-counters s = ground arith

unread-counters :
    (s : Slot)
    → ((apply_unread s).0.misses ≡ 0)
      × ((apply_unread s).0.read_errors ≤ s.read_errors + 1)
      × ((apply_unread s).0.seen ≡ false)
      × ((apply_unread s).0.gen ≡ s.gen)
unfolding apply_unread make_generic
unread-counters s = ground arith

-- what `accept` leaves alone
abbrev SameCounts : Slot → Slot → Type 0
SameCounts s t =
    (t.misses ≡ s.misses)
    × (t.read_errors ≡ s.read_errors)
    × (t.seen ≡ s.seen)
    × (t.seen_hash ≡ s.seen_hash)
    × (t.gen ≡ s.gen)

accept_parsed-counts : (s : Slot) (p : DescResult × Option Desc) → SameCounts s (accept_parsed s p)
unfolding accept_parsed make_generic
accept_parsed-counts s (r, none) = (refl, refl, refl, refl, refl)
accept_parsed-counts s (r, some d) = (refl, refl, refl, refl, refl)

accept-counts : (s : Slot) (raw : List ℕ) → SameCounts s (accept s raw)
unfolding accept
accept-counts s raw = accept_parsed-counts s _

read-counters :
    (s : Slot) (raw : List ℕ)
    → ((apply_read s raw).0.misses ≡ 0)
      × ((apply_read s raw).0.read_errors ≡ 0)
      × ((apply_read s raw).0.seen_hash ≡ hash32 (take desc_size raw))
      × ((apply_read s raw).0.gen ≡ s.gen)
unfolding apply_read
read-counters s raw =
    let h = hash32 (take desc_size raw) in
    let t = record s { misses = 0; read_errors = 0; seen = true; seen_hash = h } in
    let (a, b, c, d, e) = accept-counts (record t { accepted = true; accepted_hash = h }) raw in
    let P : Slot × Bool → Type 0 =
      λ x. (x.0.misses ≡ 0) × (x.0.read_errors ≡ 0) × (x.0.seen_hash ≡ h) × (x.0.gen ≡ s.gen) in
    if_both P (not (s.seen && h == s.seen_hash) || (s.accepted && h == s.accepted_hash)) _ _
      (refl, refl, refl, refl) (a, b, d, e)

missed-run : (r : Reply) (h : List Reply) → missed r ≡ true → misses_run (r ∷ h) ≡ misses_run h + 1
unfolding misses_run
missed-run r h m = rw m refl

unread-run : (r : Reply) (h : List Reply) → unread r ≡ true → unread_run (r ∷ h) ≡ unread_run h + 1
unfolding unread_run
unread-run r h m = rw m refl

apply-Counts :
    (h : List Reply) (s : Slot) (r : Reply)
    → Counts h s
    → Counts (r ∷ h) (apply s r).0 × ((apply s r).0.gen ≡ s.gen)
unfolding apply ReadLast
apply-Counts h s r c = elim (Bool-cases (is_ok r.probe)) [
  | inr f ↦
      let (a, b, d, e) = missed-counters s in
      let n = missed-run r h (rw f refl) in
      simp f (
        record {
          misses = omega (arith, c.misses);
          errors = omega arith;
          last = λ x. absurd (cc (sym x ∙ d));
        },
        e,
      )
  | inl t ↦ elim (Bool-cases (is_ok r.read)) [
    | inr f ↦
        let (a, b, d, e) = unread-counters s in
        let n = unread-run r h (rw (t, f) refl) in
        simp (t, f)
          (
            record {
              misses = omega arith;
              errors = omega (arith, c.errors);
              last = λ x. absurd (cc (sym x ∙ d));
            },
            e,
          )
    | inl u ↦
        let (a, b, d, e) = read-counters s r.raw in
        simp (t, u)
          (
            record {
              misses = omega arith;
              errors = omega arith;
              last = λ x. (rw t refl, rw (t, u) refl, sym d);
            },
            e,
          )
  ]
]

same-Counts : (h : List Reply) (s t : Slot) → SameCounters s t → Counts h s → Counts h t
same-Counts h s t e c = record {
  misses = omega (arith, e.misses, c.misses);
  errors = omega (arith, e.read_errors, c.errors);
  last = λ x. subst (ReadLast h) (sym e.seen_hash) (c.last (sym e.seen ∙ x));
}

tick_slot-Counts :
    (h : List Reply) (s : Slot) (r : Reply) → Counts h s → Counts (r ∷ h) (tick_slot s r).0
unfolding tick_slot revoke
tick_slot-Counts h s r c =
    let d = (apply-Counts h s r c).0 in
    if_both (λ (x : Slot × Bool). Counts (r ∷ h) x.0) (apply s r).1 _ _
      (record { misses = d.misses; errors = d.errors; last = d.last }) d

Polled-Counts : (h : List Reply) (s : Slot) → Polled h s → Counts h s
Polled-Counts _ _ (unpolled s a b c) = record {
  misses = omega arith;
  errors = omega arith;
  last = λ x. absurd (cc (sym x ∙ c));
}
Polled-Counts _ _ (polled {h} {s} r p) = tick_slot-Counts h s r (Polled-Counts h s p)
Polled-Counts _ _ (touched {h} {s} t p e) = same-Counts h s t e (Polled-Counts h s p)

missed_twice : (s : Slot) → (apply_missed s).1 ≡ true → (0 < s.misses) × (s.e.state ≢ absent)
unfolding apply_missed
missed_twice s h = ground arith

unread_thrice : (s : Slot) → (apply_unread s).1 ≡ true → (1 < s.read_errors) × (s.e.state ≡ absent)
unfolding apply_unread
unread_thrice s h = ground arith

read_twice :
    (s : Slot) (raw : List ℕ)
    → (apply_read s raw).1 ≡ true
    → (s.seen ≡ true) × (s.seen_hash ≡ hash32 (take desc_size raw))
unfolding apply_read
read_twice s raw h = ground arith

-- What a change of the entry of `s` by `r` takes, after the replies `h`: two misses in a row for a module
-- that is there, three failed reads in a row for one that is not yet, or two reads in a row whose
-- contents have the same hash.
pub data Reason (h : List Reply) (s : Slot) (r : Reply) : Type 0 where
  gone : 2 ≤ misses_run (r ∷ h) → s.e.state ≢ absent → Reason h s r
  unreadable : 3 ≤ unread_run (r ∷ h) → s.e.state ≡ absent → Reason h s r
  settles : missed r ≡ false → unread r ≡ false → ReadLast h (content r) → Reason h s r

apply-Reason :
    (h : List Reply) (s : Slot) (r : Reply) → Counts h s → (apply s r).1 ≡ true → Reason h s r
unfolding apply
apply-Reason h s r c x = elim (Bool-cases (is_ok r.probe)) [
  | inr f ↦
      let (a, b) = missed_twice s (ground arith) in
      gone (omega (arith, c.misses, missed-run r h (rw f refl))) b
  | inl t ↦ elim (Bool-cases (is_ok r.read)) [
    | inr f ↦
        let (a, b) = unread_thrice s (ground arith) in
        unreadable (omega (arith, c.errors, unread-run r h (rw (t, f) refl))) b
    | inl u ↦
        let (a, b) = read_twice s r.raw (ground arith) in
        settles (rw t refl) (rw (t, u) refl) (subst (ReadLast h) b (c.last a))
  ]
]

-- However a slot was polled before, and whatever claims, releases and conflicts did to it meanwhile: a
-- polling round changes its entry only for one of the reasons of `Reason`, and then revokes the slot's
-- lease; a round that changes no entry leaves entry, owner and generation alone.
pub tick_slot_debounced :
    (h : List Reply) (s : Slot) (r : Reply)
    → Polled h s
    → SlotOk s
    → let (s', changed) = tick_slot s r in
      ((changed ≡ false) × (s'.e ≡ s.e) × (s'.owner ≡ s.owner) × (s'.gen ≡ s.gen))
      ⊎ ((changed ≡ true)
          × (s'.owner ≡ none)
          × (s'.claimed ≡ 0)
          × (s'.gen ≡ (s.gen + 1) % word)
          × Reason h s r)
unfolding tick_slot revoke
tick_slot_debounced h s r p v =
    let (c, g) = apply-Counts h s r (Polled-Counts h s p) in
    elim (Bool-cases (apply s r).1) [
      | inl t ↦
          let why = apply-Reason h s r (Polled-Counts h s p) t in
          rw t (inr (refl, refl, refl, ap (λ (n : ℕ). (n + 1) % word) g, why))
      | inr f ↦ let k = (apply-Applied s r v).kept f in rw f (inl (refl, k.0, k.2, k.4))
    ]
