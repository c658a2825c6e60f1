-- ===== src/Input/Key/Debounce.antt =====
-- When a key changes: over the whole history of its samples.
use stark_one.Base.{
  ℕ, ◌≤◌, ◌≡◌, ◌≢◌, ◌⊎◌, subst, inl, inr, refl, sym, ◌∙◌, Bool, true, false, ◌&&◌, not, List, leb,
  leb→le, Bool-cases, if_both, if◌then◌else◌, [], ◌∷◌, arith,
}
use stark_one.Input.Key.{
  Timing, KeyState, KeyAction, released, elapsed, same, sampled, after_repeat, update_released,
  update_release, update_held, update_sampled, update_key,
}

released_kept :
    (st : KeyState) (now : ℕ) (t : Timing) (stable : Bool)
    → let st' = (update_released st now t stable).0 in
      (st'.raw ≡ st.raw)
      × (st'.raw_since ≡ st.raw_since)
      × ((st'.pressed ≡ st.pressed) ⊎ ((st'.pressed ≡ true) × (st.raw ≡ true) × (stable ≡ true)))
unfolding update_released
released_kept st now t stable = elim (Bool-cases (st.raw && stable)) [
  | inl e ↦ rw e (refl, refl, inr (refl, ground arith, ground arith))
  | inr e ↦ rw e (refl, refl, inl refl)
]

held_kept :
    (k : ℕ) (st : KeyState) (held : ℕ) (t : Timing) (quiet : Bool)
    → (update_held k st held t quiet).0.pressed ≡ st.pressed
unfolding update_held after_repeat
held_kept k st held t quiet = ground arith

Settled : KeyState → KeyState → ℕ → Timing → Type 0
Settled st st' now t =
    (st'.pressed ≡ st.raw) × (st'.raw ≡ st.raw) × (t.debounce_ms ≤ elapsed now st'.raw_since)

-- what is to show of the outcome of an update
Changes : KeyState → ℕ → Timing → KeyState × List (KeyAction × ℕ) → Type 0
unfolding Settled
Changes st now t x = x.0.pressed ≢ st.pressed → Settled st x.0 now t

released-Changes :
    (st : KeyState) (now : ℕ) (t : Timing)
    → Changes st now t (update_released st now t (leb t.debounce_ms (elapsed now st.raw_since)))
unfolding Changes
released-Changes st now t h =
    let (a, b, c) = released_kept st now t (leb t.debounce_ms (elapsed now st.raw_since)) in
    elim c [
      | inl e ↦ absurd (h e)
      | inr (p, r, q) ↦
          (p ∙ sym r, a, subst (λ (n : ℕ). t.debounce_ms ≤ elapsed now n) (sym b) (leb→le _ _ q))
    ]

held-Changes :
    (k : ℕ) (st : KeyState) (now held : ℕ) (t : Timing) (quiet : Bool)
    → Changes st now t (update_held k st held t quiet)
unfolding Changes
held-Changes k st now held t quiet h = absurd (h (held_kept k st held t quiet))

release-Changes :
    (st : KeyState) (now held : ℕ) (t : Timing) (quiet : Bool)
    → (not st.raw && leb t.debounce_ms (elapsed now st.raw_since)) ≡ true
    → Changes st now t (update_release st held t quiet)
unfolding Changes update_release
release-Changes st now held t quiet f h =
    let r : st.raw ≡ false = ground arith in
    let q : leb t.debounce_ms (elapsed now st.raw_since) ≡ true = ground arith in
    (sym r, refl, leb→le _ _ q)

update_sampled-Changes :
    (k : ℕ) (st : KeyState) (now : ℕ) (t : Timing) (quiet : Bool)
    → Changes st now t (update_sampled k st now t quiet)
unfolding update_sampled
update_sampled-Changes k st now t quiet = elim (Bool-cases st.pressed) [
  | inr e ↦ let r = released-Changes st now t in simp e r
  | inl e ↦ elim (Bool-cases (not st.raw && leb t.debounce_ms (elapsed now st.raw_since))) [
    | inl f ↦ let r = release-Changes st now (elapsed now st.pressed_at) t quiet f in simp (e, f) r
    | inr f ↦ let r = held-Changes k st now (elapsed now st.pressed_at) t quiet in simp (e, f) r
  ]
]

held_raw :
    (k : ℕ) (st : KeyState) (held : ℕ) (t : Timing) (quiet : Bool)
    → let st' = (update_held k st held t quiet).0 in
      (st'.raw ≡ st.raw) × (st'.raw_since ≡ st.raw_since)
unfolding update_held after_repeat
held_raw k st held t quiet = ground arith

release_raw :
    (st : KeyState) (held : ℕ) (t : Timing) (quiet : Bool)
    → let st' = (update_release st held t quiet).0 in
      (st'.raw ≡ st.raw) × (st'.raw_since ≡ st.raw_since)
unfolding update_release
release_raw st held t quiet = (refl, refl)

update_sampled-raw :
    (k : ℕ) (st : KeyState) (now : ℕ) (t : Timing) (quiet : Bool)
    → let st' = (update_sampled k st now t quiet).0 in
      (st'.raw ≡ st.raw) × (st'.raw_since ≡ st.raw_since)
unfolding update_sampled
update_sampled-raw k st now t quiet =
    let P : KeyState × List (KeyAction × ℕ) → Type 0 =
      λ x. (x.0.raw ≡ st.raw) × (x.0.raw_since ≡ st.raw_since) in
    let (a, b, c) = released_kept st now t (leb t.debounce_ms (elapsed now st.raw_since)) in
    if_both P (not st.pressed) _ _ (a, b)
      (if_both P (not st.raw && leb t.debounce_ms (elapsed now st.raw_since)) _ _
        (release_raw st (elapsed now st.pressed_at) t quiet)
        (held_raw k st (elapsed now st.pressed_at) t quiet))

same_raw : (a b : Bool) → same a b ≡ true → b ≡ a
same_raw true true h = refl
same_raw true false h = h
same_raw false false h = refl
same_raw false true h = sym h

sampled_lem :
    (st : KeyState) (raw : Bool) (now : ℕ)
    → ((sampled st raw now).pressed ≡ st.pressed) × ((sampled st raw now).raw ≡ raw)
unfolding sampled
sampled_lem st raw now = elim (Bool-cases (same raw st.raw)) [
  | inl e ↦ rw e (refl, same_raw raw st.raw e)
  | inr e ↦ rw e (refl, refl)
]

sampled_new :
    (st : KeyState) (raw : Bool) (now : ℕ)
    → same raw st.raw ≡ false
    → (sampled st raw now).raw_since ≡ now
unfolding sampled
sampled_new st raw now e = rw e refl

sampled_old :
    (st : KeyState) (raw : Bool) (now : ℕ)
    → same raw st.raw ≡ true
    → (sampled st raw now).raw_since ≡ st.raw_since
unfolding sampled
sampled_old st raw now e = rw e refl

-- A sample: the level of the key and the time. In a history the latest comes first.
abbrev Sampled : Type 0
Sampled = Bool × ℕ

-- the level of the latest sample; a key starts up
abbrev level : List Sampled → Bool
level [] = false
level (x ∷ h) = x.0

-- The time of the earliest sample of the latest stretch of equal samples; before any, 0.
pub stable_since : List Sampled → ℕ
stable_since [] = 0
stable_since (x ∷ h) = if same x.0 (level h) then stable_since h else x.1

-- The states of key `k`, from a released one, by its history; the timing and the chord may change at
-- any sample.
pub data Tracked (k : ℕ) : List Sampled → KeyState → Type 0 where
  at_rest : Tracked k [] released
  sample :
      {h : List Sampled} {st : KeyState} (raw : Bool) (now : ℕ) (t : Timing) (quiet : Bool)
      → Tracked k h st
      → Tracked k ((raw, now) ∷ h) (update_key k st raw now t quiet).0

update_key_raw :
    (k : ℕ) (st : KeyState) (raw : Bool) (now : ℕ) (t : Timing) (quiet : Bool)
    → let st' = (update_key k st raw now t quiet).0 in
      (st'.raw ≡ raw) × (st'.raw_since ≡ (sampled st raw now).raw_since)
unfolding update_key
update_key_raw k st raw now t quiet =
    let (p, r) = sampled_lem st raw now in
    let (a, b) = update_sampled-raw k (sampled st raw now) now t quiet in (a ∙ r, b)

sampled_since :
    (st : KeyState) (raw : Bool) (now : ℕ) (h : List Sampled)
    → st.raw ≡ level h
    → st.raw_since ≡ stable_since h
    → (sampled st raw now).raw_since ≡ stable_since ((raw, now) ∷ h)
unfolding stable_since
sampled_since st raw now h p q = elim (Bool-cases (same raw st.raw)) [
  | inl e ↦
      let e' : same raw (level h) ≡ true = subst (λ b. same raw b ≡ true) p e in
      sampled_old st raw now e ∙ q ∙ rw e' refl
  | inr e ↦
      let e' : same raw (level h) ≡ false = subst (λ b. same raw b ≡ false) p e in
      sampled_new st raw now e ∙ rw e' refl
]

-- the state knows the latest level and how long it has lasted
Tracked-since :
    (k : ℕ) (h : List Sampled) (st : KeyState)
    → Tracked k h st
    → (st.raw ≡ level h) × (st.raw_since ≡ stable_since h)
unfolding stable_since
Tracked-since k _ _ at_rest = (refl, refl)
Tracked-since k _ _ (sample {h} {st} raw now t quiet r) =
    let (p, q) = Tracked-since k h st r in
    let (a, b) = update_key_raw k st raw now t quiet in (a, b ∙ sampled_since st raw now h p q)

-- However a key was sampled before: at a further sample it changes only to the level sampled, and only
-- when all samples since a time `debounce_ms` or more ago (in 32-bit milliseconds) had that level.
pub update_key_debounced :
    (k : ℕ) (h : List Sampled) (st : KeyState) (raw : Bool) (now : ℕ) (t : Timing) (quiet : Bool)
    → Tracked k h st
    → let st' = (update_key k st raw now t quiet).0 in
      st'.pressed ≢ st.pressed
      → (st'.pressed ≡ raw) × (t.debounce_ms ≤ elapsed now (stable_since ((raw, now) ∷ h)))
unfolding update_key Changes Settled
update_key_debounced k h st raw now t quiet r c =
    let (p, q) = sampled_lem st raw now in
    let (a, b, l) = update_sampled-Changes k (sampled st raw now) now t quiet (λ e. c (e ∙ p)) in
    let (u, v) = Tracked-since k h st r in
    let (_, s) = update_key_raw k st raw now t quiet in
    (a ∙ q, subst (λ (n : ℕ). t.debounce_ms ≤ elapsed now n) (s ∙ sampled_since st raw now h u v) l)
