-- ===== src/Input/Key/Grammar.antt =====
-- What a key's actions tell, over any sequence of samples.
use stark_one.Base.{
  ℕ, ◌≡◌, inl, inr, refl, ap, subst, ◌∙◌, Bool, true, false, ◌&&◌, ◌||◌, not, Option, none, some,
  List, [], ◌∷◌, ◌++◌, leb, Bool-cases, if◌then◌else◌, arith,
}
use stark_one.Input.Key.{
  Timing, KeyState, KeyAction, press, release, repeat_action, long, short, elapsed, key_repeats,
  same, sampled, after_repeat, update_released, update_release, update_held, update_sampled,
  update_key,
}

-- `up true` is just after a RELEASE that a SHORT may follow; `down` says whether LONG was told.
pub data Phase : Type 0 where
  up down : Bool → Phase

-- The actions that make sense in a phase, and the phase they lead to.
pub accept : Phase → KeyAction → Option Phase
accept (up b) press = some (down false)
accept (up true) short = some (up false)
accept (down b) repeat_action = some (down b)
accept (down false) long = some (down true)
accept (down b) release = some (up (not b))
accept _ _ = none

after : Option Phase → KeyAction → Option Phase
unfolding accept
after none a = none
after (some p) a = accept p a

run_from : Option Phase → List (KeyAction × ℕ) → Option Phase
unfolding after
run_from o [] = o
run_from o (a ∷ acts) = run_from (after o a.0) acts

pub run : Phase → List (KeyAction × ℕ) → Option Phase
unfolding run_from
run p acts = run_from (some p) acts

run_from-append :
    (o : Option Phase) (xs ys : List (KeyAction × ℕ))
    → run_from o (xs ++ ys) ≡ run_from (run_from o xs) ys
unfolding run_from
run_from-append o [] ys = refl
run_from-append o (x ∷ xs) ys = run_from-append (after o x.0) xs ys

pub run-append :
    (p q : Phase) (xs ys : List (KeyAction × ℕ)) → run p xs ≡ some q → run p (xs ++ ys) ≡ run q ys
unfolding run
run-append p q xs ys h = run_from-append (some p) xs ys ∙ ap (λ o. run_from o ys) h

abbrev pub Fits : Phase → KeyState → Type 0
Fits (up b) st = (st.pressed ≡ false)
Fits (down b) st = (st.pressed ≡ true) × (st.long_sent ≡ b)

abbrev pub Goes : Phase → List (KeyAction × ℕ) → KeyState → Type 0
Goes p acts st = (q : Phase) × (run p acts ≡ some q) × Fits q st

released-Goes :
    (b : Bool) (st : KeyState) (now : ℕ) (t : Timing) (stable : Bool)
    → st.pressed ≡ false
    → Goes (up b) (update_released st now t stable).1 (update_released st now t stable).0
unfolding update_released run
released-Goes b st now t stable h = elim (Bool-cases (st.raw && stable)) [
  | inl e ↦ rw e (down false, refl, (refl, refl))
  | inr e ↦ rw e (up b, refl, h)
]

abbrev release_acts : Bool → Bool → Bool → List (KeyAction × ℕ)
release_acts quiet sent due =
    (if due then (long, 0) ∷ [] else [])
    ++ ((release, 0) ∷ (if not quiet && not (due || sent) then (short, 0) ∷ [] else []))

run-release_acts :
    (quiet sent ready : Bool)
    → (b : Bool) × (run (down sent) (release_acts quiet sent (not quiet && not sent && ready))
        ≡ some (up b))
unfolding run
run-release_acts true true ready = (false, refl)
run-release_acts true false ready = (true, refl)
run-release_acts false true ready = (false, refl)
run-release_acts false false true = (false, refl)
run-release_acts false false false = (false, refl)

release-Goes :
    (st : KeyState) (held : ℕ) (t : Timing) (quiet : Bool)
    → Goes (down st.long_sent) (update_release st held t quiet).1 (update_release st held t quiet).0
unfolding update_release
release-Goes st held t quiet =
    let (b, e) = run-release_acts quiet st.long_sent (leb t.long_ms held) in (up b, e, refl)

abbrev both : Bool → ℕ → List (KeyAction × ℕ)
both first n =
    if first then (repeat_action, n) ∷ (long, 0) ∷ [] else (long, 0) ∷ (repeat_action, n) ∷ []

run-both :
    (sent first : Bool) (n : ℕ) → sent ≡ false → run (down sent) (both first n) ≡ some (down true)
unfolding run
run-both true first n h = absurd (ground arith)
run-both false true n h = refl
run-both false false n h = refl

run-long : (sent : Bool) → sent ≡ false → run (down sent) ((long, 0) ∷ []) ≡ some (down true)
unfolding run
run-long true h = absurd (ground arith)
run-long false h = refl

pub run-nil : (p : Phase) → run p [] ≡ some p
unfolding run
run-nil p = refl

run-repeat : (sent : Bool) (n : ℕ) → run (down sent) ((repeat_action, n) ∷ []) ≡ some (down sent)
unfolding run
run-repeat true n = refl
run-repeat false n = refl

held-Goes :
    (k : ℕ) (st : KeyState) (held : ℕ) (t : Timing) (quiet : Bool)
    → st.pressed ≡ true
    → Goes (down st.long_sent) (update_held k st held t quiet).1 (update_held k st held t quiet).0
unfolding update_held after_repeat
held-Goes k st held t quiet p =
    elim (Bool-cases (not quiet && not st.long_sent && leb t.long_ms held)) [
      | inl e ↦
          let f : st.long_sent ≡ false = ground arith in
          elim (Bool-cases (key_repeats k && leb st.next_repeat held)) [
            | inl g ↦ rw (e, g) (down true, run-both st.long_sent _ _ f, (p, refl))
            | inr g ↦ rw (e, g) (down true, run-long st.long_sent f, (p, refl))
          ]
      | inr e ↦ elim (Bool-cases (key_repeats k && leb st.next_repeat held)) [
        | inl g ↦ rw (e, g) (down st.long_sent, run-repeat st.long_sent _, (p, refl))
        | inr g ↦ rw (e, g) (down st.long_sent, run-nil (down st.long_sent), (p, refl))
      ]
    ]

sampled_kept :
    (st : KeyState) (raw : Bool) (now : ℕ)
    → ((sampled st raw now).pressed ≡ st.pressed) × ((sampled st raw now).long_sent ≡ st.long_sent)
unfolding sampled
sampled_kept st raw now = elim (Bool-cases (same raw st.raw)) [
  | inl e ↦ rw e (refl, refl)
  | inr e ↦ rw e (refl, refl)
]

sampled-Fits :
    (p : Phase) (st : KeyState) (raw : Bool) (now : ℕ) → Fits p st → Fits p (sampled st raw now)
sampled-Fits (up b) st raw now h = (sampled_kept st raw now).0 ∙ h
sampled-Fits (down b) st raw now h = let (x, y) = sampled_kept st raw now in (x ∙ h.0, y ∙ h.1)

update_sampled-Goes :
    (p : Phase) (k : ℕ) (st : KeyState) (now : ℕ) (t : Timing) (quiet : Bool)
    → Fits p st
    → Goes p (update_sampled k st now t quiet).1 (update_sampled k st now t quiet).0
unfolding update_sampled
update_sampled-Goes (up b) k st now t quiet h =
    let g = released-Goes b st now t (leb t.debounce_ms (elapsed now st.raw_since)) h in simp h g
update_sampled-Goes (down b) k st now t quiet (h, e) =
    let r = release-Goes st (elapsed now st.pressed_at) t quiet in
    let l = held-Goes k st (elapsed now st.pressed_at) t quiet h in
    let u = update_sampled k st now t quiet in
    subst (λ (x : Bool). Goes (down x) u.1 u.0) e
      (elim (Bool-cases (not st.raw && leb t.debounce_ms (elapsed now st.raw_since))) [
        | inl q ↦ simp (h, q) r
        | inr q ↦ simp (h, q) l
      ])

-- One update: the actions make sense after those before them, in any state that fits.
pub update_key-Goes :
    (p : Phase) (k : ℕ) (st : KeyState) (raw : Bool) (now : ℕ) (t : Timing) (quiet : Bool)
    → Fits p st
    → Goes p (update_key k st raw now t quiet).1 (update_key k st raw now t quiet).0
unfolding update_key
update_key-Goes p k st raw now t quiet h =
    update_sampled-Goes p k (sampled st raw now) now t quiet (sampled-Fits p st raw now h)
