-- ===== src/Input/Key/Count.antt =====
-- How many actions one key tells in an update.
use stark_one.Base.{
  ℕ, ◌≤◌, inl, inr, Bool, true, false, ◌&&◌, ◌||◌, not, List, [], ◌∷◌, ◌++◌, length, leb,
  Bool-cases, if◌then◌else◌, arith,
}
use stark_one.Input.Key.{
  Timing, KeyState, KeyAction, release, short, long, elapsed, sampled, update_released,
  update_release, update_held, update_sampled, update_key,
}

length-update_released :
    (st : KeyState) (now : ℕ) (t : Timing) (stable : Bool)
    → length (update_released st now t stable).1 ≤ 2
unfolding update_released
length-update_released st now t stable = ground arith

length-release :
    (due quiet sent : Bool)
    → length (
        (if due then (long, 0) ∷ [] else (let e : List (KeyAction × ℕ) = [] in e))
        ++ ((release, 0) ∷ (if not quiet && not (due || sent) then (short, 0) ∷ [] else [])))
      ≤ 2
length-release true true sent = omega arith
length-release true false sent = omega arith
length-release false true sent = omega arith
length-release false false true = omega arith
length-release false false false = omega arith

length-update_held :
    (k : ℕ) (st : KeyState) (held : ℕ) (t : Timing) (quiet : Bool)
    → length (update_held k st held t quiet).1 ≤ 2
unfolding update_held
length-update_held k st held t quiet = ground arith

length-update_sampled :
    (k : ℕ) (st : KeyState) (now : ℕ) (t : Timing) (quiet : Bool)
    → length (update_sampled k st now t quiet).1 ≤ 2
unfolding update_sampled update_release
length-update_sampled k st now t quiet = elim (Bool-cases st.pressed) [
  | inr e ↦
      let r = length-update_released st now t (leb t.debounce_ms (elapsed now st.raw_since)) in
      simp e r
  | inl e ↦ elim (Bool-cases (not st.raw && leb t.debounce_ms (elapsed now st.raw_since))) [
    | inl f ↦
        let r =
          length-release
            (not quiet && not st.long_sent && leb t.long_ms (elapsed now st.pressed_at)) quiet
            st.long_sent in
        simp (e, f) r
    | inr f ↦ let r = length-update_held k st (elapsed now st.pressed_at) t quiet in simp (e, f) r
  ]
]

pub length-update_key :
    (k : ℕ) (st : KeyState) (raw : Bool) (now : ℕ) (t : Timing) (quiet : Bool)
    → length (update_key k st raw now t quiet).1 ≤ 2
unfolding update_key
length-update_key k st raw now t quiet = length-update_sampled k (sampled st raw now) now t quiet
