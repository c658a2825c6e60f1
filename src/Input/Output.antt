-- ===== src/Input/Output.antt =====
-- The caller's array: what an update writes to it, and what is lost when it is short.
use stark_one.Base.{
  ℕ, suc, ◌+◌, ◌*◌, ◌/◌, ◌^◌, ◌≤◌, ◌≡◌, inl, inr, refl, sym, ap, ◌∙◌, bit_and, Bool, true, false,
  ◌&&◌, not, List, [], ◌∷◌, ◌++◌, append_assoc, append-nil, length, length-append, length-take,
  take, take_all, take-append, ltb, ltb→lt, ltb→le, ◌!=◌, Bool-cases, if◌then◌else◌, arith,
}
use stark_one.Input.{
  Action, Core, Sink, key_ok, key_back, key_count, emit, emit_all, quiet, update_keys, is_pressed,
  update_chord, update,
}
use stark_one.Input.Key.Count.{length-update_key}
use stark_one.Input.Key.{Timing, KeyState, KeyAction, chord_action, update_key}

-- a sink of `m` actions that was given `xs`
abbrev capped : ℕ → List Action → Sink
capped m xs = record { max = m; out = take m xs }

abbrev told : ℕ → KeyAction × ℕ → Action
told k a = record { key = k; action = a.0; repeat = a.1 }

abbrev all_told : ℕ → List (KeyAction × ℕ) → List Action
all_told k [] = []
all_told k (a ∷ acts) = told k a ∷ all_told k acts

length-all_told : (k : ℕ) (acts : List (KeyAction × ℕ)) → length (all_told k acts) ≡ length acts
length-all_told k [] = refl
length-all_told k (a ∷ acts) = ap suc (length-all_told k acts)

emit-capped :
    (m k : ℕ) (xs : List Action) (a : KeyAction × ℕ)
    → emit (capped m xs) k a ≡ capped m (xs ++ (told k a ∷ []))
unfolding emit
emit-capped m k xs a =
    let l = length-take m xs in
    elim (Bool-cases (ltb (length (take m xs)) m)) [
      | inl t ↦
          let q = ltb→lt _ _ t in
          let whole = take_all m xs (omega arith) in
          let more =
            take_all m (xs ++ (told k a ∷ [])) (omega (arith, length-append xs (told k a ∷ []))) in
          rw t (
            ap (λ o. record { max = m; out = o }) (ap (λ o. o ++ (told k a ∷ [])) whole ∙ sym more))
      | inr f ↦
          let q = ltb→le _ _ f in
          rw f (
            ap (λ o. record { max = m; out = o })
              (sym (take-append m xs (told k a ∷ []) (omega arith))))
    ]

emit_all-capped :
    (m k : ℕ) (xs : List Action) (acts : List (KeyAction × ℕ))
    → emit_all (capped m xs) k acts ≡ capped m (xs ++ all_told k acts)
unfolding emit_all
emit_all-capped m k xs [] = ap (capped m) (sym (append-nil xs))
emit_all-capped m k xs (a ∷ acts) =
    ap (λ s. emit_all s k acts) (emit-capped m k xs a)
    ∙ emit_all-capped m k (xs ++ (told k a ∷ [])) acts
    ∙ ap (capped m) (append_assoc xs (told k a ∷ []) (all_told k acts))

module _ (raw_bitmap now_ms : ℕ) (t : Timing) (chord : Bool) where
  abbrev updated : ℕ → KeyState → KeyState × List (KeyAction × ℕ)
  updated k st = update_key k st (bit_and (raw_bitmap / 2 ^ k) 1 != 0) now_ms t (quiet chord k)

  -- all keys after an update, and all they tell
  abbrev keys_after : ℕ → List KeyState → List KeyState
  keys_after k [] = []
  keys_after k (st ∷ sts) = (updated k st).0 ∷ keys_after (k + 1) sts

  abbrev keys_tell : ℕ → List KeyState → List Action
  keys_tell k [] = []
  keys_tell k (st ∷ sts) = all_told k (updated k st).1 ++ keys_tell (k + 1) sts

  update_keys-capped :
      (m k : ℕ) (xs : List Action) (sts : List KeyState)
      → update_keys (capped m xs) k sts raw_bitmap now_ms t chord
        ≡ (capped m (xs ++ keys_tell k sts), keys_after k sts)
  unfolding update_keys
  update_keys-capped m k xs [] = ap (λ l. (capped m l, [])) (sym (append-nil xs))
  update_keys-capped m k xs (st ∷ sts) =
      ap
        (λ s.
          let p = update_keys s (k + 1) sts raw_bitmap now_ms t chord in
          (p.0, (updated k st).0 ∷ p.1))
        (emit_all-capped m k xs (updated k st).1)
      ∙ ap (λ p. (p.0, (updated k st).0 ∷ p.1))
          (update_keys-capped m (k + 1) (xs ++ all_told k (updated k st).1) sts)
      ∙ ap (λ l. (capped m l, (updated k st).0 ∷ keys_after (k + 1) sts))
          (append_assoc xs (all_told k (updated k st).1) (keys_tell (k + 1) sts))

  length-keys_tell : (k : ℕ) (sts : List KeyState) → length (keys_tell k sts) ≤ 2 * length sts
  length-keys_tell k [] = omega arith
  length-keys_tell k (st ∷ sts) =
      let n =
        length-update_key k st (bit_and (raw_bitmap / 2 ^ k) 1 != 0) now_ms t (quiet chord k) in
      omega (
        arith,
        length-append (all_told k (updated k st).1) (keys_tell (k + 1) sts),
        length-keys_tell (k + 1) sts,
        length-all_told k (updated k st).1,
      )

abbrev chord_told : Action
chord_told = told key_ok (chord_action, 0)

abbrev chord_forms : Core → Bool
chord_forms c = not c.chord && (is_pressed c.keys key_ok && is_pressed c.keys key_back)

abbrev chord_ends : Core → Bool
chord_ends c = c.chord && (not (is_pressed c.keys key_ok) && not (is_pressed c.keys key_back))

abbrev chord_after : Core → Core
chord_after c =
    if chord_forms c
    then record c { chord = true }
    else if chord_ends c
    then record c { chord = false }
    else c

abbrev chord_tells : Core → List Action
chord_tells c = if chord_forms c then chord_told ∷ [] else []

update_chord-capped :
    (m : ℕ) (xs : List Action) (c : Core)
    → update_chord (capped m xs) c ≡ (capped m (xs ++ chord_tells c), chord_after c)
unfolding update_chord
update_chord-capped m xs c = elim (Bool-cases (chord_forms c)) [
  | inl t ↦
      rw t (ap (λ s. (s, record c { chord = true })) (emit-capped m key_ok xs (chord_action, 0)))
  | inr f ↦ elim (Bool-cases (chord_ends c)) [
    | inl t ↦ rw (f, t) (ap (λ l. (capped m l, record c { chord = false })) (sym (append-nil xs)))
    | inr g ↦ rw (f, g) (ap (λ l. (capped m l, c)) (sym (append-nil xs)))
  ]
]

abbrev all_after : Core → ℕ → ℕ → Core
all_after c raw now = record c { keys = keys_after raw now c.t c.chord 0 c.keys }

abbrev all_tell : Core → ℕ → ℕ → List Action
all_tell c raw now = keys_tell raw now c.t c.chord 0 c.keys ++ chord_tells (all_after c raw now)

abbrev finish : Core → Sink × List KeyState → Core × List Action
finish c p = let q = update_chord p.0 (record c { keys = p.1 }) in (q.1, q.0.out)

length-keys_after :
    (raw now : ℕ) (t : Timing) (chord : Bool) (k : ℕ) (sts : List KeyState)
    → length (keys_after raw now t chord k sts) ≡ length sts
length-keys_after raw now t chord k [] = refl
length-keys_after raw now t chord k (st ∷ sts) =
    ap suc (length-keys_after raw now t chord (k + 1) sts)

chord_after_keys : (c : Core) → (chord_after c).keys ≡ c.keys
chord_after_keys c = ground arith

length-chord_tells : (c : Core) → length (chord_tells c) ≤ 1
length-chord_tells c = elim (Bool-cases (chord_forms c)) [
  | inl t ↦ rw t (omega arith)
  | inr f ↦ rw f (omega arith)
]

update_lem :
    (c : Core) (raw now m : ℕ)
    → update c raw now m ≡ (chord_after (all_after c raw now), take m (all_tell c raw now))
unfolding update
update_lem c raw now m =
    ap (finish c) (
      ap (λ o. update_keys (record { max = m; out = o }) 0 c.keys raw now c.t c.chord)
        (sym (take_all m [] (omega arith)))
      ∙ update_keys-capped raw now c.t c.chord m 0 [] c.keys)
    ∙ ap (λ q. (q.1, q.0.out))
        (update_chord-capped m (keys_tell raw now c.t c.chord 0 c.keys) (all_after c raw now))

-- Six keys tell at most thirteen actions in an update, so an array of INPUT_CORE_MAX_ACTIONS loses
-- none; a shorter one gets the first of them, and the state advances in the same way.
pub update_discards :
    (c : Core) (raw now m : ℕ)
    → length c.keys ≡ key_count
    → ((update c raw now m).0 ≡ (update c raw now 13).0)
      × ((update c raw now m).1 ≡ take m (update c raw now 13).1)
      × (length (update c raw now m).1 ≤ 13)
      × (length (update c raw now m).0.keys ≡ key_count)
update_discards c raw now m h =
    let l = all_tell c raw now in
    let told = keys_tell raw now c.t c.chord 0 c.keys in
    let some_told : length l ≤ 13 = omega (
      arith,
      length-append told (chord_tells (all_after c raw now)),
      length-keys_tell raw now c.t c.chord 0 c.keys,
      length-chord_tells (all_after c raw now),
    ) in
    let e = update_lem c raw now m in
    let e13 = update_lem c raw now 13 in
    let out = ap length (ap (λ q. q.1) e) in
    (
      ap (λ q. q.0) e ∙ sym (ap (λ q. q.0) e13),
      ap (λ q. q.1) e ∙ ap (take m) (sym (ap (λ q. q.1) e13 ∙ take_all 13 l some_told)),
      omega (arith, length-take m l),
      ap (λ q. length q.0.keys) e
          ∙ ap length (chord_after_keys (all_after c raw now))
          ∙ length-keys_after raw now c.t c.chord 0 c.keys
          ∙ h,
    )
