-- ===== src/Storage/Rotate/Shift.antt =====
-- What a rotation makes of the files.
use stark_one.Base.{
  ℕ, zero, suc, ◌+◌, ◌-◌, ◌≤◌, ◌<◌, ◌≡◌, ◌≢◌, ◌⊎◌, inl, inr, refl, sym, ap, subst, ◌∙◌, Bool, true,
  false, ◌||◌, not, Bool-cases, if_each, Option, none, some, List, [], ◌∷◌, length, ltb, leb, ◌==◌,
  ==→eq, ==→ne, if◌then◌else◌, arith,
}
use stark_one.Storage.Rotate.{
  max_files, Step, shifts, plan, LogDir, ok_or_missing, step_at, run_steps, rotate,
}

-- What is relied on: a call that is confirmed, or finds its file missing, has done what it says, and one
-- that fails otherwise changes nothing. `view` is what the directory holds, and a rename asks for a free
-- name, as FAT does.
pub record Works {D : Type 0} (o : LogDir D) (view : D → ℕ → Option (List ℕ)) : Type 0 where
  pub remove_self :
      (d : D) (i : ℕ) → ok_or_missing (o.remove d i).0 ≡ true → view (o.remove d i).1 i ≡ none
  pub remove_other :
      (d : D) (i j : ℕ)
      → ok_or_missing (o.remove d i).0 ≡ true
      → j ≢ i
      → view (o.remove d i).1 j ≡ view d j
  pub remove_failed :
      (d : D) (i j : ℕ)
      → ok_or_missing (o.remove d i).0 ≡ false
      → view (o.remove d i).1 j ≡ view d j
  pub rename_from :
      (d : D) (i j : ℕ)
      → i ≢ j
      → view d j ≡ none
      → ok_or_missing (o.rename d i j).0 ≡ true
      → view (o.rename d i j).1 i ≡ none
  pub rename_to :
      (d : D) (i j : ℕ)
      → i ≢ j
      → view d j ≡ none
      → ok_or_missing (o.rename d i j).0 ≡ true
      → view (o.rename d i j).1 j ≡ view d i
  pub rename_other :
      (d : D) (i j k : ℕ)
      → i ≢ j
      → view d j ≡ none
      → ok_or_missing (o.rename d i j).0 ≡ true
      → k ≢ i
      → k ≢ j
      → view (o.rename d i j).1 k ≡ view d k
  pub rename_failed :
      (d : D) (i j k : ℕ)
      → ok_or_missing (o.rename d i j).0 ≡ false
      → view (o.rename d i j).1 k ≡ view d k

module _ {D : Type 0} (o : LogDir D) (view : D → ℕ → Option (List ℕ)) (law : Works o view) where
  -- The files below `n` have moved up by one, and index 0 is free.
  pub record Shifted (n : ℕ) (d d' : D) : Type 0 where
    pub free : view d' 0 ≡ none
    pub moved : (i : ℕ) → i < n → view d' (i + 1) ≡ view d i
    pub kept : (j : ℕ) → n < j → view d' j ≡ view d j

  -- A call has failed, and each file below `n` is at its index or the next.
  pub record Stopped (n : ℕ) (d d' : D) : Type 0 where
    pub step : Step
    pub at_call : D
    pub refused : ok_or_missing (step_at o step.to at_call step.from).0 ≡ false
    pub safe : (i : ℕ) → i < n → (view d' i ≡ view d i) ⊎ (view d' (i + 1) ≡ view d i)
    pub after : (j : ℕ) → n < j → view d' j ≡ view d j

  -- the two ends of a run of steps
  abbrev pub Ends : ℕ → D → Bool × D → Type 0
  Ends n d r = (r.0 ≡ true) × Shifted n d r.1 ⊎ (r.0 ≡ false) × Stopped n d r.1

  -- after a rename of `m` that went well
  later-Ends :
      (m : ℕ) (d : D) (r : Bool × D)
      → view d (m + 1) ≡ none
      → ok_or_missing (o.rename d m (m + 1)).0 ≡ true
      → Ends m (o.rename d m (m + 1)).1 r
      → Ends (suc m) d r
  later-Ends m d r e t (inl (a, s)) =
      let ne : m ≢ m + 1 = λ q. omega arith in
      inl (
        a,
        record {
          free = s.free;
          moved = λ i l. elim (Bool-cases (i == m)) [
            | inl q ↦
                subst (λ k. view r.1 (k + 1) ≡ view d k) (sym (==→eq i m q))
                  (s.kept (m + 1) (omega arith) ∙ law.rename_to d m (m + 1) ne e t)
            | inr q ↦
                let q' = ==→ne i m q in
                s.moved i (omega arith)
                ∙ law.rename_other d m (m + 1) i ne e t q' (λ x. omega arith)
          ];
          kept = λ j l.
              s.kept j (omega arith)
              ∙ law.rename_other d m (m + 1) j ne e t (λ x. omega arith) (λ x. omega arith);
        },
      )
  later-Ends m d r e t (inr (a, s)) =
      let ne : m ≢ m + 1 = λ q. omega arith in
      inr (
        a,
        record {
          step = s.step;
          at_call = s.at_call;
          refused = s.refused;
          safe = λ i l. elim (Bool-cases (i == m)) [
            | inl q ↦ inr (
                subst (λ k. view r.1 (k + 1) ≡ view d k) (sym (==→eq i m q))
                  (s.after (m + 1) (omega arith) ∙ law.rename_to d m (m + 1) ne e t))
            | inr q ↦
                let q' = ==→ne i m q in
                let same = law.rename_other d m (m + 1) i ne e t q' (λ x. omega arith) in
                elim (s.safe i (omega arith)) [ inl x ↦ inl (x ∙ same) | inr x ↦ inr (x ∙ same) ]
          ];
          after = λ j l.
              s.after j (omega arith)
              ∙ law.rename_other d m (m + 1) j ne e t (λ x. omega arith) (λ x. omega arith);
        },
      )

  shifts-Ends : (n : ℕ) (d : D) → view d n ≡ none → Ends n d (run_steps o (shifts n) d)
  unfolding shifts run_steps
  shifts-Ends zero d e =
      inl (refl, record { free = e; moved = λ i l. absurd (omega arith); kept = λ j l. refl })
  shifts-Ends (suc m) d e =
      let ne : m ≢ m + 1 = λ q. omega arith in
      let e' : view d (m + 1) ≡ none = subst (λ k. view d k ≡ none) (omega arith) e in
      let (_, d1) = o.rename d m (m + 1) in
      if_each (Ends (suc m) d) (ok_or_missing (o.rename d m (m + 1)).0) _ _
        (λ t.
          later-Ends m d (run_steps o (shifts m) d1) e' t
            (shifts-Ends m d1 (law.rename_from d m (m + 1) ne e' t)))
        (λ f. inr (
          refl,
          record {
            step = record { from = m; to = some (m + 1) };
            at_call = d;
            refused = f;
            safe = λ i l. inl (law.rename_failed d m (m + 1) i f);
            after = λ j l. law.rename_failed d m (m + 1) j f;
          },
        ))

  later_removed :
      (n : ℕ) (d : D) (r : Bool × D)
      → ok_or_missing (o.remove d n).0 ≡ true
      → Ends n (o.remove d n).1 r
      → Ends n d r
  later_removed n d r t (inl (a, s)) = inl (
    a,
    record {
      free = s.free;
      moved = λ i l. s.moved i l ∙ law.remove_other d n i t (λ x. omega arith);
      kept = λ j l. s.kept j l ∙ law.remove_other d n j t (λ x. omega arith);
    },
  )
  later_removed n d r t (inr (a, s)) = inr (
    a,
    record {
      step = s.step;
      at_call = s.at_call;
      refused = s.refused;
      safe = λ i l.
          let same = law.remove_other d n i t (λ x. omega arith) in
          elim (s.safe i l) [ inl x ↦ inl (x ∙ same) | inr x ↦ inr (x ∙ same) ];
      after = λ j l. s.after j l ∙ law.remove_other d n j t (λ x. omega arith);
    },
  )

  -- The steps of a rotation.
  rotated : (n : ℕ) (d : D) → Ends n d (run_steps o (record { from = n; to = none } ∷ shifts n) d)
  unfolding run_steps
  rotated n d =
      let (_, d1) = o.remove d n in
      if_each (Ends n d) (ok_or_missing (o.remove d n).0) _ _
        (λ t.
          later_removed n d (run_steps o (shifts n) d1) t
            (shifts-Ends n d1 (law.remove_self d n t)))
        (λ f. inr (
          refl,
          record {
            step = record { from = n; to = none };
            at_call = d;
            refused = f;
            safe = λ i l. inl (law.remove_failed d n i f);
            after = λ j l. law.remove_failed d n j f;
          },
        ))

  -- what a rotation that is due comes to
  pub Turns : ℕ → ℕ → D → Bool × ℕ × D → Type 0
  Turns n size d r =
      (r.0 ≡ true) × (r.1 ≡ 0) × Shifted n d r.2 ⊎ (r.0 ≡ false) × (r.1 ≡ size) × Stopped n d r.2

  ended :
      (n size : ℕ) (d : D) (r : Bool × D)
      → Ends n d r
      → Turns n size d (if not r.0 then (false, size, r.1) else (true, 0, r.1))
  unfolding Turns
  ended n size d r (inl (t, s)) = rw t (inl (refl, refl, s))
  ended n size d r (inr (f, s)) = rw f (inr (refl, refl, s))

  -- When the lines fit, or stark.log is empty, a rotation changes nothing. Else, over a directory whose
  -- calls may fail but do what they confirm and change nothing when they fail (`Works`), a rotation of up
  -- to 8 files either drops the oldest, moves each other file up by one, so that nothing else is lost, and
  -- leaves stark.log free with its size counted as 0; or one of its calls failed, and it says so, keeps the
  -- size, and each file but the oldest is at its index or the next.
  pub rotate_shifts :
      (limit files size add : ℕ) (d : D)
      → 0 < files
      → files ≤ max_files
      → ((size ≡ 0) ⊎ (size + add ≤ limit)) × (rotate o limit files size add d ≡ (true, size, d))
        ⊎ (0 < size)
          × (limit < size + add)
          × Turns (files - 1) size d (rotate o limit files size add d)
  unfolding plan rotate run_steps
  rotate_shifts limit files size add d p q =
      let test = size == 0 || (leb (size + add) limit || (files == 0 || ltb max_files files)) in
      let first : Step = record { from = files - 1; to = none } in
      let steps = λ (b : Bool). if b then [] else first ∷ shifts (files - 1) in
      let g : List Step → Bool × ℕ × D = λ ss.
        if not (run_steps o ss d).0
        then (false, size, (run_steps o ss d).1)
        else (true, if ltb 0 (length ss) then 0 else size, (run_steps o ss d).1) in
      elim (Bool-cases test) [
        | inl t ↦ inl (ground arith, ap (λ b. g (steps b)) t)
        | inr f ↦
            let ss = first ∷ shifts (files - 1) in
            let r = run_steps o ss d in
            let n = if ltb 0 (length ss) then 0 else size in
            let z : n ≡ 0 = ground arith in
            let e : rotate o limit files size add d
                ≡ (if not r.0 then (false, size, r.1) else (true, 0, r.1)) =
              ap (λ b. g (steps b)) f
              ∙ ap (λ (k : ℕ). if not r.0 then (false, size, r.1) else (true, k, r.1)) z in
            inr (
              ground arith,
              ground arith,
              subst (Turns (files - 1) size d) (sym e)
                  (ended (files - 1) size d r (rotated (files - 1) d)),
            )
      ]
