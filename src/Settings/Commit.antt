-- ===== src/Settings/Commit.antt =====
-- A commit over a store of any behaviour: all or nothing in RAM.
use stark_one.Base.{
  ℕ, zero, suc, ◌+◌, ◌≡◌, ◌⊎◌, inl, inr, refl, sym, ap, ap₂, subst, ◌∙◌, Bool, true, false,
  Bool-cases, List, [], ◌∷◌, length, get_or, if◌then◌else◌, arith,
}
use stark_one.Err.{Err}
use stark_one.Settings.{
  Core, Store, key, value_of, is_dirty, is_ok, setting_count, write_from, write_end, write_schema,
  commit_all, all_clean,
}
use stark_one.Settings.Valid.{Good, write_end-done, write_end-failed}

-- how many of `n` settings from `k` on are dirty
pub dirty_from : ℕ → ℕ → Core → ℕ
dirty_from zero k c = 0
dirty_from (suc n) k c =
    let rest = dirty_from n (k + 1) c in if is_dirty c k then 1 + rest else rest

four_clean :
    (ds : List Bool)
    → length ds ≡ setting_count
    → get_or ds 0 false ≡ false
    → get_or ds 1 false ≡ false
    → get_or ds 2 false ≡ false
    → get_or ds 3 false ≡ false
    → ds ≡ false ∷ false ∷ false ∷ false ∷ []
four_clean [] l p q r t = absurd (omega arith)
four_clean (a ∷ []) l p q r t = absurd (omega arith)
four_clean (a ∷ b ∷ []) l p q r t = absurd (omega arith)
four_clean (a ∷ b ∷ c ∷ []) l p q r t = absurd (omega arith)
four_clean (a ∷ b ∷ c ∷ d ∷ []) l p q r t = cc
four_clean (a ∷ b ∷ c ∷ d ∷ e ∷ ds) l p q r t = absurd (omega arith)

-- A core without a dirty entry is the clean one.
all_clean_lem :
    (c : Core)
    → Good c
    → dirty_from setting_count 0 c ≡ 0
    → c.schema_dirty ≡ false
    → all_clean c ≡ c
unfolding dirty_from
all_clean_lem c g h q =
    let clean : c.dirty ≡ false ∷ false ∷ false ∷ false ∷ [] =
      four_clean c.dirty g.flags (ground arith) (ground arith) (ground arith) (ground arith) in
    sym (ap₂ (λ (d : List Bool) b. record c { dirty = d; schema_dirty = b }) clean q)

module _ {S : Type 0} (o : Store S) where
  -- one round of the loop
  pub write_from-cases :
      (n k : ℕ) (c : Core) (s : S) (done : ℕ)
      → (is_dirty c k ≡ false) × (write_from o (suc n) k c s done ≡ write_from o n (k + 1) c s done)
        ⊎ (is_dirty c k ≡ true)
          × (is_ok (o.set_u8 s (key k) (value_of c k)).0 ≡ true)
          × (write_from o (suc n) k c s done
              ≡ write_from o n (k + 1) c (o.set_u8 s (key k) (value_of c k)).1 (done + 1))
        ⊎ (is_dirty c k ≡ true)
          × (is_ok (o.set_u8 s (key k) (value_of c k)).0 ≡ false)
          × (write_from o (suc n) k c s done ≡ (
            (o.set_u8 s (key k) (value_of c k)).0,
            (o.set_u8 s (key k) (value_of c k)).1,
            done,
          ))
  unfolding write_from
  write_from-cases n k c s done = ground arith

  write_from-count :
      (n k : ℕ) (c : Core) (s : S) (done : ℕ)
      → is_ok (write_from o n k c s done).0 ≡ true
      → (write_from o n k c s done).2 ≡ done + dirty_from n k c
  unfolding write_from dirty_from
  write_from-count zero k c s done h = omega arith
  write_from-count (suc n) k c s done h =
      let (_, w) = o.set_u8 s (key k) (value_of c k) in
      elim (write_from-cases n k c s done) [
        | inl (f, e) ↦
            let i = write_from-count n (k + 1) c s done (subst (λ r. is_ok r.0 ≡ true) e h) in
            ap (λ r. r.2) e ∙ i ∙ rw f refl
        | inr (inl (t, _, e)) ↦
            let i = write_from-count n (k + 1) c w (done + 1) (subst (λ r. is_ok r.0 ≡ true) e h) in
            ap (λ r. r.2) e ∙ i ∙ rw t (omega arith)
        | inr (inr (_, f, e)) ↦ absurd (cc (subst (λ r. is_ok r.0 ≡ true) e h))
      ]

  -- When the store is there and takes the schema, a commit ends as its writes do.
  pub commit_all-open :
      (c : Core) (s : S)
      → is_ok (commit_all o c s).0 ≡ true
      → (is_ok (write_schema o c s).0 ≡ true)
        × (commit_all o c s
            ≡ write_end o c (write_from o setting_count 0 c (write_schema o c s).1 0))
  unfolding commit_all
  commit_all-open c s h = ground arith

  commit_all-failed :
      (c : Core) (s : S)
      → is_ok (commit_all o c s).0 ≡ false
      → ((commit_all o c s).1 ≡ c) × ((commit_all o c s).3 ≡ 0)
  unfolding commit_all
  commit_all-failed c s h =
      let (e, s', n) = write_from o setting_count 0 c (write_schema o c s).1 0 in
      ground (arith, write_end-failed o c e s' n)

  write_end-commit :
      (c : Core) (e : Err) (s : S) (n : ℕ)
      → Good c
      → (is_ok e ≡ true → n ≡ dirty_from setting_count 0 c)
      → is_ok (write_end o c (e, s, n)).0 ≡ true
      → ((write_end o c (e, s, n)).1 ≡ all_clean c)
        × ((write_end o c (e, s, n)).3 ≡ dirty_from setting_count 0 c)
  write_end-commit c e s n g count h =
      let (t, ways) = write_end-done o c e s n h in
      let m = count t in
      elim ways [
        | inl (z, q, w) ↦
            (ap (λ r. r.1) w ∙ sym (all_clean_lem c g (sym m ∙ z) q), ap (λ r. r.3) w ∙ sym z ∙ m)
        | inr w ↦ (ap (λ r. r.1) w, ap (λ r. r.3) w ∙ m)
      ]

  -- A commit over any store is all or nothing in RAM: a success marks every setting clean, changes no
  -- value and reports how many were dirty; a failure changes nothing, so that the next commit writes
  -- all of them again, and reports none.
  pub commit_all_lem :
      (c : Core) (s : S)
      → Good c
      → (is_ok (commit_all o c s).0 ≡ true)
          × ((commit_all o c s).1 ≡ all_clean c)
          × ((commit_all o c s).3 ≡ dirty_from setting_count 0 c)
        ⊎ (is_ok (commit_all o c s).0 ≡ false)
          × ((commit_all o c s).1 ≡ c)
          × ((commit_all o c s).3 ≡ 0)
  commit_all_lem c s g = elim (Bool-cases (is_ok (commit_all o c s).0)) [
    | inl t ↦
        let (_, q) = commit_all-open c s t in
        let (e, s', n) = write_from o setting_count 0 c (write_schema o c s).1 0 in
        let (a, b) =
          write_end-commit c e s' n g
            (λ h. omega (arith, write_from-count setting_count 0 c (write_schema o c s).1 0 h))
            (subst (λ r. is_ok r.0 ≡ true) q t) in
        inl (t, ap (λ r. r.1) q ∙ a, ap (λ r. r.3) q ∙ b)
    | inr f ↦ let (a, b) = commit_all-failed c s f in inr (f, a, b)
  ]
