-- ===== src/Settings/Saved.antt =====
-- The settings over a store that keeps what is written to it: what was committed is read back.
use stark_one.Base.{
  ℕ, zero, suc, ◌+◌, ◌≤◌, ◌<◌, ◌≡◌, ◌≢◌, ◌⊎◌, inl, inr, refl, sym, ap, subst, ◌∙◌, true, false,
  ◌&&◌, not, Bool-cases, if_both, Option, none, some, List, [], ◌∷◌, get_or-set_self, get_or-set_ne,
  ◌==◌, ==→eq, ==→ne, if◌then◌else◌, arith,
}
use stark_one.Err.{Err, ok, not_found}
use stark_one.Settings.{
  Core, Store, Key, schema, key, value_of, is_dirty, is_ok, default, setting_count, set_value,
  restore_from, restore, write_from, write_end, write_schema, commit_all, all_clean, Op, set_one,
  restore_all, commit, act, act_all,
}
use stark_one.Settings.Valid.{
  Good, valid-below, write_end-done, set_value-Good, act-Good, stored, set_value-cases,
}
use stark_one.Settings.Commit.{write_from-cases, commit_all-open, commit_all_lem}

-- What the settings rely on: a store is read for what it holds, a write that is confirmed is held, and
-- no write touches another key. `view` is what it holds. A write that fails may leave its own key in
-- any state, and so may nothing else.
pub record Keeps {S : Type 0} (o : Store S) (view : S → Key → Option ℕ) : Type 0 where
  pub get_some : (s : S) (y : Key) (v : ℕ) → view s y ≡ some v → o.get_u8 s y ≡ (ok, v)
  pub get_none : (s : S) (y : Key) → view s y ≡ none → (o.get_u8 s y).0 ≡ not_found
  pub set_self :
      (s : S) (y : Key) (v : ℕ)
      → is_ok (o.set_u8 s y v).0 ≡ true
      → view (o.set_u8 s y v).1 y ≡ some v
  pub set_other : (s : S) (y z : Key) (v : ℕ) → y ≢ z → view (o.set_u8 s y v).1 z ≡ view s z
  pub commit_same : (s : S) (y : Key) → view (o.commit s).1 y ≡ view s y

-- The store holds the setting, or holds nothing where the setting has its default.
abbrev pub HoldsAt : Option ℕ → Core → ℕ → Type 0
HoldsAt m c k = (m ≡ some (value_of c k)) ⊎ (m ≡ none) × (value_of c k ≡ default k)

-- Each setting that is not dirty is held, and so is the schema.
pub record Synced (m : Key → Option ℕ) (c : Core) : Type 0 where
  pub held : (k : ℕ) → k < setting_count → is_dirty c k ≡ false → HoldsAt (m (key k)) c k
  pub marked : c.schema_dirty ≡ false → m schema ≢ none

pub Holds_same : (c : Core) (j : ℕ) {m m' : Option ℕ} → m ≡ m' → HoldsAt m c j → HoldsAt m' c j
Holds_same c j e h = subst (λ m. HoldsAt m c j) e h

pub key-eq : (j k : ℕ) → key j ≡ key k → j ≡ k
key-eq j k h = cc

module _ {S : Type 0} (o : Store S) (view : S → Key → Option ℕ) (law : Keeps o view) where
  -- What the writes from `k` on leave alone, and what they leave behind.
  record Wrote (n k : ℕ) (c : Core) (s : S) (r : Err × S × ℕ) : Type 0 where
    pub schema_same : view r.1 schema ≡ view s schema
    pub clean_same : (j : ℕ) → is_dirty c j ≡ false → view r.1 (key j) ≡ view s (key j)
    pub below_same : (j : ℕ) → j < k → view r.1 (key j) ≡ view s (key j)
    pub written :
        is_ok r.0 ≡ true
        → (j : ℕ) → k ≤ j
        → j < k + n
        → is_dirty c j ≡ true
        → view r.1 (key j) ≡ some (value_of c j)

  Wrote-skip :
      (n k : ℕ) (c : Core) (s : S) (r : Err × S × ℕ)
      → is_dirty c k ≡ false
      → Wrote n (k + 1) c s r
      → Wrote (suc n) k c s r
  Wrote-skip n k c s r f i = record {
    schema_same = i.schema_same;
    clean_same = i.clean_same;
    below_same = λ j h. i.below_same j (omega arith);
    written = λ h j l m d.
        let x : k ≢ j = λ x. cc (sym (subst (λ y. is_dirty c y ≡ false) x f) ∙ d) in
        i.written h j (omega arith) (omega arith) d;
  }

  write_from-Wrote :
      (n k : ℕ) (c : Core) (s : S) (done : ℕ) → Wrote n k c s (write_from o n k c s done)
  unfolding write_from
  write_from-Wrote zero k c s done = record {
    schema_same = refl;
    clean_same = λ j h. refl;
    below_same = λ j h. refl;
    written = λ h j l m d. absurd (omega arith);
  }
  write_from-Wrote (suc n) k c s done =
      let (_, w) = o.set_u8 s (key k) (value_of c k) in
      let other : (j : ℕ) → k ≢ j → view w (key j) ≡ view s (key j) =
        λ j d. law.set_other s (key k) (key j) (value_of c k) (λ q. d (key-eq k j q)) in
      let about : view w schema ≡ view s schema =
        law.set_other s (key k) schema (value_of c k) (λ q. cc) in
      elim (write_from-cases o n k c s done) [
        | inl (f, e) ↦
            subst (Wrote (suc n) k c s) (sym e)
              (Wrote-skip n k c s _ f (write_from-Wrote n (k + 1) c s done))
        | inr (inl (t, q, e)) ↦
            let i = write_from-Wrote n (k + 1) c w (done + 1) in
            subst (Wrote (suc n) k c s) (sym e) (record {
              schema_same = i.schema_same ∙ about;
              clean_same = λ j h.
                  i.clean_same j h
                  ∙ other j (λ x. cc (sym (subst (λ y. is_dirty c y ≡ true) x t) ∙ h));
              below_same = λ j h. i.below_same j (omega arith) ∙ other j (λ x. omega arith);
              written = λ h j l m d. elim (Bool-cases (j == k)) [
                | inl x ↦
                    subst
                      (λ y.
                        view (write_from o n (k + 1) c w (done + 1)).1 (key y)
                        ≡ some (value_of c y))
                      (sym (==→eq j k x))
                      (i.below_same k (omega arith) ∙ law.set_self s (key k) (value_of c k) q)
                | inr x ↦ let y = ==→ne j k x in i.written h j (omega arith) (omega arith) d
              ];
            })
        | inr (inr (t, q, e)) ↦ subst (Wrote (suc n) k c s) (sym e) (record {
          schema_same = about;
          clean_same = λ j h. other j (λ x. cc (sym (subst (λ y. is_dirty c y ≡ true) x t) ∙ h));
          below_same = λ j h. other j (λ x. omega arith);
          written = λ h j l m d. absurd (cc (sym q ∙ h));
        })
      ]

  -- Only what is dirty has changed in the store.
  record Kept (c : Core) (s s' : S) : Type 0 where
    pub about : c.schema_dirty ≡ false → view s' schema ≡ view s schema
    pub entry : (j : ℕ) → is_dirty c j ≡ false → view s' (key j) ≡ view s (key j)

  Kept-trans : (c : Core) (s t u : S) → Kept c s t → Kept c t u → Kept c s u
  Kept-trans c s t u p q = record {
    about = λ h. q.about h ∙ p.about h;
    entry = λ j h. q.entry j h ∙ p.entry j h;
  }

  Kept-refl : (c : Core) (s : S) → Kept c s s
  Kept-refl c s = record { about = λ h. refl; entry = λ j h. refl }

  write_schema-Kept : (c : Core) (s : S) → Kept c s (write_schema o c s).1
  write_schema-Kept c s = elim (Bool-cases c.schema_dirty) [
    | inr f ↦
        subst (λ b. Kept c s (if b then o.set_u8 s schema 1 else (ok, s)).1) (sym f) (Kept-refl c s)
    | inl t ↦
        subst (λ b. Kept c s (if b then o.set_u8 s schema 1 else (ok, s)).1) (sym t)
          (record {
            about = λ h. cc (sym t ∙ h);
            entry = λ j h. law.set_other s schema (key j) 1 (λ q. cc);
          })
  ]

  write_end-view :
      (c : Core) (e : Err) (s : S) (n : ℕ) (y : Key) → view (write_end o c (e, s, n)).2 y ≡ view s y
  unfolding write_end
  write_end-view c e s n y =
      let P : Err × Core × S × ℕ → Type 0 = λ r. view r.2 y ≡ view s y in
      let done = law.commit_same s y in
      if_both P (not (is_ok e)) _ _ refl (
        if_both P (n == 0 && not c.schema_dirty) _ _ refl
          (if_both P (is_ok (o.commit s).0) _ _ done done))

  commit_all-Kept : (c : Core) (s : S) → Kept c s (commit_all o c s).2
  unfolding commit_all
  commit_all-Kept c s =
      let P : Err × Core × S × ℕ → Type 0 = λ r. Kept c s r.2 in
      let (e, t) = write_schema o c s in
      let (f, u, n) = write_from o setting_count 0 c t 0 in
      let w = write_from-Wrote setting_count 0 c t 0 in
      let first = write_schema-Kept c s in
      let rest =
        Kept-trans c t u _ (record { about = λ h. w.schema_same; entry = w.clean_same })
          (record {
            about = λ h. write_end-view c f u n schema;
            entry = λ j h. write_end-view c f u n (key j);
          }) in
      if_both P (not c.stored) _ _ (Kept-refl c s)
        (if_both P (is_ok e) _ _ (Kept-trans c s t _ first rest) first)

  Kept-Synced : (c : Core) (s s' : S) → Kept c s s' → Synced (view s) c → Synced (view s') c
  Kept-Synced c s s' k y = record {
    held = λ j l f. Holds_same c j (sym (k.entry j f)) (y.held j l f);
    marked = λ f. subst (λ (m : Option ℕ). m ≢ none) (sym (k.about f)) (y.marked f);
  }

  write_schema-marked :
      (c : Core) (s : S)
      → is_ok (write_schema o c s).0 ≡ true
      → (c.schema_dirty ≡ false → view s schema ≢ none)
      → view (write_schema o c s).1 schema ≢ none
  write_schema-marked c s h m = elim (Bool-cases c.schema_dirty) [
    | inr f ↦
        subst (λ b. view (if b then o.set_u8 s schema 1 else (ok, s)).1 schema ≢ none) (sym f) (m f)
    | inl t ↦
        let q = subst (λ b. is_ok (if b then o.set_u8 s schema 1 else (ok, s)).0 ≡ true) t h in
        subst (λ b. view (if b then o.set_u8 s schema 1 else (ok, s)).1 schema ≢ none) (sym t)
          (λ z. cc (sym (law.set_self s schema 1 q) ∙ z))
  ]

  -- After a commit that succeeds, the store holds every setting.
  pub commit_all-Synced :
      (c : Core) (s : S)
      → is_ok (commit_all o c s).0 ≡ true
      → Synced (view s) c
      → Synced (view (commit_all o c s).2) (all_clean c)
  commit_all-Synced c s h y =
      let (q, e) = commit_all-open o c s h in
      let t = (write_schema o c s).1 in
      let u = write_from o setting_count 0 c t 0 in
      let w = write_from-Wrote setting_count 0 c t 0 in
      let first = write_schema-Kept c s in
      let last : (y : Key) → view (commit_all o c s).2 y ≡ view u.1 y =
        λ y. ap (λ r. view r.2 y) e ∙ write_end-view c u.0 u.1 u.2 y in
      let (written, _) = write_end-done o c u.0 u.1 u.2 (subst (λ r. is_ok r.0 ≡ true) e h) in
      record {
        held = λ j l _. elim (Bool-cases (is_dirty c j)) [
          | inl d ↦ inl (last (key j) ∙ w.written written j (omega arith) (omega arith) d)
          | inr d ↦
              Holds_same c j (sym (last (key j) ∙ w.clean_same j d ∙ first.entry j d))
                (y.held j l d)
        ];
        marked = λ _ z. write_schema-marked c s q y.marked (sym (last schema ∙ w.schema_same) ∙ z);
      }

  stored-Synced :
      (m : Key → Option ℕ) (c : Core) (k v : ℕ)
      → Good c
      → k < setting_count
      → Synced m c
      → Synced m (stored c k v)
  stored-Synced m c k v g l y = record {
    held = λ j lj f. elim (Bool-cases (j == k)) [
      | inl e ↦
          let e' = ==→eq j k e in
          let g' = get_or-set_self c.dirty k true false (subst (λ n. k < n) (sym g.flags) l) in
          absurd (cc (sym (subst (λ i. is_dirty (stored c k v) i ≡ false) e' f) ∙ g'))
      | inr e ↦
          let d : k ≢ j = λ q. ==→ne j k e (sym q) in
          let f' = sym (get_or-set_ne c.dirty k j true false d) ∙ f in
          let v' = get_or-set_ne c.value k j v 0 d in
          subst (λ x. (m (key j) ≡ some x) ⊎ (m (key j) ≡ none) × (x ≡ default j)) (sym v')
            (y.held j lj f')
    ];
    marked = y.marked;
  }

  pub set_value-Synced :
      (m : Key → Option ℕ) (c : Core) (k v : ℕ) → Good c → Synced m c → Synced m (set_value c k v).1
  set_value-Synced m c k v g y = elim (set_value-cases c k v) [
    | inl e ↦ subst (Synced m) (sym e) y
    | inr (t, e) ↦ subst (Synced m) (sym e) (stored-Synced m c k v g (valid-below k v t) y)
  ]

  pub restore_from-Synced :
      (m : Key → Option ℕ) (n k : ℕ) (c : Core)
      → Good c
      → Synced m c
      → Synced m (restore_from n k c).0
  unfolding restore_from
  restore_from-Synced m zero k c g y = y
  restore_from-Synced m (suc n) k c g y =
      restore_from-Synced m n (k + 1) (set_value c k (default k)).1
        (set_value-Good c k (default k) g) (set_value-Synced m c k (default k) g y)

  pub commit-Synced :
      (c : Core) (s : S)
      → Good c
      → Synced (view s) c
      → Synced (view (commit_all o c s).2) (commit_all o c s).1
  commit-Synced c s g y = elim (commit_all_lem o c s g) [
    | inl (t, e, _) ↦ subst (Synced (view (commit_all o c s).2)) (sym e) (commit_all-Synced c s t y)
    | inr (_, e, _) ↦
        subst (Synced (view (commit_all o c s).2)) (sym e)
          (Kept-Synced c s (commit_all o c s).2 (commit_all-Kept c s) y)
  ]

  pub act-Synced :
      (p : Op) (c : Core) (s : S)
      → Good c
      → Synced (view s) c
      → Synced (view (act o p c s).1) (act o p c s).0
  unfolding act restore
  act-Synced (set_one k v) c s g y = set_value-Synced (view s) c k v g y
  act-Synced restore_all c s g y = restore_from-Synced (view s) setting_count 0 c g y
  act-Synced commit c s g y = commit-Synced c s g y

  pub act_all-Synced :
      (ps : List Op) (c : Core) (s : S)
      → Good c
      → Synced (view s) c
      → Synced (view (act_all o ps c s).1) (act_all o ps c s).0
  unfolding act_all
  act_all-Synced [] c s g y = y
  act_all-Synced (p ∷ ps) c s g y =
      act_all-Synced ps (act o p c s).0 (act o p c s).1 (act-Good o p c s g) (act-Synced p c s g y)
