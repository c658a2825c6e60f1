-- ===== src/Settings/Loaded.antt =====
-- What loading makes of any store: each setting that is not dirty is held by the store.
use stark_one.Base.{
  ℕ, zero, suc, ◌+◌, ◌≤◌, ◌<◌, ◌≡◌, ◌⊎◌, inl, inr, sym, ap, subst, ◌∙◌, true, false, Bool-cases,
  Option-cases, Option, none, some, length, length-set, get_or, get_or-set_self, get_or-set_ne, set,
  ◌==◌, ==→eq, ==→ne, arith,
}
use stark_one.Settings.{
  Core, Store, Key, schema, key, from_nvs, from_defaults, valid, value_of, is_dirty, default,
  defaults, setting_count, load_key, load_from, load,
}
use stark_one.Settings.Valid.{Good, defaults-Good, defaults-value}
use stark_one.Settings.Saved.{Keeps, HoldsAt, Synced, commit-Synced}

-- A store that was never set up holds no setting.
abbrev pub Orderly : (Key → Option ℕ) → Type 0
Orderly m = m schema ≡ none → (k : ℕ) → m (key k) ≡ none

-- what `load_from` has done before key `k`
record Loaded (m : Key → Option ℕ) (k : ℕ) (d : Core) : Type 0 where
  pub values : length d.value ≡ setting_count
  pub flags : length d.dirty ≡ setting_count
  pub held : (j : ℕ) → j < k → is_dirty d j ≡ false → HoldsAt (m (key j)) d j
  pub fresh : (j : ℕ) → k ≤ j → j < setting_count → value_of d j ≡ default j

Loaded-set :
    (m : Key → Option ℕ) (k v : ℕ) (d : Core)
    → k < setting_count
    → m (key k) ≡ some v
    → Loaded m k d
    → Loaded m (k + 1) (record d { value = set d.value k v })
Loaded-set m k v d l e r = record {
  values = length-set d.value k v ∙ r.values;
  flags = r.flags;
  held = λ j h f. elim (Bool-cases (j == k)) [
    | inl q ↦
        subst (λ i. HoldsAt (m (key i)) (record d { value = set d.value k v }) i)
          (sym (==→eq j k q))
          (inl (
            e
            ∙ ap some (sym (get_or-set_self d.value k v 0 (subst (λ n. k < n) (sym r.values) l)))))
    | inr q ↦
        let n = ==→ne j k q in
        subst (λ x. (m (key j) ≡ some x) ⊎ (m (key j) ≡ none) × (x ≡ default j))
          (sym (get_or-set_ne d.value k j v 0 (λ x. n (sym x)))) (r.held j (omega arith) f)
  ];
  fresh = λ j h n. get_or-set_ne d.value k j v 0 (λ q. omega arith) ∙ r.fresh j (omega arith) n;
}

Loaded-mark :
    (m : Key → Option ℕ) (k : ℕ) (d : Core)
    → k < setting_count
    → Loaded m k d
    → Loaded m (k + 1) (record d { dirty = set d.dirty k true })
Loaded-mark m k d l r = record {
  values = r.values;
  flags = length-set d.dirty k true ∙ r.flags;
  held = λ j h f. elim (Bool-cases (j == k)) [
    | inl q ↦
        let t = get_or-set_self d.dirty k true false (subst (λ n. k < n) (sym r.flags) l) in
        absurd
          (cc (sym (subst (λ i. get_or (set d.dirty k true) i false ≡ false) (==→eq j k q) f) ∙ t))
    | inr q ↦
        let n = ==→ne j k q in
        r.held j (omega arith) (sym (get_or-set_ne d.dirty k j true false (λ x. n (sym x))) ∙ f)
  ];
  fresh = λ j h n. r.fresh j (omega arith) n;
}

Loaded-keep :
    (m : Key → Option ℕ) (k : ℕ) (d : Core)
    → k < setting_count
    → m (key k) ≡ none
    → Loaded m k d
    → Loaded m (k + 1) d
Loaded-keep m k d l e r = record {
  values = r.values;
  flags = r.flags;
  held = λ j h f. elim (Bool-cases (j == k)) [
    | inl q ↦
        subst (λ i. HoldsAt (m (key i)) d i) (sym (==→eq j k q))
          (inr (e, r.fresh k (omega arith) l))
    | inr q ↦ let n = ==→ne j k q in r.held j (omega arith) f
  ];
  fresh = λ j h n. r.fresh j (omega arith) n;
}

module _ {S : Type 0} (o : Store S) (view : S → Key → Option ℕ) (law : Keeps o view) where
  load_key-Loaded :
      (k : ℕ) (s : S) (d : Core)
      → k < setting_count
      → Loaded (view s) k d
      → Loaded (view s) (k + 1) (load_key o k d (o.get_u8 s (key k))).0
  unfolding load_key
  load_key-Loaded k s d l r = elim (Option-cases (view s (key k))) [
    | inl e ↦ simp (law.get_none s (key k) e) (Loaded-keep (view s) k d l e r)
    | inr (v, e) ↦ elim (Bool-cases (valid k v)) [
      | inl t ↦ simp (law.get_some s (key k) v e, t) (Loaded-set (view s) k v d l e r)
      | inr f ↦ simp (law.get_some s (key k) v e, f) (Loaded-mark (view s) k d l r)
    ]
  ]

  load_from-Loaded :
      (n k : ℕ) (s : S) (d : Core)
      → k + n ≡ setting_count
      → Loaded (view s) k d
      → Loaded (view s) setting_count (load_from o n k s d).0
  unfolding load_from
  load_from-Loaded zero k s d l r = subst (λ i. Loaded (view s) i d) (omega arith) r
  load_from-Loaded (suc n) k s d l r =
      load_from-Loaded n (k + 1) s (load_key o k d (o.get_u8 s (key k))).0 (omega arith)
        (load_key-Loaded k s d (omega arith) r)

  pub fresh-Synced :
      (s : S)
      → view s schema ≡ none
      → Orderly (view s)
      → Synced (view s) (record (defaults true) { source = from_defaults; schema_dirty = true })
  fresh-Synced s e y = record {
    held = λ k l f. inr (y e k, defaults-value true k l);
    marked = λ f. cc;
  }

  pub load-Synced : (s : S) → Orderly (view s) → Synced (view (load o s).1) (load o s).0
  unfolding load
  load-Synced s y =
      let fresh = record (defaults true) { source = from_defaults; schema_dirty = true } in
      let g = defaults-Good true in
      let fresh-Good : Good fresh = record {
        values = g.values;
        flags = g.flags;
        within = g.within;
      } in
      let start : Loaded (view s) 0 (record (defaults true) { source = from_nvs }) = record {
        values = g.values;
        flags = g.flags;
        held = λ j h f. absurd (omega arith);
        fresh = λ j h n. defaults-value true j n;
      } in
      elim (Option-cases (view s schema)) [
        | inl e ↦
            simp (law.get_none s schema e)
              (commit-Synced o view law fresh s fresh-Good (fresh-Synced s e y))
        | inr (v, e) ↦ simp (law.get_some s schema v e) (record {
          held =
              (load_from-Loaded setting_count 0 s (record (defaults true) { source = from_nvs })
                (omega arith) start).held;
          marked = λ _ z. cc (sym e ∙ z);
        })
      ]
