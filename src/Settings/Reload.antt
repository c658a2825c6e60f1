-- ===== src/Settings/Reload.antt =====
-- Loading the settings: what it makes of the store, and that it reads back what was committed.
use stark_one.Base.{
  ℕ, zero, suc, ◌+◌, ◌≤◌, ◌<◌, ◌≡◌, inl, inr, refl, sym, ap₂, subst, ◌∙◌, true, false, Bool-cases,
  Option-cases, Option, List, [], ◌∷◌, ◌++◌, length, length-set, get_or, get_or-set_self,
  get_or-set_ne, set, ◌==◌, ==→eq, ==→ne, arith,
}
use stark_one.Settings.{
  Core, Store, Key, schema, key, from_nvs, value_of, is_ok, default, defaults, setting_count,
  commit_all, all_clean, load_key, load_from, load, Op, act_all,
}
use stark_one.Settings.Valid.{Good, load-Good, act_all-Good, defaults-value}
use stark_one.Settings.Loaded.{Orderly, load-Synced}
use stark_one.Settings.Saved.{Keeps, HoldsAt, Synced, act_all-Synced}
use stark_one.Settings.Commit.{commit_all_lem}
use stark_one.Settings.Durable.{
  Survives, agree-Synced, commit-Durable, act_all-Durable, load-Durable,
}

-- what `load_from` has done before key `k`, for a store that holds a clean core
record ReadBack (c : Core) (k : ℕ) (d : Core) : Type 0 where
  pub values : length d.value ≡ setting_count
  pub read : (j : ℕ) → j < k → value_of d j ≡ value_of c j
  pub fresh : (j : ℕ) → k ≤ j → j < setting_count → value_of d j ≡ default j
  pub flags : d.dirty ≡ false ∷ false ∷ false ∷ false ∷ []
  pub about : d.schema_dirty ≡ false

ReadBack-set :
    (k : ℕ) (c d : Core)
    → k < setting_count
    → ReadBack c k d
    → ReadBack c (k + 1) (record d { value = set d.value k (value_of c k) })
ReadBack-set k c d l r =
    let v = value_of c k in
    record {
      values = length-set d.value k v ∙ r.values;
      read = λ j h. elim (Bool-cases (j == k)) [
        | inl e ↦
            subst (λ i. get_or (set d.value k v) i 0 ≡ value_of c i) (sym (==→eq j k e))
              (get_or-set_self d.value k v 0 (subst (λ n. k < n) (sym r.values) l))
        | inr e ↦
            let n = ==→ne j k e in
            get_or-set_ne d.value k j v 0 (λ q. n (sym q)) ∙ r.read j (omega arith)
      ];
      fresh = λ j h m. get_or-set_ne d.value k j v 0 (λ q. omega arith) ∙ r.fresh j (omega arith) m;
      flags = r.flags;
      about = r.about;
    }

ReadBack-keep :
    (k : ℕ) (c d : Core)
    → value_of c k ≡ default k
    → ReadBack c k d
    → k < setting_count
    → ReadBack c (k + 1) d
ReadBack-keep k c d q r l = record {
  values = r.values;
  read = λ j h. elim (Bool-cases (j == k)) [
    | inl e ↦
        subst (λ i. value_of d i ≡ value_of c i) (sym (==→eq j k e))
          (r.fresh k (omega arith) l ∙ sym q)
    | inr e ↦ let n = ==→ne j k e in r.read j (omega arith)
  ];
  fresh = λ j h m. r.fresh j (omega arith) m;
  flags = r.flags;
  about = r.about;
}

no_flag : (j : ℕ) → get_or (false ∷ false ∷ false ∷ false ∷ []) j false ≡ false
no_flag zero = refl
no_flag (suc zero) = refl
no_flag (suc (suc zero)) = refl
no_flag (suc (suc (suc zero))) = refl
no_flag (suc (suc (suc (suc j)))) = refl

module _ {S : Type 0} (o : Store S) where
  -- The core and the store after loading and some calls.
  abbrev pub after : S → List Op → Core × S
  after s ps = act_all o ps (load o s).0 (load o s).1

  -- The store that a commit then leaves.
  abbrev pub saved : S → List Op → S
  saved s ps = (commit_all o (after s ps).0 (after s ps).1).2

  committed-clean :
      (c : Core) (s : S)
      → Good c
      → is_ok (commit_all o c s).0 ≡ true
      → (commit_all o c s).1 ≡ all_clean c
  committed-clean c s g h = elim (commit_all_lem o c s g) [
    | inl (_, e, _) ↦ e
    | inr (f, _, _) ↦ absurd (cc (sym h ∙ f))
  ]

module _ {S : Type 0} (o : Store S) (view : S → Key → Option ℕ) (law : Keeps o view) where
  -- A held setting is read as it is, and nothing is told.
  load_key-held :
      (k : ℕ) (s : S) (c d : Core)
      → k < setting_count
      → Good c
      → HoldsAt (view s (key k)) c k
      → ReadBack c k d
      → ReadBack c (k + 1) (load_key o k d (o.get_u8 s (key k))).0
        × ((load_key o k d (o.get_u8 s (key k))).1 ≡ [])
  unfolding load_key
  load_key-held k s c d l g (inl e) r =
      simp (law.get_some s (key k) (value_of c k) e, g.within k l) (ReadBack-set k c d l r, refl)
  load_key-held k s c d l g (inr (e, q)) r =
      simp (law.get_none s (key k) e) (ReadBack-keep k c d q r l, refl)

  load_from-held :
      (n k : ℕ) (s : S) (c d : Core)
      → k + n ≡ setting_count
      → Good c
      → ((j : ℕ) → j < setting_count → HoldsAt (view s (key j)) c j)
      → ReadBack c k d
      → ReadBack c setting_count (load_from o n k s d).0 × ((load_from o n k s d).1 ≡ [])
  unfolding load_from
  load_from-held zero k s c d l g h r = (subst (λ i. ReadBack c i d) (omega arith) r, refl)
  load_from-held (suc n) k s c d l g h r =
      let (a, b) = load_key-held k s c d (omega arith) g (h k (omega arith)) r in
      let (a', b') =
        load_from-held n (k + 1) s c (load_key o k d (o.get_u8 s (key k))).0 (omega arith) g h a in
      (a', ap₂ ◌++◌ b b')

  defaults-ReadBack : (c : Core) → ReadBack c 0 (record (defaults true) { source = from_nvs })
  unfolding defaults
  defaults-ReadBack c = record {
    values = refl;
    read = λ j h. absurd (omega arith);
    fresh = λ j h n. defaults-value true j n;
    flags = refl;
    about = refl;
  }

  load-held :
      (s : S) (c : Core)
      → Good c
      → Synced (view s) (all_clean c)
      → ReadBack c setting_count (load o s).0 × ((load o s).2 ≡ [])
  unfolding load
  load-held s c g y = elim (Option-cases (view s schema)) [
    | inl e ↦ absurd (y.marked refl e)
    | inr (v, e) ↦ simp (law.get_some s schema v e) (
        load_from-held setting_count 0 s c (record (defaults true) { source = from_nvs })
          (omega arith) g (λ j l. y.held j l (no_flag j)) (defaults-ReadBack c))
  ]

module _ {S : Type 0} (o : Store S) (view durable : S → Key → Option ℕ) (restart : S → S)
    (law : Keeps o view) (safe : Survives o view durable restart) where
  -- What survives of a committed change: after loading and any calls, if a commit succeeds, then after a
  -- reboot loading gives each setting the value that it had, with nothing marked to be written and
  -- nothing found invalid. The store keeps what it confirms (`Keeps`) and a reboot loses whatever no
  -- confirmed commit followed, or may (`Survives`); at first it is as a reboot leaves it, and holds no
  -- setting unless it holds the schema.
  pub load-commit_all :
      (s : S) (ps : List Op)
      → Orderly (view s)
      → ((y : Key) → view s y ≡ durable s y)
      → is_ok (commit_all o (after o s ps).0 (after o s ps).1).0 ≡ true
      → let c = (after o s ps).0 in
        let again = load o (restart (saved o s ps)) in
        ((k : ℕ) → k < setting_count → value_of again.0 k ≡ value_of c k)
        × (again.0.dirty ≡ false ∷ false ∷ false ∷ false ∷ [])
        × (again.2 ≡ [])
  load-commit_all s ps y same h =
      let (c, t) = after o s ps in
      let g = act_all-Good o ps (load o s).0 (load o s).1 (load-Good o s) in
      let first = load-Synced o view law s y in
      let seen = act_all-Synced o view law ps (load o s).0 (load o s).1 (load-Good o s) first in
      let kept =
        act_all-Durable o view durable restart law safe ps (load o s).0 (load o s).1 (load-Good o s)
          first (load-Durable o view durable restart law safe s y same) in
      let after_all = commit-Durable o view durable restart law safe c t g seen kept in
      let clean = committed-clean o c t g h in
      let (r, quiet) = load-held o view law (restart (saved o s ps)) c g (
        agree-Synced (durable (saved o s ps)) (view (restart (saved o s ps))) (all_clean c)
          (λ z. sym (safe.restarts (saved o s ps) z))
          (subst (Synced (durable (saved o s ps))) clean after_all)) in
      (r.read, r.flags, quiet)
