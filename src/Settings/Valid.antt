-- ===== src/Settings/Valid.antt =====
-- The settings over a store of any behaviour: they stay in range, and a commit is all or nothing.
use stark_one.Base.{
  ℕ, zero, suc, ◌+◌, ◌<◌, ◌≡◌, ◌⊎◌, inl, inr, refl, sym, ap, subst, ◌∙◌, Bool, true, false, not,
  Bool-cases, if_both, List, [], ◌∷◌, length, length-set, get_or, get_or-set_self, get_or-set_ne,
  set, ◌==◌, ==→eq, ==→ne, ◌!=◌, arith,
}
use stark_one.Err.{Err, ok}
use stark_one.Settings.{
  Core, Store, Hook, from_nvs, from_defaults, schema, key, valid, value_of, is_ok, is_not_found,
  setting_count, set_value, default, defaults, restore_from, restore, write_from, write_end,
  write_schema, commit_all, all_clean, load_key, load_from, load, desc, Op, set_one, restore_all,
  commit, act, act_all,
}

-- four settings, each within its range
pub record Good (c : Core) : Type 0 where
  pub values : length c.value ≡ setting_count
  pub flags : length c.dirty ≡ setting_count
  pub within : (k : ℕ) → k < setting_count → valid k (value_of c k) ≡ true

pub valid-below : (k v : ℕ) → valid k v ≡ true → k < setting_count
unfolding valid desc
valid-below zero v h = omega arith
valid-below (suc zero) v h = omega arith
valid-below (suc (suc zero)) v h = omega arith
valid-below (suc (suc (suc zero))) v h = omega arith
valid-below (suc (suc (suc (suc k)))) v h = cc

pub default-valid : (k : ℕ) → k < setting_count → valid k (default k) ≡ true
unfolding valid default desc
default-valid zero h = refl
default-valid (suc zero) h = refl
default-valid (suc (suc zero)) h = refl
default-valid (suc (suc (suc zero))) h = refl
default-valid (suc (suc (suc (suc k)))) h = absurd (omega arith)

pub defaults-value : (b : Bool) (k : ℕ) → k < setting_count → value_of (defaults b) k ≡ default k
unfolding defaults
defaults-value b zero h = refl
defaults-value b (suc zero) h = refl
defaults-value b (suc (suc zero)) h = refl
defaults-value b (suc (suc (suc zero))) h = refl
defaults-value b (suc (suc (suc (suc k)))) h = absurd (omega arith)

pub defaults-Good : (b : Bool) → Good (defaults b)
unfolding defaults
defaults-Good b = record {
  values = refl;
  flags = refl;
  within = λ k h. subst (λ v. valid k v ≡ true) (sym (defaults-value b k h)) (default-valid k h);
}

-- Storing a valid value keeps the core good, whatever becomes of the rest of it.
stored-within :
    (xs : List ℕ) (k v : ℕ)
    → length xs ≡ setting_count
    → valid k v ≡ true
    → ((j : ℕ) → j < setting_count → valid j (get_or xs j 0) ≡ true)
    → (j : ℕ) → j < setting_count
    → valid j (get_or (set xs k v) j 0) ≡ true
stored-within xs k v len h all j l = elim (Bool-cases (j == k)) [
  | inl e ↦
      let same = ==→eq j k e in
      subst (λ i. valid i (get_or (set xs k v) i 0) ≡ true) (sym same)
        (subst (λ x. valid k x ≡ true) (sym (get_or-set_self xs k v 0 (omega arith))) h)
  | inr e ↦
      subst (λ x. valid j x ≡ true) (sym (get_or-set_ne xs k j v 0 (λ q. ==→ne j k e (sym q))))
        (all j l)
]

abbrev pub stored : Core → ℕ → ℕ → Core
stored c k v = record c { value = set c.value k v; dirty = set c.dirty k true }

pub set_value-cases :
    (c : Core) (k v : ℕ)
    → ((set_value c k v).1 ≡ c) ⊎ (valid k v ≡ true) × ((set_value c k v).1 ≡ stored c k v)
unfolding set_value
set_value-cases c k v = elim (Bool-cases (valid k v)) [
  | inr f ↦ inl (rw f refl)
  | inl t ↦ elim (Bool-cases (value_of c k != v)) [
    | inl new ↦ inr (t, ground arith)
    | inr same ↦ inl (ground arith)
  ]
]

stored-Good : (c : Core) (k v : ℕ) → valid k v ≡ true → Good c → Good (stored c k v)
stored-Good c k v h g = record {
  values = length-set c.value k v ∙ g.values;
  flags = length-set c.dirty k true ∙ g.flags;
  within = stored-within c.value k v g.values h g.within;
}

pub set_value-Good : (c : Core) (k v : ℕ) → Good c → Good (set_value c k v).1
set_value-Good c k v g = elim (set_value-cases c k v) [
  | inl e ↦ subst Good (sym e) g
  | inr (t, e) ↦ subst Good (sym e) (stored-Good c k v t g)
]

pub restore_from-Good : (n k : ℕ) (c : Core) → Good c → Good (restore_from n k c).0
unfolding restore_from
restore_from-Good zero k c g = g
restore_from-Good (suc n) k c g =
    restore_from-Good n (k + 1) (set_value c k (default k)).1 (set_value-Good c k (default k) g)

module _ {S : Type 0} (o : Store S) where
  -- Nothing had to be written, or all that was is clean.
  pub write_end-done :
      (c : Core) (e : Err) (s : S) (n : ℕ)
      → is_ok (write_end o c (e, s, n)).0 ≡ true
      → (is_ok e ≡ true)
        × ((n ≡ 0) × (c.schema_dirty ≡ false) × (write_end o c (e, s, n) ≡ (ok, c, s, 0))
            ⊎ (write_end o c (e, s, n) ≡ (ok, all_clean c, (o.commit s).1, n)))
  unfolding write_end
  write_end-done c e s n h = ground arith

  pub write_end-failed :
      (c : Core) (e : Err) (s : S) (n : ℕ)
      → is_ok (write_end o c (e, s, n)).0 ≡ false
      → ((write_end o c (e, s, n)).1 ≡ c) × ((write_end o c (e, s, n)).3 ≡ 0)
  unfolding write_end
  write_end-failed c e s n h = ground arith

  load_key-cases :
      (k : ℕ) (c : Core) (e : Err) (v : ℕ)
      → ((load_key o k c (e, v)).0 ≡ c)
        ⊎ (valid k v ≡ true) × ((load_key o k c (e, v)).0 ≡ record c { value = set c.value k v })
        ⊎ ((load_key o k c (e, v)).0 ≡ record c { dirty = set c.dirty k true })
  unfolding load_key
  load_key-cases k c e v = ground arith

  load_key-Good : (k : ℕ) (c : Core) (e : Err) (v : ℕ) → Good c → Good (load_key o k c (e, v)).0
  load_key-Good k c e v g = elim (load_key-cases k c e v) [
    | inl q ↦ subst Good (sym q) g
    | inr (inl (t, q)) ↦ subst Good (sym q) (record {
      values = length-set c.value k v ∙ g.values;
      flags = g.flags;
      within = stored-within c.value k v g.values t g.within;
    })
    | inr (inr q) ↦ subst Good (sym q) (record {
      values = g.values;
      flags = length-set c.dirty k true ∙ g.flags;
      within = g.within;
    })
  ]

  load_from-Good : (n k : ℕ) (s : S) (c : Core) → Good c → Good (load_from o n k s c).0
  unfolding load_from
  load_from-Good zero k s c g = g
  load_from-Good (suc n) k s c g =
      let r = o.get_u8 s (key k) in load_from-Good n (k + 1) s _ (load_key-Good k c r.0 r.1 g)

  pub all_clean-Good : (c : Core) → Good c → Good (all_clean c)
  all_clean-Good c g = record { values = g.values; flags = refl; within = g.within }

  write_end-Good : (c : Core) (e : Err) (s : S) (n : ℕ) → Good c → Good (write_end o c (e, s, n)).1
  write_end-Good c e s n g = elim (Bool-cases (is_ok (write_end o c (e, s, n)).0)) [
    | inr f ↦ subst Good (sym (write_end-failed c e s n f).0) g
    | inl t ↦ elim (write_end-done c e s n t).1 [
      | inl (_, _, q) ↦ subst Good (sym (ap (λ r. r.1) q)) g
      | inr q ↦ subst Good (sym (ap (λ r. r.1) q)) (all_clean-Good c g)
    ]
  ]

  pub commit_all-Good : (c : Core) (s : S) → Good c → Good (commit_all o c s).1
  unfolding commit_all
  commit_all-Good c s g =
      let (e, s') = write_schema o c s in
      let (f, s'', n) = write_from o setting_count 0 c s' 0 in
      let P : Err × Core × S × ℕ → Type 0 = λ r. Good r.1 in
      if_both P (not c.stored) _ _ g (if_both P (is_ok e) _ _ (write_end-Good c f s'' n g) g)

  pub load-Good : (s : S) → Good (load o s).0
  unfolding load
  load-Good s =
      let c = record (defaults true) { source = from_nvs } in
      let d = record (defaults true) { source = from_defaults; schema_dirty = true } in
      let g = defaults-Good true in
      let P : Core × S × List Hook → Type 0 = λ r. Good r.0 in
      let e = (o.get_u8 s schema).0 in
      if_both P (is_not_found e) _ _
        (commit_all-Good d s (record { values = g.values; flags = g.flags; within = g.within }))
        (if_both P (not (is_ok e)) _ _
          (record { values = g.values; flags = g.flags; within = g.within })
          (load_from-Good setting_count 0 s c
            (record { values = g.values; flags = g.flags; within = g.within })))

  pub act-Good : (p : Op) (c : Core) (s : S) → Good c → Good (act o p c s).0
  unfolding act restore
  act-Good (set_one k v) c s g = set_value-Good c k v g
  act-Good restore_all c s g = restore_from-Good setting_count 0 c g
  act-Good commit c s g = commit_all-Good c s g

  pub act_all-Good : (ps : List Op) (c : Core) (s : S) → Good c → Good (act_all o ps c s).0
  unfolding act_all
  act_all-Good [] c s g = g
  act_all-Good (p ∷ ps) c s g = act_all-Good ps (act o p c s).0 (act o p c s).1 (act-Good p c s g)

  -- Whatever the store answers and whatever is asked, after loading every setting has a value that is
  -- valid for it.
  pub load-valid :
      (s s' : S) (ps : List Op) (k : ℕ)
      → k < setting_count
      → valid k (value_of (act_all o ps (load o s).0 s').0 k) ≡ true
  load-valid s s' ps = (act_all-Good ps (load o s).0 s' (load-Good s)).within
