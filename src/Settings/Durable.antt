-- ===== src/Settings/Durable.antt =====
-- The settings over a store of two levels: what is read now, and what is still there after a reboot.
use stark_one.Base.{
  ℕ, zero, suc, ◌+◌, ◌≡◌, ◌≢◌, ◌⊎◌, inl, inr, refl, sym, ap, subst, ◌∙◌, true, false, ◌&&◌, not,
  Bool-cases, if_both, Option-cases, Option, none, some, List, [], ◌∷◌, ◌==◌, if◌then◌else◌, arith,
}
use stark_one.Err.{Err, ok}
use stark_one.Settings.{
  Core, Store, Key, schema, key, from_defaults, value_of, is_dirty, is_ok, defaults, setting_count,
  restore, write_from, write_end, write_schema, commit_all, all_clean, load, Op, set_one,
  restore_all, commit, act, act_all,
}
use stark_one.Settings.Valid.{Good, defaults-Good, act-Good}
use stark_one.Settings.Commit.{write_from-cases, commit_all-open, commit_all_lem}
use stark_one.Settings.Saved.{
  Keeps, Synced, Holds_same, key-eq, commit_all-Synced, set_value-Synced, restore_from-Synced,
  act-Synced,
}
use stark_one.Settings.Loaded.{Orderly, fresh-Synced, load-Synced}

-- What the settings rely on besides `Keeps`: what a reboot keeps, `durable`, is moved by a write at its
-- own key at most; a commit that is confirmed makes all that is read durable, one that fails may have
-- done so for some keys; after a reboot, `restart`, the store is read as what was durable.
pub record Survives {S : Type 0} (o : Store S) (view durable : S → Key → Option ℕ) (restart : S → S)
    : Type 0 where
  pub apart : (s : S) (y z : Key) (v : ℕ) → y ≢ z → durable (o.set_u8 s y v).1 z ≡ durable s z
  pub commits :
      (s : S) (y : Key) → is_ok (o.commit s).0 ≡ true → durable (o.commit s).1 y ≡ view s y
  pub attempts :
      (s : S) (y : Key)
      → (durable (o.commit s).1 y ≡ durable s y) ⊎ (durable (o.commit s).1 y ≡ view s y)
  pub restarts : (s : S) (y : Key) → view (restart s) y ≡ durable s y

pub agree-Synced :
    (m m' : Key → Option ℕ) (c : Core) → ((y : Key) → m y ≡ m' y) → Synced m c → Synced m' c
agree-Synced m m' c e y = record {
  held = λ k l f. Holds_same c k (e (key k)) (y.held k l f);
  marked = λ f. subst (λ (x : Option ℕ). x ≢ none) (e schema) (y.marked f);
}

-- A key that a commit has nothing to write at.
record Untouched (c : Core) (z : Key) : Type 0 where
  clean : (j : ℕ) → z ≡ key j → is_dirty c j ≡ false
  about : z ≡ schema → c.schema_dirty ≡ false

Untouched-key : (c : Core) (k : ℕ) → is_dirty c k ≡ false → Untouched c (key k)
Untouched-key c k f = record {
  clean = λ j e. subst (λ i. is_dirty c i ≡ false) (key-eq k j e) f;
  about = λ e. cc;
}

Untouched-schema : (c : Core) → c.schema_dirty ≡ false → Untouched c schema
Untouched-schema c f = record { clean = λ j e. cc; about = λ e. f }

-- either level of the store
module _ {S : Type 0} (o : Store S) (level : S → Key → Option ℕ)
    (apart : (s : S) (y z : Key) (v : ℕ) → y ≢ z → level (o.set_u8 s y v).1 z ≡ level s z) where
  write_from-level :
      (n k : ℕ) (c : Core) (s : S) (done : ℕ) (z : Key)
      → Untouched c z
      → level (write_from o n k c s done).1 z ≡ level s z
  unfolding write_from
  write_from-level zero k c s done z u = refl
  write_from-level (suc n) k c s done z u =
      let other : is_dirty c k ≡ true → key k ≢ z = λ t q. cc (sym t ∙ u.clean k (sym q)) in
      let w = (o.set_u8 s (key k) (value_of c k)).1 in
      elim (write_from-cases o n k c s done) [
        | inl (f, e) ↦ ap (λ r. level r.1 z) e ∙ write_from-level n (k + 1) c s done z u
        | inr (inl (t, q, e)) ↦
            ap (λ r. level r.1 z) e
            ∙ write_from-level n (k + 1) c w (done + 1) z u
            ∙ apart s (key k) z (value_of c k) (other t)
        | inr (inr (t, q, e)) ↦ ap (λ r. level r.1 z) e ∙ apart s (key k) z (value_of c k) (other t)
      ]

  write_schema-level :
      (c : Core) (s : S) (z : Key) → Untouched c z → level (write_schema o c s).1 z ≡ level s z
  write_schema-level c s z u = elim (Bool-cases c.schema_dirty) [
    | inr f ↦
        subst (λ b. level (if b then o.set_u8 s schema 1 else (ok, s)).1 z ≡ level s z) (sym f) refl
    | inl t ↦
        subst (λ b. level (if b then o.set_u8 s schema 1 else (ok, s)).1 z ≡ level s z) (sym t)
          (apart s schema z 1 (λ q. cc (sym t ∙ u.about (sym q))))
  ]

module _ {S : Type 0} (o : Store S) (view durable : S → Key → Option ℕ) (restart : S → S)
    (law : Keeps o view) (safe : Survives o view durable restart) where
  -- the ways in which the end of a commit succeeds
  write_end-safe :
      (c : Core) (e : Err) (s : S) (n : ℕ)
      → is_ok (write_end o c (e, s, n)).0 ≡ true
      → (write_end o c (e, s, n) ≡ (ok, c, s, 0))
        ⊎ (is_ok (o.commit s).0 ≡ true)
          × (write_end o c (e, s, n) ≡ (ok, all_clean c, (o.commit s).1, n))
  unfolding write_end
  write_end-safe c e s n h = ground arith

  -- What is durable at `z` stays, or is what was read there.
  Steady : S → S → Key → Type 0
  Steady s t z = (durable t z ≡ durable s z) ⊎ (durable t z ≡ view s z)

  write_end-Steady :
      (c : Core) (e : Err) (s : S) (n : ℕ) (z : Key) → Steady s (write_end o c (e, s, n)).2 z
  unfolding write_end Steady
  write_end-Steady c e s n z =
      let P : Err × Core × S × ℕ → Type 0 = λ r. Steady s r.2 z in
      let done = safe.attempts s z in
      if_both P (not (is_ok e)) _ _ (inl refl) (
        if_both P (n == 0 && not c.schema_dirty) _ _ (inl refl)
          (if_both P (is_ok (o.commit s).0) _ _ done done))

  Steady-from :
      (s u t : S) (z : Key)
      → durable u z ≡ durable s z
      → view u z ≡ view s z
      → Steady u t z
      → Steady s t z
  unfolding Steady
  Steady-from s u t z d v (inl e) = inl (e ∙ d)
  Steady-from s u t z d v (inr e) = inr (e ∙ v)

  commit_all-Steady : (c : Core) (s : S) (z : Key) → Untouched c z → Steady s (commit_all o c s).2 z
  unfolding commit_all Steady
  commit_all-Steady c s z u =
      let P : Err × Core × S × ℕ → Type 0 = λ r. Steady s r.2 z in
      let (e, t) = write_schema o c s in
      let (f, w, n) = write_from o setting_count 0 c t 0 in
      let d = write_schema-level o durable safe.apart c s z u in
      let v = write_schema-level o view law.set_other c s z u in
      let d' = write_from-level o durable safe.apart setting_count 0 c t 0 z u in
      let v' = write_from-level o view law.set_other setting_count 0 c t 0 z u in
      if_both P (not c.stored) _ _ (inl refl) (
        if_both P (is_ok e) _ _ (Steady-from s w _ z (d' ∙ d) (v' ∙ v) (write_end-Steady c f w n z))
          (inl d))

  Steady-Synced :
      (c : Core) (s t : S)
      → ((z : Key) → Untouched c z → Steady s t z)
      → Synced (view s) c
      → Synced (durable s) c
      → Synced (durable t) c
  unfolding Steady
  Steady-Synced c s t h v d = record {
    held = λ j l f. elim (h (key j) (Untouched-key c j f)) [
      | inl e ↦ Holds_same c j (sym e) (d.held j l f)
      | inr e ↦ Holds_same c j (sym e) (v.held j l f)
    ];
    marked = λ f. elim (h schema (Untouched-schema c f)) [
      | inl e ↦ λ z. d.marked f (sym e ∙ z)
      | inr e ↦ λ z. v.marked f (sym e ∙ z)
    ];
  }

  -- A commit that succeeds makes every setting durable.
  commit_all-Durable :
      (c : Core) (s : S)
      → Good c
      → is_ok (commit_all o c s).0 ≡ true
      → Synced (view s) c
      → Synced (durable s) c
      → Synced (durable (commit_all o c s).2) (commit_all o c s).1
  commit_all-Durable c s g h v d =
      let (q, e) = commit_all-open o c s h in
      let u = write_from o setting_count 0 c (write_schema o c s).1 0 in
      let done : is_ok (write_end o c u).0 ≡ true = subst (λ r. is_ok r.0 ≡ true) e h in
      elim (write_end-safe c u.0 u.1 u.2 done) [
        | inl w ↦
            subst (Synced (durable (commit_all o c s).2)) (sym (ap (λ r. r.1) (e ∙ w)))
              (Steady-Synced c s (commit_all o c s).2 (commit_all-Steady c s) v d)
        | inr (k, w) ↦
            let at_end = ap (λ r. r.2) (e ∙ w) in
            subst (Synced (durable (commit_all o c s).2)) (sym (ap (λ r. r.1) (e ∙ w))) (
              agree-Synced (view (commit_all o c s).2) (durable (commit_all o c s).2) (all_clean c)
                (λ z.
                  ap (λ t. view t z) at_end
                  ∙ law.commit_same u.1 z
                  ∙ sym (safe.commits u.1 z k)
                  ∙ sym (ap (λ t. durable t z) at_end))
                (commit_all-Synced o view law c s h v))
      ]

  pub commit-Durable :
      (c : Core) (s : S)
      → Good c
      → Synced (view s) c
      → Synced (durable s) c
      → Synced (durable (commit_all o c s).2) (commit_all o c s).1
  commit-Durable c s g v d = elim (commit_all_lem o c s g) [
    | inl (t, _, _) ↦ commit_all-Durable c s g t v d
    | inr (_, e, _) ↦
        subst (Synced (durable (commit_all o c s).2)) (sym e)
          (Steady-Synced c s (commit_all o c s).2 (commit_all-Steady c s) v d)
  ]

  act-Durable :
      (p : Op) (c : Core) (s : S)
      → Good c
      → Synced (view s) c
      → Synced (durable s) c
      → Synced (durable (act o p c s).1) (act o p c s).0
  unfolding act restore
  act-Durable (set_one k v) c s g y d = set_value-Synced o view law (durable s) c k v g d
  act-Durable restore_all c s g y d =
      restore_from-Synced o view law (durable s) setting_count 0 c g d
  act-Durable commit c s g y d = commit-Durable c s g y d

  pub act_all-Durable :
      (ps : List Op) (c : Core) (s : S)
      → Good c
      → Synced (view s) c
      → Synced (durable s) c
      → Synced (durable (act_all o ps c s).1) (act_all o ps c s).0
  unfolding act_all
  act_all-Durable [] c s g y d = d
  act_all-Durable (p ∷ ps) c s g y d =
      act_all-Durable ps (act o p c s).0 (act o p c s).1 (act-Good o p c s g)
        (act-Synced o view law p c s g y) (act-Durable p c s g y d)

  load_stays : (s : S) (v : ℕ) → view s schema ≡ some v → (load o s).1 ≡ s
  unfolding load
  load_stays s v e = simp (law.get_some s schema v e) refl

  load_fresh :
      (s : S)
      → view s schema ≡ none
      → Orderly (view s)
      → ((y : Key) → view s y ≡ durable s y)
      → Synced (durable (load o s).1) (load o s).0
  unfolding load
  load_fresh s e y same =
      let fresh = record (defaults true) { source = from_defaults; schema_dirty = true } in
      let g = defaults-Good true in
      let v = fresh-Synced o view law s e y in
      let d =
        commit-Durable fresh s (record { values = g.values; flags = g.flags; within = g.within }) v
          (agree-Synced (view s) (durable s) fresh same v) in
      simp (law.get_none s schema e) d

  pub load-Durable :
      (s : S)
      → Orderly (view s)
      → ((y : Key) → view s y ≡ durable s y)
      → Synced (durable (load o s).1) (load o s).0
  load-Durable s y same = elim (Option-cases (view s schema)) [
    | inl e ↦ load_fresh s e y same
    | inr (v, e) ↦
        let at_rest = load_stays s v e in
        agree-Synced (view (load o s).1) (durable (load o s).1) (load o s).0
          (λ z. ap (λ t. view t z) at_rest ∙ same z ∙ sym (ap (λ t. durable t z) at_rest))
          (load-Synced o view law s y)
  ]
