-- ===== src/Settings/Tests.antt =====
-- The settings at work.
use stark_one.Base.{
  inr, ℕ, suc, ◌<◌, ◌≡◌, ◌≢◌, ◌⊎◌, refl, sym, ap, true, false, Option, none, some, List, [], ◌∷◌,
  ◌==◌, eq→==, ne→==, if◌then◌else◌, arith,
}
use stark_one.Err.{Err, ok, not_found, io}
use stark_one.Settings.{
  Store, Key, schema, key, Op, set_one, commit, valid, defaults, value_of, is_ok, all_clean,
  setting_count, commit_all, load, act_all, default, desc, set_value, write_from, write_end,
}
use stark_one.Settings.Valid.{defaults-Good, load-valid}
use stark_one.Settings.Commit.{dirty_from, commit_all_lem}
use stark_one.Settings.Saved.{Keeps}
use stark_one.Settings.Durable.{Survives}
use stark_one.Settings.Reload.{after, saved, load-commit_all}

abbrev slot : Key → ℕ
slot schema = 0
slot (key k) = suc k

slot_ne : (y z : Key) → y ≢ z → slot z ≢ slot y
slot_ne schema schema d e = d refl
slot_ne schema (key k) d e = cc
slot_ne (key j) schema d e = cc
slot_ne (key j) (key k) d e = let q : k ≡ j = omega arith in d (ap key (sym q))

abbrev write : (ℕ → Option ℕ) → ℕ → ℕ → ℕ → Option ℕ
write m a v b = if b == a then some v else m b

abbrev read : Option ℕ → Err × ℕ
read none = (not_found, 0)
read (some v) = (ok, v)

-- a flash memory that always works, as it is read and as it is after a reboot
abbrev Flash : Type 0
Flash = (ℕ → Option ℕ) × (ℕ → Option ℕ)

abbrev flash : Store Flash
flash = record {
  get_u8 = λ m y. read (m.0 (slot y));
  set_u8 = λ m y v. (ok, (write m.0 (slot y) v, m.1));
  commit = λ m. (ok, (m.0, m.0));
}

abbrev held_at : Flash → Key → Option ℕ
held_at m y = m.0 (slot y)

abbrev lasts_at : Flash → Key → Option ℕ
lasts_at m y = m.1 (slot y)

abbrev reboot : Flash → Flash
reboot m = (m.1, m.1)

write_self : (m : ℕ → Option ℕ) (a v : ℕ) → write m a v a ≡ some v
write_self m a v = rw (eq→== a a refl) refl

write_other : (m : ℕ → Option ℕ) (a v b : ℕ) → b ≢ a → write m a v b ≡ m b
write_other m a v b d = rw (ne→== b a d) refl

flash-Keeps : Keeps flash held_at
flash-Keeps = record {
  get_some = λ s y v e. ap read e;
  get_none = λ s y e. ap (λ m. (read m).0) e;
  set_self = λ s y v h. write_self s.0 (slot y) v;
  set_other = λ s y z v d. write_other s.0 (slot y) v (slot z) (slot_ne y z d);
  commit_same = λ s y. refl;
}

flash-Survives : Survives flash held_at lasts_at reboot
flash-Survives = record {
  apart = λ s y z v d. refl;
  commits = λ s y h. refl;
  attempts = λ s y. inr refl;
  restarts = λ s y. refl;
}

-- a flash memory that fails
abbrev broken : Store (ℕ → Option ℕ)
broken = record { get_u8 = λ m y. (io, 0); set_u8 = λ m y v. (io, m); commit = λ m. (io, m) }

abbrev blank : ℕ → Option ℕ
blank a = none

abbrev asked : List Op
asked = set_one 0 50 ∷ set_one 3 9 ∷ commit ∷ set_one 2 2 ∷ []

load-valid_example :
    valid 2 (value_of (act_all broken asked (load broken blank).0 blank).0 2) ≡ true
load-valid_example = load-valid broken blank blank asked 2 (omega arith)

commit_all_lem_example :
    (is_ok (commit_all broken (defaults true) blank).0 ≡ true)
      × ((commit_all broken (defaults true) blank).1 ≡ all_clean (defaults true))
      × ((commit_all broken (defaults true) blank).3 ≡ dirty_from setting_count 0 (defaults true))
    ⊎ (is_ok (commit_all broken (defaults true) blank).0 ≡ false)
      × ((commit_all broken (defaults true) blank).1 ≡ defaults true)
      × ((commit_all broken (defaults true) blank).3 ≡ 0)
commit_all_lem_example = commit_all_lem broken (defaults true) blank (defaults-Good true)

abbrev empty : Flash
empty = (blank, blank)

saves : is_ok (commit_all flash (after flash empty asked).0 (after flash empty asked).1).0 ≡ true
unfolding commit_all load act_all set_value write_from write_end defaults default valid desc
saves = refl

load-commit_all_example :
    let c = (after flash empty asked).0 in
    let again = load flash (reboot (saved flash empty asked)) in
    ((k : ℕ) → k < setting_count → value_of again.0 k ≡ value_of c k)
    × (again.0.dirty ≡ false ∷ false ∷ false ∷ false ∷ [])
    × (again.2 ≡ [])
load-commit_all_example =
    load-commit_all flash held_at lasts_at reboot flash-Keeps flash-Survives empty asked
      (λ h k. refl) (λ y. refl) saves
