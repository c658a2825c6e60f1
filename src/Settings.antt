-- ===== src/Settings.antt =====
-- components/stark_settings/settings_core.c: four small settings in RAM over a store of bytes.
pub mod Valid
pub mod Commit
pub mod Saved
pub mod Loaded
pub mod Durable
pub mod Reload
mod Tests
use stark_one.Base.{
  ℕ, zero, suc, ◌+◌, ◌-◌, ◌%◌, Bool, true, false, ◌&&◌, ◌||◌, not, Option, none, some, List, [],
  ◌∷◌, ◌++◌, get_or, set, ltb, leb, ◌==◌, ◌!=◌, if◌then◌else◌,
}
use stark_one.Err.{Err, ok, invalid_arg, not_found, io}

-- `stark_setting_desc_t`, less its texts
pub record Desc : Type 0 where
  pub min : ℕ
  pub max : ℕ
  pub step : ℕ
  pub def : ℕ

-- STARK_SET_COUNT
abbrev pub setting_count : ℕ
setting_count = 4

-- `k_desc`; `none` is out of the table.
pub desc : ℕ → Option Desc
desc zero = some (record { min = 10; max = 100; step = 10; def = 100 })
desc (suc zero) = some (record { min = 0; max = 3; step = 1; def = 3 })
desc (suc (suc zero)) = some (record { min = 0; max = 2; step = 1; def = 1 })
desc (suc (suc (suc zero))) = some (record { min = 0; max = 3; step = 1; def = 2 })
desc (suc (suc (suc (suc k)))) = none

abbrev pub in_range : Option Desc → ℕ → Bool
in_range none v = false
in_range (some d) v = leb d.min v && (leb v d.max && (v - d.min) % d.step == 0)

pub valid : ℕ → ℕ → Bool
unfolding desc
valid k v = in_range (desc k) v

-- `k_desc[k].def`, for the keys of the table
abbrev pub default_of : Option Desc → ℕ
default_of none = 0
default_of (some d) = d.def

pub default : ℕ → ℕ
unfolding desc
default k = default_of (desc k)

-- The store's names: "schema", and that of a setting.
pub data Key : Type 0 where
  schema : Key
  key : ℕ → Key

-- `settings_store_t`, over what it keeps
pub record Store (S : Type 0) : Type 0 where
  pub get_u8 : S → Key → Err × ℕ
  pub set_u8 : S → Key → ℕ → Err × S
  pub commit : S → Err × S

-- `settings_source_t`
pub data Source : Type 0 where
  from_nvs from_defaults from_ram : Source

-- `settings_core_t`; `stored` says whether `store` points to a store.
pub record Core : Type 0 where
  pub value : List ℕ
  pub dirty : List Bool
  pub schema_dirty : Bool
  pub stored : Bool
  pub source : Source

-- A call of a hook.
pub data Hook : Type 0 where
  changed invalid : ℕ → ℕ → Hook

-- SETTINGS_SCHEMA
abbrev pub schema_version : ℕ
schema_version = 1

abbrev pub value_of : Core → ℕ → ℕ
value_of c k = get_or c.value k 0

abbrev pub is_dirty : Core → ℕ → Bool
is_dirty c k = get_or c.dirty k false

abbrev pub is_ok : Err → Bool
is_ok ok = true
is_ok _ = false

abbrev pub is_not_found : Err → Bool
is_not_found not_found = true
is_not_found _ = false

-- `settings_core_set`, and the hooks it calls
pub set_value : Core → ℕ → ℕ → Err × Core × List Hook
set_value c k v =
    if not (valid k v)
    then (invalid_arg, c, [])
    else if value_of c k != v
    then (ok, record c { value = set c.value k v; dirty = set c.dirty k true }, changed k v ∷ [])
    else (ok, c, [])

-- The loop of `settings_core_restore` at key `k`, with `n` keys to go.
pub restore_from : ℕ → ℕ → Core → Core × List Hook
unfolding set_value
restore_from zero k c = (c, [])
restore_from (suc n) k c =
    let (_, c', h) = set_value c k (default k) in
    let (c'', hs) = restore_from n (k + 1) c' in (c'', h ++ hs)

pub restore : Core → Core × List Hook
unfolding restore_from
restore c = restore_from setting_count 0 c

-- all settings at their defaults
pub defaults : Bool → Core
defaults stored = record {
  value = default 0 ∷ default 1 ∷ default 2 ∷ default 3 ∷ [];
  dirty = false ∷ false ∷ false ∷ false ∷ [];
  schema_dirty = false;
  stored = stored;
  source = from_ram;
}

abbrev pub all_clean : Core → Core
all_clean c = record c { dirty = false ∷ false ∷ false ∷ false ∷ []; schema_dirty = false }

-- What a client asks of the settings once they are loaded.
pub data Op : Type 0 where
  set_one : ℕ → ℕ → Op
  restore_all commit : Op

module _ {S : Type 0} (o : Store S) where
  -- The loop of `settings_core_commit` at key `k`, with `n` keys to go and `done` written.
  pub write_from : ℕ → ℕ → Core → S → ℕ → Err × S × ℕ
  write_from zero k c s done = (ok, s, done)
  write_from (suc n) k c s done = elim (is_dirty c k) [
    | false ↦ write_from n (k + 1) c s done
    | true ↦
        let (e, s') = o.set_u8 s (key k) (value_of c k) in
        elim (is_ok e) [ true ↦ write_from n (k + 1) c s' (done + 1) | false ↦ (e, s', done) ]
  ]

  abbrev pub write_schema : Core → S → Err × S
  write_schema c s = if c.schema_dirty then o.set_u8 s schema schema_version else (ok, s)

  -- after the writes, `done` of them
  pub write_end : Core → Err × S × ℕ → Err × Core × S × ℕ
  write_end c (e, s, done) =
      let (f, s') = o.commit s in
      if not (is_ok e)
      then (e, c, s, 0)
      else if done == 0 && not c.schema_dirty
      then (ok, c, s, 0)
      else if is_ok f
      then (ok, all_clean c, s', done)
      else (f, c, s', 0)

  -- The result, the core, the store and `*written`.
  pub commit_all : Core → S → Err × Core × S × ℕ
  commit_all c s =
      let (e, s') = write_schema c s in
      if not c.stored
      then (io, c, s, 0)
      else if is_ok e
      then write_end c (write_from setting_count 0 c s' 0)
      else (e, c, s', 0)

  -- one key of `settings_core_load`
  pub load_key : ℕ → Core → Err × ℕ → Core × List Hook
  load_key k c (e, v) =
      if is_ok e && valid k v
      then (record c { value = set c.value k v }, [])
      else if not (is_not_found e)
      then (record c { dirty = set c.dirty k true }, invalid k v ∷ [])
      else (c, [])

  pub load_from : ℕ → ℕ → S → Core → Core × List Hook
  unfolding load_key
  load_from zero k s c = (c, [])
  load_from (suc n) k s c =
      let (c', h) = load_key k c (o.get_u8 s (key k)) in
      let (c'', hs) = load_from n (k + 1) s c' in (c'', h ++ hs)

  -- `settings_core_load` with a store
  pub load : S → Core × S × List Hook
  load s =
      let (e, _) = o.get_u8 s schema in
      let c = defaults true in
      let fresh = commit_all (record c { source = from_defaults; schema_dirty = true }) s in
      let (read, hooks) = load_from setting_count 0 s (record c { source = from_nvs }) in
      if is_not_found e
      then (fresh.1, fresh.2, [])
      else if not (is_ok e)
      then (record c { stored = false }, s, [])
      else (read, s, hooks)

  -- What one operation leaves of the core and the store.
  pub act : Op → Core → S → Core × S
  act (set_one k v) c s = ((set_value c k v).1, s)
  act restore_all c s = ((restore c).0, s)
  act commit c s = let (_, c', s', _) = commit_all c s in (c', s')

  pub act_all : List Op → Core → S → Core × S
  unfolding act
  act_all [] c s = (c, s)
  act_all (p ∷ ps) c s = let (c', s') = act p c s in act_all ps c' s'
