-- ===== src/Storage/Rotate.antt =====
-- components/stark_storage/log_rotate.c, the plan of a rotation, and `rotate` of storage_log.c, which
-- carries it out. A log file is known by its index: 0 is stark.log, the others are older.
pub mod Shift
pub mod Card
mod Tests
use stark_one.Base.{
  ℕ, zero, suc, ◌+◌, ◌-◌, ◌/◌, ◌%◌, Bool, true, false, ◌&&◌, ◌||◌, not, Option, none, some, List,
  [], ◌∷◌, ◌++◌, length, ltb, leb, ◌==◌, if◌then◌else◌,
}
use stark_one.Err.{Err, ok, not_found}

-- LOG_ROTATE_MAX_FILES
abbrev pub max_files : ℕ
max_files = 8

-- `log_rotate_step_t`; `none` is the index -1, to delete the file.
pub record Step : Type 0 where
  pub from : ℕ
  pub to : Option ℕ

-- the loop of `log_rotate_plan`, for the indices below `n`
pub shifts : ℕ → List Step
shifts zero = []
shifts (suc i) = record { from = i; to = some (i + 1) } ∷ shifts i

pub plan : ℕ → ℕ → ℕ → ℕ → ℕ → List Step
plan size add limit files max =
    if size == 0 || (leb (size + add) limit || (files == 0 || ltb max files))
    then []
    else record { from = files - 1; to = none } ∷ shifts (files - 1)

-- the digits of `%d`, on fuel
pub digits : ℕ → ℕ → List ℕ
digits zero n = []
digits (suc k) n = if ltb n 10 then (b'0' + n) ∷ [] else digits k (n / 10) ++ ((b'0' + n % 10) ∷ [])

-- `log_rotate_name`
pub log_name : ℕ → List ℕ
unfolding digits
log_name zero = b's' ∷ b't' ∷ b'a' ∷ b'r' ∷ b'k' ∷ b'.' ∷ b'l' ∷ b'o' ∷ b'g' ∷ []
log_name (suc n) =
    b's'
    ∷ b't'
    ∷ b'a'
    ∷ b'r'
    ∷ b'k'
    ∷ b'.'
    ∷ (digits (suc (suc n)) (suc n) ++ (b'.' ∷ b'l' ∷ b'o' ∷ b'g' ∷ []))

-- What the rotation asks of the directory of logs: stark_storage_remove and storage_files_rename,
-- which Card makes of the operations on files.
pub record LogDir (D : Type 0) : Type 0 where
  pub remove : D → ℕ → Err × D
  pub rename : D → ℕ → ℕ → Err × D

abbrev pub ok_or_missing : Err → Bool
ok_or_missing ok = true
ok_or_missing not_found = true
ok_or_missing _ = false

module _ {D : Type 0} (o : LogDir D) where
  abbrev pub step_at : Option ℕ → D → ℕ → Err × D
  step_at none d i = o.remove d i
  step_at (some j) d i = o.rename d i j

  -- The loop of `rotate`: whether all steps went well, and the directory.
  pub run_steps : List Step → D → Bool × D
  run_steps [] d = (true, d)
  run_steps (s ∷ ss) d =
      let (e, d') = step_at s.to d s.from in
      let rest = run_steps ss d' in if ok_or_missing e then rest else (false, d')

  -- The result, `s_size` and the directory.
  pub rotate : ℕ → ℕ → ℕ → ℕ → D → Bool × ℕ × D
  rotate limit files size add d =
      let steps = plan size add limit files max_files in
      let (well, d') = run_steps steps d in
      if not well then (false, size, d') else (true, if ltb 0 (length steps) then 0 else size, d')
