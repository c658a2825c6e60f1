-- ===== src/Storage/Files.antt =====
-- components/stark_storage/storage_file.c: the table of open files over the file system's calls. Each
-- operation runs under the lock, as one step. The calls of `storage_io_t` and their answers are a
-- parameter; `calls` keeps those made, the latest first.
pub mod Trace
pub mod Step
pub mod Descriptors
pub mod Lifecycle
pub mod Closing
pub mod Opening
pub mod History
pub mod Atomic
mod Tests
use stark_one.Base.{
  ℕ, zero, suc, ◌+◌, Bool, true, false, ◌&&◌, ◌||◌, not, Option, none, some, List, [], ◌∷◌, get_or,
  set, ltb, ◌==◌, ◌!=◌, if◌then◌else◌,
}
use stark_one.Err.{Err, ok, invalid_arg, no_space, busy, state, io}
use stark_one.Storage.Path.{Dir, path_max, path_build, Errno, enoent, map_errno}

-- STORAGE_FILE_SLOTS
abbrev pub slot_count : ℕ
slot_count = 4

-- `stark_file_mode_t`
pub data Mode : Type 0 where
  read_only write_atomic append_end : Mode

-- `struct stark_file`
pub record Handle : Type 0 where
  pub used : Bool
  pub stale : Bool
  pub fd : ℕ
  pub generation : ℕ
  pub mode : Mode
  pub path : List ℕ
  pub tmp : List ℕ

-- A call of `storage_io_t`; the mode of `open_call` stands for its flags.
pub data Call : Type 0 where
  open_call : List ℕ → Mode → Call
  read_call : ℕ → ℕ → Call
  write_call : ℕ → List ℕ → Call
  fsync_call close_call : ℕ → Call
  rename_call : List ℕ → List ℕ → Call
  unlink_call : List ℕ → Call

-- What it returns, with the bytes that `read` left in the buffer, or -1 and `errno`.
pub data Answer : Type 0 where
  done : ℕ → List ℕ → Answer
  failed : Errno → Answer

-- `s_files`, the file system, the calls made and whether `io_error` was told
pub record Files (W : Type 0) : Type 0 where
  pub slots : List Handle
  pub world : W
  pub calls : List (Call × Answer)
  pub told : Bool

-- what `env.mounted` says
pub record Volume : Type 0 where
  pub mounted : Bool
  pub generation : ℕ

-- zeroed memory
abbrev pub no_handle : Handle
no_handle = record {
  used = false;
  stale = false;
  fd = 0;
  generation = 0;
  mode = read_only;
  path = [];
  tmp = [];
}

abbrev pub is_ok : Err → Bool
is_ok ok = true
is_ok _ = false

abbrev pub is_invalid : Err → Bool
is_invalid invalid_arg = true
is_invalid _ = false

abbrev pub is_io : Err → Bool
is_io io = true
is_io _ = false

abbrev pub is_enoent : Errno → Bool
is_enoent enoent = true
is_enoent _ = false

abbrev pub is_read : Mode → Bool
is_read read_only = true
is_read _ = false

abbrev pub is_atomic : Mode → Bool
is_atomic write_atomic = true
is_atomic _ = false

-- the handle that a pointer points to: NULL is `none`
abbrev pub handle : {W : Type 0} → Files W → ℕ → Handle
handle s i = get_or s.slots i no_handle

pub usable : {W : Type 0} → Files W → Volume → Option ℕ → Err
usable s v none = invalid_arg
usable s v (some i) =
    if not (ltb i slot_count && (handle s i).used)
    then invalid_arg
    else if (handle s i).stale || (not v.mounted || v.generation != (handle s i).generation)
    then io
    else ok

abbrev pub put_handle : {W : Type 0} → Files W → ℕ → Handle → Files W
put_handle s i h = record s { slots = set s.slots i h }

abbrev pub release : {W : Type 0} → Files W → ℕ → Files W
release s i = put_handle s i no_handle

abbrev pub fail : {W : Type 0} → Files W → Errno → Err × Files W
fail s e = (map_errno e, if is_io (map_errno e) then record s { told = true } else s)

-- the index of the first handle that is not used
pub free_slot : List Handle → Option ℕ
free_slot [] = none
free_slot (h ∷ hs) = elim h.used [
  | false ↦ some 0
  | true ↦ elim (free_slot hs) [ none ↦ none | some i ↦ some (suc i) ]
]

pub open_count : List Handle → ℕ
open_count [] = 0
open_count (h ∷ hs) = (if h.used then 1 else 0) + open_count hs

module _ {W : Type 0} (ask : W → Call → Answer × W) where
  -- one call of the file system
  abbrev pub call : Files W → Call → Answer × Files W
  call s c = let (a, w) = ask s.world c in (a, record s { world = w; calls = (c, a) ∷ s.calls })

  -- Calls whose failure is reported, unless `forgive` says that it is none.
  abbrev pub answer_err : (Errno → Bool) → Answer × Files W → Err × Files W
  answer_err forgive (done n bytes, s) = (ok, s)
  answer_err forgive (failed e, s) = if forgive e then (ok, s) else fail s e

  -- The slot of a file just opened.
  pub opened : ℕ → Handle → Answer × Files W → Err × Option ℕ × Files W
  opened i f (done n bytes, s) = (ok, some i, put_handle s i (record f { fd = n }))
  opened i f (failed e, s) = let (x, s') = fail s e in (x, none, s')

  -- `stark_storage_open` under the lock, with both paths built
  pub open_in : Files W → Volume → Handle → Option ℕ → Err × Option ℕ × Files W
  unfolding opened
  open_in s v f none = if not v.mounted then (state, none, s) else (busy, none, s)
  open_in s v f (some i) =
      if not v.mounted
      then (state, none, s)
      else opened i (record f { generation = v.generation })
          (call s (open_call (if is_atomic f.mode then f.tmp else f.path) f.mode))

  abbrev pub new_handle : Mode → List ℕ → List ℕ → Handle
  new_handle mode path tmp = record no_handle { used = true; mode = mode; path = path; tmp = tmp }

  -- The result, `*out` and the table.
  pub open_file :
      List ℕ → Files W → Volume → Dir → Option (List ℕ) → Mode → Err × Option ℕ × Files W
  open_file root s v dir name mode =
      let (e, path) = path_build root dir name false path_max in
      let (e', tmp) = path_build root dir name true path_max in
      if not (is_ok e)
      then (e, none, s)
      else if not (is_ok e')
      then (e', none, s)
      else open_in s v (new_handle mode path tmp) (free_slot s.slots)

  abbrev pub answer_read : Answer × Files W → Err × List ℕ × Files W
  answer_read (done n bytes, s) = (ok, bytes, s)
  answer_read (failed e, s) = let (x, s') = fail s e in (x, [], s')

  pub read : Files W → Volume → Option ℕ → ℕ → Err × List ℕ × Files W
  read s v none len = (invalid_arg, [], s)
  read s v (some i) len =
      let e = usable s v (some i) in
      if not (is_ok e)
      then (e, [], s)
      else if not (is_read (handle s i).mode)
      then (state, [], s)
      else answer_read (call s (read_call (handle s i).fd len))

  -- The loop of `stark_storage_write` at `bytes`, of which the first `skip` are written.
  pub write_from : Files W → ℕ → List ℕ → ℕ → Err × Files W
  write_from s fd [] skip = (ok, s)
  write_from s fd (b ∷ bs) (suc skip) = write_from s fd bs skip
  write_from s fd (b ∷ bs) zero =
      let (a, s') = call s (write_call fd (b ∷ bs)) in
      elim a [
        | failed e ↦ fail s' e
        | done n _ ↦ elim n [ zero ↦ (no_space, s') | suc k ↦ write_from s' fd bs k ]
      ]

  pub write : Files W → Volume → Option ℕ → List ℕ → Err × Files W
  write s v none bytes = (invalid_arg, s)
  write s v (some i) bytes =
      let e = usable s v (some i) in
      if not (is_ok e)
      then (e, s)
      else if is_read (handle s i).mode
      then (state, s)
      else write_from s (handle s i).fd bytes 0

  -- A call of `stark_storage_close` that is made if `b` holds and none before it failed.
  pub next : Bool → Call → (Errno → Bool) → Err × Files W → Err × Files W
  next b c forgive (e, s) = if b && is_ok e then answer_err forgive (call s c) else (e, s)

  -- the call that closes the descriptor, made in any case
  pub and_close : ℕ → Err × Files W → Err × Files W
  and_close fd (e, s) =
      let (a, s') = call s (close_call fd) in
      if is_ok e then answer_err (λ _. false) (a, s') else (e, s')

  -- the last call, for a copy that is not committed
  pub drop_copy : Handle → Err × Files W → Err × Files W
  drop_copy h (e, s) =
      if is_atomic h.mode && (not (is_ok e) && not (is_io e))
      then (e, (call s (unlink_call h.tmp)).1)
      else (e, s)

  -- what is done to the file of a usable handle
  pub commit : Files W → Handle → Err × Files W
  commit s h =
      let synced = next (not (is_read h.mode)) (fsync_call h.fd) (λ _. false) (ok, s) in
      let closed = and_close h.fd synced in
      let gone = next (is_atomic h.mode) (unlink_call h.path) is_enoent closed in
      let moved = next (is_atomic h.mode) (rename_call h.tmp h.path) (λ _. false) gone in
      drop_copy h moved

  abbrev pub release_in : ℕ → Err × Files W → Err × Files W
  release_in i (e, s) = (e, release s i)

  pub close : Files W → Volume → Option ℕ → Err × Files W
  close s v none = (invalid_arg, s)
  close s v (some i) =
      let e = usable s v (some i) in
      if is_invalid e
      then (e, s)
      else if is_ok e
      then release_in i (commit s (handle s i))
      else (e, release s i)

  pub give_up : Files W → Handle → Files W
  give_up s h =
      let (_, s') = call s (close_call h.fd) in
      if is_atomic h.mode then (call s' (unlink_call h.tmp)).1 else s'

  pub discard : Files W → Volume → Option ℕ → Files W
  discard s v none = s
  discard s v (some i) =
      let e = usable s v (some i) in
      if is_invalid e
      then s
      else if is_ok e
      then release (give_up s (handle s i)) i
      else release s i

  -- The loop of `storage_files_invalidate` at slot `i`, with `n` slots to go.
  pub invalidate_from : ℕ → ℕ → Files W → Files W
  invalidate_from zero i s = s
  invalidate_from (suc n) i s =
      let h = handle s i in
      let s' = put_handle (call s (close_call h.fd)).1 i (record h { stale = true }) in
      let open_now = h.used && not h.stale in invalidate_from n (i + 1) (if open_now then s' else s)

  pub invalidate : Files W → Files W
  unfolding invalidate_from
  invalidate s = invalidate_from slot_count 0 s

  -- a call on paths that one operation makes
  abbrev pub one_call : Files W → Volume → Call → Err × Files W
  one_call s v c = if not v.mounted then (state, s) else answer_err (λ _. false) (call s c)

  unfoldable pub remove : List ℕ → Files W → Volume → Dir → Option (List ℕ) → Err × Files W
  remove root s v dir name =
      let (e, path) = path_build root dir name false path_max in
      if not (is_ok e) then (e, s) else one_call s v (unlink_call path)

  unfoldable pub rename :
      List ℕ → Files W → Volume → Dir → Option (List ℕ) → Option (List ℕ) → Err × Files W
  rename root s v dir from to =
      let (e, a) = path_build root dir from false path_max in
      let (e', b) = path_build root dir to false path_max in
      if not (is_ok e)
      then (e, s)
      else if not (is_ok e')
      then (e', s)
      else one_call s v (rename_call a b)
