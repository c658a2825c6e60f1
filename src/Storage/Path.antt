-- ===== src/Storage/Path.antt =====
-- components/stark_storage/storage_path.c: which names a file may have, and where it lies. A string is
-- the list of its bytes, without the NUL. Of the pointers only `name` may be NULL here.
mod Tests
pub mod Distinct
use stark_one.Base.{
  ℕ, zero, suc, ◌+◌, ◌-◌, Bool, true, false, ◌&&◌, ◌||◌, not, Option, none, some, List, [], ◌∷◌,
  ◌++◌, length, get_or, take, drop, ltb, leb, ◌==◌, if◌then◌else◌,
}
use stark_one.Err.{Err, ok, invalid_arg, no_space, not_found, state, io}

-- `stark_dir_t`
pub data Dir : Type 0 where
  captures logs apps config : Dir

-- STORAGE_NAME_MAX
abbrev pub name_max : ℕ
name_max = 32

-- STORAGE_PATH_MAX
abbrev pub path_max : ℕ
path_max = 80

pub dir_name : Dir → List ℕ
dir_name captures = b'c' ∷ b'a' ∷ b'p' ∷ b't' ∷ b'u' ∷ b'r' ∷ b'e' ∷ b's' ∷ []
dir_name logs = b'l' ∷ b'o' ∷ b'g' ∷ b's' ∷ []
dir_name apps = b'a' ∷ b'p' ∷ b'p' ∷ b's' ∷ []
dir_name config = b'c' ∷ b'o' ∷ b'n' ∷ b'f' ∷ b'i' ∷ b'g' ∷ []

-- ".tmp"
abbrev pub tmp_suffix : List ℕ
tmp_suffix = b'.' ∷ b't' ∷ b'm' ∷ b'p' ∷ []

-- `strcmp(a, b) == 0`
pub same_text : List ℕ → List ℕ → Bool
same_text [] [] = true
same_text [] (y ∷ ys) = false
same_text (x ∷ xs) [] = false
same_text (x ∷ xs) (y ∷ ys) = x == y && same_text xs ys

-- the letters, digits and marks of a name
abbrev pub name_char : ℕ → Bool
name_char c =
    (leb b'a' c && leb c b'z')
    || ((leb b'A' c && leb c b'Z')
        || ((leb b'0' c && leb c b'9') || (c == b'.' || (c == b'_' || c == b'-'))))

-- the loop over the name
pub name_chars : List ℕ → Bool
name_chars [] = true
name_chars (c ∷ cs) = name_char c && name_chars cs

abbrev pub ends_in_tmp : List ℕ → Bool
ends_in_tmp s = leb 4 (length s) && same_text (drop (length s - 4) s) tmp_suffix

pub name_valid : Option (List ℕ) → Bool
unfolding name_chars same_text
name_valid none = false
name_valid (some []) = false
name_valid (some (c ∷ cs)) =
    not (c == b'.')
    && (not (ltb name_max (length (c ∷ cs)) || ends_in_tmp (c ∷ cs)) && name_chars (c ∷ cs))

-- `snprintf` into `room` bytes: what the buffer holds and whether all of it fitted.
abbrev pub print : ℕ → List ℕ → List ℕ × Bool
print room text = (take (room - 1) text, ltb (length text) room)

-- "<root>/stark/<dir>"
abbrev pub dir_text : List ℕ → Dir → List ℕ
dir_text root d = root ++ (b'/' ∷ b's' ∷ b't' ∷ b'a' ∷ b'r' ∷ b'k' ∷ b'/' ∷ dir_name d)

-- The result and the buffer.
pub dir_path : List ℕ → Dir → ℕ → Err × List ℕ
dir_path root d room =
    let (out, whole) = print room (dir_text root d) in
    if whole then (ok, out) else (invalid_arg, out)

-- "/<name>[.tmp]"
abbrev pub file_text : List ℕ → Bool → List ℕ
file_text name tmp = b'/' ∷ (name ++ (if tmp then tmp_suffix else []))

-- the second `snprintf` of `storage_path_build`, behind what the buffer holds
build_at : List ℕ → ℕ → List ℕ → Bool → Err × List ℕ
build_at dir room name tmp =
    let (out, whole) = print (room - length dir) (file_text name tmp) in
    if whole then (ok, dir ++ out) else (invalid_arg, dir ++ out)

is_ok : Err → Bool
is_ok ok = true
is_ok _ = false

build_in : Err × List ℕ → ℕ → List ℕ → Bool → Err × List ℕ
unfolding build_at is_ok
build_in (e, out) room name tmp = if is_ok e then build_at out room name tmp else (e, out)

pub path_build : List ℕ → Dir → Option (List ℕ) → Bool → ℕ → Err × List ℕ
unfolding build_in name_valid dir_path
path_build root d none tmp room = (invalid_arg, [])
path_build root d (some name) tmp room =
    if name_valid (some name)
    then build_in (dir_path root d room) room name tmp
    else (invalid_arg, [])

-- The values of `errno` that `storage_map_errno` tells apart.
pub data Errno : Type 0 where
  enospc enoent eexist einval enametoolong : Errno
  other_errno : ℕ → Errno

unfoldable pub map_errno : Errno → Err
map_errno enospc = no_space
map_errno enoent = not_found
map_errno eexist = state
map_errno einval = invalid_arg
map_errno enametoolong = invalid_arg
map_errno (other_errno e) = io
