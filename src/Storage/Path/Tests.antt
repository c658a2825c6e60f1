-- ===== src/Storage/Path/Tests.antt =====
-- Paths of a few files.
use stark_one.Base.{ℕ, ◌≡◌, ◌<◌, refl, true, some, List, [], ◌∷◌, ◌++◌, length}
use stark_one.Err.{ok}
use stark_one.Storage.Path.{captures, dir_name, dir_text, file_text, path_build}
use stark_one.Storage.Path.Distinct.{Name, path_build-Name, path_build_distinct}

-- "/sd"
abbrev root : List ℕ
root = b'/' ∷ b's' ∷ b'd' ∷ []

-- "a.ir"
abbrev file_name : List ℕ
file_name = b'a' ∷ b'.' ∷ b'i' ∷ b'r' ∷ []

abbrev target : List ℕ
unfolding dir_name
target = dir_text root captures ++ file_text file_name true

built : path_build root captures (some file_name) true 80 ≡ (ok, target)
unfolding path_build dir_name
built = refl

path_build-Name_example :
    Name file_name
    × (target ≡ dir_text root captures ++ file_text file_name true)
    × (length target < 80)
path_build-Name_example = path_build-Name root captures file_name true 80 target built

path_build_distinct_example :
    (dir_name captures ≡ dir_name captures) × (file_name ≡ file_name) × (true ≡ true)
path_build_distinct_example =
    path_build_distinct root captures captures file_name file_name true true 80 80 target built
      built
