-- ===== src/Storage/Path/Distinct.antt =====
-- Where a name leads: below its directory, and nowhere else.
use stark_one.Base.{
  none, Option, ℕ, ◌-◌, ◌≤◌, ◌<◌, ◌≡◌, ◌≢◌, ◌⊎◌, inl, inr, refl, sym, ap, ap₂, ◌∙◌, Bool, true,
  false, ◌&&◌, Bool-cases, some, List, [], ◌∷◌, ◌++◌, append_assoc, append-nil, length,
  length-append, All, take, take_all, drop, ltb, ltb→lt, leb, if◌then◌else◌, arith,
}
use mathlib.Core.List.{append_cancel_left, append_cancel_right}
use stark_one.Err.{Err, ok, invalid_arg}
use stark_one.Storage.Path.{
  Dir, captures, logs, apps, config, name_max, dir_name, tmp_suffix, same_text, name_chars,
  ends_in_tmp, name_valid, print, dir_text, dir_path, file_text, build_at, is_ok, build_in,
  path_build,
}

abbrev pub NotSlash : ℕ → Type 0
NotSlash c = (c ≢ b'/')

-- the rules of a name
pub record Name (s : List ℕ) : Type 0 where
  pub nonempty : 0 < length s
  pub short : length s ≤ name_max
  pub no_slash : All NotSlash s
  pub visible : take 1 s ≢ b'.' ∷ []
  pub not_tmp : (front : List ℕ) → s ≢ front ++ tmp_suffix

name_chars-NotSlash : (s : List ℕ) → name_chars s ≡ true → All NotSlash s
unfolding name_chars
name_chars-NotSlash [] h = tt
name_chars-NotSlash (c ∷ cs) h = (λ e. ground arith, name_chars-NotSlash cs (ground arith))

same_text_refl : (s : List ℕ) → same_text s s ≡ true
unfolding same_text
same_text_refl [] = refl
same_text_refl (x ∷ xs) = ground (arith, same_text_refl xs)

drop-prefix : (xs ys : List ℕ) → drop (length xs) (xs ++ ys) ≡ ys
drop-prefix [] ys = refl
drop-prefix (x ∷ xs) ys = drop-prefix xs ys

ends_in_tmp_lem : (front : List ℕ) → ends_in_tmp (front ++ tmp_suffix) ≡ true
ends_in_tmp_lem front =
    let l = length-append front tmp_suffix in
    let cut : drop (length (front ++ tmp_suffix) - 4) (front ++ tmp_suffix) ≡ tmp_suffix =
      ap (λ n. drop n (front ++ tmp_suffix)) {y = length front} (omega arith)
      ∙ drop-prefix front tmp_suffix in
    let long : leb 4 (length (front ++ tmp_suffix)) ≡ true = ground arith in
    ap₂ (λ (b : Bool) t. b && same_text t tmp_suffix) long cut ∙ same_text_refl tmp_suffix

name_valid-Name : (s : List ℕ) → name_valid (some s) ≡ true → Name s
unfolding name_valid
name_valid-Name [] h = absurd (ground arith)
name_valid-Name (c ∷ cs) h =
    let chars : name_chars (c ∷ cs) ≡ true = ground arith in
    let final : ends_in_tmp (c ∷ cs) ≡ false = ground arith in
    record {
      nonempty = omega arith;
      short = ground arith;
      no_slash = name_chars-NotSlash (c ∷ cs) chars;
      visible = λ e. ground arith;
      not_tmp = λ front e.
          let t : ends_in_tmp (c ∷ cs) ≡ true = ap ends_in_tmp e ∙ ends_in_tmp_lem front in
          ground arith;
    }

-- A text printed in full.
print_whole :
    (room : ℕ) (text : List ℕ)
    → (print room text).1 ≡ true
    → ((print room text).0 ≡ text) × (length text < room)
print_whole room text h = let l = ltb→lt _ _ h in (take_all (room - 1) text (omega arith), l)

dir_path_lem :
    (root : List ℕ) (d : Dir) (room : ℕ)
    → (dir_path root d room ≡ (ok, dir_text root d)) × (length (dir_text root d) < room)
      ⊎ ((dir_path root d room).0 ≡ invalid_arg)
unfolding dir_path
dir_path_lem root d room = elim (Bool-cases (ltb (length (dir_text root d)) room)) [
  | inl t ↦ let (a, b) = print_whole room (dir_text root d) t in inl (rw t (ap (λ o. (ok, o)) a, b))
  | inr f ↦ inr (rw f refl)
]

build_at_lem :
    (dir : List ℕ) (room : ℕ) (name : List ℕ) (tmp : Bool) (p : List ℕ)
    → length dir < room
    → build_at dir room name tmp ≡ (ok, p)
    → (p ≡ dir ++ file_text name tmp) × (length p < room)
unfolding build_at
build_at_lem dir room name tmp p l h =
    elim (Bool-cases (ltb (length (file_text name tmp)) (room - length dir))) [
      | inl t ↦
          let (a, b) = print_whole (room - length dir) (file_text name tmp) t in
          let e : (ok, dir ++ (print (room - length dir) (file_text name tmp)).0) ≡ (ok, p) =
            rw t at h in
          let q : p ≡ dir ++ file_text name tmp = sym (ap (λ x. x.1) e) ∙ ap (λ x. dir ++ x) a in
          let size : length p ≡ length (dir ++ file_text name tmp) = ap length q in
          (q, omega (arith, length-append dir (file_text name tmp)))
      | inr f ↦ let e = rw f at h in absurd (ground arith)
    ]

build_in_failed :
    (x : Err × List ℕ) (room : ℕ) (name : List ℕ) (tmp : Bool) (p : List ℕ)
    → x.0 ≡ invalid_arg
    → build_in x room name tmp ≢ (ok, p)
unfolding build_in is_ok
build_in_failed (e, out) room name tmp p h g = ground arith

-- A path that is built for a name leads to "<root>/stark/<dir>/<name>[.tmp]", whole and within the
-- buffer, and only for a proper name: one to 32 bytes, no slash, no leading dot, not ending in ".tmp".
pub path_build-Name :
    (root : List ℕ) (d : Dir) (name : List ℕ) (tmp : Bool) (room : ℕ) (p : List ℕ)
    → path_build root d (some name) tmp room ≡ (ok, p)
    → Name name × (p ≡ dir_text root d ++ file_text name tmp) × (length p < room)
unfolding path_build build_in is_ok
path_build-Name root d name tmp room p h = elim (Bool-cases (name_valid (some name))) [
  | inr f ↦ let e = rw f at h in absurd (ground arith)
  | inl t ↦
      let g = rw t at h in
      elim (dir_path_lem root d room) [
        | inl (e, l) ↦
            let (q, n) =
              build_at_lem (dir_text root d) room name tmp p l
                (ap (λ x. build_in x room name tmp) (sym e) ∙ g) in
            (name_valid-Name name t, q, n)
        | inr e ↦ absurd (build_in_failed (dir_path root d room) room name tmp p e g)
      ]
]

-- a front without a slash in two lists that go on with one
same_front :
    (xs ys us vs : List ℕ)
    → All NotSlash xs
    → All NotSlash ys
    → xs ++ (b'/' ∷ us) ≡ ys ++ (b'/' ∷ vs)
    → (xs ≡ ys) × (us ≡ vs)
same_front [] [] us vs p q h = (refl, cc)
same_front [] (y ∷ ys) us vs p q h = absurd (q.0 (cc))
same_front (x ∷ xs) [] us vs p q h = absurd (p.0 (cc))
same_front (x ∷ xs) (y ∷ ys) us vs p q h =
    let t : xs ++ (b'/' ∷ us) ≡ ys ++ (b'/' ∷ vs) = cc in
    let (a, b) = same_front xs ys us vs p.1 q.1 t in let e : x ≡ y = cc in (ap₂ ◌∷◌ e a, b)

dir_name-NotSlash : (d : Dir) → All NotSlash (dir_name d)
unfolding dir_name
dir_name-NotSlash captures = ground arith
dir_name-NotSlash logs = ground arith
dir_name-NotSlash apps = ground arith
dir_name-NotSlash config = ground arith

same_suffix :
    (name name' : List ℕ) (tmp tmp' : Bool)
    → Name name
    → Name name'
    → name ++ (if tmp then tmp_suffix else []) ≡ name' ++ (if tmp' then tmp_suffix else [])
    → (name ≡ name') × (tmp ≡ tmp')
same_suffix name name' true true n n' h = (append_cancel_right name name' tmp_suffix h, refl)
same_suffix name name' false false n n' h = (append_cancel_right name name' [] h, refl)
same_suffix name name' true false n n' h = absurd (n'.not_tmp name (sym (append-nil name') ∙ sym h))
same_suffix name name' false true n n' h = absurd (n.not_tmp name' (sym (append-nil name) ∙ h))

-- "/stark/"
abbrev stark : List ℕ
stark = b'/' ∷ b's' ∷ b't' ∷ b'a' ∷ b'r' ∷ b'k' ∷ b'/' ∷ []

-- The same of proper names and the texts of their paths.
pub path_distinct :
    (root : List ℕ) (d d' : Dir) (name name' : List ℕ) (tmp tmp' : Bool)
    → Name name
    → Name name'
    → dir_text root d ++ file_text name tmp ≡ dir_text root d' ++ file_text name' tmp'
    → (dir_name d ≡ dir_name d') × (name ≡ name') × (tmp ≡ tmp')
path_distinct root d d' name name' tmp tmp' n n' h =
    let inside =
      append_cancel_left root (stark ++ (dir_name d ++ file_text name tmp))
        (stark ++ (dir_name d' ++ file_text name' tmp'))
        (sym (append_assoc root (stark ++ dir_name d) (file_text name tmp))
          ∙ h
          ∙ append_assoc root (stark ++ dir_name d') (file_text name' tmp')) in
    let below =
      append_cancel_left stark (dir_name d ++ file_text name tmp)
        (dir_name d' ++ file_text name' tmp') inside in
    let (dirs, files) =
      same_front (dir_name d) (dir_name d') _ _ (dir_name-NotSlash d) (dir_name-NotSlash d')
        below in
    let (names, tmps) = same_suffix name name' tmp tmp' n n' files in (dirs, names, tmps)

-- Two paths that were built under one root are the same only for the same name, in the same directory,
-- for the same purpose: a temporary copy never hits another file.
pub path_build_distinct :
    (root : List ℕ) (d d' : Dir) (name name' : List ℕ) (tmp tmp' : Bool) (room room' : ℕ)
    (p : List ℕ)
    → path_build root d (some name) tmp room ≡ (ok, p)
    → path_build root d' (some name') tmp' room' ≡ (ok, p)
    → (dir_name d ≡ dir_name d') × (name ≡ name') × (tmp ≡ tmp')
path_build_distinct root d d' name name' tmp tmp' room room' p h h' =
    let (n, e, _) = path_build-Name root d name tmp room p h in
    let (n', e', _) = path_build-Name root d' name' tmp' room' p h' in
    path_distinct root d d' name name' tmp tmp' n n' (sym e ∙ e')

-- A path is built, or an argument is invalid.
pub path_build-refused :
    (root : List ℕ) (d : Dir) (name : Option (List ℕ)) (tmp : Bool) (room : ℕ)
    → ((path_build root d name tmp room).0 ≡ ok)
      ⊎ ((path_build root d name tmp room).0 ≡ invalid_arg)
unfolding path_build build_in build_at dir_path is_ok
path_build-refused root d none tmp room = inr refl
path_build-refused root d (some name) tmp room = ground arith
