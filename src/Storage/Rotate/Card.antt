-- ===== src/Storage/Rotate/Card.antt =====
-- The directory of logs on the card: what a rotation calls, made of the operations on files.
use stark_one.Base.{
  ℕ, zero, suc, ◌+◌, ◌-◌, ◌*◌, ◌/◌, ◌%◌, ◌<◌, ◌≡◌, ◌≢◌, ◌⊎◌, inl, inr, refl, sym, ap, subst, ◌∙◌,
  Bool, true, false, ◌&&◌, Option, none, some, List, [], ◌∷◌, ◌++◌, append_assoc, ltb, leb,
  Bool-cases, if◌then◌else◌, arith,
}
use stark_one.Err.{Err, ok}
use stark_one.Storage.Path.{
  Errno, enospc, enoent, eexist, einval, enametoolong, other_errno, logs, path_max, path_build,
  map_errno,
}
use stark_one.Storage.Path.Distinct.{path_build_distinct, path_build-refused}
use stark_one.Storage.Files.{
  Files, Volume, Call, Answer, done, failed, unlink_call, rename_call, call, answer_err, one_call,
  remove, rename, is_enoent, is_ok, is_io,
}
use stark_one.Storage.Rotate.{LogDir, ok_or_missing, digits, log_name}
use stark_one.Storage.Rotate.Shift.{Works}

-- the number that the digits of a name make, after `acc`
number : ℕ → List ℕ → ℕ
number acc [] = acc
number acc (c ∷ cs) =
    if leb b'0' c && leb c b'9' then number (acc * 10 + (c - b'0')) cs else number acc cs

number_one :
    (acc d : ℕ) (rest : List ℕ)
    → d < 10
    → number acc ((b'0' + d) ∷ rest) ≡ number (acc * 10 + d) rest
unfolding number
number_one acc d rest h = ground arith

number-digits : (k n : ℕ) (rest : List ℕ) → n < k → number 0 (digits k n ++ rest) ≡ number n rest
unfolding number digits
number-digits zero n rest h = absurd (omega arith)
number-digits (suc k) n rest h = elim (Bool-cases (ltb n 10)) [
  | inl t ↦
      rw (t, digits) (number_one 0 n rest (ground arith) ∙ ap (λ m. number m rest) (omega arith))
  | inr f ↦
      let l : n / 10 < k = ground arith in
      rw (f, digits)
        (ap (number 0) (append_assoc (digits k (n / 10)) ((b'0' + n % 10) ∷ []) rest)
          ∙ number-digits k (n / 10) ((b'0' + n % 10) ∷ rest) l
          ∙ number_one (n / 10) (n % 10) rest (omega arith)
          ∙ ap (λ m. number m rest) (omega arith))
]

number-log_name : (i : ℕ) → number 0 (log_name i) ≡ i
unfolding number log_name
number-log_name zero = refl
number-log_name (suc n) =
    number-digits (suc (suc n)) (suc n) (b'.' ∷ b'l' ∷ b'o' ∷ b'g' ∷ []) (omega arith)

-- No two log files have the same name.
log_name-eq : (i j : ℕ) → log_name i ≡ log_name j → i ≡ j
log_name-eq i j e = sym (number-log_name i) ∙ ap (number 0) e ∙ number-log_name j

-- Whether a call has done its work, or found its file missing.
abbrev pub settled : Answer → Bool
settled (done n bytes) = true
settled (failed e) = is_enoent e

-- What is relied on of the file system, with `held` the files that it holds: a call that works, or
-- finds its file missing, has done what it says, and one that fails otherwise changes no file. The
-- target of a rename is another name, and free.
pub record IsFat {W : Type 0} (ask : W → Call → Answer × W) (held : W → List ℕ → Option (List ℕ))
    : Type 0 where
  pub unlink_self :
      (w : W) (p : List ℕ)
      → settled (ask w (unlink_call p)).0 ≡ true
      → held (ask w (unlink_call p)).1 p ≡ none
  pub unlink_other : (w : W) (p q : List ℕ) → q ≢ p → held (ask w (unlink_call p)).1 q ≡ held w q
  pub unlink_failed :
      (w : W) (p q : List ℕ)
      → settled (ask w (unlink_call p)).0 ≡ false
      → held (ask w (unlink_call p)).1 q ≡ held w q
  pub rename_from :
      (w : W) (p q : List ℕ)
      → p ≢ q
      → held w q ≡ none
      → settled (ask w (rename_call p q)).0 ≡ true
      → held (ask w (rename_call p q)).1 p ≡ none
  pub rename_to :
      (w : W) (p q : List ℕ)
      → p ≢ q
      → held w q ≡ none
      → settled (ask w (rename_call p q)).0 ≡ true
      → held (ask w (rename_call p q)).1 q ≡ held w p
  pub rename_other :
      (w : W) (p q r : List ℕ) → r ≢ p → r ≢ q → held (ask w (rename_call p q)).1 r ≡ held w r
  pub rename_failed :
      (w : W) (p q r : List ℕ)
      → settled (ask w (rename_call p q)).0 ≡ false
      → held (ask w (rename_call p q)).1 r ≡ held w r

module _ {W : Type 0} (ask : W → Call → Answer × W) (held : W → List ℕ → Option (List ℕ))
    (fat : IsFat ask held) (root : List ℕ) (v : Volume) where
  abbrev pub built : ℕ → Err × List ℕ
  built i = path_build root logs (some (log_name i)) false path_max

  -- `stark_storage_remove` and `storage_files_rename` on the logs
  abbrev pub card : LogDir (Files W)
  card = record {
    remove = λ s i. remove ask root s v logs (some (log_name i));
    rename = λ s i j. rename ask root s v logs (some (log_name i)) (some (log_name j));
  }

  abbrev seen : W → Err × List ℕ → Option (List ℕ)
  seen w x = if is_ok x.0 then held w x.1 else none

  -- the log files that the card holds
  abbrev pub on_card : Files W → ℕ → Option (List ℕ)
  on_card s i = seen s.world (built i)

  -- one call that a log operation made, or none
  abbrev Did : Files W → Call → Err × Files W → Type 0
  Did s c r = (ok_or_missing r.0 ≡ settled (ask s.world c).0) × (r.1.world ≡ (ask s.world c).1)

  abbrev Nothing : Files W → Err × Files W → Type 0
  Nothing s r = (ok_or_missing r.0 ≡ false) × (r.1.world ≡ s.world)

  failed-Did : (e : Errno) → ok_or_missing (map_errno e) ≡ is_enoent e
  unfolding map_errno
  failed-Did enospc = refl
  failed-Did enoent = refl
  failed-Did eexist = refl
  failed-Did einval = refl
  failed-Did enametoolong = refl
  failed-Did (other_errno e) = refl

  told_world :
      (s : Files W) (b : Bool) → (if b then record s { told = true } else s).world ≡ s.world
  told_world s true = refl
  told_world s false = refl

  answered :
      (a : Answer) (s : Files W)
      → let r = answer_err ask (λ _. false) (a, s) in
        (ok_or_missing r.0 ≡ settled a) × (r.1.world ≡ s.world)
  answered (done n bytes) s = (refl, refl)
  answered (failed e) s = (failed-Did e, told_world s (is_io (map_errno e)))

  one_call-Did :
      (s : Files W) (c : Call) → Nothing s (one_call ask s v c) ⊎ Did s c (one_call ask s v c)
  one_call-Did s c = elim (Bool-cases v.mounted) [
    | inr f ↦ inl (rw f (refl, refl))
    | inl t ↦ inr (rw t (answered (ask s.world c).0 (call ask s c).1))
  ]

  -- a path that is built, and one that is not
  Built : ℕ → Type 0
  Built i = (p : List ℕ) × (built i ≡ (ok, p))

  built-cases :
      (i : ℕ) → (is_ok (built i).0 ≡ false) × (ok_or_missing (built i).0 ≡ false) ⊎ Built i
  unfolding Built
  built-cases i = elim (path_build-refused root logs (some (log_name i)) false path_max) [
    | inl e ↦ inr ((built i).1, ap (λ x. (x, (built i).1)) e)
    | inr e ↦ inl (ap is_ok e, ap ok_or_missing e)
  ]

  built-eq : (i j : ℕ) (p : List ℕ) → built i ≡ (ok, p) → built j ≡ (ok, p) → i ≡ j
  built-eq i j p a b =
      let (_, e, _) =
        path_build_distinct root logs logs (log_name i) (log_name j) false false path_max path_max p
          a b in
      log_name-eq i j e

  -- What a removal did.
  removed :
      (s : Files W) (i : ℕ)
      → Nothing s (card.remove s i)
        ⊎ (p : List ℕ) × (built i ≡ (ok, p)) × Did s (unlink_call p) (card.remove s i)
  unfolding remove Built
  removed s i = elim (built-cases i) [
    | inl (f, g) ↦ inl (rw f (g, refl))
    | inr (p, e) ↦ elim (one_call-Did s (unlink_call p)) [
      | inl n ↦ inl (rw e n)
      | inr d ↦ inr (p, e, rw e d)
    ]
  ]

  renamed :
      (s : Files W) (i j : ℕ)
      → Nothing s (card.rename s i j)
        ⊎ (p q : List ℕ) × (built i ≡ (ok, p))
          × (built j ≡ (ok, q))
          × Did s (rename_call p q) (card.rename s i j)
  unfolding rename Built
  renamed s i j = elim (built-cases i) [
    | inl (f, g) ↦ inl (rw f (g, refl))
    | inr (p, e) ↦ elim (built-cases j) [
      | inl (f, g) ↦ inl (rw (e, f) (g, refl))
      | inr (q, e') ↦ elim (one_call-Did s (rename_call p q)) [
        | inl n ↦ inl (rw (e, e') n)
        | inr d ↦ inr (p, q, e, e', rw (e, e') d)
      ]
    ]
  ]

  -- what is seen at a path that is built, and at one that is not
  seen-built : (w : W) (i : ℕ) (p : List ℕ) → built i ≡ (ok, p) → seen w (built i) ≡ held w p
  seen-built w i p e = ap (seen w) e

  seen-same :
      (w u : W) (i : ℕ)
      → ((p : List ℕ) → built i ≡ (ok, p) → held u p ≡ held w p)
      → seen u (built i) ≡ seen w (built i)
  unfolding Built
  seen-same w u i h = elim (built-cases i) [
    | inl (f, g) ↦ rw f refl
    | inr (p, e) ↦ seen-built u i p e ∙ h p e ∙ sym (seen-built w i p e)
  ]

  at_world : (u w : W) (i : ℕ) → u ≡ w → seen u (built i) ≡ seen w (built i)
  at_world u w i e = ap (λ x. seen x (built i)) e

  paths_differ : (i j : ℕ) (p q : List ℕ) → j ≢ i → built i ≡ (ok, p) → built j ≡ (ok, q) → q ≢ p
  paths_differ i j p q n a b e = n (sym (built-eq i j p a (subst (λ x. built j ≡ (ok, x)) e b)))

  -- The logs on the card are such a directory.
  pub card-Works : Works card on_card
  card-Works = record {
    remove_self = λ s i t. elim (removed s i) [
      | inl (f, _) ↦ absurd (cc (sym t ∙ f))
      | inr (p, e, (k, w)) ↦
          at_world _ _ i w ∙ seen-built _ i p e ∙ fat.unlink_self s.world p (sym k ∙ t)
    ];
    remove_other = λ s i j t n. elim (removed s i) [
      | inl (f, _) ↦ absurd (cc (sym t ∙ f))
      | inr (p, e, (k, w)) ↦
          at_world _ _ j w
          ∙ seen-same s.world _ j (λ q b. fat.unlink_other s.world p q (paths_differ i j p q n e b))
    ];
    remove_failed = λ s i j f. elim (removed s i) [
      | inl (_, w) ↦ at_world _ _ j w
      | inr (p, e, (k, w)) ↦
          at_world _ _ j w
          ∙ seen-same s.world _ j (λ q b. fat.unlink_failed s.world p q (sym k ∙ f))
    ];
    rename_from = λ s i j n h t. elim (renamed s i j) [
      | inl (f, _) ↦ absurd (cc (sym t ∙ f))
      | inr (p, q, e, e', (k, w)) ↦
          at_world _ _ i w
          ∙ seen-built _ i p e
          ∙ fat.rename_from s.world p q (paths_differ j i q p n e' e)
              (sym (seen-built s.world j q e') ∙ h) (sym k ∙ t)
    ];
    rename_to = λ s i j n h t. elim (renamed s i j) [
      | inl (f, _) ↦ absurd (cc (sym t ∙ f))
      | inr (p, q, e, e', (k, w)) ↦
          at_world _ _ j w
          ∙ seen-built _ j q e'
          ∙ fat.rename_to s.world p q (paths_differ j i q p n e' e)
              (sym (seen-built s.world j q e') ∙ h) (sym k ∙ t)
          ∙ sym (seen-built s.world i p e)
    ];
    rename_other = λ s i j k n h t a b. elim (renamed s i j) [
      | inl (f, _) ↦ absurd (cc (sym t ∙ f))
      | inr (p, q, e, e', (_, w)) ↦
          at_world _ _ k w
          ∙ seen-same s.world _ k (λ r c.
            fat.rename_other s.world p q r (paths_differ i k p r a e c)
              (paths_differ j k q r b e' c))
    ];
    rename_failed = λ s i j k f. elim (renamed s i j) [
      | inl (_, w) ↦ at_world _ _ k w
      | inr (p, q, e, e', (x, w)) ↦
          at_world _ _ k w
          ∙ seen-same s.world _ k (λ r c. fat.rename_failed s.world p q r (sym x ∙ f))
    ];
  }
