-- ===== src/Base/Lists.antt =====
-- C arrays as lists with native indices, and the laws of these that the components share.
use Prim.Native.Nat.{ℕ, zero, suc, ◌+◌, ◌-◌, ◌≤◌, ◌<◌, min}
use mathlib.Core.Path.{◌≡◌, refl, sym, ap, subst, ◌∙◌}
use mathlib.Core.Logic.{◌≢◌}
use mathlib.Core.List.{List, [], ◌∷◌, ◌++◌, map}
use mathlib.Core.Option.{Option, none, some}
use native.Mathlib.Omega.{arith}

module _ {ℓ} {A : Type ℓ} where
  abbrev pub length : List A → ℕ
  length [] = 0
  length (x ∷ xs) = suc (length xs)

  abbrev pub get_elem? : List A → ℕ → Option A
  get_elem? [] i = none
  get_elem? (x ∷ xs) zero = some x
  get_elem? (x ∷ xs) (suc i) = get_elem? xs i

  abbrev pub get_or : List A → ℕ → A → A
  get_or [] i d = d
  get_or (x ∷ xs) zero d = x
  get_or (x ∷ xs) (suc i) d = get_or xs i d

  -- A write out of range changes nothing.
  abbrev pub set : List A → ℕ → A → List A
  set [] i v = []
  set (x ∷ xs) zero v = v ∷ xs
  set (x ∷ xs) (suc i) v = x ∷ set xs i v

  abbrev pub take : ℕ → List A → List A
  take zero xs = []
  take (suc n) [] = []
  take (suc n) (x ∷ xs) = x ∷ take n xs

  abbrev pub drop : ℕ → List A → List A
  drop zero xs = xs
  drop (suc n) [] = []
  drop (suc n) (x ∷ xs) = drop n xs

  abbrev pub replicate : ℕ → A → List A
  replicate zero a = []
  replicate (suc n) a = a ∷ replicate n a

  abbrev pub tail : List A → List A
  tail [] = []
  tail (x ∷ xs) = xs

  pub length-append : (xs ys : List A) → length (xs ++ ys) ≡ length xs + length ys
  length-append [] ys = omega arith
  length-append (x ∷ xs) ys = omega (arith, length-append xs ys)

  pub length-set : (xs : List A) (i : ℕ) (v : A) → length (set xs i v) ≡ length xs
  length-set [] i v = refl
  length-set (x ∷ xs) zero v = refl
  length-set (x ∷ xs) (suc i) v = ap suc (length-set xs i v)

  pub get_or-set_self :
      (xs : List A) (i : ℕ) (v d : A) → i < length xs → get_or (set xs i v) i d ≡ v
  get_or-set_self [] i v d h = absurd (omega arith)
  get_or-set_self (x ∷ xs) zero v d h = refl
  get_or-set_self (x ∷ xs) (suc i) v d h = get_or-set_self xs i v d (omega arith)

  pub get_or-set_ne :
      (xs : List A) (i j : ℕ) (v d : A) → i ≢ j → get_or (set xs i v) j d ≡ get_or xs j d
  get_or-set_ne [] i j v d h = refl
  get_or-set_ne (x ∷ xs) zero zero v d h = absurd (h refl)
  get_or-set_ne (x ∷ xs) zero (suc j) v d h = refl
  get_or-set_ne (x ∷ xs) (suc i) zero v d h = refl
  get_or-set_ne (x ∷ xs) (suc i) (suc j) v d h = get_or-set_ne xs i j v d (λ e. h (ap suc e))

  pub take-append-drop : (n : ℕ) (xs : List A) → take n xs ++ drop n xs ≡ xs
  take-append-drop zero xs = refl
  take-append-drop (suc n) [] = refl
  take-append-drop (suc n) (x ∷ xs) = ap (λ l. x ∷ l) (take-append-drop n xs)

  pub length-take : (n : ℕ) (xs : List A) → length (take n xs) ≡ min n (length xs)
  length-take zero xs = omega arith
  length-take (suc n) [] = omega arith
  length-take (suc n) (x ∷ xs) = omega (arith, length-take n xs)

  pub length-drop : (n : ℕ) (xs : List A) → length (drop n xs) ≡ length xs - n
  length-drop zero xs = omega arith
  length-drop (suc n) [] = omega arith
  length-drop (suc n) (x ∷ xs) = omega (arith, length-drop n xs)

  pub take_all : (n : ℕ) (xs : List A) → length xs ≤ n → take n xs ≡ xs
  take_all zero [] h = refl
  take_all zero (x ∷ xs) h = absurd (omega arith)
  take_all (suc n) [] h = refl
  take_all (suc n) (x ∷ xs) h = ap (λ l. x ∷ l) (take_all n xs (omega arith))

  pub drop_all : (n : ℕ) (xs : List A) → length xs ≤ n → drop n xs ≡ []
  drop_all zero [] h = refl
  drop_all zero (x ∷ xs) h = absurd (omega arith)
  drop_all (suc n) [] h = refl
  drop_all (suc n) (x ∷ xs) h = drop_all n xs (omega arith)

  pub take-append : (n : ℕ) (xs ys : List A) → n ≤ length xs → take n (xs ++ ys) ≡ take n xs
  take-append zero xs ys h = refl
  take-append (suc n) [] ys h = absurd (omega arith)
  take-append (suc n) (x ∷ xs) ys h = ap (λ l. x ∷ l) (take-append n xs ys (omega arith))

  pub drop-append : (n : ℕ) (xs ys : List A) → n ≤ length xs → drop n (xs ++ ys) ≡ drop n xs ++ ys
  drop-append zero xs ys h = refl
  drop-append (suc n) [] ys h = absurd (omega arith)
  drop-append (suc n) (x ∷ xs) ys h = drop-append n xs ys (omega arith)

  pub drop-nil : (n : ℕ) → drop n (let e : List A = [] in e) ≡ []
  drop-nil zero = refl
  drop-nil (suc n) = refl

  pub drop-drop : (m n : ℕ) (xs : List A) → drop m (drop n xs) ≡ drop (n + m) xs
  drop-drop m zero xs = ap (λ k. drop k xs) (omega arith)
  drop-drop m (suc n) [] = drop-nil m ∙ sym (drop-nil (suc n + m))
  drop-drop m (suc n) (x ∷ xs) =
      drop-drop m n xs ∙ ap (λ k. drop k (x ∷ xs)) {x = suc (n + m)} (omega arith)

-- The first list is the second with some elements left out, in the same order.
pub data InOrder {ℓ} {A : Type ℓ} : List A → List A → Type ℓ where
  done : InOrder [] []
  keep : (x : A) {xs ys : List A} → InOrder xs ys → InOrder (x ∷ xs) (x ∷ ys)
  skip : (x : A) {xs ys : List A} → InOrder xs ys → InOrder xs (x ∷ ys)

module _ {ℓ} {A : Type ℓ} where
  pub InOrder-refl : (xs : List A) → InOrder xs xs
  InOrder-refl [] = InOrder.done
  InOrder-refl (x ∷ xs) = InOrder.keep x (InOrder-refl xs)

  pub InOrder-trans :
      {ys zs : List A} → InOrder ys zs → {xs : List A} → InOrder xs ys → InOrder xs zs
  InOrder-trans InOrder.done p = p
  InOrder-trans (InOrder.skip x q) p = InOrder.skip x (InOrder-trans q p)
  InOrder-trans (InOrder.keep x q) (InOrder.keep _ p) = InOrder.keep x (InOrder-trans q p)
  InOrder-trans (InOrder.keep x q) (InOrder.skip _ p) = InOrder.skip x (InOrder-trans q p)

  pub length-InOrder : {xs ys : List A} → InOrder xs ys → length xs ≤ length ys
  length-InOrder InOrder.done = omega arith
  length-InOrder (InOrder.keep x p) = omega (arith, length-InOrder p)
  length-InOrder (InOrder.skip x p) = omega (arith, length-InOrder p)

  pub InOrder-without : (xs : List A) (y : A) (ys : List A) → InOrder (xs ++ ys) (xs ++ (y ∷ ys))
  InOrder-without [] y ys = InOrder.skip y (InOrder-refl ys)
  InOrder-without (x ∷ xs) y ys = InOrder.keep x (InOrder-without xs y ys)

  pub InOrder-prefix : (xs ys : List A) → InOrder xs (xs ++ ys)
  InOrder-prefix [] [] = InOrder.done
  InOrder-prefix [] (y ∷ ys) = InOrder.skip y (InOrder-prefix [] ys)
  InOrder-prefix (x ∷ xs) ys = InOrder.keep x (InOrder-prefix xs ys)

  pub get_or-append :
      (xs ys : List A) (i n : ℕ) (d : A)
      → length xs ≡ n
      → get_or (xs ++ ys) (n + i) d ≡ get_or ys i d
  get_or-append [] ys i n d h = ap (λ k. get_or ys k d) (omega arith)
  get_or-append (x ∷ xs) ys i zero d h = absurd (omega arith)
  get_or-append (x ∷ xs) ys i (suc n) d h =
      ap (λ k. get_or (x ∷ (xs ++ ys)) k d) {y = suc (n + i)} (omega arith)
      ∙ get_or-append xs ys i n d (omega arith)

module _ {ℓ κ} {A : Type ℓ} where
  abbrev pub All : (A → Type κ) → List A → Type κ
  All P [] = Unit {κ}
  All P (x ∷ xs) = P x × All P xs

  pub All-map :
      (P : A → Type κ) (f : A → A)
      → ((x : A) → P x → P (f x))
      → (xs : List A) → All P xs
      → All P (map f xs)
  All-map P f h [] a = tt
  All-map P f h (x ∷ xs) a = (h x a.0, All-map P f h xs a.1)

  pub All-set : (P : A → Type κ) (xs : List A) (i : ℕ) (v : A) → All P xs → P v → All P (set xs i v)
  All-set P [] i v a p = tt
  All-set P (x ∷ xs) zero v a p = (p, a.1)
  All-set P (x ∷ xs) (suc i) v a p = (a.0, All-set P xs i v a.1 p)

  pub All-get :
      (P : A → Type κ) (xs : List A) (i : ℕ) (v : A) → All P xs → get_elem? xs i ≡ some v → P v
  All-get P [] i v a e = absurd (ground arith)
  All-get P (x ∷ xs) zero v a e = let q : x ≡ v = cc in subst P q a.0
  All-get P (x ∷ xs) (suc i) v a e = All-get P xs i v a.1 e

module _ {ℓ} {A : Type ℓ} where
  pub get_elem?-set_self :
      (xs : List A) (i : ℕ) (u v : A) → get_elem? xs i ≡ some u → get_elem? (set xs i v) i ≡ some v
  get_elem?-set_self [] i u v e = absurd (ground arith)
  get_elem?-set_self (x ∷ xs) zero u v e = refl
  get_elem?-set_self (x ∷ xs) (suc i) u v e = get_elem?-set_self xs i u v e

  pub get_elem?-set_ne :
      (xs : List A) (i j : ℕ) (v : A) → i ≢ j → get_elem? (set xs i v) j ≡ get_elem? xs j
  get_elem?-set_ne [] i j v h = refl
  get_elem?-set_ne (x ∷ xs) zero zero v h = absurd (h refl)
  get_elem?-set_ne (x ∷ xs) zero (suc j) v h = refl
  get_elem?-set_ne (x ∷ xs) (suc i) zero v h = refl
  get_elem?-set_ne (x ∷ xs) (suc i) (suc j) v h = get_elem?-set_ne xs i j v (λ e. h (ap suc e))
