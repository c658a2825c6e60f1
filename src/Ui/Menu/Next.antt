-- ===== src/Ui/Menu/Next.antt =====
-- Where a move goes.
use stark_one.Base.{
  ℕ, zero, suc, ◌+◌, ◌-◌, ◌%◌, ◌≤◌, ◌<◌, ◌≡◌, ◌≢◌, ◌⊎◌, inl, inr, refl, sym, ap, subst, ◌∙◌, Bool,
  true, false, ◌||◌, not, Bool-cases, if_each, ltb, ltb→lt, ltb→le, ◌==◌, ==→eq, ==→ne,
  if◌then◌else◌, arith,
}
use native.Mathlib.Nat.{mod-eq_of_lt, mod-eq-sub-mod}
use stark_one.Ui.Menu.{
  Menu, Sign, negative, null, positive, is_enabled, follow, next_index, move_loop, is_null, move,
}
use stark_one.Ui.Menu.Window.{Good}

-- The item `d` places from `i` in a list of `n`, round its end.
pub around : Sign → ℕ → ℕ → ℕ → ℕ
around positive n i d = if ltb (i + d) n then i + d else i + d - n
around _ n i d = if ltb i d then i + n - d else i - d

one_wrap : (a n : ℕ) → n ≤ a → a < n + n → a % n ≡ a - n
one_wrap a n h l = mod-eq-sub-mod h ∙ mod-eq_of_lt (omega arith)

backwards : (n i : ℕ) → i < n → (i + n - 1) % n ≡ (if ltb i 1 then i + n - 1 else i - 1)
backwards n i l =
    if_each (λ x. (i + n - 1) % n ≡ x) (ltb i 1) (i + n - 1) (i - 1)
      (λ h. let z = ltb→lt _ _ h in mod-eq_of_lt (omega arith))
      (λ h.
        let z = ltb→le _ _ h in one_wrap (i + n - 1) n (omega arith) (omega arith) ∙ omega arith)

next_index-around :
    (delta : Sign) (m : Menu) (i : ℕ)
    → i < m.count
    → next_index delta m i ≡ around delta m.count i 1
unfolding around
next_index-around positive m i l =
    if_each (λ x. (i + 1) % m.count ≡ x) (ltb (i + 1) m.count) (i + 1) (i + 1 - m.count)
      (λ h. mod-eq_of_lt (ltb→lt _ _ h))
      (λ h. let z = ltb→le _ _ h in one_wrap (i + 1) m.count z (omega arith))
next_index-around negative m i l = backwards m.count i l
next_index-around null m i l = backwards m.count i l

around-below : (delta : Sign) (n i d : ℕ) → i < n → d < n → around delta n i d < n
unfolding around
around-below positive n i d l h = ground arith
around-below negative n i d l h = ground arith
around-below null n i d l h = ground arith

around_step :
    (delta : Sign) (n i d : ℕ)
    → i < n
    → d + 1 < n
    → around delta n (around delta n i 1) d ≡ around delta n i (d + 1)
unfolding around
around_step positive n i d l h = ground arith
around_step negative n i d l h = ground arith
around_step null n i d l h = ground arith

-- No place from `i`, up to `n` places on and less, can be selected.
abbrev pub Off : Sign → Menu → ℕ → ℕ → Type 0
Off delta m i n = (e : ℕ) → 0 < e → e < n → is_enabled m (around delta m.count i e) ≡ false

Off-later :
    (n : ℕ) (delta : Sign) (m : Menu) (i : ℕ)
    → i < m.count
    → n < m.count
    → is_enabled m (around delta m.count i 1) ≡ false
    → Off delta m (around delta m.count i 1) n
    → Off delta m i (n + 1)
Off-later n delta m i l h f off e p q = elim (Bool-cases (e == 1)) [
  | inl t ↦ subst (λ k. is_enabled m (around delta m.count i k) ≡ false) (sym (==→eq e 1 t)) f
  | inr t ↦
      let ne = ==→ne e 1 t in
      let s = around_step delta m.count i (e - 1) l (omega arith) in
      let back : around delta m.count i (e - 1 + 1) ≡ around delta m.count i e =
        ap (around delta m.count i) {x = e - 1 + 1} (omega arith) in
      subst (λ k. is_enabled m k ≡ false) (s ∙ back) (off (e - 1) (omega arith) (omega arith))
]

-- The first place from `i` that can be selected lies `d` places on, and `r` selects it.
pub record Goes (delta : Sign) (m : Menu) (i d : ℕ) (r : Menu × Bool) : Type 0 where
  pub ahead : 0 < d
  pub on : is_enabled m (around delta m.count i d) ≡ true
  pub off : Off delta m i d
  pub selected : r ≡ (follow (record m { sel = around delta m.count i d }), true)

-- What the loop finds from `i` within `n` places.
First : ℕ → Sign → Menu → ℕ → Menu × Bool → Type 0
First n delta m i r =
    ((d : ℕ) × (d < n + 1) × Goes delta m i d r) ⊎ (r ≡ (m, false)) × Off delta m i (n + 1)

First-later :
    (n : ℕ) (delta : Sign) (m : Menu) (i : ℕ) (r : Menu × Bool)
    → i < m.count
    → n + 1 < m.count
    → is_enabled m (around delta m.count i 1) ≡ false
    → First n delta m (around delta m.count i 1) r
    → First (suc n) delta m i r
unfolding First
First-later n delta m i r l h f (inl (d, p, g)) =
    let s = around_step delta m.count i d l (omega arith) in
    inl (
      d + 1,
      omega arith,
      record {
        ahead = omega arith;
        on = subst (λ k. is_enabled m k ≡ true) s g.on;
        off = Off-later d delta m i l (omega arith) f g.off;
        selected = subst (λ k. r ≡ (follow (record m { sel = k }), true)) s g.selected;
      },
    )
First-later n delta m i r l h f (inr (e, off)) =
    inr (e, λ k p q. Off-later (n + 1) delta m i l h f off k p (omega arith))

move_loop-First :
    (n : ℕ) (delta : Sign) (m : Menu) (i : ℕ)
    → i < m.count
    → n < m.count
    → First n delta m i (move_loop n delta m i)
unfolding move_loop First
move_loop-First zero delta m i l h = inr (refl, λ e p q. absurd (omega arith))
move_loop-First (suc n) delta m i l h =
    let a = next_index-around delta m i l in
    let j = around delta m.count i 1 in
    let step : move_loop (suc n) delta m i ≡ (
        if is_enabled m j then (follow (record m { sel = j }), true) else move_loop n delta m j) =
      ap
        (λ k.
          if is_enabled m k then (follow (record m { sel = k }), true) else move_loop n delta m k)
        a in
    subst (First (suc n) delta m i) (sym step) (
      if_each (First (suc n) delta m i) (is_enabled m j) _ _
        (λ t. inl (
          1,
          omega arith,
          record {
            ahead = omega arith;
            on = t;
            off = λ e p q. absurd (omega arith);
            selected = refl;
          },
        ))
        (λ f. First-later n delta m i (move_loop n delta m j) l (omega arith) f (
          move_loop-First n delta m j (around-below delta m.count i 1 l (omega arith))
            (omega arith))))

-- Each other item lies some places on.
around_all :
    (delta : Sign) (n i j : ℕ)
    → i < n
    → j < n
    → j ≢ i
    → (d : ℕ) × (0 < d) × (d < n) × (around delta n i d ≡ j)
unfolding around
around_all positive n i j l h d = elim (Bool-cases (ltb i j)) [
  | inl t ↦ let z = ltb→lt _ _ t in (j - i, omega arith, omega arith, ground arith)
  | inr f ↦ let z = ltb→le _ _ f in (j + n - i, omega arith, omega arith, ground arith)
]
around_all negative n i j l h d = elim (Bool-cases (ltb i j)) [
  | inl t ↦ let z = ltb→lt _ _ t in (i + n - j, omega arith, omega arith, ground arith)
  | inr f ↦ let z = ltb→le _ _ f in (i - j, omega arith, omega arith, ground arith)
]
around_all null n i j l h d = elim (Bool-cases (ltb i j)) [
  | inl t ↦ let z = ltb→lt _ _ t in (i + n - j, omega arith, omega arith, ground arith)
  | inr f ↦ let z = ltb→le _ _ f in (i - j, omega arith, omega arith, ground arith)
]

-- With a selection, a move up or down goes to the first item that way, round the ends, that can be
-- selected, and the window follows. It changes nothing exactly where no other item can be selected.
pub move_next :
    (m : Menu) (delta : Sign)
    → Good m
    → m.has_sel ≡ true
    → is_null delta ≡ false
    → ((d : ℕ) × (d < m.count) × Goes delta m m.sel d (move m delta))
      ⊎ (move m delta ≡ (m, false)) × ((j : ℕ) → j < m.count → j ≢ m.sel → is_enabled m j ≡ false)
unfolding move First
move_next m delta g t z =
    let l = g.selects.inside t in
    let step : move m delta ≡ move_loop (m.count - 1) delta m m.sel =
      ap (λ b. if b then (m, false) else move_loop (m.count - 1) delta m m.sel)
        {x = not m.has_sel || is_null delta} {y = false} (ground arith) in
    elim (move_loop-First (m.count - 1) delta m m.sel l (omega arith)) [
      | inl (d, h, goes) ↦ inl (d, omega arith, subst (Goes delta m m.sel d) (sym step) goes)
      | inr (e, off) ↦ inr (
        step ∙ e,
        λ j lj ne.
            let (d, p, q, at) = around_all delta m.count m.sel j l lj ne in
            subst (λ k. is_enabled m k ≡ false) at (off d p (omega arith)),
      )
    ]
