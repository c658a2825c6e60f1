-- ===== src/Ui/Menu/Window.antt =====
-- What the window shows, after any use of the menu.
use stark_one.Base.{
  ℕ, zero, suc, ◌+◌, ◌-◌, ◌≤◌, ◌<◌, ◌≡◌, ◌⊎◌, inl, inr, refl, sym, ap, subst, ◌∙◌, Bool, true,
  false, ◌&&◌, ◌||◌, not, Bool-cases, if_both, if_each, leb→le, leb→gt, ltb→lt, Option, List, [],
  ◌∷◌, ltb, leb, ◌==◌, if◌then◌else◌, arith,
}
use stark_one.Ui.Menu.{
  Menu, Sign, negative, null, positive, is_enabled, follow_sel, follow_end, follow_header, follow,
  scan_up, scan_down, scan, init, next_index, move_loop, is_null, move, forward, page_target,
  page_pick, page,
}

-- The window lies on the list and shows the selection; on its first row, the selection hides no item
-- above that cannot be selected.
pub record Shows (m : Menu) : Type 0 where
  pub rows : 0 < m.visible
  pub short : m.count ≤ m.visible → m.top ≡ 0
  pub first : m.visible < m.count → m.top ≤ m.sel
  pub last : m.visible < m.count → m.sel < m.top + m.visible
  pub full : m.visible < m.count → m.top + m.visible ≤ m.count
  pub header : 2 ≤ m.visible → m.sel ≡ m.top → 0 < m.top → is_enabled m (m.top - 1) ≡ true

-- The selection can be selected.
pub record Selects (m : Menu) : Type 0 where
  pub inside : m.has_sel ≡ true → m.sel < m.count
  pub allowed : m.has_sel ≡ true → is_enabled m m.sel ≡ true
  pub zero_else : m.has_sel ≡ false → m.sel ≡ 0

-- a top row from which the window shows the selection
abbrev Top : Menu → ℕ → Type 0
Top m t = (t ≤ m.sel) × (m.sel < t + m.visible)

follow_sel-Top : (m : Menu) → 0 < m.visible → Top m (follow_sel m)
follow_sel-Top m v = ground arith

follow_end-Top :
    (m : Menu) (t : ℕ)
    → m.visible < m.count
    → m.sel < m.count
    → Top m t
    → Top m (follow_end m t) × (follow_end m t + m.visible ≤ m.count)
follow_end-Top m t l h p = ground arith

-- the same of a row that hides no item above the selection
abbrev Clear : Menu → ℕ → Type 0
Clear m t =
    Top m t
    × (t + m.visible ≤ m.count)
    × (2 ≤ m.visible → m.sel ≡ t → 0 < t → is_enabled m (t - 1) ≡ true)

follow_header-Clear :
    (m : Menu) (t : ℕ) → Top m t → t + m.visible ≤ m.count → Clear m (follow_header m t)
follow_header-Clear m t p h =
    if_each (Clear m) (leb 2 m.visible && (m.sel == t && (ltb 0 t && not (is_enabled m (t - 1)))))
      (t - 1) t (λ q. (ground arith, ground arith, λ a b c. ground arith))
      (λ q. (p, h, λ a b c. ground arith))

pub follow-Shows :
    (m : Menu) → 0 < m.visible → (m.visible < m.count → m.sel < m.count) → Shows (follow m)
unfolding follow
follow-Shows m v h =
    if_each Shows (leb m.count m.visible) _ _
      (λ q.
        let l = leb→le _ _ q in
        record {
          rows = v;
          short = λ _. refl;
          first = λ x. absurd (omega arith);
          last = λ x. absurd (omega arith);
          full = λ x. absurd (omega arith);
          header = λ a b c. absurd (omega arith);
        })
      (λ q.
        let l = leb→gt _ _ q in
        let (a, b) = follow_end-Top m (follow_sel m) l (h l) (follow_sel-Top m v) in
        let (c, d, e) = follow_header-Clear m (follow_end m (follow_sel m)) a b in
        record {
          rows = v;
          short = λ x. absurd (omega arith);
          first = λ _. c.0;
          last = λ _. c.1;
          full = λ _. d;
          header = e;
        })

-- a place that can be selected, or none
abbrev Found : Menu → ℕ → Type 0
Found m i = (i < m.count) × (is_enabled m i ≡ true) ⊎ (i ≡ m.count)

scan_up-Found : (n : ℕ) (m : Menu) (i : ℕ) → Found m (scan_up n m i)
unfolding scan_up
scan_up-Found zero m i = inr refl
scan_up-Found (suc n) m i =
    if_each (Found m) (ltb i m.count) _ m.count
      (λ l.
        if_each (Found m) (is_enabled m i) i _ (λ e. inl (ltb→lt _ _ l, e))
          (λ _. scan_up-Found n m (i + 1)))
      (λ _. inr refl)

scan_down-Found : (m : Menu) (i : ℕ) → Found m (scan_down m i)
unfolding scan_down
scan_down-Found m zero =
    if_each (Found m) (ltb 0 m.count && is_enabled m 0) 0 m.count
      (λ l. inl (ground arith, ground arith)) (λ _. inr refl)
scan_down-Found m (suc i) =
    if_each (Found m) (ltb (suc i) m.count) _ m.count
      (λ l.
        if_each (Found m) (is_enabled m (suc i)) (suc i) _ (λ e. inl (ltb→lt _ _ l, e))
          (λ _. scan_down-Found m i))
      (λ _. inr refl)

scan-Found : (m : Menu) (i : ℕ) (up : Bool) → Found m (scan m i up)
unfolding scan
scan-Found m i true = scan_up-Found (m.count - i) m i
scan-Found m i false = scan_down-Found m i

-- both properties of a menu
pub record Good (m : Menu) : Type 0 where
  pub shows : Shows m
  pub selects : Selects m

follow_same : (m : Menu) → follow m ≡ record m { top = (follow m).top }
unfolding follow
follow_same m =
    if_both (λ (x : Menu). x ≡ record m { top = x.top }) (leb m.count m.visible) _ _ refl refl

next-below : (delta : Sign) (m : Menu) (i : ℕ) → i < m.count → next_index delta m i < m.count
next-below positive m i l = omega arith
next-below negative m i l = omega arith
next-below null m i l = omega arith

-- Moving the selection to a place that can be selected, and the window after it.
select-Good :
    (m : Menu) (i : ℕ) (has : Bool)
    → 0 < m.visible
    → (has ≡ true → (i < m.count) × (is_enabled m i ≡ true))
    → (has ≡ false → i ≡ 0)
    → Good (follow (record m { sel = i; has_sel = has }))
select-Good m i has v p q =
    let m' = record m { sel = i; has_sel = has } in
    record {
      shows =
          follow-Shows m' v
            (λ l. elim (Bool-cases has) [ inl t ↦ (p t).0 | inr f ↦ let z = q f in omega arith ]);
      selects =
          subst Selects (sym (follow_same m'))
            (record { inside = λ t. (p t).0; allowed = λ t. (p t).1; zero_else = q });
    }

select-Good_again :
    (m : Menu) (i : ℕ)
    → Good m
    → m.has_sel ≡ true
    → (i < m.count) × (is_enabled m i ≡ true)
    → Good (follow (record m { sel = i }))
select-Good_again m i g h p = select-Good m i m.has_sel g.shows.rows (λ _. p) (λ f. cc (sym h ∙ f))

pub init-Good :
    (count visible : ℕ) (enabled : Option (ℕ → Bool)) → Good (init count visible enabled)
unfolding init
init-Good count visible enabled =
    let rows = if visible == 0 then 1 else visible in
    let m : Menu = record {
      count = count;
      visible = rows;
      sel = 0;
      top = 0;
      has_sel = false;
      enabled = enabled;
    } in
    let first = scan m 0 true in
    select-Good m (if ltb first count then first else 0) (ltb first count) (ground arith)
      (λ t. elim (scan-Found m 0 true) [
        | inl f ↦
            subst
              (λ b.
                ((if b then first else 0) < count) × (is_enabled m (if b then first else 0) ≡ true))
              (sym t) f
        | inr e ↦ let l = ltb→lt _ _ t in absurd (omega arith)
      ])
      (λ f. ap (λ b. if b then first else 0) f)

move_loop-Good :
    (n : ℕ) (delta : Sign) (m : Menu) (i : ℕ)
    → Good m
    → m.has_sel ≡ true
    → i < m.count
    → Good (move_loop n delta m i).0
unfolding move_loop
move_loop-Good zero delta m i g h l = g
move_loop-Good (suc n) delta m i g h l =
    let j = next_index delta m i in
    let lj : j < m.count = next-below delta m i l in
    if_each (λ (r : Menu × Bool). Good r.0) (is_enabled m j) _ _
      (λ e. select-Good_again m j g h (lj, e)) (λ _. move_loop-Good n delta m j g h lj)

pub move-Good : (m : Menu) (delta : Sign) → Good m → Good (move m delta).0
unfolding move
move-Good m delta g =
    if_each (λ (r : Menu × Bool). Good r.0) (not m.has_sel || is_null delta) _ _ (λ _. g)
      (λ h.
        let t : m.has_sel ≡ true = ground arith in
        move_loop-Good (m.count - 1) delta m m.sel g t (g.selects.inside t))

page_pick-Found : (m : Menu) (up : Bool) → Found m (page_pick m up)
unfolding page_pick
page_pick-Found m up =
    if_both (Found m) (scan m (page_target m up) up == m.count) _ _
      (scan-Found m (page_target m up) (not up)) (scan-Found m (page_target m up) up)

pub page-Good : (m : Menu) (dir : Sign) → Good m → Good (page m dir).0
unfolding page
page-Good m dir g =
    let pick = page_pick m (forward dir) in
    let P : Menu × Bool → Type 0 = λ r. Good r.0 in
    if_each P (not m.has_sel || is_null dir) _ _ (λ _. g)
      (λ h.
        if_each P (pick == m.count || pick == m.sel) _ _ (λ _. g)
          (λ q. elim (page_pick-Found m (forward dir)) [
            | inl f ↦ select-Good_again m pick g (ground arith) f
            | inr e ↦ absurd (ground arith)
          ]))

-- A use of the menu: a move or a page.
pub data Use : Type 0 where
  moved paged : Sign → Use

pub used : Menu → List Use → Menu
used m [] = m
used m (moved delta ∷ us) = used (move m delta).0 us
used m (paged dir ∷ us) = used (page m dir).0 us

used-Good_from : (m : Menu) (us : List Use) → Good m → Good (used m us)
unfolding used
used-Good_from m [] g = g
used-Good_from m (moved delta ∷ us) g = used-Good_from (move m delta).0 us (move-Good m delta g)
used-Good_from m (paged dir ∷ us) g = used-Good_from (page m dir).0 us (page-Good m dir g)

-- After any moves and pages of a new menu, with any items that can be selected: a selection is such an
-- item; the window shows it, lies on the list, and starts at the top of a list that fits; on the first
-- row of a window of two or more, the selection hides no item above it that cannot be selected.
pub used-Good :
    (count visible : ℕ) (enabled : Option (ℕ → Bool)) (us : List Use)
    → Good (used (init count visible enabled) us)
used-Good count visible enabled us =
    used-Good_from (init count visible enabled) us (init-Good count visible enabled)
