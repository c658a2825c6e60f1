-- ===== src/Ui/Menu.antt =====
-- components/stark_ui/ui_menu_model.c: a list's selection and the window that follows it. A list has
-- fewer than 2 ^ 31 items, so that no index wraps.
pub mod Window
pub mod Next
mod Tests
use stark_one.Base.{
  ℕ, zero, suc, ◌+◌, ◌-◌, ◌%◌, Bool, true, false, ◌&&◌, ◌||◌, not, Option, none, some, ltb, leb,
  ◌==◌, if◌then◌else◌,
}

-- `ui_menu_model_t`, with what `enabled` answers for its context
pub record Menu : Type 0 where
  pub count : ℕ
  pub visible : ℕ
  pub sel : ℕ
  pub top : ℕ
  pub has_sel : Bool
  pub enabled : Option (ℕ → Bool)

-- the sign of `delta` and `dir`
pub data Sign : Type 0 where
  negative null positive : Sign

abbrev pub answer : Option (ℕ → Bool) → ℕ → Bool
answer none i = true
answer (some f) i = f i

abbrev pub is_enabled : Menu → ℕ → Bool
is_enabled m i = answer m.enabled i

-- `follow`, in the order of its tests
abbrev pub follow_sel : Menu → ℕ
follow_sel m =
    if ltb m.sel m.top
    then m.sel
    else if leb (m.top + m.visible) m.sel
    then m.sel + 1 - m.visible
    else m.top

abbrev pub follow_end : Menu → ℕ → ℕ
follow_end m t = if ltb (m.count - m.visible) t then m.count - m.visible else t

abbrev pub follow_header : Menu → ℕ → ℕ
follow_header m t =
    if leb 2 m.visible && (m.sel == t && (ltb 0 t && not (is_enabled m (t - 1)))) then t - 1 else t

pub follow : Menu → Menu
follow m =
    if leb m.count m.visible
    then record m { top = 0 }
    else record m { top = follow_header m (follow_end m (follow_sel m)) }

-- `scan` with step +1, for at most `n` items
pub scan_up : ℕ → Menu → ℕ → ℕ
scan_up zero m i = m.count
scan_up (suc n) m i =
    let rest = scan_up n m (i + 1) in
    if ltb i m.count then (if is_enabled m i then i else rest) else m.count

-- `scan` with step -1
pub scan_down : Menu → ℕ → ℕ
scan_down m zero = if ltb 0 m.count && is_enabled m 0 then 0 else m.count
scan_down m (suc i) =
    let rest = scan_down m i in
    if ltb (suc i) m.count then (if is_enabled m (suc i) then suc i else rest) else m.count

pub scan : Menu → ℕ → Bool → ℕ
unfolding scan_up scan_down
scan m from true = scan_up (m.count - from) m from
scan m from false = scan_down m from

pub init : ℕ → ℕ → Option (ℕ → Bool) → Menu
init count visible enabled =
    let m : Menu = record {
      count = count;
      visible = if visible == 0 then 1 else visible;
      sel = 0;
      top = 0;
      has_sel = false;
      enabled = enabled;
    } in
    let first = scan m 0 true in
    let found = ltb first count in
    follow (record m { has_sel = found; sel = if found then first else 0 })

abbrev pub next_index : Sign → Menu → ℕ → ℕ
next_index positive m i = (i + 1) % m.count
next_index _ m i = (i + m.count - 1) % m.count

-- The loop of `ui_menu_model_move` at index `i`, with `n` rounds to go.
pub move_loop : ℕ → Sign → Menu → ℕ → Menu × Bool
move_loop zero delta m i = (m, false)
move_loop (suc n) delta m i =
    let j = next_index delta m i in
    let rest = move_loop n delta m j in
    if is_enabled m j then (follow (record m { sel = j }), true) else rest

abbrev pub is_null : Sign → Bool
is_null null = true
is_null _ = false

pub move : Menu → Sign → Menu × Bool
move m delta =
    if not m.has_sel || is_null delta then (m, false) else move_loop (m.count - 1) delta m m.sel

abbrev pub forward : Sign → Bool
forward positive = true
forward _ = false

abbrev pub page_target : Menu → Bool → ℕ
page_target m true = if ltb (m.count - 1 - m.sel) m.visible then m.count - 1 else m.sel + m.visible
page_target m false = if ltb m.sel m.visible then 0 else m.sel - m.visible

-- The item that a page goes to; `count` is none.
pub page_pick : Menu → Bool → ℕ
page_pick m up =
    let pick = scan m (page_target m up) up in
    if pick == m.count then scan m (page_target m up) (not up) else pick

pub page : Menu → Sign → Menu × Bool
page m dir =
    let pick = page_pick m (forward dir) in
    if not m.has_sel || is_null dir
    then (m, false)
    else if pick == m.count || pick == m.sel
    then (m, false)
    else (follow (record m { sel = pick }), true)
