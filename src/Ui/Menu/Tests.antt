-- ===== src/Ui/Menu/Tests.antt =====
-- A menu at work.
use stark_one.Base.{ℕ, ◌<◌, ◌≡◌, ◌≢◌, ◌⊎◌, refl, Bool, true, false, not, ◌&&◌, some, [], ◌∷◌, ◌==◌}
use stark_one.Ui.Menu.{
  Menu, negative, positive, is_enabled, init, move, move_loop, scan, scan_up, follow,
}
use stark_one.Ui.Menu.Window.{Good, moved, paged, used, used-Good, init-Good}
use stark_one.Ui.Menu.Next.{Goes, move_next}

-- headers at 0 and 4
abbrev enabled : ℕ → Bool
enabled i = not (i == 0) && not (i == 4)

used-Good_example :
    Good (used (init 8 3 (some enabled)) (moved negative ∷ paged negative ∷ moved positive ∷ []))
used-Good_example =
    used-Good 8 3 (some enabled) (moved negative ∷ paged negative ∷ moved positive ∷ [])

abbrev titles : Menu
titles = init 8 3 (some enabled)

-- Up from the first item goes round to the last.
last_item : (move titles negative).0.sel ≡ 7
unfolding init scan scan_up follow move move_loop
last_item = refl

chosen : titles.has_sel ≡ true
unfolding init scan scan_up follow
chosen = refl

move_next_example :
    ((d : ℕ) × (d < titles.count) × Goes negative titles titles.sel d (move titles negative))
    ⊎ (move titles negative ≡ (titles, false))
      × ((j : ℕ) → j < titles.count → j ≢ titles.sel → is_enabled titles j ≡ false)
move_next_example = move_next titles negative (init-Good 8 3 (some enabled)) chosen refl
