-- ===== src/Storage/Files/Opening.antt =====
-- Opening a file, and the operations on names.
use stark_one.Base.{
  ℕ, ◌≡◌, ◌<◌, refl, sym, ap, Bool, true, false, not, if_both, if_each, Option, none, some, List,
  length, set, if◌then◌else◌, arith,
}
use stark_one.Err.{Err}
use stark_one.Storage.Path.{Dir, path_build, path_max}
use stark_one.Storage.Files.{
  Mode, Handle, Call, open_call, rename_call, unlink_call, Answer, done, failed, Files, Volume,
  is_ok, is_atomic, handle, fail, free_slot, call, answer_err, opened, open_in, new_handle,
  open_file, one_call, remove, rename,
}
use stark_one.Storage.Files.Trace.{touch, is_open, Allowed, Posix, live}
use stark_one.Storage.Files.Step.{call_open}
use stark_one.Storage.Files.Descriptors.{Phase, fail-Phase, quiet-Phase, answer_err-Phase}
use stark_one.Storage.Files.Lifecycle.{Matches, Good, settle, free_slot_lem}
use stark_one.Storage.Files.Closing.{put-Good}

module _ {W : Type 0} (ask : W → Call → Answer × W) (held : W → ℕ → Bool)
    (law : Posix ask held) where
  -- A call on paths.
  one_call-Good :
      (s : Files W) (v : Volume) (c : Call)
      → ((a : Answer) (fd : ℕ) (b : Bool) → touch c a fd b ≡ b)
      → Allowed (is_open s.calls) c
      → Good ask held law v s
      → Good ask held law v (one_call ask s v c).1
  one_call-Good s v c quiet fits g =
      let (a, s') = call ask s c in
      let p = quiet-Phase ask held law s.slots s.slots s c (quiet (ask s.world c).0) fits g.table in
      if_both (λ (r : Err × Files W). Good ask held law v r.1) (not v.mounted) _ _ g
        (settle ask held law v s.slots (answer_err ask (λ _. false) (a, s')).1
          (answer_err-Phase ask held law s.slots s.slots (λ _. false) a s' p) g.current)

  pub remove-Good :
      (root : List ℕ) (s : Files W) (v : Volume) (d : Dir) (name : Option (List ℕ))
      → Good ask held law v s
      → Good ask held law v (remove ask root s v d name).1
  unfolding remove touch Allowed
  remove-Good root s v d name g =
      let (e, path) = path_build root d name false path_max in
      if_both (λ (r : Err × Files W). Good ask held law v r.1) (not (is_ok e)) (e, s) _ g
        (one_call-Good s v (unlink_call path) (λ a fd b. refl) tt g)

  pub rename-Good :
      (root : List ℕ) (s : Files W) (v : Volume) (d : Dir) (from to : Option (List ℕ))
      → Good ask held law v s
      → Good ask held law v (rename ask root s v d from to).1
  unfolding rename touch Allowed
  rename-Good root s v d from to g =
      let P : Err × Files W → Type 0 = λ r. Good ask held law v r.1 in
      let (e, a) = path_build root d from false path_max in
      let (e', b) = path_build root d to false path_max in
      if_both P (not (is_ok e)) (e, s) _ g
        (if_both P (not (is_ok e')) (e', s) _ g
          (one_call-Good s v (rename_call a b) (λ a fd b. refl) tt g))

  opened-Good :
      (s : Files W) (v : Volume) (f : Handle) (i : ℕ) (path : List ℕ) (a : Answer)
      → (ask s.world (open_call path f.mode)).0 ≡ a
      → i < length s.slots
      → live (handle s i) ≡ false
      → live f ≡ true
      → Matches v f
      → Good ask held law v s
      → Good ask held law v (opened ask i f (a, (call ask s (open_call path f.mode)).1)).2
  unfolding opened Matches touch Allowed
  opened-Good s v f i path (done n bytes) e below gone l m g =
      let s' = (call ask s (open_call path f.mode)).1 in
      let h = record f { fd = n } in
      let p : Phase ask held law (set s.slots i h) s.slots s' = record {
        inv =
            call_open ask held law s.slots s path f.mode n bytes e i h gone below l refl
              g.table.inv;
        same = refl;
        size = g.table.size;
      } in
      put-Good ask held law v _ s.slots s' i h refl below p g.current (λ _. m)
  opened-Good s v f i path (failed x) e below gone l m g =
      let s' = (call ask s (open_call path f.mode)).1 in
      let same : (fd : ℕ) (b : Bool)
          → touch (open_call path f.mode) (ask s.world (open_call path f.mode)).0 fd b ≡ b =
        λ fd b. ap (λ a. touch (open_call path f.mode) a fd b) e in
      let p = quiet-Phase ask held law s.slots s.slots s (open_call path f.mode) same tt g.table in
      settle ask held law v s.slots (fail s' x).1 (fail-Phase ask held law s.slots s.slots s' x p)
        g.current

  open_in-Good :
      (s : Files W) (v : Volume) (f : Handle) (o : Option ℕ)
      → o ≡ free_slot s.slots
      → live f ≡ true
      → Good ask held law v s
      → Good ask held law v (open_in ask s v f o).2
  unfolding open_in Matches
  open_in-Good s v f none e l g =
      if_both (λ (r : Err × Option ℕ × Files W). Good ask held law v r.2) (not v.mounted) _ _ g g
  open_in-Good s v f (some i) e l g =
      let (below, u) = free_slot_lem s.slots i (sym e) in
      let h = record f { generation = v.generation } in
      let path = if is_atomic f.mode then f.tmp else f.path in
      if_each (λ (r : Err × Option ℕ × Files W). Good ask held law v r.2) (not v.mounted) _ _
        (λ _. g)
        (λ q.
          opened-Good s v h i path (ask s.world (open_call path f.mode)).0 refl below (ground arith)
            l (ground arith, refl) g)

  pub open_file-Good :
      (root : List ℕ) (s : Files W) (v : Volume) (d : Dir) (name : Option (List ℕ)) (mode : Mode)
      → Good ask held law v s
      → Good ask held law v (open_file ask root s v d name mode).2
  unfolding open_file
  open_file-Good root s v d name mode g =
      let P : Err × Option ℕ × Files W → Type 0 = λ r. Good ask held law v r.2 in
      let (e, path) = path_build root d name false path_max in
      let (e', tmp) = path_build root d name true path_max in
      if_both P (not (is_ok e)) (e, none, s) _ g
        (if_both P (not (is_ok e')) (e', none, s) _ g
          (open_in-Good s v (new_handle ask mode path tmp) (free_slot s.slots) refl refl g))
