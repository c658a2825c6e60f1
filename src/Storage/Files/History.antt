-- ===== src/Storage/Files/History.antt =====
-- Any sequence of operations on files, on volumes that come and go.
use stark_one.Base.{
  ℕ, zero, suc, ◌+◌, ◌≡◌, ◌<◌, inl, inr, refl, sym, ap, subst, ◌∙◌, Bool, true, false, Bool-cases,
  if_each, Option, List, [], ◌∷◌, length, get_or, get_or-set_self, set, ltb, ltb→lt, ltb→le, ◌≤◌,
  ==→eq, ==→ne, ◌==◌, if◌then◌else◌, arith,
}
use stark_one.Storage.Path.{Dir}
use stark_one.Storage.Files.{
  slot_count, Mode, Handle, Call, close_call, Answer, Files, Volume, no_handle, handle, put_handle,
  call, open_file, read, write, close, discard, invalidate_from, invalidate, remove, rename,
}
use stark_one.Storage.Files.Trace.{is_open, Proper, Posix, at, live, Inv}
use stark_one.Storage.Files.Step.{same_place, call_close}
use stark_one.Storage.Files.Descriptors.{Phase, Table, Phase-put}
use stark_one.Storage.Files.Lifecycle.{Current, Matches, Good, read-Good, write-Good}
use stark_one.Storage.Files.Closing.{close-Good, discard-Good}
use stark_one.Storage.Files.Opening.{remove-Good, rename-Good, open_file-Good}

-- A call of a client, or another volume: `run` of stark_storage.c invalidates the handles before it
-- gives up a mounted volume, under the same lock.
pub data Op : Type 0 where
  open_op : Dir → Option (List ℕ) → Mode → Op
  read_op : Option ℕ → ℕ → Op
  write_op : Option ℕ → List ℕ → Op
  close_op discard_op : Option ℕ → Op
  remove_op : Dir → Option (List ℕ) → Op
  rename_op : Dir → Option (List ℕ) → Option (List ℕ) → Op
  volume_op : Volume → Op

-- zeroed slots
abbrev pub no_files : List Handle
no_files = no_handle ∷ no_handle ∷ no_handle ∷ no_handle ∷ []

abbrev pub no_volume : Volume
no_volume = record { mounted = false; generation = 0 }

get_or_past : (hs : List Handle) (j : ℕ) (d : Handle) → length hs ≤ j → get_or hs j d ≡ d
get_or_past [] j d l = refl
get_or_past (x ∷ hs) zero d l = absurd (omega arith)
get_or_past (x ∷ hs) (suc j) d l = get_or_past hs j d (omega arith)

none_live : (j : ℕ) → live (at no_files j) ≡ false
none_live zero = refl
none_live (suc zero) = refl
none_live (suc (suc zero)) = refl
none_live (suc (suc (suc zero))) = refl
none_live (suc (suc (suc (suc j)))) = refl

-- what `storage_files_init` leaves
abbrev pub fresh : {W : Type 0} → W → Files W
fresh w = record { slots = no_files; world = w; calls = []; told = false }

module _ {W : Type 0} (ask : W → Call → Answer × W) (root : List ℕ) where
  pub apply : Op → Files W → Volume → Files W × Volume
  apply (open_op d name mode) s v = ((open_file ask root s v d name mode).2, v)
  apply (read_op p len) s v = ((read ask s v p len).2, v)
  apply (write_op p bytes) s v = ((write ask s v p bytes).1, v)
  apply (close_op p) s v = ((close ask s v p).1, v)
  apply (discard_op p) s v = (discard ask s v p, v)
  apply (remove_op d name) s v = ((remove ask root s v d name).1, v)
  apply (rename_op d from to) s v = ((rename ask root s v d from to).1, v)
  apply (volume_op w) s v = (if v.mounted then invalidate ask s else s, w)

  pub apply_all : List Op → Files W → Volume → Files W
  unfolding apply
  apply_all [] s v = s
  apply_all (p ∷ ps) s v = let (s', v') = apply p s v in apply_all ps s' v'

module _ {W : Type 0} (ask : W → Call → Answer × W) (held : W → ℕ → Bool)
    (law : Posix ask held) where
  stale_dead : (h : Handle) → live (record h { stale = true }) ≡ false
  stale_dead h = elim (Bool-cases h.used) [ inl t ↦ rw t refl | inr f ↦ rw f refl ]

  -- no live handle below `i`
  Dead : ℕ → Files W → Type 0
  Dead i s = (j : ℕ) → j < i → live (handle s j) ≡ false

  invalidate_one :
      (i : ℕ) (s : Files W)
      → live (handle s i) ≡ true
      → i < slot_count
      → Phase ask held law s.slots s.slots s
      → Dead i s
      → (let s' =
            put_handle
              (call ask s (close_call (handle s i).fd)).1
              i
              (record (handle s i) { stale = true }) in
          Phase ask held law s'.slots s'.slots s' × Dead (i + 1) s')
  unfolding Dead Table
  invalidate_one i s l below p d =
      let h = handle s i in
      let h' = record h { stale = true } in
      let below' = subst (λ n. i < n) (sym p.size) below in
      let (_, s') = call ask s (close_call h.fd) in
      let q : Phase ask held law (set s.slots i h') s.slots s' = record {
        inv = call_close ask held law s.slots s i h' l below' (stale_dead h) p.inv;
        same = refl;
        size = p.size;
      } in
      (
        Phase-put ask held law (set s.slots i h') s.slots s' i h' refl q,
        λ j lj. elim (same_place s.slots i j h') [
          | inl e ↦
              let x : at (set s.slots i h') j ≡ h' =
                subst (λ k. at (set s.slots i h') k ≡ h') (sym e)
                  (get_or-set_self s.slots i h' no_handle below') in
              ap live x ∙ stale_dead h
          | inr (ne, e) ↦ ap live e ∙ d j (omega arith)
        ],
      )

  invalidate_from-Dead :
      (n i : ℕ) (s : Files W)
      → i + n ≡ slot_count
      → Phase ask held law s.slots s.slots s
      → Dead i s
      → (let s' = invalidate_from ask n i s in
          Phase ask held law s'.slots s'.slots s' × Dead slot_count s')
  unfolding invalidate_from Dead
  invalidate_from-Dead zero i s e p d = (p, subst (λ k. Dead k s) (omega arith) d)
  invalidate_from-Dead (suc n) i s e p d =
      let h = handle s i in
      let P : Files W → Type 0 = λ x. Phase ask held law x.slots x.slots x × Dead (i + 1) x in
      let s' = put_handle (call ask s (close_call h.fd)).1 i (record h { stale = true }) in
      let (p', d') =
        if_each P (live h) s' s (λ l. invalidate_one i s l (omega arith) p d)
          (λ f. (
            p,
            λ j lj. elim (Bool-cases (j == i)) [
              | inl e ↦ subst (λ k. live (handle s k) ≡ false) (sym (==→eq j i e)) f
              | inr e ↦ let ne = ==→ne j i e in d j (omega arith)
            ],
          )) in
      invalidate_from-Dead n (i + 1) (if live h then s' else s) (omega arith) p' d'

  beyond :
      (hs : List Handle) (j : ℕ)
      → length hs ≡ slot_count
      → (j < slot_count → live (at hs j) ≡ false)
      → live (at hs j) ≡ false
  beyond hs j size h = elim (Bool-cases (ltb j slot_count)) [
    | inl t ↦ h (ltb→lt _ _ t)
    | inr f ↦
        let z = ltb→le _ _ f in
        ap live (get_or_past hs j no_handle (subst (λ n. n ≤ j) (sym size) z))
  ]

  invalidate-Good :
      (s : Files W) (v w : Volume) → Good ask held law v s → Good ask held law w (invalidate ask s)
  unfolding invalidate Dead Current
  invalidate-Good s v w g =
      let (p, d) = invalidate_from-Dead slot_count 0 s refl g.table (λ j l. absurd (omega arith)) in
      record {
        table = p;
        current = λ i l.
            absurd
              (cc (sym (beyond (invalidate_from ask slot_count 0 s).slots i p.size (d i)) ∙ l));
      }

  -- Without a volume no handle is live.
  away-Good :
      (s : Files W) (v w : Volume)
      → v.mounted ≡ false
      → Good ask held law v s
      → Good ask held law w s
  unfolding Current Matches
  away-Good s v w h g = record {
    table = g.table;
    current = λ i l. absurd (cc (sym h ∙ (g.current i l).0));
  }

  apply-Good :
      (root : List ℕ) (p : Op) (s : Files W) (v : Volume)
      → Good ask held law v s
      → Good ask held law (apply ask root p s v).1 (apply ask root p s v).0
  unfolding apply
  apply-Good root (open_op d name mode) s v g = open_file-Good ask held law root s v d name mode g
  apply-Good root (read_op p len) s v g = read-Good ask held law s v p len g
  apply-Good root (write_op p bytes) s v g = write-Good ask held law s v p bytes g
  apply-Good root (close_op p) s v g = close-Good ask held law s v p g
  apply-Good root (discard_op p) s v g = discard-Good ask held law s v p g
  apply-Good root (remove_op d name) s v g = remove-Good ask held law root s v d name g
  apply-Good root (rename_op d from to) s v g = rename-Good ask held law root s v d from to g
  apply-Good root (volume_op w) s v g =
      if_each (Good ask held law w) v.mounted (invalidate ask s) s (λ _. invalidate-Good s v w g)
        (λ h. away-Good s v w h g)

  apply_all-Inv :
      (root : List ℕ) (ps : List Op) (s : Files W) (v : Volume)
      → Good ask held law v s
      → (let s' = apply_all ask root ps s v in Inv held s'.slots s')
  unfolding apply_all
  apply_all-Inv root [] s v g = g.table.inv
  apply_all-Inv root (p ∷ ps) s v g =
      apply_all-Inv root ps (apply ask root p s v).0 (apply ask root p s v).1
        (apply-Good root p s v g)

  fresh-Good : (w : W) → ((fd : ℕ) → held w fd ≡ false) → Good ask held law no_volume (fresh w)
  unfolding Current is_open Proper
  fresh-Good w h = record {
    table = record {
      inv = record {
        proper = tt;
        agrees = h;
        live_open = λ i l. absurd (cc (sym (none_live i) ∙ l));
        distinct = λ i j l _ _. absurd (cc (sym (none_live i) ∙ l));
        no_leak = λ fd o. cc;
      };
      same = refl;
      size = refl;
    };
    current = λ i l. absurd (cc (sym (none_live i) ∙ l));
  }

  -- Over any use of files on volumes that come and go, with any answers of the file system (`Posix`):
  -- each call on a descriptor finds it open; the open descriptors are exactly those of the handles that
  -- are used and not stale, one each. So none leaks, is closed twice or used after it was closed.
  pub descriptors_lem :
      (root : List ℕ) (ps : List Op) (w : W)
      → ((fd : ℕ) → held w fd ≡ false)
      → Inv held
          (apply_all ask root ps (fresh w) no_volume).slots
          (apply_all ask root ps (fresh w) no_volume)
  descriptors_lem root ps w h = apply_all-Inv root ps (fresh w) no_volume (fresh-Good w h)
