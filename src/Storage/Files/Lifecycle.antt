-- ===== src/Storage/Files/Lifecycle.antt =====
-- The descriptors of the file system, over any sequence of operations on files.
use stark_one.Base.{
  ℕ, zero, suc, ◌≡◌, ◌<◌, inl, inr, refl, sym, subst, Bool, true, false, not, Bool-cases, if_both,
  if_each, Option, none, some, List, [], ◌∷◌, length, get_or-set_self, set, arith,
}
use stark_one.Err.{Err, no_space}
use stark_one.Storage.Files.{
  slot_count, Handle, Call, read_call, write_call, Answer, done, failed, Files, Volume, no_handle,
  is_ok, is_invalid, is_read, handle, usable, fail, free_slot, call, answer_read, read, write_from,
  write,
}
use stark_one.Storage.Files.Trace.{touch, is_open, Allowed, Posix, at, live}
use stark_one.Storage.Files.Step.{same_place}
use stark_one.Storage.Files.Descriptors.{Phase, fail-Phase, quiet-Phase}

-- A live handle belongs to the volume that is mounted.
unfoldable pub Matches : Volume → Handle → Type 0
Matches v h = (v.mounted ≡ true) × (v.generation ≡ h.generation)

unfoldable pub Current : Volume → List Handle → Type 0
Current v hs = (i : ℕ) → live (at hs i) ≡ true → Matches v (at hs i)

pub Current-set :
    (v : Volume) (hs : List Handle) (i : ℕ) (h : Handle)
    → i < length hs
    → Current v hs
    → (live h ≡ true → Matches v h)
    → Current v (set hs i h)
unfolding Current
Current-set v hs i h below c m j l = elim (same_place hs i j h) [
  | inl e ↦
      let q : at (set hs i h) j ≡ h =
        subst (λ k. at (set hs i h) k ≡ h) (sym e) (get_or-set_self hs i h no_handle below) in
      subst (Matches v) (sym q) (m (subst (λ x. live x ≡ true) q l))
  | inr (_, e) ↦ subst (Matches v) (sym e) (c j (subst (λ x. live x ≡ true) e l))
]

pub usable-live :
    {W : Type 0} (s : Files W) (v : Volume) (i : ℕ)
    → is_ok (usable s v (some i)) ≡ true
    → (i < slot_count) × (live (handle s i) ≡ true)
unfolding usable
usable-live s v i h = ground arith

pub usable-dead :
    {W : Type 0} (s : Files W) (v : Volume) (i : ℕ)
    → is_invalid (usable s v (some i)) ≡ false
    → (i < slot_count) × ((handle s i).used ≡ true)
unfolding usable
usable-dead s v i h = ground arith

-- a free slot that is not the first
later :
    (x : Handle) (hs : List Handle) (i : ℕ) (o : Option ℕ)
    → ((j : ℕ) → o ≡ some j → (j < length hs) × ((at hs j).used ≡ false))
    → (elim o as (λ _. Option ℕ) [ none ↦ none | some j ↦ some (suc j) ]) ≡ some i
    → (i < suc (length hs)) × ((at (x ∷ hs) i).used ≡ false)
later x hs i none rest h = absurd (cc h)
later x hs i (some j) rest h =
    let (l, f) = rest j refl in
    let q : suc j ≡ i = cc h in
    subst (λ k. (k < suc (length hs)) × ((at (x ∷ hs) k).used ≡ false)) q (omega arith, f)

pub usable-ok :
    {W : Type 0} (s : Files W) (v : Volume) (i : ℕ)
    → i < slot_count
    → live (handle s i) ≡ true
    → Matches v (handle s i)
    → is_ok (usable s v (some i)) ≡ true
unfolding usable Matches
usable-ok s v i below l m = ground arith

pub free_slot_lem :
    (hs : List Handle) (i : ℕ) → free_slot hs ≡ some i → (i < length hs) × ((at hs i).used ≡ false)
unfolding free_slot
free_slot_lem [] i h = cc
free_slot_lem (x ∷ hs) i h = elim (Bool-cases x.used) [
  | inl t ↦ later x hs i (free_slot hs) (λ j e. free_slot_lem hs j e) (rw t at h)
  | inr f ↦
      let e : some zero ≡ some i = rw f at h in
      let z : zero ≡ i = cc in
      subst (λ k. (k < suc (length hs)) × ((at (x ∷ hs) k).used ≡ false)) z (omega arith, f)
]

module _ {W : Type 0} (ask : W → Call → Answer × W) (held : W → ℕ → Bool)
    (law : Posix ask held) where
  -- what every operation keeps
  pub record Good (v : Volume) (s : Files W) : Type 0 where
    pub table : Phase ask held law s.slots s.slots s
    pub current : Current v s.slots

  pub settle :
      (v : Volume) (base : List Handle) (s : Files W)
      → Phase ask held law base base s
      → Current v base
      → Good v s
  settle v base s p c = record {
    table = subst (λ b. Phase ask held law b b s) (sym p.same) p;
    current = subst (Current v) (sym p.same) c;
  }

  answer_read-Good :
      (v : Volume) (base : List Handle) (a : Answer) (s : Files W)
      → Phase ask held law base base s
      → Current v base
      → Good v (answer_read ask (a, s)).2
  answer_read-Good v base (done n bytes) s p c = settle v base s p c
  answer_read-Good v base (failed e) s p c =
      settle v base (fail s e).1 (fail-Phase ask held law base base s e p) c

  -- the descriptor of a usable handle is open
  pub usable-open :
      (s : Files W) (v : Volume) (i : ℕ)
      → Good v s
      → not (is_ok (usable s v (some i))) ≡ false
      → (i < length s.slots) × (live (handle s i) ≡ true) × (is_open s.calls (handle s i).fd ≡ true)
  usable-open s v i g q =
      let (below, l) = usable-live s v i (ground arith) in
      (subst (λ n. i < n) (sym g.table.size) below, l, g.table.inv.live_open i l)

  pub read-Good :
      (s : Files W) (v : Volume) (p : Option ℕ) (len : ℕ) → Good v s → Good v (read ask s v p len).2
  unfolding read touch Allowed
  read-Good s v none len g = g
  read-Good s v (some i) len g =
      let P : Err × List ℕ × Files W → Type 0 = λ r. Good v r.2 in
      let c = read_call (handle s i).fd len in
      let (a, s') = call ask s c in
      if_each P (not (is_ok (usable s v (some i)))) _ _ (λ _. g)
        (λ q.
          let (_, _, o) = usable-open s v i g q in
          let p = quiet-Phase ask held law s.slots s.slots s c (λ fd b. refl) o g.table in
          if_both P (not (is_read (handle s i).mode)) _ _ g
            (answer_read-Good v s.slots a s' p g.current))

  after_write :
      (base : List Handle) (s : Files W) (fd : ℕ) (bs : List ℕ) (a : Answer)
      → Phase ask held law base base s
      → ((k : ℕ) → Phase ask held law base base (write_from ask s fd bs k).1)
      → Phase ask held law base base
          (elim a as (λ _. Err × Files W) [
            | failed e ↦ fail s e
            | done n _ ↦ elim n [ zero ↦ (no_space, s) | suc k ↦ write_from ask s fd bs k ]
          ]).1
  after_write base s fd bs (failed e) p rest = fail-Phase ask held law base base s e p
  after_write base s fd bs (done zero bytes) p rest = p
  after_write base s fd bs (done (suc k) bytes) p rest = rest k

  write_from-Phase :
      (base : List Handle) (s : Files W) (fd : ℕ) (bytes : List ℕ) (skip : ℕ)
      → is_open s.calls fd ≡ true
      → Phase ask held law base base s
      → Phase ask held law base base (write_from ask s fd bytes skip).1
  unfolding write_from touch Allowed is_open
  write_from-Phase base s fd [] skip o p = p
  write_from-Phase base s fd (b ∷ bs) (suc skip) o p = write_from-Phase base s fd bs skip o p
  write_from-Phase base s fd (b ∷ bs) zero o p =
      let c = write_call fd (b ∷ bs) in
      let (a, s') = call ask s c in
      let p' = quiet-Phase ask held law base base s c (λ fd b. refl) o p in
      after_write base s' fd bs a p' (λ k. write_from-Phase base s' fd bs k o p')

  pub write-Good :
      (s : Files W) (v : Volume) (p : Option ℕ) (bytes : List ℕ)
      → Good v s
      → Good v (write ask s v p bytes).1
  unfolding write
  write-Good s v none bytes g = g
  write-Good s v (some i) bytes g =
      let P : Err × Files W → Type 0 = λ r. Good v r.1 in
      let fd = (handle s i).fd in
      if_each P (not (is_ok (usable s v (some i)))) _ _ (λ _. g)
        (λ q.
          let (_, _, o) = usable-open s v i g q in
          let p = write_from-Phase s.slots s fd bytes 0 o g.table in
          if_both P (is_read (handle s i).mode) _ _ g
            (settle v s.slots (write_from ask s fd bytes 0).1 p g.current))
