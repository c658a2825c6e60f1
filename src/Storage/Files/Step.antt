-- ===== src/Storage/Files/Step.antt =====
-- What single calls do to the invariant of the descriptors.
use stark_one.Base.{
  ℕ, ◌≡◌, ◌≢◌, ◌⊎◌, ◌<◌, inl, inr, sym, ap, subst, ◌∙◌, Bool, true, false, ◌&&◌, ◌||◌, not,
  Bool-cases, if_both, List, length, get_or-set_self, get_or-set_ne, set, ◌==◌, ==→eq, ==→ne, ne→==,
  eq→==, arith,
}
use stark_one.Storage.Path.{Errno, map_errno}
use stark_one.Storage.Files.{
  Mode, Handle, Call, open_call, close_call, Answer, done, Files, no_handle, call, fail, is_io,
}
use stark_one.Storage.Files.Trace.{touch, is_open, Allowed, Proper, Posix, at, live, Inv}

and_ne : (n fd : ℕ) (b : Bool) → (not (n == fd) && b) ≡ true → (n ≢ fd) × (b ≡ true)
and_ne n fd b h = (λ e. ground arith, ground arith)

ne_and : (n fd : ℕ) (b : Bool) → n ≢ fd → b ≡ true → (not (n == fd) && b) ≡ true
ne_and n fd b d h = ground (arith, ne→== n fd d)

or_left : (n fd : ℕ) (b : Bool) → n ≡ fd → (n == fd || b) ≡ true
or_left n fd b e = ground (arith, eq→== n fd e)

or_right : (n fd : ℕ) (b : Bool) → b ≡ true → (n == fd || b) ≡ true
or_right n fd b h = ground arith

or_rest : (n fd : ℕ) (b : Bool) → (n == fd) ≡ false → (n == fd || b) ≡ true → b ≡ true
or_rest n fd b f h = ground arith

pub same_place :
    (hs : List Handle) (i j : ℕ) (h : Handle) → (j ≡ i) ⊎ (j ≢ i) × (at (set hs i h) j ≡ at hs j)
same_place hs i j h = elim (Bool-cases (j == i)) [
  | inl e ↦ inl (==→eq j i e)
  | inr e ↦ let d = ==→ne j i e in inr (d, get_or-set_ne hs i j h no_handle (λ q. d (sym q)))
]

-- A live handle, after another was replaced by one that is not live.
pub kept_live :
    (hs : List Handle) (i : ℕ) (h : Handle)
    → i < length hs
    → live h ≡ false
    → (j : ℕ) → live (at (set hs i h) j) ≡ true
    → (j ≢ i) × (at (set hs i h) j ≡ at hs j)
kept_live hs i h below dead j lj = elim (same_place hs i j h) [
  | inr kept ↦ kept
  | inl e ↦
      let q = ap live (get_or-set_self hs i h no_handle below) ∙ dead in
      absurd (cc (sym (subst (λ k. live (at (set hs i h) k) ≡ true) e lj) ∙ q))
]

module _ {W : Type 0} (ask : W → Call → Answer × W) (held : W → ℕ → Bool)
    (law : Posix ask held) where
  -- a call that opens and closes nothing
  pub call_quiet :
      (hs : List Handle) (s : Files W) (c : Call)
      → ((fd : ℕ) (b : Bool) → touch c (ask s.world c).0 fd b ≡ b)
      → Allowed (is_open s.calls) c
      → Inv held hs s
      → Inv held hs (call ask s c).1
  unfolding is_open Proper
  call_quiet hs s c quiet fits v =
      let a = (ask s.world c).0 in
      record {
        proper = (fits, v.proper);
        agrees = λ fd. law.tracks s.world c fd ∙ ap (touch c a fd) (v.agrees fd);
        live_open = λ i l. quiet (at hs i).fd (is_open s.calls (at hs i).fd) ∙ v.live_open i l;
        distinct = v.distinct;
        no_leak = λ fd o. v.no_leak fd (sym (quiet fd (is_open s.calls fd)) ∙ o);
      }

  -- A live handle's descriptor is closed, and the handle replaced by one that is not live.
  pub call_close :
      (hs : List Handle) (s : Files W) (i : ℕ) (h : Handle)
      → live (at hs i) ≡ true
      → i < length hs
      → live h ≡ false
      → Inv held hs s
      → Inv held (set hs i h) (call ask s (close_call (at hs i).fd)).1
  unfolding is_open Proper touch Allowed
  call_close hs s i h l below dead v =
      let n = (at hs i).fd in
      let a = (ask s.world (close_call n)).0 in
      let other = kept_live hs i h below dead in
      record {
        proper = (v.live_open i l, v.proper);
        agrees = λ fd.
            law.tracks s.world (close_call n) fd ∙ ap (touch (close_call n) a fd) (v.agrees fd);
        live_open = λ j lj.
            let (d, e) = other j lj in
            let lj' = subst (λ (x : Handle). live x ≡ true) e lj in
            subst (λ (x : Handle). (not (n == x.fd) && is_open s.calls x.fd) ≡ true) (sym e)
              (ne_and n (at hs j).fd _ (λ q. d (v.distinct j i lj' l (sym q))) (v.live_open j lj'));
        distinct = λ j k lj lk q.
            let (_, e) = other j lj in
            let (_, e') = other k lk in
            v.distinct j k (subst (λ (x : Handle). live x ≡ true) e lj)
              (subst (λ (x : Handle). live x ≡ true) e' lk)
              (sym (ap (λ (x : Handle). x.fd) e) ∙ q ∙ ap (λ (x : Handle). x.fd) e');
        no_leak = λ fd o.
            let (d, on) = and_ne n fd (is_open s.calls fd) o in
            let (j, lj, q) = v.no_leak fd on in
            let e =
              get_or-set_ne hs i j h no_handle
                (λ x. d (subst (λ k. (at hs k).fd ≡ fd) (sym x) q)) in
            (j, subst (λ (x : Handle). live x ≡ true) (sym e) lj, ap (λ (x : Handle). x.fd) e ∙ q);
      }

  -- A handle that is not live is replaced by one for a descriptor just opened.
  pub call_open :
      (hs : List Handle) (s : Files W) (path : List ℕ) (mode : Mode) (n : ℕ) (bytes : List ℕ)
      → (ask s.world (open_call path mode)).0 ≡ done n bytes
      → (i : ℕ) (h : Handle) → live (at hs i) ≡ false
      → i < length hs
      → live h ≡ true
      → h.fd ≡ n
      → Inv held hs s
      → Inv held (set hs i h) (call ask s (open_call path mode)).1
  unfolding is_open Proper touch Allowed
  call_open hs s path mode n bytes answer i h dead below l fdn v =
      let self = get_or-set_self hs i h no_handle below in
      let new : (fd : ℕ)
          → touch (open_call path mode) (ask s.world (open_call path mode)).0 fd
              (is_open s.calls fd)
            ≡ (n == fd || is_open s.calls fd) =
        λ fd. ap (λ a. touch (open_call path mode) a fd (is_open s.calls fd)) answer in
      let unused : is_open s.calls n ≡ false =
        sym (v.agrees n) ∙ law.opens s.world path mode n bytes answer in
      let fd_of : Handle → ℕ = λ x. x.fd in
      let first : (j : ℕ) → j ≡ i → (at (set hs i h) j).fd ≡ n =
        λ j e. subst (λ k. (at (set hs i h) k).fd ≡ n) (sym e) (ap fd_of self ∙ fdn) in
      let clash : (k : ℕ) → live (at hs k) ≡ true → (at hs k).fd ≢ n =
        λ k lk q. cc (sym (subst (λ x. is_open s.calls x ≡ true) q (v.live_open k lk)) ∙ unused) in
      let old : (k : ℕ)
          → at (set hs i h) k ≡ at hs k
          → live (at (set hs i h) k) ≡ true
          → live (at hs k) ≡ true =
        λ k e lk. subst (λ x. live x ≡ true) e lk in
      record {
        proper = (tt, v.proper);
        agrees = λ fd.
            law.tracks s.world (open_call path mode) fd
            ∙ ap (touch (open_call path mode) (ask s.world (open_call path mode)).0 fd)
                (v.agrees fd);
        live_open = λ j lj. elim (same_place hs i j h) [
          | inl e ↦ new (at (set hs i h) j).fd ∙ or_left n _ _ (sym (first j e))
          | inr (d, e) ↦
              let x =
                subst (λ k. is_open s.calls (fd_of k) ≡ true) (sym e)
                  (v.live_open j (old j e lj)) in
              new (at (set hs i h) j).fd ∙ or_right n _ _ x
        ];
        distinct = λ j k lj lk q. elim (same_place hs i j h) [
          | inl e ↦ elim (same_place hs i k h) [
            | inl e' ↦ e ∙ sym e'
            | inr (_, e') ↦ absurd (clash k (old k e' lk) (sym (ap fd_of e') ∙ sym q ∙ first j e))
          ]
          | inr (_, e) ↦ elim (same_place hs i k h) [
            | inl e' ↦ absurd (clash j (old j e lj) (sym (ap fd_of e) ∙ q ∙ first k e'))
            | inr (_, e') ↦
                v.distinct j k (old j e lj) (old k e' lk) (sym (ap fd_of e) ∙ q ∙ ap fd_of e')
          ]
        ];
        no_leak = λ fd o. elim (Bool-cases (n == fd)) [
          | inl t ↦ (i, ap live self ∙ l, ap fd_of self ∙ fdn ∙ ==→eq n fd t)
          | inr f ↦
              let (j, lj, q) = v.no_leak fd (or_rest n fd _ f (sym (new fd) ∙ o)) in
              let e =
                get_or-set_ne hs i j h no_handle
                  (λ x. cc (sym (subst (λ k. live (at hs k) ≡ true) (sym x) lj) ∙ dead)) in
              (j, subst (λ x. live x ≡ true) (sym e) lj, ap fd_of e ∙ q)
        ];
      }

  pub call_told :
      (hs : List Handle) (s : Files W) (e : Errno) → Inv held hs s → Inv held hs (fail s e).1
  call_told hs s e v =
      if_both (Inv held hs) (is_io (map_errno e)) (record s { told = true }) s
        (record {
          proper = v.proper;
          agrees = v.agrees;
          live_open = v.live_open;
          distinct = v.distinct;
          no_leak = v.no_leak;
        })
        v

  -- A handle that is not live is replaced by another such one.
  pub swap_dead :
      (hs : List Handle) (s : Files W) (i : ℕ) (h : Handle)
      → live (at hs i) ≡ false
      → i < length hs
      → live h ≡ false
      → Inv held hs s
      → Inv held (set hs i h) s
  swap_dead hs s i h gone below dead v =
      let other = kept_live hs i h below dead in
      let fd_of : Handle → ℕ = λ x. x.fd in
      let old : (j : ℕ) → live (at (set hs i h) j) ≡ true → live (at hs j) ≡ true =
        λ j lj. subst (λ x. live x ≡ true) (other j lj).1 lj in
      record {
        proper = v.proper;
        agrees = v.agrees;
        live_open = λ j lj.
            subst (λ x. is_open s.calls (fd_of x) ≡ true) (sym (other j lj).1)
              (v.live_open j (old j lj));
        distinct = λ j k lj lk q.
            v.distinct j k (old j lj) (old k lk)
              (sym (ap fd_of (other j lj).1) ∙ q ∙ ap fd_of (other k lk).1);
        no_leak = λ fd o.
            let (j, lj, q) = v.no_leak fd o in
            let e =
              get_or-set_ne hs i j h no_handle
                (λ x. cc (sym (subst (λ k. live (at hs k) ≡ true) (sym x) lj) ∙ gone)) in
            (j, subst (λ x. live x ≡ true) (sym e) lj, ap fd_of e ∙ q);
      }
