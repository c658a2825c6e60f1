-- ===== src/Storage/Files/Closing.antt =====
-- Handles that are given back: close and discard.
use stark_one.Base.{
  ℕ, ◌≡◌, ◌<◌, inl, inr, refl, sym, ap, subst, ◌∙◌, Bool, true, false, not, Bool-cases, if_both,
  if_each, Option, none, some, List, length, set,
}
use stark_one.Err.{Err}
use stark_one.Storage.Files.{
  Handle, Call, close_call, unlink_call, Answer, Files, Volume, no_handle, is_ok, is_invalid,
  is_atomic, handle, usable, put_handle, release, call, commit, close, give_up, discard,
}
use stark_one.Storage.Files.Trace.{touch, Allowed, Posix, at, live}
use stark_one.Storage.Files.Step.{call_close, swap_dead}
use stark_one.Storage.Files.Descriptors.{Phase, Table, Phase-put, quiet-Phase, commit-Phase}
use stark_one.Storage.Files.Lifecycle.{
  Current, Matches, Good, usable-open, usable-dead, usable-ok, Current-set,
}

module _ {W : Type 0} (ask : W → Call → Answer × W) (held : W → ℕ → Bool)
    (law : Posix ask held) where
  pub put-Good :
      (v : Volume) (hs base : List Handle) (s : Files W) (i : ℕ) (h : Handle)
      → hs ≡ set base i h
      → i < length base
      → Phase ask held law hs base s
      → Current v base
      → (live h ≡ true → Matches v h)
      → Good ask held law v (put_handle s i h)
  unfolding Table
  put-Good v hs base s i h e below p c m = record {
    table = Phase-put ask held law hs base s i h e p;
    current = subst (λ b. Current v (set b i h)) (sym p.same) (Current-set v base i h below c m);
  }

  -- A handle that is not usable is not live.
  release-Good :
      (s : Files W) (v : Volume) (i : ℕ)
      → Good ask held law v s
      → is_invalid (usable s v (some i)) ≡ false
      → is_ok (usable s v (some i)) ≡ false
      → Good ask held law v (release s i)
  unfolding Current
  release-Good s v i g q f =
      let (below, u) = usable-dead s v i q in
      let below' = subst (λ n. i < n) (sym g.table.size) below in
      let gone : live (handle s i) ≡ false = elim (Bool-cases (live (handle s i))) [
        | inr d ↦ d
        | inl l ↦ absurd (cc (sym (usable-ok s v i below l (g.current i l)) ∙ f))
      ] in
      let p : Phase ask held law (set s.slots i no_handle) s.slots s = record {
        inv = swap_dead ask held law s.slots s i no_handle gone below' refl g.table.inv;
        same = refl;
        size = g.table.size;
      } in
      put-Good v _ s.slots s i no_handle refl below' p g.current (λ x. cc)

  pub close-Good :
      (s : Files W) (v : Volume) (p : Option ℕ)
      → Good ask held law v s
      → Good ask held law v (close ask s v p).1
  unfolding close
  close-Good s v none g = g
  close-Good s v (some i) g =
      let P : Err × Files W → Type 0 = λ r. Good ask held law v r.1 in
      let e = usable s v (some i) in
      if_each P (is_invalid e) _ _ (λ _. g)
        (λ q.
          if_each P (is_ok e) _ _
            (λ t.
              let (below, l, _) = usable-open ask held law s v i g (ap not t) in
              let p = commit-Phase ask held law s.slots i s l below g.table in
              put-Good v _ s.slots (commit ask s (handle s i)).1 i no_handle refl below p g.current
                (λ x. cc))
            (λ f. release-Good s v i g q f))

  give_up-Phase :
      (hs : List Handle) (i : ℕ) (s : Files W)
      → live (at hs i) ≡ true
      → i < length hs
      → Phase ask held law hs hs s
      → Phase ask held law (set hs i no_handle) hs (give_up ask s (at hs i))
  unfolding give_up touch Allowed
  give_up-Phase hs i s l below p =
      let h = at hs i in
      let (_, s') = call ask s (close_call h.fd) in
      let p' : Phase ask held law (set hs i no_handle) hs s' = record {
        inv = call_close ask held law hs s i no_handle l below refl p.inv;
        same = p.same;
        size = p.size;
      } in
      if_both (Phase ask held law (set hs i no_handle) hs) (is_atomic h.mode) _ s'
        (quiet-Phase ask held law (set hs i no_handle) hs s' (unlink_call h.tmp) (λ fd b. refl) tt
          p')
        p'

  pub discard-Good :
      (s : Files W) (v : Volume) (p : Option ℕ)
      → Good ask held law v s
      → Good ask held law v (discard ask s v p)
  unfolding discard
  discard-Good s v none g = g
  discard-Good s v (some i) g =
      let e = usable s v (some i) in
      if_each (Good ask held law v) (is_invalid e) _ _ (λ _. g)
        (λ q.
          if_each (Good ask held law v) (is_ok e) _ _
            (λ t.
              let (below, l, _) = usable-open ask held law s v i g (ap not t) in
              let p = give_up-Phase s.slots i s l below g.table in
              put-Good v _ s.slots (give_up ask s (handle s i)) i no_handle refl below p g.current
                (λ x. cc))
            (λ f. release-Good s v i g q f))
