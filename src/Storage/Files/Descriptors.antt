-- ===== src/Storage/Files/Descriptors.antt =====
-- The descriptors of the file system, over any use of the table of files.
use stark_one.Base.{
  ℕ, ◌≡◌, ◌<◌, refl, sym, ap, subst, ◌∙◌, Bool, true, false, ◌&&◌, not, if_both, List, length,
  length-set, set,
}
use stark_one.Err.{Err, ok}
use stark_one.Storage.Path.{Errno}
use stark_one.Storage.Files.{
  slot_count, Handle, Call, fsync_call, close_call, rename_call, unlink_call, Answer, done, failed,
  Files, no_handle, is_ok, is_enoent, is_read, is_atomic, put_handle, fail, call, answer_err, next,
  and_close, drop_copy, commit,
}
use stark_one.Storage.Files.Trace.{touch, is_open, Allowed, Posix, at, live, Inv}
use stark_one.Storage.Files.Step.{call_quiet, call_close, call_told}

module _ {W : Type 0} (ask : W → Call → Answer × W) (held : W → ℕ → Bool)
    (law : Posix ask held) where
  -- during an operation: the invariant for the handles `hs`, and the table as it was
  pub record Phase (hs base : List Handle) (s : Files W) : Type 0 where
    pub inv : Inv held hs s
    pub same : s.slots ≡ base
    pub size : length base ≡ slot_count

  -- between operations
  unfoldable pub Table : Files W → Type 0
  Table s = Phase s.slots s.slots s

  pub Phase-put :
      (hs base : List Handle) (s : Files W) (i : ℕ) (h : Handle)
      → hs ≡ set base i h
      → Phase hs base s
      → Table (put_handle s i h)
  unfolding Table
  Phase-put hs base s i h e p =
      let e' : hs ≡ set s.slots i h = e ∙ ap (λ b. set b i h) (sym p.same) in
      let v : Inv held (set s.slots i h) s = subst (λ x. Inv held x s) e' p.inv in
      record {
        inv = record {
          proper = v.proper;
          agrees = v.agrees;
          live_open = v.live_open;
          distinct = v.distinct;
          no_leak = v.no_leak;
        };
        same = refl;
        size = length-set s.slots i h ∙ ap length p.same ∙ p.size;
      }

  pub fail-Phase :
      (hs base : List Handle) (s : Files W) (e : Errno)
      → Phase hs base s
      → Phase hs base (fail s e).1
  fail-Phase hs base s e p = record {
    inv = call_told ask held law hs s e p.inv;
    same = if_both (λ (x : Files W). x.slots ≡ base) _ (record s { told = true }) s p.same p.same;
    size = p.size;
  }

  pub quiet-Phase :
      (hs base : List Handle) (s : Files W) (c : Call)
      → ((fd : ℕ) (b : Bool) → touch c (ask s.world c).0 fd b ≡ b)
      → Allowed (is_open s.calls) c
      → Phase hs base s
      → Phase hs base (call ask s c).1
  quiet-Phase hs base s c quiet fits p = record {
    inv = call_quiet ask held law hs s c quiet fits p.inv;
    same = p.same;
    size = p.size;
  }

  pub answer_err-Phase :
      (hs base : List Handle) (forgive : Errno → Bool) (a : Answer) (s : Files W)
      → Phase hs base s
      → Phase hs base (answer_err ask forgive (a, s)).1
  answer_err-Phase hs base forgive (done n bytes) s p = p
  answer_err-Phase hs base forgive (failed e) s p =
      if_both (λ (r : Err × Files W). Phase hs base r.1) (forgive e) (ok, s) (fail s e) p
        (fail-Phase hs base s e p)

  next-Phase :
      (hs base : List Handle) (b : Bool) (c : Call) (forgive : Errno → Bool) (e : Err) (s : Files W)
      → ((a : Answer) (fd : ℕ) (b : Bool) → touch c a fd b ≡ b)
      → Allowed (is_open s.calls) c
      → Phase hs base s
      → Phase hs base (next ask b c forgive (e, s)).1
  unfolding next
  next-Phase hs base b c forgive e s quiet fits p =
      let (a, s') = call ask s c in
      if_both (λ (r : Err × Files W). Phase hs base r.1) (b && is_ok e) _ (e, s)
        (answer_err-Phase hs base forgive a s'
          (quiet-Phase hs base s c (quiet (ask s.world c).0) fits p))
        p

  and_close-Phase :
      (hs base : List Handle) (i : ℕ) (e : Err) (s : Files W)
      → live (at hs i) ≡ true
      → i < length hs
      → Phase hs base s
      → Phase (set hs i no_handle) base (and_close ask (at hs i).fd (e, s)).1
  unfolding and_close
  and_close-Phase hs base i e s l below p =
      let (a, s') = call ask s (close_call (at hs i).fd) in
      let q : Phase (set hs i no_handle) base s' = record {
        inv = call_close ask held law hs s i no_handle l below refl p.inv;
        same = p.same;
        size = p.size;
      } in
      if_both (λ (r : Err × Files W). Phase (set hs i no_handle) base r.1) (is_ok e) _ (e, s')
        (answer_err-Phase (set hs i no_handle) base (λ _. false) a s' q) q

  drop_copy-Phase :
      (hs base : List Handle) (h : Handle) (e : Err) (s : Files W)
      → Phase hs base s
      → Phase hs base (drop_copy ask h (e, s)).1
  unfolding drop_copy touch Allowed
  drop_copy-Phase hs base h e s p =
      if_both (λ (r : Err × Files W). Phase hs base r.1) _ (e, (call ask s (unlink_call h.tmp)).1)
        (e, s) (quiet-Phase hs base s (unlink_call h.tmp) (λ fd b. refl) tt p) p

  pub commit-Phase :
      (hs : List Handle) (i : ℕ) (s : Files W)
      → live (at hs i) ≡ true
      → i < length hs
      → Phase hs hs s
      → Phase (set hs i no_handle) hs (commit ask s (at hs i)).1
  unfolding commit touch Allowed
  commit-Phase hs i s l below p =
      let h = at hs i in
      let gone = set hs i no_handle in
      let none_forgiven : Errno → Bool = λ _. false in
      let r = next ask (not (is_read h.mode)) (fsync_call h.fd) none_forgiven (ok, s) in
      let pr =
        next-Phase hs hs (not (is_read h.mode)) (fsync_call h.fd) none_forgiven ok s
          (λ a fd b. refl) (p.inv.live_open i l) p in
      let t = and_close ask h.fd r in
      let pt = and_close-Phase hs hs i r.0 r.1 l below pr in
      let u = next ask (is_atomic h.mode) (unlink_call h.path) is_enoent t in
      let pu =
        next-Phase gone hs (is_atomic h.mode) (unlink_call h.path) is_enoent t.0 t.1
          (λ a fd b. refl) tt pt in
      let w = next ask (is_atomic h.mode) (rename_call h.tmp h.path) none_forgiven u in
      let pw =
        next-Phase gone hs (is_atomic h.mode) (rename_call h.tmp h.path) none_forgiven u.0 u.1
          (λ a fd b. refl) tt pu in
      drop_copy-Phase gone hs h w.0 w.1 pw
