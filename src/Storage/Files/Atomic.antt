-- ===== src/Storage/Files/Atomic.antt =====
-- Closing a file that replaces another: in which order the file system is called, on every branch.
use stark_one.Base.{
  ℕ, ◌≡◌, ◌⊎◌, inl, inr, refl, sym, ap, subst, ◌∙◌, Bool, true, false, ◌&&◌, not, if_both, if_each,
  some, List, ◌∷◌, if◌then◌else◌, arith,
}
use stark_one.Err.{Err, ok}
use stark_one.Storage.Path.{Errno, map_errno}
use stark_one.Storage.Files.{
  Handle, write_atomic, Call, fsync_call, close_call, unlink_call, rename_call, Answer, done,
  failed, Files, Volume, is_ok, is_invalid, is_io, is_atomic, is_enoent, handle, usable, release,
  fail, call, answer_err, next, and_close, drop_copy, commit, close, release_in,
}

abbrev Log : Type 0
Log = List (Call × Answer)

abbrev none_forgiven : Errno → Bool
none_forgiven e = false

-- an answer that is no failure
pub Fine : (Errno → Bool) → Answer → Type 0
Fine forgive (done n bytes) = Unit {0}
Fine forgive (failed x) = (forgive x ≡ true)

-- The copy is dropped after the calls `base`, but for an I/O error, when the medium may be gone.
abbrev pub DropsCopy : List ℕ → Err → Log → Log → Type 0
DropsCopy tmp e base calls =
    (is_io e ≡ true) × (calls ≡ base)
    ⊎ (is_io e ≡ false) × ((a : Answer) × (calls ≡ (unlink_call tmp, a) ∷ base))

-- What closing makes of the calls `cs` before it, the latest first, and of its result. `tmp` holds the
-- new bytes and `path` is the file to replace.
pub data Closed (fd : ℕ) (tmp path : List ℕ) (cs : Log) (e : Err) (calls : Log) : Type 0 where
  -- flushed, closed, the old file removed or missing, the new one in its place
  replaced :
      (a b c d : Answer)
      → Fine none_forgiven a
      → Fine none_forgiven b
      → Fine is_enoent c
      → Fine none_forgiven d
      → e ≡ ok
      → calls
        ≡ (rename_call tmp path, d)
          ∷ (unlink_call path, c)
          ∷ (close_call fd, b)
          ∷ (fsync_call fd, a)
          ∷ cs
      → Closed fd tmp path cs e calls
  -- a failure before the old file is touched
  not_written :
      (a b : Answer) (x : Errno)
      → (a ≡ failed x) ⊎ (b ≡ failed x)
      → e ≡ map_errno x
      → DropsCopy tmp e ((close_call fd, b) ∷ (fsync_call fd, a) ∷ cs) calls
      → Closed fd tmp path cs e calls
  -- the old file cannot be removed
  not_removed :
      (a b : Answer) (x : Errno)
      → Fine none_forgiven a
      → Fine none_forgiven b
      → is_enoent x ≡ false
      → e ≡ map_errno x
      → DropsCopy tmp e
          ((unlink_call path, failed x) ∷ (close_call fd, b) ∷ (fsync_call fd, a) ∷ cs)
          calls
      → Closed fd tmp path cs e calls
  -- the old file is gone, and the new one cannot be moved
  not_moved :
      (a b c : Answer) (x : Errno)
      → Fine none_forgiven a
      → Fine none_forgiven b
      → Fine is_enoent c
      → e ≡ map_errno x
      → DropsCopy tmp e
          ((rename_call tmp path, failed x)
            ∷ (unlink_call path, c)
            ∷ (close_call fd, b)
            ∷ (fsync_call fd, a)
            ∷ cs)
          calls
      → Closed fd tmp path cs e calls

not_ok : (x : Errno) → is_ok (map_errno x) ≡ false
unfolding map_errno
not_ok x = ground arith

module _ {W : Type 0} (ask : W → Call → Answer × W) where
  -- a call that ends well, or fails with the error that it is reported as
  Asked : (Errno → Bool) → Call → Log → Err × Files W → Type 0
  Asked forgive c cs r =
      (r.0 ≡ ok) × ((a : Answer) × Fine forgive a × (r.1.calls ≡ (c, a) ∷ cs))
      ⊎ ((x : Errno) × (forgive x ≡ false) × (r.0 ≡ map_errno x) × (r.1.calls ≡ (c, failed x) ∷ cs))

  fail-calls : (s : Files W) (x : Errno) → (fail s x).1.calls ≡ s.calls
  fail-calls s x =
      if_both (λ (t : Files W). t.calls ≡ s.calls) (is_io (map_errno x)) (record s { told = true })
        s refl refl

  answer_err-Asked :
      (forgive : Errno → Bool) (c : Call) (cs : Log) (a : Answer) (s : Files W)
      → s.calls ≡ (c, a) ∷ cs
      → Asked forgive c cs (answer_err ask forgive (a, s))
  unfolding Asked Fine
  answer_err-Asked forgive c cs (done n bytes) s e = inl (refl, (done n bytes, tt, e))
  answer_err-Asked forgive c cs (failed x) s e =
      if_each (Asked forgive c cs) (forgive x) (ok, s) (fail s x)
        (λ t. inl (refl, (failed x, t, e))) (λ f. inr (x, f, refl, fail-calls s x ∙ e))

  next-Asked :
      (c : Call) (forgive : Errno → Bool) (e : Err) (s : Files W)
      → is_ok e ≡ true
      → Asked forgive c s.calls (next ask true c forgive (e, s))
  unfolding next
  next-Asked c forgive e s t =
      let (a, s') = call ask s c in
      subst (λ b. Asked forgive c s.calls (if b then answer_err ask forgive (a, s') else (e, s)))
        (sym t) (answer_err-Asked forgive c s.calls a s' refl)

  next-skips :
      (c : Call) (forgive : Errno → Bool) (e : Err) (s : Files W)
      → is_ok e ≡ false
      → next ask true c forgive (e, s) ≡ (e, s)
  unfolding next
  next-skips c forgive e s f =
      ap (λ b. if b then answer_err ask forgive (call ask s c) else (e, s)) f

  and_close-Asked :
      (fd : ℕ) (e : Err) (s : Files W)
      → is_ok e ≡ true
      → Asked none_forgiven (close_call fd) s.calls (and_close ask fd (e, s))
  unfolding and_close
  and_close-Asked fd e s t =
      let (a, s') = call ask s (close_call fd) in
      subst
        (λ b.
          Asked none_forgiven (close_call fd) s.calls
            (if b then answer_err ask none_forgiven (a, s') else (e, s')))
        (sym t) (answer_err-Asked none_forgiven (close_call fd) s.calls a s' refl)

  and_close-failed :
      (fd : ℕ) (e : Err) (s : Files W)
      → is_ok e ≡ false
      → ((and_close ask fd (e, s)).0 ≡ e)
        × ((a : Answer) × ((and_close ask fd (e, s)).1.calls ≡ (close_call fd, a) ∷ s.calls))
  unfolding and_close
  and_close-failed fd e s f =
      let (a, s') = call ask s (close_call fd) in
      let r : Bool → Err × Files W =
        λ b. if b then answer_err ask none_forgiven (a, s') else (e, s') in
      subst (λ b. ((r b).0 ≡ e) × ((d : Answer) × ((r b).1.calls ≡ (close_call fd, d) ∷ s.calls)))
        (sym f) (refl, (a, refl))

  drop_copy-DropsCopy :
      (h : Handle) (e : Err) (s : Files W)
      → is_atomic h.mode ≡ true
      → is_ok e ≡ false
      → ((drop_copy ask h (e, s)).0 ≡ e)
        × DropsCopy h.tmp e s.calls (drop_copy ask h (e, s)).1.calls
  unfolding drop_copy
  drop_copy-DropsCopy h e s m f =
      if_each (λ (r : Err × Files W). (r.0 ≡ e) × DropsCopy h.tmp e s.calls r.1.calls)
        (is_atomic h.mode && (not (is_ok e) && not (is_io e))) _ (e, s)
        (λ q. (refl, inr (ground arith, ((ask s.world (unlink_call h.tmp)).0, refl))))
        (λ q. (refl, inl (ground arith, refl)))

  drop_copy-ok : (h : Handle) (e : Err) (s : Files W) → e ≡ ok → drop_copy ask h (e, s) ≡ (e, s)
  unfolding drop_copy
  drop_copy-ok h e s q =
      if_each (λ (r : Err × Files W). r ≡ (e, s))
        (is_atomic h.mode && (not (is_ok e) && not (is_io e))) _ (e, s) (λ t. absurd (ground arith))
        (λ _. refl)

  -- a handle that is open to replace a file
  abbrev replacing : Handle → Handle
  replacing h = record h { mode = write_atomic }

  Ends : Handle → Log → Err × Files W → Type 0
  Ends h cs r = Closed h.fd h.tmp h.path cs r.0 r.1.calls

  -- the end of a failed commit
  ends :
      (h : Handle) (cs base : Log) (x : Errno) (r : Err × Files W)
      → ((e : Err) (calls : Log)
          → e ≡ map_errno x
          → DropsCopy h.tmp e base calls
          → Closed h.fd h.tmp h.path cs e calls)
      → r.0 ≡ map_errno x
      → r.1.calls ≡ base
      → Ends h cs (drop_copy ask (replacing h) r)
  unfolding Ends
  ends h cs base x r how e q =
      let f = ap is_ok e ∙ not_ok x in
      let (a, b) = drop_copy-DropsCopy (replacing h) r.0 r.1 refl f in
      how (drop_copy ask (replacing h) r).0 (drop_copy ask (replacing h) r).1.calls (a ∙ e) (
        subst
          (λ y.
            DropsCopy h.tmp (drop_copy ask (replacing h) r).0 y
              (drop_copy ask (replacing h) r).1.calls)
          q
          (subst (λ y. DropsCopy h.tmp y r.1.calls (drop_copy ask (replacing h) r).1.calls) (sym a)
            b))

  moved-Ends :
      (h : Handle) (cs : Log) (a b c : Answer) (r : Err × Files W)
      → Fine none_forgiven a
      → Fine none_forgiven b
      → Fine is_enoent c
      → r.0 ≡ ok
      → r.1.calls ≡ (unlink_call h.path, c) ∷ (close_call h.fd, b) ∷ (fsync_call h.fd, a) ∷ cs
      → Ends h cs
          (drop_copy ask (replacing h) (next ask true (rename_call h.tmp h.path) none_forgiven r))
  unfolding Ends Asked
  moved-Ends h cs a b c r fa fb fc e q =
      let u = next ask true (rename_call h.tmp h.path) none_forgiven r in
      elim (next-Asked (rename_call h.tmp h.path) none_forgiven r.0 r.1 (ap is_ok e)) [
        | inl (k, (d, fd, l)) ↦
            let z = drop_copy-ok (replacing h) u.0 u.1 k in
            replaced a b c d fa fb fc fd (ap (λ x. x.0) z ∙ k)
              (ap (λ x. x.1.calls) z ∙ l ∙ ap (λ y. (rename_call h.tmp h.path, d) ∷ y) q)
        | inr (x, _, k, l) ↦
            ends h cs _ x u (λ e calls p d. not_moved a b c x fa fb fc p d) k
              (l ∙ ap (λ y. (rename_call h.tmp h.path, failed x) ∷ y) q)
      ]

  removed-Ends :
      (h : Handle) (cs : Log) (a b : Answer) (r : Err × Files W)
      → Fine none_forgiven a
      → Fine none_forgiven b
      → r.0 ≡ ok
      → r.1.calls ≡ (close_call h.fd, b) ∷ (fsync_call h.fd, a) ∷ cs
      → Ends h cs (
          drop_copy ask (replacing h) (
            next ask true
              (rename_call h.tmp h.path)
              none_forgiven
              (next ask true (unlink_call h.path) is_enoent r)))
  unfolding Asked
  removed-Ends h cs a b r fa fb e q =
      let u = next ask true (unlink_call h.path) is_enoent r in
      elim (next-Asked (unlink_call h.path) is_enoent r.0 r.1 (ap is_ok e)) [
        | inl (k, (c, fc, l)) ↦
            moved-Ends h cs a b c u fa fb fc k (l ∙ ap (λ y. (unlink_call h.path, c) ∷ y) q)
        | inr (x, n, k, l) ↦
            let f = ap is_ok k ∙ not_ok x in
            subst (λ y. Ends h cs (drop_copy ask (replacing h) y))
              (sym (next-skips (rename_call h.tmp h.path) none_forgiven u.0 u.1 f))
              (ends h cs _ x u (λ e calls p d. not_removed a b x fa fb n p d) k
                (l ∙ ap (λ y. (unlink_call h.path, failed x) ∷ y) q))
      ]

  -- a failure before the old file is touched
  stopped-Ends :
      (h : Handle) (cs : Log) (a b : Answer) (x : Errno) (r : Err × Files W)
      → (a ≡ failed x) ⊎ (b ≡ failed x)
      → r.0 ≡ map_errno x
      → r.1.calls ≡ (close_call h.fd, b) ∷ (fsync_call h.fd, a) ∷ cs
      → Ends h cs (
          drop_copy ask (replacing h) (
            next ask true
              (rename_call h.tmp h.path)
              none_forgiven
              (next ask true (unlink_call h.path) is_enoent r)))
  stopped-Ends h cs a b x r why e q =
      let f = ap is_ok e ∙ not_ok x in
      let skip =
        ap (next ask true (rename_call h.tmp h.path) none_forgiven)
          (next-skips (unlink_call h.path) is_enoent r.0 r.1 f)
        ∙ next-skips (rename_call h.tmp h.path) none_forgiven r.0 r.1 f in
      subst (λ y. Ends h cs (drop_copy ask (replacing h) y)) (sym skip)
        (ends h cs _ x r (λ e calls p d. not_written a b x why p d) e q)

  commit-Ends : (h : Handle) (s : Files W) → Ends h s.calls (commit ask s (replacing h))
  unfolding commit Asked
  commit-Ends h s =
      let r = next ask true (fsync_call h.fd) none_forgiven (ok, s) in
      let u = and_close ask h.fd r in
      elim (next-Asked (fsync_call h.fd) none_forgiven ok s refl) [
        | inl (e, (a, fa, q)) ↦ elim (and_close-Asked h.fd r.0 r.1 (ap is_ok e)) [
          | inl (k, (b, fb, l)) ↦
              removed-Ends h s.calls a b u fa fb k (l ∙ ap (λ y. (close_call h.fd, b) ∷ y) q)
          | inr (x, _, k, l) ↦
              stopped-Ends h s.calls a (failed x) x u (inr refl) k
                (l ∙ ap (λ y. (close_call h.fd, failed x) ∷ y) q)
        ]
        | inr (x, _, e, q) ↦
            let (k, (b, l)) = and_close-failed h.fd r.0 r.1 (ap is_ok e ∙ not_ok x) in
            stopped-Ends h s.calls (failed x) b x u (inl refl) (k ∙ e)
              (l ∙ ap (λ y. (close_call h.fd, b) ∷ y) q)
      ]

  -- Closing a usable handle that replaces a file calls the file system in one of four ways. The new file is flushed and closed before the old one is removed, and takes its place
  -- last; only then is it a success. A failure to flush or close leaves the old file alone. A failure
  -- to remove the old file, or to move the new one, ends there. After a failure that is no I/O error the
  -- copy is dropped.
  pub close-Closed :
      (s : Files W) (v : Volume) (i : ℕ)
      → usable s v (some i) ≡ ok
      → (handle s i).mode ≡ write_atomic
      → (let h = handle s i in
          let r = close ask s v (some i) in Closed h.fd h.tmp h.path s.calls r.0 r.1.calls)
  unfolding close Ends
  close-Closed s v i e m =
      let h = handle s i in
      let path : close ask s v (some i) ≡ release_in ask i (commit ask s h) =
        ap
          (λ x.
            if is_invalid x
            then (x, s)
            else if is_ok x
            then release_in ask i (commit ask s h)
            else (x, release s i))
          e in
      let same : replacing h ≡ h = ap (λ y. record h { mode = y }) (sym m) in
      let c =
        subst (λ y. Closed h.fd h.tmp h.path s.calls (commit ask s y).0 (commit ask s y).1.calls)
          same (commit-Ends h s) in
      subst (λ r. Closed h.fd h.tmp h.path s.calls r.0 r.1.calls) (sym path) c
