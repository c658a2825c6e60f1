-- ===== src/Storage/Files/Tests.antt =====
-- Files at work, on a file system that never opens a descriptor twice.
use stark_one.Base.{
  ℕ, suc, ◌≡◌, refl, Bool, true, false, ◌||◌, ◌&&◌, not, Bool-cases, inl, inr, some, List, [], ◌∷◌,
  ltb, ◌==◌, set, arith,
}
use stark_one.Err.{ok}
use stark_one.Storage.Path.{captures}
use stark_one.Storage.Files.{
  Call, open_call, read_call, write_call, fsync_call, close_call, rename_call, unlink_call, Answer,
  done, write_atomic, Volume, Files, usable, close,
}
use stark_one.Storage.Files.Trace.{touch, Posix, Inv}
use stark_one.Storage.Files.Atomic.{Closed, close-Closed}
use stark_one.Storage.Files.History.{
  Op, open_op, write_op, close_op, volume_op, no_volume, no_files, fresh, apply_all,
  descriptors_lem,
}

-- the next descriptor, and those that are open
record Disk : Type 0 where
  pub next : ℕ
  pub on : ℕ → Bool

abbrev held : Disk → ℕ → Bool
held w fd = ltb fd w.next && w.on fd

abbrev ask : Disk → Call → Answer × Disk
ask w (open_call path mode) =
    (done w.next [], record { next = suc w.next; on = λ fd. w.next == fd || held w fd })
ask w (close_call n) = (done 0 [], record w { on = λ fd. not (n == fd) && w.on fd })
ask w c = (done 1 [], w)

opened-held :
    (w : Disk) (fd : ℕ)
    → (ltb fd (suc w.next) && (w.next == fd || held w fd)) ≡ (w.next == fd || held w fd)
opened-held w fd = elim (Bool-cases (w.on fd)) [
  | inl t ↦ rw t (ground arith)
  | inr f ↦ rw f (ground arith)
]

closed-held :
    (w : Disk) (n fd : ℕ)
    → (ltb fd w.next && (not (n == fd) && w.on fd)) ≡ (not (n == fd) && held w fd)
closed-held w n fd = elim (Bool-cases (w.on fd)) [
  | inl t ↦ rw t (ground arith)
  | inr f ↦ rw f (ground arith)
]

tracked : (w : Disk) (c : Call) (fd : ℕ) → held (ask w c).1 fd ≡ touch c (ask w c).0 fd (held w fd)
unfolding touch
tracked w (open_call path mode) fd = opened-held w fd
tracked w (close_call n) fd = closed-held w n fd
tracked w (read_call n len) fd = refl
tracked w (write_call n bytes) fd = refl
tracked w (fsync_call n) fd = refl
tracked w (rename_call from to) fd = refl
tracked w (unlink_call path) fd = refl

unopened : (w : Disk) (n : ℕ) → w.next ≡ n → held w n ≡ false
unopened w n e = ground arith

ask-Posix : Posix ask held
ask-Posix = record { opens = λ w path mode n bytes e. unopened w n (cc e); tracks = tracked }

abbrev blank : Disk
blank = record { next = 3; on = λ fd. false }

-- "a.ir", written, then the card is pulled with the file still open
abbrev used : List Op
used =
    volume_op (record { mounted = true; generation = 7 })
    ∷ open_op captures (some (b'a' ∷ b'.' ∷ b'i' ∷ b'r' ∷ [])) write_atomic
    ∷ write_op (some 0) (1 ∷ 2 ∷ [])
    ∷ volume_op no_volume
    ∷ close_op (some 0)
    ∷ []

nothing_open : (fd : ℕ) → held blank fd ≡ false
nothing_open fd = ground arith

descriptors_lem_example :
    Inv held
      (apply_all ask (b'/' ∷ []) used (fresh blank) no_volume).slots
      (apply_all ask (b'/' ∷ []) used (fresh blank) no_volume)
descriptors_lem_example = descriptors_lem ask held ask-Posix (b'/' ∷ []) used blank nothing_open

-- a copy that is complete, in slot 0
abbrev copied : Files Disk
copied = record (fresh (record blank { next = 4; on = λ fd. true })) {
  slots = set no_files 0 (record {
    used = true;
    stale = false;
    fd = 3;
    generation = 7;
    mode = write_atomic;
    path = b'a' ∷ [];
    tmp = b'b' ∷ [];
  });
}

abbrev card : Volume
card = record { mounted = true; generation = 7 }

copied-usable : usable copied card (some 0) ≡ ok
unfolding usable
copied-usable = refl

close-Closed_example :
    (let r = close ask copied card (some 0) in Closed 3 (b'b' ∷ []) (b'a' ∷ []) [] r.0 r.1.calls)
close-Closed_example = close-Closed ask copied card 0 copied-usable refl
