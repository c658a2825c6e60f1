-- ===== src/Storage/Files/Trace.antt =====
-- Which descriptors are open after some calls, and what the table of files has to do with them.
use stark_one.Base.{ℕ, ◌≡◌, Bool, true, false, ◌&&◌, ◌||◌, not, List, [], ◌∷◌, get_or, ◌==◌}
use stark_one.Storage.Files.{
  Mode, Handle, Call, open_call, read_call, write_call, fsync_call, close_call, rename_call,
  unlink_call, Answer, done, failed, Files, no_handle,
}

-- Whether descriptor `fd` is open after a call, if before it was so by `b`.
unfoldable pub touch : Call → Answer → ℕ → Bool → Bool
touch (open_call path mode) (done n bytes) fd b = n == fd || b
touch (open_call path mode) (failed e) fd b = b
touch (close_call n) a fd b = not (n == fd) && b
touch (read_call n len) a fd b = b
touch (write_call n bytes) a fd b = b
touch (fsync_call n) a fd b = b
touch (rename_call from to) a fd b = b
touch (unlink_call path) a fd b = b

unfoldable pub is_open : List (Call × Answer) → ℕ → Bool
unfolding touch
is_open [] fd = false
is_open ((c, a) ∷ cs) fd = touch c a fd (is_open cs fd)

-- A call on a descriptor finds it open.
unfoldable pub Allowed : (ℕ → Bool) → Call → Type 0
Allowed on (read_call n len) = (on n ≡ true)
Allowed on (write_call n bytes) = (on n ≡ true)
Allowed on (fsync_call n) = (on n ≡ true)
Allowed on (close_call n) = (on n ≡ true)
Allowed on (open_call path mode) = Unit {0}
Allowed on (rename_call from to) = Unit {0}
Allowed on (unlink_call path) = Unit {0}

-- Each call of a sequence, the latest first, was allowed when it was made.
unfoldable pub Proper : List (Call × Answer) → Type 0
Proper [] = Unit {0}
Proper ((c, a) ∷ cs) = Allowed (is_open cs) c × Proper cs

-- What is relied on: the file system opens no descriptor that is open, and opens and closes no other.
pub record Posix {W : Type 0} (ask : W → Call → Answer × W) (held : W → ℕ → Bool) : Type 0 where
  pub opens :
      (w : W) (path : List ℕ) (mode : Mode) (n : ℕ) (bytes : List ℕ)
      → (ask w (open_call path mode)).0 ≡ done n bytes
      → held w n ≡ false
  pub tracks :
      (w : W) (c : Call) (fd : ℕ) → held (ask w c).1 fd ≡ touch c (ask w c).0 fd (held w fd)

abbrev pub at : List Handle → ℕ → Handle
at hs i = get_or hs i no_handle

-- a handle whose descriptor is open
abbrev pub live : Handle → Bool
live h = h.used && not h.stale

-- The open descriptors are those of the live handles, one each, and every call was proper.
pub record Inv {W : Type 0} (held : W → ℕ → Bool) (hs : List Handle) (s : Files W) : Type 0 where
  pub proper : Proper s.calls
  pub agrees : (fd : ℕ) → held s.world fd ≡ is_open s.calls fd
  pub live_open : (i : ℕ) → live (at hs i) ≡ true → is_open s.calls (at hs i).fd ≡ true
  pub distinct :
      (i j : ℕ)
      → live (at hs i) ≡ true
      → live (at hs j) ≡ true
      → (at hs i).fd ≡ (at hs j).fd
      → i ≡ j
  pub no_leak :
      (fd : ℕ) → is_open s.calls fd ≡ true → (i : ℕ) × (live (at hs i) ≡ true) × ((at hs i).fd ≡ fd)
