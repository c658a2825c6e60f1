-- ===== src/Input/Samples.antt =====
-- A key over a sequence of samples.
use stark_one.Base.{ℕ, ◌≡◌, refl, ◌∙◌, Bool, false, some, List, [], ◌∷◌, ◌++◌}
use stark_one.Input.Key.{Timing, KeyState, KeyAction, released, update_key}
use stark_one.Input.Key.Grammar.{Phase, up, run, Fits, Goes, run-nil, run-append, update_key-Goes}

-- What one call of `input_core_update` brings to a key.
pub record Sample : Type 0 where
  pub raw : Bool
  pub now : ℕ
  pub quiet : Bool
  pub t : Timing

-- The key after all samples, and all its actions.
pub track : ℕ → KeyState → List Sample → KeyState × List (KeyAction × ℕ)
track k st [] = (st, [])
track k st (x ∷ xs) =
    let (st', acts) = update_key k st x.raw x.now x.t x.quiet in
    let (st'', more) = track k st' xs in (st'', acts ++ more)

track-Goes :
    (p : Phase) (k : ℕ) (st : KeyState) (xs : List Sample)
    → Fits p st
    → Goes p (track k st xs).1 (track k st xs).0
unfolding track
track-Goes p k st [] h = (p, run-nil p, h)
track-Goes p k st (x ∷ xs) h =
    let (q, e, f) = update_key-Goes p k st x.raw x.now x.t x.quiet h in
    let (r, g, i) = track-Goes q k (update_key k st x.raw x.now x.t x.quiet).0 xs f in
    (r, run-append p q _ _ e ∙ g, i)

-- However a key is sampled, whatever the timing and the chord: its actions are a run of the
-- automaton from a released key. So PRESS and RELEASE alternate, LONG comes at most once in a press,
-- REPEAT and LONG only within one, and SHORT only right after a RELEASE without LONG.
pub track_accepted :
    (k : ℕ) (xs : List Sample)
    → (q : Phase) × (run (up false) (track k released xs).1 ≡ some q)
      × Fits q (track k released xs).0
track_accepted k xs = track-Goes (up false) k released xs refl
