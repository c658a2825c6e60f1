-- ===== src/Input.antt =====
-- components/stark_input/input_core.c: debounce, long press, repeat and the OK + BACK chord.
pub mod Key
pub mod Samples
pub mod Output
mod Tests
use stark_one.Base.{
  ℕ, zero, suc, ◌+◌, ◌-◌, ◌*◌, ◌/◌, ◌%◌, ◌^◌, bit_and, Bool, true, false, ◌&&◌, ◌||◌, not, Option,
  none, some, List, [], ◌∷◌, ◌++◌, length, replicate, get_or, ltb, leb, ◌==◌, ◌!=◌, if◌then◌else◌,
  word,
}
use stark_one.Err.{Err, ok, invalid_arg}
use stark_one.Input.Key.{Timing, KeyState, KeyAction, chord_action, released, update_key}

-- `input_action_t`
pub record Action : Type 0 where
  pub key : ℕ
  pub action : KeyAction
  pub repeat : ℕ

-- `input_core_t`
pub record Core : Type 0 where
  pub keys : List KeyState
  pub t : Timing
  pub chord : Bool

-- `sink_t`; `out` has `n` elements.
pub record Sink : Type 0 where
  pub max : ℕ
  pub out : List Action

-- STARK_KEY_COUNT
abbrev pub key_count : ℕ
key_count = 6

-- STARK_KEY_OK
abbrev pub key_ok : ℕ
key_ok = 4

-- STARK_KEY_BACK
abbrev pub key_back : ℕ
key_back = 5

-- INPUT_REPEAT_MIN_MS
abbrev pub repeat_min_ms : ℕ
repeat_min_ms = 40

-- the timing that a NULL stands for
abbrev pub default_timing : Timing
default_timing = record {
  debounce_ms = 20;
  long_ms = 500;
  repeat_delay_ms = 400;
  repeat_interval_ms = 120;
}

pub timing_valid : Timing → Bool
timing_valid t =
    leb repeat_min_ms t.repeat_interval_ms
    && leb t.debounce_ms t.repeat_delay_ms
    && ltb t.debounce_ms t.long_ms

pub set_timing : Core → Option Timing → Err × Core
unfolding timing_valid
set_timing c none = (invalid_arg, c)
set_timing c (some t) = if timing_valid t then (ok, record c { t = t }) else (invalid_arg, c)

-- Where the timing is refused, `*c` is left alone.
pub init : Option Timing → Err × Option Core
unfolding timing_valid
init none =
    (ok, some (record { keys = replicate key_count released; t = default_timing; chord = false }))
init (some t) =
    if timing_valid t
    then (ok, some (record { keys = replicate key_count released; t = t; chord = false }))
    else (invalid_arg, none)

pub emit : Sink → ℕ → KeyAction × ℕ → Sink
emit s k (a, n) =
    if ltb (length s.out) s.max
    then record s { out = s.out ++ (record { key = k; action = a; repeat = n } ∷ []) }
    else s

-- the `emit` calls of one key, in their order
pub emit_all : Sink → ℕ → List (KeyAction × ℕ) → Sink
unfolding emit
emit_all s k [] = s
emit_all s k (a ∷ acts) = emit_all (emit s k a) k acts

abbrev pub quiet : Bool → ℕ → Bool
quiet chord k = chord && (k == key_ok || k == key_back)

-- The loop over the keys, from the `k`-th on.
pub update_keys : Sink → ℕ → List KeyState → ℕ → ℕ → Timing → Bool → Sink × List KeyState
unfolding emit_all
update_keys s k [] raw_bitmap now_ms t chord = (s, [])
update_keys s k (st ∷ sts) raw_bitmap now_ms t chord =
    let (st', acts) =
      update_key k st (bit_and (raw_bitmap / 2 ^ k) 1 != 0) now_ms t (quiet chord k) in
    let (s', sts') = update_keys (emit_all s k acts) (k + 1) sts raw_bitmap now_ms t chord in
    (s', st' ∷ sts')

abbrev pub is_pressed : List KeyState → ℕ → Bool
is_pressed keys k = (get_or keys k released).pressed

-- The chord, after the keys.
pub update_chord : Sink → Core → Sink × Core
unfolding emit
update_chord s c =
    let ok = is_pressed c.keys key_ok in
    let back = is_pressed c.keys key_back in
    if not c.chord && (ok && back)
    then (emit s key_ok (chord_action, 0), record c { chord = true })
    else if c.chord && (not ok && not back)
    then (s, record c { chord = false })
    else (s, c)

-- A NULL `out` is a `max_out` of 0; the actions are what is written to `out`.
pub update : Core → ℕ → ℕ → ℕ → Core × List Action
update c raw_bitmap now_ms max_out =
    let (s, keys) =
      update_keys (record { max = max_out; out = [] }) 0 c.keys raw_bitmap now_ms c.t c.chord in
    let (s', c') = update_chord s (record c { keys = keys }) in (c', s'.out)
