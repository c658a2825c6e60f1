-- ===== src/Input/Key.antt =====
-- components/stark_input/input_core.c, one key. The `emit` calls are a list of actions with their
-- repeat counts, in order.
pub mod Grammar
pub mod Debounce
pub mod Count
mod Tests
use stark_one.Base.{
  ℕ, zero, suc, ◌+◌, ◌-◌, ◌*◌, ◌/◌, ◌%◌, ◌^◌, Bool, true, false, ◌&&◌, ◌||◌, not, List, [], ◌∷◌,
  ◌++◌, ltb, leb, if◌then◌else◌, word,
}

-- `input_core_timing_t`
pub record Timing : Type 0 where
  pub debounce_ms : ℕ
  pub long_ms : ℕ
  pub repeat_delay_ms : ℕ
  pub repeat_interval_ms : ℕ

-- `stark_key_action_t`
pub data KeyAction : Type 0 where
  press release repeat_action long short chord_action : KeyAction

-- `input_key_state_t`
pub record KeyState : Type 0 where
  pub raw : Bool
  pub pressed : Bool
  pub raw_since : ℕ
  pub pressed_at : ℕ
  pub next_repeat : ℕ
  pub repeats : ℕ
  pub long_sent : Bool

-- all zero
abbrev pub released : KeyState
released = record {
  raw = false;
  pressed = false;
  raw_since = 0;
  pressed_at = 0;
  next_repeat = 0;
  repeats = 0;
  long_sent = false;
}

-- `now - since` in 32 bits
abbrev pub elapsed : ℕ → ℕ → ℕ
elapsed now since = (now + (word - since)) % word

-- UP, DOWN, LEFT and RIGHT
abbrev pub key_repeats : ℕ → Bool
key_repeats k = ltb k 4

abbrev pub same : Bool → Bool → Bool
same true b = b
same false b = not b

-- the sample taken
pub sampled : KeyState → Bool → ℕ → KeyState
sampled st raw now = if same raw st.raw then st else record st { raw = raw; raw_since = now }

-- `emit_long` and `emit_repeat`: the new state; the latter's action counts `repeats`.
abbrev pub after_long : KeyState → KeyState
after_long st = record st { long_sent = true }

pub after_repeat : KeyState → ℕ → ℕ → KeyState
after_repeat st held interval =
    let repeats = if ltb st.repeats 255 then st.repeats + 1 else st.repeats in
    let next = (st.next_repeat + interval) % word in
    record st {
      repeats = repeats;
      next_repeat = if leb next held then (held + interval) % word else next;
    }

-- a key that was not pressed
pub update_released : KeyState → ℕ → Timing → Bool → KeyState × List (KeyAction × ℕ)
update_released st now t stable =
    if st.raw && stable
    then (
      record st {
        pressed = true;
        pressed_at = now;
        next_repeat = t.repeat_delay_ms;
        repeats = 0;
        long_sent = false;
      },
      (press, 0) ∷ [],
    )
    else (st, [])

-- a key that was pressed and is now released
pub update_release : KeyState → ℕ → Timing → Bool → KeyState × List (KeyAction × ℕ)
update_release st held t quiet =
    let due = not quiet && not st.long_sent && leb t.long_ms held in
    let sent = due || st.long_sent in
    (
      record st { long_sent = sent; pressed = false },
      (if due then (long, 0) ∷ [] else [])
          ++ ((release, 0) ∷ (if not quiet && not sent then (short, 0) ∷ [] else [])),
    )

-- a key that is still held
pub update_held : ℕ → KeyState → ℕ → Timing → Bool → KeyState × List (KeyAction × ℕ)
unfolding after_repeat
update_held k st held t quiet =
    let long_due = not quiet && not st.long_sent && leb t.long_ms held in
    let repeat_due = key_repeats k && leb st.next_repeat held in
    let repeated = after_repeat st held t.repeat_interval_ms in
    if long_due && repeat_due
    then (
      after_long repeated,
      if ltb st.next_repeat t.long_ms
          then (repeat_action, repeated.repeats) ∷ (long, 0) ∷ []
          else (long, 0) ∷ (repeat_action, repeated.repeats) ∷ [],
    )
    else if long_due
    then (after_long st, (long, 0) ∷ [])
    else if repeat_due
    then (repeated, (repeat_action, repeated.repeats) ∷ [])
    else (st, [])

-- what follows the sample
pub update_sampled : ℕ → KeyState → ℕ → Timing → Bool → KeyState × List (KeyAction × ℕ)
update_sampled k st now t quiet =
    let stable = leb t.debounce_ms (elapsed now st.raw_since) in
    if not st.pressed
    then update_released st now t stable
    else if not st.raw && stable
    then update_release st (elapsed now st.pressed_at) t quiet
    else update_held k st (elapsed now st.pressed_at) t quiet

pub update_key : ℕ → KeyState → Bool → ℕ → Timing → Bool → KeyState × List (KeyAction × ℕ)
update_key k st raw now t quiet = update_sampled k (sampled st raw now) now t quiet
