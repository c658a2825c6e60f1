-- ===== src/Nfc/Poll.antt =====
-- components/stark_nfc/nfc_poll.c: the poll state machine. A UID is the list of its `uid_len` bytes.
pub mod Watch
use stark_one.Base.{
  ℕ, zero, suc, ◌+◌, ◌-◌, ◌%◌, ◌^◌, Bool, true, false, ◌&&◌, ◌||◌, not, List, [], ◌∷◌, ltb, leb,
  ◌==◌, if◌then◌else◌, word,
}
use stark_one.Err.{Err, ok}

-- `nfc_poll_state_t`
pub data PollState : Type 0 where
  idle present recovering : PollState

-- `nfc_poll_event_t`
pub data PollEvent : Type 0 where
  nothing tag left lost back : PollEvent

-- `nfc_poll_t`
pub record Poll : Type 0 where
  pub state : PollState
  pub uid : List ℕ
  pub misses : ℕ
  pub errors : ℕ
  pub recover_at : ℕ

-- NFC_POLL_MISSES
abbrev pub poll_misses : ℕ
poll_misses = 2

-- NFC_POLL_ERRORS
abbrev pub poll_errors : ℕ
poll_errors = 3

-- NFC_POLL_RECOVER_MS
abbrev pub recover_ms : ℕ
recover_ms = 1000

abbrev pub init : Poll
init = record { state = idle; uid = []; misses = 0; errors = 0; recover_at = 0 }

abbrev pub is_ok : Err → Bool
is_ok ok = true
is_ok _ = false

abbrev pub is_present : PollState → Bool
is_present present = true
is_present _ = false

abbrev pub is_recovering : PollState → Bool
is_recovering recovering = true
is_recovering _ = false

-- the lengths and the bytes compared
pub same_uid : List ℕ → List ℕ → Bool
same_uid [] [] = true
same_uid [] (y ∷ ys) = false
same_uid (x ∷ xs) [] = false
same_uid (x ∷ xs) (y ∷ ys) = x == y && same_uid xs ys

-- a poll that failed
pub result_failed : Poll → ℕ → Poll × PollEvent
result_failed p now =
    let errors = (p.errors + 1) % 256 in
    if leb poll_errors errors
    then (record init { state = recovering; recover_at = (now + recover_ms) % word }, lost)
    else (record p { errors = errors }, nothing)

-- a poll that found the tag `uid`
pub result_found : Poll → List ℕ → Poll × PollEvent
unfolding same_uid
result_found p uid =
    if is_present p.state && same_uid p.uid uid
    then (record p { misses = 0; errors = 0 }, nothing)
    else (record p { state = present; uid = uid; misses = 0; errors = 0 }, tag)

-- a poll that found none
pub result_empty : Poll → Poll × PollEvent
result_empty p =
    let misses = (p.misses + 1) % 256 in
    if not (is_present p.state)
    then (record p { errors = 0 }, nothing)
    else if leb poll_misses misses
    then (init, left)
    else (record p { misses = misses; errors = 0 }, nothing)

pub result : Poll → Err → Bool → List ℕ → ℕ → Poll × PollEvent
unfolding result_failed result_found result_empty
result p err found uid now =
    if is_recovering p.state
    then (p, nothing)
    else if not (is_ok err)
    then result_failed p now
    else if found
    then result_found p uid
    else result_empty p

-- `(int32_t)(now_ms - recover_at) >= 0`
pub recover_due : Poll → ℕ → Bool
recover_due p now = is_recovering p.state && ltb ((now + (word - p.recover_at)) % word) (2 ^ 31)

pub recovered : Poll → Err → ℕ → Poll × PollEvent
recovered p err now =
    if not (is_recovering p.state)
    then (p, nothing)
    else if not (is_ok err)
    then (record p { recover_at = (now + recover_ms) % word }, nothing)
    else (init, back)
