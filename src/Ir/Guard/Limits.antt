-- ===== src/Ir/Guard/Limits.antt =====
-- What the transmit gate lets through, and that its plan keeps the frames apart.
use stark_one.Base.{
  ℕ, zero, suc, ◌+◌, ◌*◌, ◌%◌, ◌≤◌, ◌<◌, ◌≡◌, inl, inr, refl, ap, subst, ◌∙◌, true, false, Option,
  none, some, List, [], ◌∷◌, length, All, ltb, ltb→le, Bool-cases, arith, word,
}
use native.Mathlib.Nat.{mul-le-mul_left}
use stark_one.Err.{ok}
use stark_one.Ir.{
  Protocol, Signal, max_durations, unknown, nec, necx, rc5, rc6, sirc12, sirc15, sirc20, count,
}
use stark_one.Ir.Guard.{
  Plan, min_us, max_total_us, max_repeats, carrier_min, carrier_max, to_ms, period_ms, sum_up,
  plan_of, header_ok, check,
}

-- the duration of a frame, in full
abbrev pub total : List ℕ → ℕ
total [] = 0
total (d ∷ ds) = d + total ds

-- `uint16_t`, and long enough
abbrev pub Duration : ℕ → Type 0
Duration d = (d < 65536)

abbrev pub LongEnough : ℕ → Type 0
LongEnough d = (min_us ≤ d)

-- The rules of the gate.
pub record Allowed (s : Signal) (repeats : ℕ) : Type 0 where
  pub some_durations : 0 < length s.timings
  pub few_enough : length s.timings ≤ max_durations
  pub ends_on_mark : length s.timings % 2 ≡ 1
  pub repeats_in : repeats ≤ max_repeats
  pub carrier_low : carrier_min ≤ s.carrier_hz
  pub carrier_high : s.carrier_hz ≤ carrier_max
  pub long_enough : All LongEnough s.timings
  pub total_in : total s.timings * (repeats + 1) ≤ max_total_us

total-bound : (ds : List ℕ) → All Duration ds → total ds ≤ length ds * 65535
total-bound [] h = omega arith
total-bound (d ∷ ds) h = omega (arith, total-bound ds h.1, h.0)

-- The loop sums without overflow.
sum_up-total :
    (signal : ℕ) (ds : List ℕ)
    → signal + total ds < word
    → All LongEnough ds
    → sum_up signal ds ≡ some (signal + total ds)
unfolding sum_up
sum_up-total signal [] h a = ap some (omega arith)
sum_up-total signal (d ∷ ds) h a =
    let f : ltb d min_us ≡ false = ground (arith, a.0) in
    let e : (signal + d) % word ≡ signal + d = omega arith in
    rw f (
      ap (λ k. sum_up k ds) e
      ∙ sum_up-total (signal + d) ds (omega arith) a.1
      ∙ ap some (omega arith))

sum_up-long : (signal : ℕ) (ds : List ℕ) {n : ℕ} → sum_up signal ds ≡ some n → All LongEnough ds
unfolding sum_up
sum_up-long signal [] h = tt
sum_up-long signal (d ∷ ds) h = elim (Bool-cases (ltb d min_us)) [
  | inl t ↦ let e = rw t at h in absurd (ground arith)
  | inr f ↦ (ltb→le d min_us f, sum_up-long ((signal + d) % word) ds (rw f at h))
]

-- A plan for frames of `signal` microseconds: each ends before the next begins, and the whole
-- transmission, in milliseconds, is counted without overflow.
pub record Spaced (signal repeats : ℕ) (p : Plan) : Type 0 where
  pub whole_signal : p.signal_us ≡ signal
  pub apart : signal ≤ p.period_ms * 1000
  pub all_counted : p.period_ms * repeats * 1000 + signal ≤ p.total_ms * 1000
  pub soon_over : p.total_ms ≤ 4303

period_ms-range : (p : Protocol) (us : ℕ) → us ≤ max_total_us → period_ms p us ≤ 1100
unfolding period_ms
period_ms-range nec us h = omega arith
period_ms-range necx us h = omega arith
period_ms-range rc5 us h = omega arith
period_ms-range rc6 us h = omega arith
period_ms-range sirc12 us h = omega arith
period_ms-range sirc15 us h = omega arith
period_ms-range sirc20 us h = omega arith
period_ms-range unknown us h = omega arith
period_ms-range count us h = omega arith

abbrev planned : ℕ → ℕ → ℕ → Plan
planned period repeats signal = record {
  signal_us = signal;
  period_ms = period;
  total_ms = (period * repeats % word + to_ms signal) % word;
}

planned-Spaced :
    (signal repeats period : ℕ)
    → signal ≤ max_total_us
    → repeats ≤ max_repeats
    → to_ms signal ≤ period
    → period ≤ 1100
    → Spaced signal repeats (planned period repeats signal)
planned-Spaced signal zero period s r l h = ground arith
planned-Spaced signal (suc zero) period s r l h = ground arith
planned-Spaced signal (suc (suc zero)) period s r l h = ground arith
planned-Spaced signal (suc (suc (suc zero))) period s r l h = ground arith
planned-Spaced signal (suc (suc (suc (suc repeats)))) period s r l h = absurd (omega arith)

plan_of-planned :
    (p : Protocol) (repeats signal : ℕ)
    → repeats ≤ max_repeats
    → signal * (repeats + 1) ≤ max_total_us
    → (plan : Plan) × (plan_of p repeats (some signal) ≡ (ok, some plan))
      × Spaced signal repeats plan
unfolding plan_of
plan_of-planned p repeats signal r h =
    let one : 1 ≤ repeats + 1 = omega arith in
    let s : signal ≤ max_total_us = omega (arith, mul-le-mul_left signal one) in
    let f : ltb max_total_us (signal * (repeats + 1)) ≡ false = ground arith in
    let i = period_ms-range p signal s in
    elim (Bool-cases (ltb (period_ms p signal) (to_ms signal))) [
      | inl t ↦ (
        _,
        rw (f, t) refl,
        planned-Spaced signal repeats (to_ms signal) s r (omega arith) (omega arith),
      )
      | inr u ↦ (
        _,
        rw (f, u) refl,
        planned-Spaced signal repeats (period_ms p signal) s r (ltb→le _ _ u) i,
      )
    ]

plan_of-in :
    (p : Protocol) (repeats signal : ℕ) (plan : Plan)
    → plan_of p repeats (some signal) ≡ (ok, some plan)
    → signal * (repeats + 1) ≤ max_total_us
unfolding plan_of
plan_of-in p repeats signal plan h = elim (Bool-cases (ltb max_total_us (signal * (repeats + 1)))) [
  | inl t ↦ let e = rw t at h in absurd (ground arith)
  | inr f ↦ ltb→le _ _ f
]

passed :
    (s : Signal) (repeats : ℕ) (o : Option ℕ) (plan : Plan)
    → All Duration s.timings
    → header_ok s repeats ≡ true
    → sum_up 0 s.timings ≡ o
    → plan_of s.frame.protocol repeats o ≡ (ok, some plan)
    → Allowed s repeats
unfolding plan_of
passed s repeats none plan d t e h = absurd (ground arith)
passed s repeats (some n) plan d t e h =
    let a = sum_up-long 0 s.timings e in
    let b = total-bound s.timings d in
    let size : length s.timings ≤ max_durations = ground arith in
    let sum = sum_up-total 0 s.timings (omega arith) a in
    let same : n ≡ 0 + total s.timings = cc in
    record {
      some_durations = ground arith;
      few_enough = size;
      ends_on_mark = ground arith;
      repeats_in = ground arith;
      carrier_low = ground arith;
      carrier_high = ground arith;
      long_enough = a;
      total_in =
          subst (λ (k : ℕ). k * (repeats + 1) ≤ max_total_us) (same ∙ omega arith)
            (plan_of-in s.frame.protocol repeats n plan h);
    }

-- Exactly the transmissions that follow the rules pass the gate, and the plan of one that passes
-- names its true duration and keeps its frames apart; sums and products do not overflow.
pub check_lem :
    (s : Signal) (repeats : ℕ)
    → All Duration s.timings
    → (Allowed s repeats
        → (plan : Plan) × (check (some s) repeats ≡ (ok, some plan))
          × Spaced (total s.timings) repeats plan)
      × ((plan : Plan) → check (some s) repeats ≡ (ok, some plan) → Allowed s repeats)
unfolding check
check_lem s repeats d = (
  (λ a.
      let t : header_ok s repeats ≡ true = ground (arith, a) in
      let b = total-bound s.timings d in
      let e : sum_up 0 s.timings ≡ some (total s.timings) =
        sum_up-total 0 s.timings (omega (arith, a.few_enough)) a.long_enough
        ∙ ap some (omega arith) in
      let (plan, f, g) =
        plan_of-planned s.frame.protocol repeats (total s.timings) a.repeats_in a.total_in in
      (plan, rw (t, e) f, g)),
  λ plan h. elim (Bool-cases (header_ok s repeats)) [
    | inl t ↦ passed s repeats (sum_up 0 s.timings) plan d t refl (rw t at h)
    | inr f ↦ let e = rw f at h in absurd (ground arith)
  ],
)
