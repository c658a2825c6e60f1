-- ===== src/Nfc/Poll/Watch.antt =====
-- What the events of the poll state machine tell.
use stark_one.Base.{
  ℕ, ◌<◌, ◌≡◌, refl, ap, ◌∙◌, inl, inr, Bool-cases, Bool, false, Option, none, some, List, [], ◌∷◌,
  arith,
}
use stark_one.Err.{Err}
use stark_one.Nfc.Poll.{
  Poll, PollState, PollEvent, idle, present, recovering, nothing, tag, left, lost, back,
  poll_misses, poll_errors, init, is_ok, is_recovering, result_failed, result_found, result_empty,
  result, recovered,
}

-- The state that an event leads to, `none` where the event makes no sense.
pub follow : PollState → PollEvent → Option PollState
follow s nothing = some s
follow idle tag = some present
follow present tag = some present
follow present left = some idle
follow idle lost = some recovering
follow present lost = some recovering
follow recovering back = some idle
follow _ _ = none

-- One call on the machine.
pub data Call : Type 0 where
  polled : Err → Bool → List ℕ → ℕ → Call
  redetected : Err → ℕ → Call

pub call : Poll → Call → Poll × PollEvent
call p (polled err found uid now) = result p err found uid now
call p (redetected err now) = recovered p err now

pub watch : Poll → List Call → Poll × List PollEvent
unfolding call
watch p [] = (p, [])
watch p (c ∷ cs) = let (q, e) = call p c in let (r, es) = watch q cs in (r, e ∷ es)

pub record IsValid (p : Poll) : Type 0 where
  pub misses_in : p.misses < poll_misses
  pub errors_in : p.errors < poll_errors

abbrev Follows : Poll → Poll × PollEvent → Type 0
Follows p x = (follow p.state x.1 ≡ some x.0.state) × IsValid x.0

result_failed-Follows :
    (p : Poll) (now : ℕ)
    → IsValid p
    → is_recovering p.state ≡ false
    → Follows p (result_failed p now)
unfolding result_failed follow
result_failed-Follows p now v h = ground arith

result_found-Follows :
    (p : Poll) (uid : List ℕ)
    → IsValid p
    → is_recovering p.state ≡ false
    → Follows p (result_found p uid)
unfolding result_found follow
result_found-Follows p uid v h = ground arith

result_empty-Follows :
    (p : Poll) → IsValid p → is_recovering p.state ≡ false → Follows p (result_empty p)
unfolding result_empty follow
result_empty-Follows p v h = ground arith

kept-Follows : (p : Poll) → IsValid p → Follows p (p, nothing)
unfolding follow
kept-Follows p v = (refl, v)

result-Follows :
    (p : Poll) (err : Err) (found : Bool) (uid : List ℕ) (now : ℕ)
    → IsValid p
    → Follows p (result p err found uid now)
unfolding result
result-Follows p err found uid now v = elim (Bool-cases (is_recovering p.state)) [
  | inl e ↦ let k = kept-Follows p v in simp e k
  | inr e ↦ elim (Bool-cases (is_ok err)) [
    | inr f ↦ let k = result_failed-Follows p now v e in simp (e, f) k
    | inl f ↦ elim (Bool-cases found) [
      | inl g ↦ let k = result_found-Follows p uid v e in simp (e, f, g) k
      | inr g ↦ let k = result_empty-Follows p v e in simp (e, f, g) k
    ]
  ]
]

recovered-Follows : (p : Poll) (err : Err) (now : ℕ) → IsValid p → Follows p (recovered p err now)
unfolding recovered follow
recovered-Follows p err now v = ground arith

-- The states that a list of events leads through.
pub follow_all : PollState → List PollEvent → Option PollState
unfolding follow
follow_all s [] = some s
follow_all s (e ∷ es) = elim (follow s e) [ none ↦ none | some t ↦ follow_all t es ]

call-Follows : (p : Poll) (c : Call) → IsValid p → Follows p (call p c)
unfolding call
call-Follows p (polled err found uid now) v = result-Follows p err found uid now v
call-Follows p (redetected err now) v = recovered-Follows p err now v

watch-follow_all :
    (p : Poll) (cs : List Call)
    → IsValid p
    → (follow_all p.state (watch p cs).1 ≡ some (watch p cs).0.state) × IsValid (watch p cs).0
unfolding watch follow_all
watch-follow_all p [] v = (refl, v)
watch-follow_all p (c ∷ cs) v =
    let (e, w) = call-Follows p c v in
    let (f, u) = watch-follow_all (call p c).0 cs w in
    (
      ap
            (λ (o : Option PollState). elim o [
              | none ↦ none
              | some t ↦ follow_all t (watch (call p c).0 cs).1
            ])
            e
          ∙ f,
      u,
    )

-- Whatever the polls and the attempts at recovery bring, from `init` on: the events make sense one
-- after the other and tell the state. So LEFT follows a TAG, BACK follows LOST, and nothing comes
-- between LOST and BACK; the counters stay below their limits.
pub watch_told :
    (cs : List Call)
    → (follow_all idle (watch init cs).1 ≡ some (watch init cs).0.state) × IsValid (watch init cs).0
watch_told cs =
    watch-follow_all init cs (record { misses_in = omega arith; errors_in = omega arith })
