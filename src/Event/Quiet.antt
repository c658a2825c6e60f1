-- ===== src/Event/Quiet.antt =====
-- A dispatch whose handlers and neighbours leave the bus alone, in full: what is consumed, what
-- stays queued, and who hears of what.
use stark_one.Base.{
  word, ℕ, zero, suc, ◌+◌, ◌<◌, ◌≡◌, inl, inr, refl, sym, ap, ap₂, subst, ◌∙◌, Bool, true, false,
  List, [], ◌∷◌, ◌++◌, append_assoc, append-nil, take, drop, ltb, lt→ltb, ltb→lt, ltb→le, ◌==◌,
  ==→eq, ==→ne, Bool-cases, if◌then◌else◌, arith,
}
use stark_one.Base.Window.{window}
use stark_one.Event.{
  no_event, Bus, Event, Sub, Delivery, World, Run, perform, take_oldest, oldest, newer, hits,
  deliver, consume, loop, started, finished, dispatch,
}
use stark_one.Event.Publish.{IsValid, contents, take_oldest-IsValid, contents-take_oldest}
use stark_one.Event.Dispatch.{dispatch_runs, idle_stays, started-IsValid}

-- The deliveries of one event, in the order of subscription: to each subscriber whose mask has its bit.
pub heard : Event → List Sub → List Delivery
heard e [] = []
heard e (s ∷ ss) = if hits e s then record { sub = s; event = e } ∷ heard e ss else heard e ss

-- The deliveries of several events, in order.
pub heard_all : List Event → List Sub → List Delivery
heard_all [] ss = []
heard_all (e ∷ es) ss = heard e ss ++ heard_all es ss

-- A log has the latest delivery first.
pub logged : List Delivery → List Delivery → List Delivery
logged [] log = log
logged (d ∷ ds) log = logged ds (d ∷ log)

logged-append : (xs ys log : List Delivery) → logged (xs ++ ys) log ≡ logged ys (logged xs log)
unfolding logged
logged-append [] ys log = refl
logged-append (x ∷ xs) ys log = logged-append xs ys (x ∷ log)

-- Whatever the handlers do, one event goes to every subscriber of the copy whose mask has its bit,
-- in the order of subscription, and to no other.
deliver-log :
    (w : World) (e : Event) (ss : List Sub) (b : Bus) (log : List Delivery)
    → (deliver w e ss (b, log)).1 ≡ logged (heard e ss) log
unfolding deliver heard logged
deliver-log w e [] b log = refl
deliver-log w e (s ∷ ss) b log = elim (Bool-cases (hits e s)) [
  | inl t ↦
      rw (t, deliver)
        (deliver-log w e ss (perform b (w.handler log s e)) (record { sub = s; event = e } ∷ log))
  | inr f ↦ rw (f, deliver) (deliver-log w e ss b log)
]

pub record IsQuiet (w : World) : Type 0 where
  pub handles : (log : List Delivery) (s : Sub) (e : Event) → w.handler log s e ≡ []
  pub waits : (log : List Delivery) → w.elsewhere log ≡ []

module _ (w : World) (q : IsQuiet w) where
  deliver-bus :
      (e : Event) (ss : List Sub) (b : Bus) (log : List Delivery) → (deliver w e ss (b, log)).0 ≡ b
  unfolding deliver perform
  deliver-bus e [] b log = refl
  deliver-bus e (s ∷ ss) b log = elim (Bool-cases (hits e s)) [
    | inl t ↦
        rw (t, deliver)
          (rw (q.handles log s e) (deliver-bus e ss b (record { sub = s; event = e } ∷ log)))
    | inr f ↦ rw (f, deliver) (deliver-bus e ss b log)
  ]

  waits-bus : (b : Bus) (log : List Delivery) → perform b (w.elsewhere log) ≡ b
  unfolding perform
  waits-bus b log = rw (q.waits log)

  -- the run after one more event
  abbrev after_one : Run → Run
  after_one r = record {
    bus = take_oldest r.bus;
    log = logged (heard (oldest r.bus) r.bus.subs) r.log;
    consumed = r.consumed ++ (oldest r.bus ∷ []);
    delivered = r.delivered + 1;
  }

  consume_quiet : (r : Run) → consume w r.bus r ≡ after_one r
  unfolding consume
  consume_quiet r =
      ap₂
        (λ (b : Bus) (log : List Delivery).
          let run : Run = record {
            bus = b;
            log = log;
            consumed = r.consumed ++ (oldest r.bus ∷ []);
            delivered = r.delivered + 1;
          } in
          run)
        (deliver-bus (oldest r.bus) r.bus.subs (take_oldest r.bus) r.log)
        (deliver-log w (oldest r.bus) r.bus.subs (take_oldest r.bus) r.log)

  -- the loop's round, by its test
  abbrev round : ℕ → ℕ → Run → Bus → Bool → Run
  round k start r b t = elim t [
    | true ↦ loop k w start (consume w b r)
    | false ↦ record r { bus = b }
  ]

  loop-round :
      (k start : ℕ) (r : Run)
      → loop (suc k) w start r ≡ round k start r r.bus (ltb (newer r.bus start) r.bus.count)
  unfolding loop
  loop-round k start r =
      ap (λ b. round k start r b (ltb (newer b start) b.count)) (waits-bus r.bus r.log)

  loop_more :
      (k start : ℕ) (r : Run)
      → r.bus.published < word
      → r.bus.published ≡ start
      → 0 < r.bus.count
      → loop (suc k) w start r ≡ loop k w start (after_one r)
  loop_more k start r v p h =
      loop-round k start r
      ∙ ap (round k start r r.bus) (lt→ltb (newer r.bus start) r.bus.count (omega arith))
      ∙ ap (λ r'. loop k w start r') (consume_quiet r)

  loop_stops : (k start : ℕ) (r : Run) → r.bus.count ≡ 0 → loop (suc k) w start r ≡ r
  loop_stops k start r h = loop-round k start r ∙ ground arith

  -- what the loop leaves, by the events queued when it starts
  record Drained (k : ℕ) (r r' : Run) : Type 0 where
    consumed : r'.consumed ≡ r.consumed ++ take k (contents r.bus)
    left : contents r'.bus ≡ drop k (contents r.bus)
    told : r'.log ≡ logged (heard_all (take k (contents r.bus)) r.bus.subs) r.log

  Drained-empty : (k : ℕ) (r : Run) → contents r.bus ≡ [] → Drained (suc k) r r
  unfolding heard_all logged
  Drained-empty k r e = record {
    consumed = rw e (sym (append-nil r.consumed));
    left = e ∙ sym (ap (drop (suc k)) e);
    told = rw e refl;
  }

  Drained-more :
      (k : ℕ) (r r' : Run)
      → contents r.bus ≡ oldest r.bus ∷ contents (take_oldest r.bus)
      → Drained k (after_one r) r'
      → Drained (suc k) r r'
  unfolding heard_all take_oldest
  Drained-more k r r' e d = record {
    consumed =
        d.consumed
        ∙ append_assoc r.consumed (oldest r.bus ∷ []) _
        ∙ ap (λ q. r.consumed ++ take (suc k) q) (sym e);
    left = rw e d.left;
    told =
        d.told
        ∙ sym (
            logged-append (heard (oldest r.bus) r.bus.subs)
              (heard_all (take k (contents (take_oldest r.bus))) r.bus.subs) r.log)
        ∙ ap (λ q. logged (heard_all (take (suc k) q) r.bus.subs) r.log) (sym e);
  }

  loop-Drained :
      (k start : ℕ) (r : Run)
      → IsValid r.bus
      → r.bus.published ≡ start
      → Drained k r (loop k w start r)
  unfolding loop heard_all logged
  loop-Drained zero start r v p = record {
    consumed = sym (append-nil r.consumed);
    left = refl;
    told = refl;
  }
  loop-Drained (suc k) start r v p = elim (Bool-cases (ltb 0 r.bus.count)) [
    | inl t ↦
        let more : 0 < r.bus.count = ltb→lt 0 r.bus.count t in
        subst (λ r'. Drained (suc k) r r') (sym (loop_more k start r v.published_in p more))
          (Drained-more k r _ (contents-take_oldest r.bus v more)
            (loop-Drained k start (after_one r) (take_oldest-IsValid r.bus v more) p))
    | inr f ↦
        let none_left : r.bus.count ≡ 0 = omega (arith, ltb→le 0 r.bus.count f) in
        subst (λ r'. Drained (suc k) r r') (sym (loop_stops k start r none_left))
          (Drained-empty k r
            (ap (λ n. window no_event r.bus.capacity r.bus.storage r.bus.head 0 n) none_left))
  ]

-- If neither handlers nor other tasks touch the bus meanwhile: a dispatch on a valid, idle bus
-- consumes exactly the first `max_events` queued events, leaves exactly the others queued, and each
-- consumed event goes, in order, to every subscriber whose mask has its bit, and to no other.
pub dispatch_quiet :
    (w : World) (b : Bus) (max_events : ℕ)
    → IsQuiet w
    → IsValid b
    → b.dispatching ≡ false
    → let r = dispatch w b max_events in
      (r.consumed ≡ take max_events (contents b))
      × (contents r.bus ≡ drop max_events (contents b))
      × (r.log ≡ logged (heard_all (take max_events (contents b)) b.subs) [])
unfolding finished started heard_all logged
dispatch_quiet w b n q v idle = elim (Bool-cases (n == 0)) [
  | inl z ↦ rw (idle_stays w b n (inl (==→eq n 0 z))) (
    ap (λ k. take k (contents b)) (sym (==→eq n 0 z)),
    ap (λ k. drop k (contents b)) (sym (==→eq n 0 z)),
    ap (λ k. logged (heard_all (take k (contents b)) b.subs) []) (sym (==→eq n 0 z)),
  )
  | inr z ↦
      let d = loop-Drained w q n b.published (started b) (started-IsValid b v) refl in
      rw (dispatch_runs w b n (==→ne n 0 z) idle) (
        d.consumed,
        ap (λ c. contents (record c { dispatching = false }))
              (waits-bus w q (loop n w b.published (started b)).bus
                (loop n w b.published (started b)).log)
            ∙ d.left,
        d.told,
      )
]
