-- ===== src/Event/Dispatch.antt =====
-- `stark_event_core_dispatch`: what a call delivers, whatever handlers and other tasks do meanwhile.
use stark_one.Base.{
  word, ℕ, zero, suc, ◌+◌, ◌-◌, length-InOrder, ◌*◌, ◌%◌, ◌≤◌, ◌<◌, ◌≡◌, ◌≢◌, ◌⊎◌, inl, inr, refl,
  sym, ap, subst, ◌∙◌, true, false, List, [], ◌∷◌, ◌++◌, length, length-append, append_assoc,
  append-nil, ltb, ltb→lt, ◌==◌, ne→==, ==→eq, ==→ne, Bool-cases, arith, InOrder, InOrder-refl,
  InOrder-trans, InOrder-prefix,
}
use stark_one.Event.{
  Bus, Event, Sub, Delivery, World, Run, perform, take_oldest, oldest, newer, consume, loop,
  started, finished, dispatch,
}
use stark_one.Event.Publish.{
  IsValid, contents, length-contents, take_oldest-IsValid, contents-take_oldest,
}
use stark_one.Event.Ages.{Ages, perform-Later, deliver-Later}

-- No handler run, and no gap between two critical sections, makes more than `limit` calls.
pub record Bounded (w : World) (limit : ℕ) : Type 0 where
  pub handled : (log : List Delivery) (s : Sub) (e : Event) → length (w.handler log s e) ≤ limit
  pub meanwhile : (log : List Delivery) → length (w.elsewhere log) ≤ limit

budget : (n limit : ℕ) → n ≤ 8 → n * limit ≤ 8 * limit
budget n limit h = grind arith

one_round : (left limit : ℕ) → 0 < left → left * (9 * limit) ≡ (left - 1) * (9 * limit) + 9 * limit
one_round zero limit h = absurd (omega arith)
one_round (suc left) limit h =
    omega (arith, ap (λ (n : ℕ). n * (9 * limit)) {x = suc left - 1} {y = left} (omega arith))

newer_lem :
    (b : Bus) (start made : ℕ)
    → start < word
    → made < word
    → b.published ≡ (start + made) % word
    → newer b start ≡ made
newer_lem b start made s m e = omega arith

-- With more events queued than were published since the start, the oldest is left over from it.
oldest_is_old :
    (b : Bus) (old new : List Event) (made : ℕ)
    → IsValid b
    → contents b ≡ old ++ new
    → length new ≤ made
    → made < b.count
    → (rest : List Event) × (old ≡ oldest b ∷ rest) × (contents (take_oldest b) ≡ rest ++ new)
oldest_is_old b [] new made v s f h = absurd (omega (arith, length-contents b, ap length s))
oldest_is_old b (x ∷ rest) new made v s f h =
    let t = contents-take_oldest b v (omega arith) in (rest, cc, cc)

-- Taking the oldest event moves it from the events left over to those consumed.
take_oldest-Ages :
    (orig past : List Event) (start made : ℕ) (b : Bus)
    → Ages orig past start made b
    → made < b.count
    → Ages orig (past ++ (oldest b ∷ [])) start made (take_oldest b)
unfolding take_oldest
take_oldest-Ages orig past start made b g h =
    let (rest, e, s) = oldest_is_old b g.old g.new made g.valid g.split g.few h in
    record {
      old = rest;
      new = g.new;
      split = s;
      few = g.few;
      all = ground (arith, g.all);
      origin =
          subst (λ l. InOrder l orig)
            (ap (λ l. past ++ l) e ∙ sym (append_assoc past (oldest b ∷ []) rest)) g.origin;
      counted = g.counted;
      valid = take_oldest-IsValid b g.valid (omega arith);
      busy = g.busy;
    }

module _ (w : World) (limit : ℕ) (bound : Bounded w limit) (orig : List Event) (start : ℕ)
    (small : start < word) where
  -- A run of at most `max_events` rounds with `rounds` of them to go.
  record Going (rounds max_events : ℕ) (r : Run) : Type 0 where
    made : ℕ
    ages : Ages orig r.consumed start made r.bus
    counted : r.delivered ≡ length r.consumed
    within : r.delivered + rounds ≤ max_events

  -- each event consumed is one of those queued at first, so one of `left` more is left to consume
  one_left :
      (r : Run) (made left : ℕ) (b : Bus)
      → (g : Ages orig r.consumed start made b) → made < b.count
      → length r.consumed + left ≡ length orig
      → 0 < left
  one_left r made left b g more t =
      let g' = take_oldest-Ages orig r.consumed start made b g more in
      omega (
        arith,
        t,
        length-InOrder g'.origin,
        length-append (r.consumed ++ (oldest b ∷ [])) g'.old,
        length-append r.consumed (oldest b ∷ []),
      )

  consume-Going :
      (k left max_events : ℕ) (b : Bus) (r : Run) (made : ℕ)
      → made + 8 * limit + left * (9 * limit) + limit < word
      → Ages orig r.consumed start made b
      → made < b.count
      → r.delivered ≡ length r.consumed
      → r.delivered + suc k ≤ max_events
      → (g : Going k max_events (consume w b r)) × (g.made + left * (9 * limit) + limit < word)
        × (length (consume w b r).consumed ≡ length r.consumed + 1)
  unfolding consume
  consume-Going k left n b r made h g more c q =
      let (extra, l, g') =
        deliver-Later orig (r.consumed ++ (oldest b ∷ [])) start w limit bound.handled (oldest b)
          b.subs (take_oldest b, r.log) made
          (take_oldest-Ages orig r.consumed start made b g more) in
      (
        record {
          made = made + extra;
          ages = g';
          counted = omega (arith, length-append r.consumed (oldest b ∷ []));
          within = omega arith;
        },
        omega (arith, budget (length b.subs) limit g.valid.subs_in),
        length-append r.consumed (oldest b ∷ []),
      )

  loop-Going :
      (k left max_events : ℕ) (r : Run)
      → (g : Going k max_events r) → length r.consumed + left ≡ length orig
      → g.made + left * (9 * limit) + limit < word
      → Going 0 max_events (loop k w start r)
  unfolding loop
  loop-Going zero left n r g t room = g
  loop-Going (suc k) left n r g t room =
      let b = perform r.bus (w.elsewhere r.log) in
      let (extra, l, g') =
        perform-Later orig r.consumed start (w.elsewhere r.log) r.bus g.made g.ages in
      elim (Bool-cases (ltb (newer b start) b.count)) [
        | inl u ↦
            let e =
              newer_lem b start (g.made + extra) small (omega (arith, bound.meanwhile r.log))
                g'.counted in
            let more : g.made + extra < b.count = omega (arith, ltb→lt _ _ u, e) in
            let pos = one_left r (g.made + extra) left b g' more t in
            let (g'', room', size) =
              consume-Going k (left - 1) n b r (g.made + extra)
                (omega (arith, bound.meanwhile r.log, one_round left limit pos)) g' more g.counted
                g.within in
            rw (u, loop)
              (loop-Going k (left - 1) n (consume w b r) g'' (omega (arith, size, pos, t)) room')
        | inr f ↦
            rw (f, loop)
              (record {
                made = g.made + extra;
                ages = g';
                counted = g.counted;
                within = omega (arith, g.within);
              })
      ]

pub idle_stays :
    (w : World) (b : Bus) (max_events : ℕ)
    → (max_events ≡ 0) ⊎ (b.dispatching ≡ true)
    → dispatch w b max_events ≡ record { bus = b; log = []; consumed = []; delivered = 0 }
unfolding dispatch
idle_stays w b n h = ground arith

pub dispatch_runs :
    (w : World) (b : Bus) (max_events : ℕ)
    → max_events ≢ 0
    → b.dispatching ≡ false
    → dispatch w b max_events ≡ finished w (loop max_events w b.published (started b))
unfolding dispatch
dispatch_runs w b n h f = rw (ne→== n 0 h, f)

pub started-IsValid : (b : Bus) → IsValid b → IsValid (started b).bus
unfolding started
started-IsValid b v = ground (arith, v)

started-Ages : (b : Bus) → IsValid b → Ages (contents b) [] b.published 0 (started b).bus
unfolding started
started-Ages b v = record {
  old = contents b;
  new = [];
  split = sym (append-nil (contents b));
  few = omega arith;
  all = inr refl;
  origin = InOrder-refl (contents b);
  counted = omega arith;
  valid = ground (arith, v);
  busy = refl;
}

finished-IsValid :
    (w : World) (orig : List Event) (start made : ℕ) (r : Run)
    → Ages orig r.consumed start made r.bus
    → IsValid (finished w r).bus × ((finished w r).bus.dispatching ≡ false)
unfolding finished
finished-IsValid w orig start made r g =
    let (extra, l, g') = perform-Later orig r.consumed start (w.elsewhere r.log) r.bus made g in
    (ground (arith, g'.valid), refl)

-- However handlers and other tasks publish and subscribe meanwhile, when no handler run and no gap
-- between two critical sections makes more than `limit` calls, and nine times as many for each event
-- queued at first, and `limit` more, are fewer than 2^32 (so that the publish counter cannot pass its
-- start again): a dispatch on a valid, idle bus, with any `max_events`, consumes only events that were
-- queued when it began, in their order, counts them, and stops at `max_events`; it leaves the bus valid
-- and idle.
pub dispatch_delivers :
    (w : World) (limit : ℕ) (b : Bus) (max_events : ℕ)
    → Bounded w limit
    → b.count * (9 * limit) + limit < word
    → IsValid b
    → b.dispatching ≡ false
    → let r = dispatch w b max_events in
      InOrder r.consumed (contents b)
      × (r.delivered ≡ length r.consumed)
      × (r.delivered ≤ max_events)
      × IsValid r.bus
      × (r.bus.dispatching ≡ false)
unfolding finished started
dispatch_delivers w limit b n bound room v idle = elim (Bool-cases (n == 0)) [
  | inl z ↦
      rw (idle_stays w b n (inl (==→eq n 0 z)))
        (InOrder-prefix [] (contents b), refl, omega arith, v, idle)
  | inr z ↦
      let g =
        loop-Going w limit bound (contents b) b.published v.published_in n b.count n (started b)
          (record { made = 0; ages = started-Ages b v; counted = refl; within = omega arith })
          (omega (arith, length-contents b)) (omega arith) in
      let r = loop n w b.published (started b) in
      let (valid, quiet) = finished-IsValid w (contents b) b.published g.made r g.ages in
      rw (dispatch_runs w b n (==→ne n 0 z) idle) (
        InOrder-trans g.ages.origin (InOrder-prefix r.consumed g.ages.old),
        g.counted,
        omega (arith, g.within),
        valid,
        quiet,
      )
]
