-- ===== src/Event/Ages.antt =====
-- Which of the queued events were there when a dispatch began, and how the calls that handlers and
-- other tasks make meanwhile age them.
use stark_one.Base.{
  word, ℕ, suc, ◌+◌, ◌*◌, ◌%◌, ◌≤◌, ◌≡◌, ◌⊎◌, inl, inr, refl, ap, subst, ◌∙◌, true, Option, none,
  some, List, [], ◌∷◌, ◌++◌, length, length-append, append_assoc, tail, ltb, ◌==◌, Bool-cases,
  arith, InOrder, InOrder-trans, InOrder-without,
}
use stark_one.Event.{
  Bus, Event, Sub, Call, publishes, subscribes, Delivery, World, type_valid, publish, subscribe,
  perform, hits, call_handler, deliver,
}
use stark_one.Event.Queue
use stark_one.Event.Publish.{IsValid, contents, publish_refines}

-- After `made` publishes since `start`, with the events `past` consumed: the ring holds `old`, left
-- over from the events `orig` of the start, before `new`, published since.
pub record Ages (orig past : List Event) (start made : ℕ) (b : Bus) : Type 0 where
  pub old : List Event
  pub new : List Event
  pub split : contents b ≡ old ++ new
  pub few : length new ≤ made
  pub all : (old ≡ []) ⊎ (length new ≡ made)
  pub origin : InOrder (past ++ old) orig
  pub counted : b.published ≡ (start + made) % word
  pub valid : IsValid b
  pub busy : b.dispatching ≡ true

module _ (orig past : List Event) (start : ℕ) where
  dispatching-publish : (b : Bus) (e : Option Event) → (publish b e).1.dispatching ≡ b.dispatching
  unfolding publish
  dispatching-publish b none = refl
  dispatching-publish b (some e) = ground arith

  -- A queue's events by their age: those of `orig` that are left, and `made` newer ones less some.
  Split : List Event → ℕ → Type 0
  Split q made =
      (old : List Event) × (new : List Event) × (q ≡ old ++ new)
      × (length new ≤ made)
      × ((old ≡ []) ⊎ (length new ≡ made))
      × InOrder (past ++ old) orig

  Split-append :
      (q : List Event) (made : ℕ) (e : Event) → Split q made → Split (q ++ (e ∷ [])) (made + 1)
  unfolding Split
  Split-append q made e (old, new, s, f, a, o) = (
    old,
    new ++ (e ∷ []),
    ap (λ l. l ++ (e ∷ [])) s ∙ append_assoc old new (e ∷ []),
    omega (arith, length-append new (e ∷ [])),
    ground (arith, length-append new (e ∷ [])),
    o,
  )

  -- the same with the oldest event dropped
  Split-tail : (q : List Event) (made : ℕ) → Split q made → Split (tail q) made
  unfolding Split
  Split-tail q made ([], [], s, f, a, o) = ([], [], ap tail s, f, inl refl, o)
  Split-tail q made ([], x ∷ new, s, f, a, o) = ([], new, ap tail s, omega arith, inl refl, o)
  Split-tail q made (x ∷ old, new, s, f, a, o) =
      (old, new, ap tail s, f, ground arith, InOrder-trans o (InOrder-without past x old))

  Split-push :
      (c : ℕ) (q : List Event) (made : ℕ) (e : Event)
      → Split q made
      → Split (Queue.push c q e) (made + 1)
  unfolding Queue.push
  Split-push c q made e g = elim (Bool-cases (length q == c)) [
    | inl f ↦ rw f (Split-append (tail q) made e (Split-tail q made g))
    | inr f ↦ rw f (Split-append q made e g)
  ]

  publish-Ages :
      (b : Bus) (e : Event) (made : ℕ)
      → type_valid e.type ≡ true
      → Ages orig past start made b
      → Ages orig past start (made + 1) (publish b (some e)).1
  unfolding Split
  publish-Ages b e made t g =
      let (_, s, _, p, v) = publish_refines b e g.valid t in
      let (old', new', s', f', a', o') =
        Split-push b.capacity (contents b) made e (g.old, g.new, g.split, g.few, g.all, g.origin) in
      record {
        old = old';
        new = new';
        split = s ∙ s';
        few = f';
        all = a';
        origin = o';
        counted = omega arith;
        valid = v;
        busy = dispatching-publish b (some e) ∙ g.busy;
      }

  subscribe-Ages :
      (b : Bus) (mask : ℕ) (fn : Option ℕ) (ctx made : ℕ)
      → Ages orig past start made b
      → Ages orig past start made (subscribe b mask fn ctx).1
  unfolding subscribe
  subscribe-Ages b mask none ctx made g = g
  subscribe-Ages b mask (some fn) ctx made g = elim (Bool-cases (mask == 0)) [
    | inl z ↦ rw z g
    | inr n ↦ rw n (elim (Bool-cases (ltb (length b.subs) 8)) [
      | inl r ↦ rw r (record {
        old = g.old;
        new = g.new;
        split = g.split;
        few = g.few;
        all = g.all;
        origin = g.origin;
        counted = g.counted;
        valid = ground (
          arith,
          g.valid,
          length-append b.subs (record { mask = mask; fn = fn; ctx = ctx } ∷ []),
        );
        busy = g.busy;
      })
      | inr f ↦ rw f g
    ])
  ]

  -- Some number of publishes, at most `k`, made `b` from a bus with `made` of them.
  abbrev pub Later : ℕ → ℕ → Bus → Type 0
  Later made k b = (more : ℕ) × (more ≤ k) × Ages orig past start (made + more) b

  Later-here : (made : ℕ) (b : Bus) → Ages orig past start made b → Later made 0 b
  Later-here made b g = (0, omega arith, subst (λ m. Ages orig past start m b) (omega arith) g)

  pub Later-then :
      (made j k n : ℕ) {b c : Bus}
      → Later made j b
      → ((m : ℕ) → Ages orig past start m b → Later m k c)
      → j + k ≤ n
      → Later made n c
  Later-then made j k n {b} {c} (more, l, g) rest h =
      let (more', l', g') = rest (made + more) g in
      (more + more', omega arith, subst (λ m. Ages orig past start m c) (omega arith) g')

  publish-Later :
      (b : Bus) (e : Option Event) (made : ℕ)
      → Ages orig past start made b
      → Later made 1 (publish b e).1
  unfolding publish
  publish-Later b none made g =
      (0, omega arith, subst (λ m. Ages orig past start m b) (omega arith) g)
  publish-Later b (some e) made g = elim (Bool-cases (type_valid e.type)) [
    | inl t ↦ (1, omega arith, publish-Ages b e made t g)
    | inr f ↦ rw f (0, omega arith, subst (λ m. Ages orig past start m b) (omega arith) g)
  ]

  pub perform-Later :
      (cs : List Call) (b : Bus) (made : ℕ)
      → Ages orig past start made b
      → Later made (length cs) (perform b cs)
  unfolding perform
  perform-Later [] b made g = Later-here made b g
  perform-Later (publishes e ∷ cs) b made g =
      Later-then made 1 (length cs) (suc (length cs)) (publish-Later b e made g)
        (λ m h. perform-Later cs (publish b e).1 m h) (omega arith)
  perform-Later (subscribes mask fn ctx ∷ cs) b made g =
      Later-then made 0 (length cs) (suc (length cs))
        (Later-here made (subscribe b mask fn ctx).1 (subscribe-Ages b mask fn ctx made g))
        (λ m h. perform-Later cs (subscribe b mask fn ctx).1 m h) (omega arith)

  module _ (w : World) (limit : ℕ)
      (handled : (log : List Delivery) (s : Sub) (e : Event)
        → length (w.handler log s e) ≤ limit) where
    call_handler-Later :
        (e : Event) (s : Sub) (b : Bus) (log : List Delivery) (made : ℕ)
        → Ages orig past start made b
        → Later made limit (call_handler w e s (b, log)).0
    unfolding call_handler
    call_handler-Later e s b log made g = elim (Bool-cases (hits e s)) [
      | inl t ↦ rw t (
          Later-then made (length (w.handler log s e)) 0 limit
            (perform-Later (w.handler log s e) b made g) (λ m h. Later-here m _ h)
            (omega (arith, handled log s e)))
      | inr f ↦
          rw f (
            Later-then made 0 0 limit (Later-here made b g) (λ m h. Later-here m b h) (omega arith))
    ]

    pub deliver-Later :
        (e : Event) (ss : List Sub) (bl : Bus × List Delivery) (made : ℕ)
        → Ages orig past start made bl.0
        → Later made (length ss * limit) (deliver w e ss bl).0
    unfolding deliver
    deliver-Later e [] (b, log) made g =
        Later-then made 0 0 (0 * limit) (Later-here made b g) (λ m h. Later-here m b h)
          (omega arith)
    deliver-Later e (s ∷ ss) (b, log) made g =
        Later-then made limit (length ss * limit) (suc (length ss) * limit)
          (call_handler-Later e s b log made g)
          (λ m h. deliver-Later e ss (call_handler w e s (b, log)) m h) (omega arith)
