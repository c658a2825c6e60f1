-- ===== src/Ir/Capture/Queue.antt =====
-- The ring of captures is a queue of four that drops its oldest.
use stark_one.Base.{
  ◌+◌, ◌-◌, ◌%◌, ◌≡◌, ◌≤◌, ◌<◌, ◌⊎◌, inl, inr, refl, sym, ap, ◌∙◌, Bool, true, false, Bool-cases,
  none, some, List, [], ◌∷◌, ◌++◌, length, length-set, get_or, tail, ◌==◌, ==→eq, ==→ne,
  if◌then◌else◌, arith, word,
}
use stark_one.Base.Window.{window, length-window, window-set, window-pop}
use stark_one.Ir.{Signal}
use stark_one.Ir.Capture.{slots, no_signal, Capture, init, drop_oldest, store, push, take}

pub record IsValid (r : Capture) : Type 0 where
  pub room : length r.slot ≡ slots
  pub head_in : r.head < slots
  pub count_in : r.count ≤ slots

-- the captures that wait, the oldest first
abbrev pub contents : Capture → List Signal
contents r = window no_signal slots r.slot r.head 0 r.count

-- What `ir_capture_push` promises of the queue.
abbrev pub pushed : List Signal → Signal → List Signal
pushed q s = (if length q == slots then tail q else q) ++ (s ∷ [])

pub init-IsValid : IsValid init
unfolding init
init-IsValid = record { room = refl; head_in = omega arith; count_in = omega arith }

-- without the oldest
rest-contents :
    (r : Capture)
    → IsValid r
    → 0 < r.count
    → contents r
      ≡ get_or r.slot r.head no_signal
        ∷ window no_signal slots r.slot ((r.head + 1) % slots) 0 (r.count - 1)
rest-contents r v h = window-pop no_signal slots r.slot r.head r.count v.head_in h

-- The ring with room for a capture; `full` says whether the oldest made way.
record Room (full : Bool) (r r' : Capture) : Type 0 where
  pub valid : IsValid r'
  pub space : r'.count < slots
  pub held : contents r' ≡ (if full then tail (contents r) else contents r)
  pub counted : r'.dropped ≡ (if full then (r.dropped + 1) % word else r.dropped)

made-Room :
    (r : Capture) (full : Bool)
    → (r.count == slots) ≡ full
    → IsValid r
    → Room full r (
        if full
        then record r {
          head = (r.head + 1) % slots;
          count = r.count - 1;
          dropped = (r.dropped + 1) % word;
        }
        else r)
made-Room r true e v =
    let n = ==→eq _ _ e in
    record {
      valid = record { room = v.room; head_in = omega arith; count_in = omega arith };
      space = omega arith;
      held = sym (ap tail (rest-contents r v (omega arith)));
      counted = refl;
    }
made-Room r false e v =
    let n = ==→ne _ _ e in
    let c = v.count_in in record { valid = v; space = omega arith; held = refl; counted = refl }

drop_oldest-Room : (r : Capture) → IsValid r → Room (r.count == slots) r (drop_oldest r)
unfolding drop_oldest
drop_oldest-Room r v = made-Room r (r.count == slots) refl v

store-IsValid : (r : Capture) (s : Signal) → IsValid r → r.count < slots → IsValid (store r s)
unfolding store
store-IsValid r s v h = record {
  room = length-set r.slot ((r.head + r.count) % slots) s ∙ v.room;
  head_in = v.head_in;
  count_in = omega arith;
}

contents-store :
    (r : Capture) (s : Signal)
    → IsValid r
    → r.count < slots
    → contents (store r s) ≡ contents r ++ (s ∷ [])
unfolding store
contents-store r s v h =
    let l = v.room in window-set no_signal slots r.slot r.head r.count s h (omega arith)

-- A push onto a valid ring is that of a queue of four, which drops its oldest capture exactly when it is
-- full, and is then counted; the ring stays valid. A take gives the oldest capture and leaves the rest,
-- and none exactly of an empty ring.
pub capture_refines :
    (r : Capture) (s : Signal)
    → IsValid r
    → IsValid (push r s)
      × (contents (push r s) ≡ pushed (contents r) s)
      × ((push r s).dropped
          ≡ (if length (contents r) == slots then (r.dropped + 1) % word else r.dropped))
      × ((take r ≡ none) × (contents r ≡ [])
          ⊎ ((x : Signal) × (r' : Capture) × (take r ≡ some (x, r'))
              × (contents r ≡ x ∷ contents r')
              × IsValid r'))
unfolding push take store
capture_refines r s v =
    let d = drop_oldest-Room r v in
    let n : length (contents r) ≡ r.count = length-window no_signal slots r.slot r.head 0 r.count in
    (
      store-IsValid (drop_oldest r) s d.valid d.space,
      contents-store (drop_oldest r) s d.valid d.space
          ∙ ap (λ q. q ++ (s ∷ [])) d.held
          ∙ ap (λ k. (if k == slots then tail (contents r) else contents r) ++ (s ∷ [])) (sym n),
      d.counted ∙ ap (λ k. if k == slots then (r.dropped + 1) % word else r.dropped) (sym n),
      elim (Bool-cases (r.count == 0)) [
        | inl t ↦
            let e = ==→eq _ _ t in
            inl (
              ap
                  (λ b.
                    if b
                    then none
                    else some (
                      get_or r.slot r.head no_signal,
                      record r { head = (r.head + 1) % slots; count = r.count - 1 },
                    ))
                  t,
              ap (window no_signal slots r.slot r.head 0) e,
            )
        | inr f ↦
            let e = ==→ne _ _ f in
            inr (
              get_or r.slot r.head no_signal,
              record r { head = (r.head + 1) % slots; count = r.count - 1 },
              ap
                  (λ b.
                    if b
                    then none
                    else some (
                      get_or r.slot r.head no_signal,
                      record r { head = (r.head + 1) % slots; count = r.count - 1 },
                    ))
                  f,
              rest-contents r v (omega arith),
              record {
                room = v.room;
                head_in = omega arith;
                count_in = let c = v.count_in in omega arith;
              },
            )
      ],
    )
