-- ===== src/Event/Publish.antt =====
-- The ring of the bus as a queue that drops its oldest event, and the bus invariant.
use stark_one.Base.{
  word, wrap, wrap_lem, ℕ, ◌+◌, ◌-◌, ◌%◌, ◌^◌, ◌≤◌, ◌<◌, ◌≡◌, inl, inr, refl, sym, ap, ◌∙◌, true,
  Option, none, some, List, [], ◌∷◌, ◌++◌, length, length-set, set, tail, ◌==◌, ==→eq, Bool-cases,
  if◌then◌else◌, arith,
}
use stark_one.Base.Window.{window, length-window, window-pop, window-set}
use stark_one.Event.{
  Bus, Event, max_subs, no_event, type_valid, init, drop_oldest, append, publish, take_oldest,
  oldest,
}
use stark_one.Event.Queue
use stark_one.Err.{ok}

pub record IsValid (b : Bus) : Type 0 where
  pub small : b.capacity ≤ 2 ^ 31
  pub storage_fits : b.capacity ≤ length b.storage
  pub head_in : b.head < b.capacity
  pub count_in : b.count ≤ b.capacity
  pub depth_seen : b.count ≤ b.max_depth
  pub depth_in : b.max_depth ≤ b.capacity
  pub subs_in : length b.subs ≤ max_subs
  pub published_in : b.published < word
  pub dropped_in : b.dropped < word

-- The queued events, oldest first.
abbrev pub contents : Bus → List Event
contents b = window no_event b.capacity b.storage b.head 0 b.count

pub length-contents : (b : Bus) → length (contents b) ≡ b.count
length-contents b = length-window no_event b.capacity b.storage b.head 0 b.count

pub init-IsValid :
    (storage : List Event) (capacity : ℕ) {b : Bus}
    → capacity ≤ 2 ^ 31
    → capacity ≤ length storage
    → init (some storage) capacity true ≡ some b
    → IsValid b × (contents b ≡ [])
unfolding init
init-IsValid storage capacity {b} s l h = grind arith

-- Taking the oldest event off a ring that holds one.
pub take_oldest-IsValid : (b : Bus) → IsValid b → 0 < b.count → IsValid (take_oldest b)
unfolding take_oldest
take_oldest-IsValid b v h = ground arith

pub contents-take_oldest :
    (b : Bus) → IsValid b → 0 < b.count → contents b ≡ oldest b ∷ contents (take_oldest b)
unfolding take_oldest
contents-take_oldest b v h =
    window-pop no_event b.capacity b.storage b.head b.count v.head_in h
    ∙ ap (λ j. oldest b ∷ window no_event b.capacity b.storage j 0 (b.count - 1))
        (sym (wrap_lem b.capacity b.head 1 (omega arith) (omega arith) v.small (omega arith)))

drop_oldest-IsValid :
    (b : Bus)
    → IsValid b
    → IsValid (drop_oldest b) × ((drop_oldest b).count < (drop_oldest b).capacity)
unfolding drop_oldest
drop_oldest-IsValid b v = ground arith

append-IsValid : (b : Bus) (e : Event) → IsValid b → b.count < b.capacity → IsValid (append b e)
unfolding append
append-IsValid b e v h = ground (arith, length-set b.storage (wrap b.capacity b.head b.count) e)

pub publish-IsValid : (b : Bus) (e : Option Event) → IsValid b → IsValid (publish b e).1
unfolding publish
publish-IsValid b none v = v
publish-IsValid b (some e) v = elim (Bool-cases (type_valid e.type)) [
  | inl t ↦
      let (w, room) = drop_oldest-IsValid b v in
      rw (t, publish) (append-IsValid (drop_oldest b) e w room)
  | inr f ↦ rw (f, publish) v
]

contents-drop_oldest :
    (b : Bus)
    → IsValid b
    → contents (drop_oldest b) ≡ (if b.count == b.capacity then tail (contents b) else contents b)
unfolding drop_oldest take_oldest
contents-drop_oldest b v = elim (Bool-cases (b.count == b.capacity)) [
  | inl f ↦ rw f (sym (ap tail (contents-take_oldest b v (omega (arith, ==→eq _ _ f)))))
  | inr f ↦ rw f
]

contents-append :
    (b : Bus) (e : Event)
    → IsValid b
    → b.count < b.capacity
    → contents (append b e) ≡ contents b ++ (e ∷ [])
unfolding append
contents-append b e v h =
    ap (λ j. window no_event b.capacity (set b.storage j e) b.head 0 (b.count + 1))
      (wrap_lem b.capacity b.head b.count (omega arith) (omega arith) v.small (omega arith))
    ∙ window-set no_event b.capacity b.storage b.head b.count e h v.storage_fits

-- Publishing an event of a valid type to a valid bus always succeeds: the queue becomes that of
-- `Queue.push`, which drops its oldest event exactly when the ring is full; `dropped` then goes up
-- by one, `published` always does, and the bus stays valid.
pub publish_refines :
    (b : Bus) (e : Event)
    → IsValid b
    → type_valid e.type ≡ true
    → let (r, b') = publish b (some e) in
      (r ≡ ok)
      × (contents b' ≡ Queue.push b.capacity (contents b) e)
      × (b'.dropped ≡ (b.dropped + (if b.count == b.capacity then 1 else 0)) % word)
      × (b'.published ≡ (b.published + 1) % word)
      × IsValid b'
unfolding publish Queue.push
publish_refines b e v t =
    let (w, room) = drop_oldest-IsValid b v in
    rw t (
      refl,
      contents-append (drop_oldest b) e w room
          ∙ ap (λ q. q ++ (e ∷ [])) (contents-drop_oldest b v)
          ∙ rw (length-contents b),
      ground arith,
      ground arith,
      append-IsValid (drop_oldest b) e w room,
    )
