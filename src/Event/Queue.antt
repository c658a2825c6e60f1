-- ===== src/Event/Queue.antt =====
-- What the event bus promises of its ring: a queue of at most `capacity` events that drops its
-- oldest for a new one.
use stark_one.Base.{ℕ, List, [], ◌∷◌, ◌++◌, length, tail, ◌==◌, if◌then◌else◌}
use stark_one.Event.{Event}

unfoldable pub push : ℕ → List Event → Event → List Event
push capacity q e = (if length q == capacity then tail q else q) ++ (e ∷ [])
