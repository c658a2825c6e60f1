-- ===== src/Log/Put.antt =====
-- `log_ring_put`: the oldest lines go, whole and as few as will do, and the text is appended.
use stark_one.Base.{
  ℕ, zero, suc, ◌+◌, ◌-◌, ◌%◌, ◌≤◌, ◌<◌, ◌≡◌, refl, sym, ap, ap₂, ◌∙◌, subst, inl, inr, List, [],
  ◌∷◌, ◌++◌, length, set, drop, length-set, length-drop, append-nil, append_assoc, ltb, ltb→lt,
  ltb→le, ne→==, Bool-cases, if◌then◌else◌, arith, word, wrap,
}
use stark_one.Base.Window.{window, window-set}
use stark_one.Log.{Ring, drop_line, make_room, copy_in, put}
use stark_one.Log.Spec.{Evicts}
use stark_one.Log.Lines.{IsValid, contents, length-contents, drop_line_lem, drop_line_keeps}

-- `after` is `before` with `lines` lines dropped to make room for `n` bytes.
record Roomy (n lines : ℕ) (before after : Ring) : Type 0 where
  evicts : Evicts before.cap n lines (contents before) (contents after)
  counts : after.dropped ≡ (before.dropped + lines) % word
  valid : IsValid after
  same_cap : after.cap ≡ before.cap
  room : after.len + n ≤ before.cap

Roomy-here : (n : ℕ) (r : Ring) → IsValid r → r.dropped < word → r.len + n ≤ r.cap → Roomy n 0 r r
Roomy-here n r v d h = record {
  evicts = Evicts.fits (contents r) (omega (arith, length-contents r));
  counts = omega arith;
  valid = v;
  same_cap = refl;
  room = h;
}

Roomy-drop :
    (n lines : ℕ) (r after : Ring)
    → IsValid r
    → r.cap < r.len + n
    → n ≤ r.cap
    → Roomy n lines (drop_line r) after
    → Roomy n (suc lines) r after
Roomy-drop n lines r after v full h g =
    let (e, _, _) = drop_line_lem r v (omega arith) in
    let (d, c) = drop_line_keeps r in
    record {
      evicts = Evicts.loses lines (contents r) (contents after) (omega (arith, length-contents r)) (
          subst (λ q. Evicts r.cap n lines q (contents after)) e
            (subst (λ a. Evicts a n lines (contents (drop_line r)) (contents after)) c g.evicts));
      counts = omega (arith, g.counts);
      valid = g.valid;
      same_cap = g.same_cap ∙ c;
      room = omega (arith, g.room);
    }

make_room-Roomy :
    (k n : ℕ) (r : Ring)
    → IsValid r
    → r.dropped < word
    → n ≤ r.cap
    → r.len ≤ k
    → (lines : ℕ) × Roomy n lines r (make_room k n r)
unfolding make_room
make_room-Roomy zero n r v d h l = (0, Roomy-here n r v d (omega arith))
make_room-Roomy (suc k) n r v d h l = elim (Bool-cases (ltb (r.cap - r.len) n)) [
  | inr f ↦ rw (f, make_room) (0, Roomy-here n r v d (omega (arith, ltb→le _ _ f, v)))
  | inl t ↦
      let (_, less, v') = drop_line_lem r v (omega (arith, ltb→lt _ _ t)) in
      let (d', c') = drop_line_keeps r in
      let (lines, g) =
        make_room-Roomy k n (drop_line r) v' (omega arith) (omega arith) (omega arith) in
      rw (t, make_room)
        (
          suc lines,
          Roomy-drop n lines r (make_room k n (drop_line r)) v (omega (arith, ltb→lt _ _ t)) h g,
        )
]

-- where the `i`-th byte of the text is written
copy_index :
    (r : Ring) (i : ℕ)
    → IsValid r
    → r.len + i < r.cap
    → wrap r.cap ((r.head + r.len) % word) i ≡ (r.head + (r.len + i)) % r.cap
copy_index r i v h = ap (λ j. j % r.cap) {y = r.head + (r.len + i)} (omega (arith, v))

abbrev wrote : Ring → ℕ → ℕ → Ring
wrote r i x = record r { buf = set r.buf (wrap r.cap ((r.head + r.len) % word) i) x }

wrote-IsValid : (r : Ring) (i x : ℕ) → IsValid r → IsValid (wrote r i x)
wrote-IsValid r i x v =
    omega (arith, v, length-set r.buf (wrap r.cap ((r.head + r.len) % word) i) x)

-- `after` is `before` with the text `s` written from the `i`-th byte behind its contents on.
record Copied (s : List ℕ) (i : ℕ) (before after : Ring) : Type 0 where
  bytes :
      window 0 before.cap after.buf before.head 0 (before.len + i + length s)
      ≡ window 0 before.cap before.buf before.head 0 (before.len + i) ++ s
  cap_kept : after.cap ≡ before.cap
  head_kept : after.head ≡ before.head
  dropped_kept : after.dropped ≡ before.dropped
  storage_kept : length after.buf ≡ length before.buf

copy_in-Copied :
    (s : List ℕ) (r : Ring) (i : ℕ)
    → IsValid r
    → r.len + i + length s ≤ r.cap
    → Copied s i r (copy_in r i s)
unfolding copy_in
copy_in-Copied [] r i v h = record {
  bytes = ap (window 0 r.cap r.buf r.head 0) (omega arith) ∙ sym (append-nil _);
  cap_kept = refl;
  head_kept = refl;
  dropped_kept = refl;
  storage_kept = refl;
}
copy_in-Copied (x ∷ s) r i v h =
    let g = copy_in-Copied s (wrote r i x) (i + 1) (wrote-IsValid r i x v) (omega arith) in
    record {
      bytes =
          ap (window 0 r.cap (copy_in (wrote r i x) (i + 1) s).buf r.head 0) (omega arith)
          ∙ g.bytes
          ∙ ap (λ l. l ++ s)
              (ap (λ k. window 0 r.cap (wrote r i x).buf r.head 0 k) {y = r.len + i + 1}
                  (omega arith)
                ∙ ap (λ j. window 0 r.cap (set r.buf j x) r.head 0 (r.len + i + 1))
                    (copy_index r i v (omega arith))
                ∙ window-set 0 r.cap r.buf r.head (r.len + i) x (omega arith) v.storage_fits)
          ∙ append_assoc (window 0 r.cap r.buf r.head 0 (r.len + i)) (x ∷ []) s;
      cap_kept = g.cap_kept;
      head_kept = g.head_kept;
      dropped_kept = g.dropped_kept;
      storage_kept = g.storage_kept ∙ length-set r.buf _ x;
    }

Copied-done :
    (s : List ℕ) (room after : Ring)
    → IsValid room
    → room.len + length s ≤ room.cap
    → Copied s 0 room after
    → let r = record after { len = room.len + length s } in
      (contents r ≡ contents room ++ s) × IsValid r
Copied-done s room after v h c = (
  ap₂ (λ k j. window 0 k after.buf j 0 (room.len + length s)) c.cap_kept c.head_kept
      ∙ ap (window 0 room.cap after.buf room.head 0) (omega arith)
      ∙ c.bytes
      ∙ ap (λ n. window 0 room.cap room.buf room.head 0 n ++ s) (omega arith),
  omega (arith, v, c.cap_kept, c.head_kept, c.storage_kept),
)

-- The text that a call keeps: the last `cap` bytes of it.
abbrev pub kept : Ring → List ℕ → List ℕ
kept r s = if ltb r.cap (length s) then drop (length s - r.cap) s else s

length-kept : (r : Ring) (s : List ℕ) → length (kept r s) ≤ r.cap
length-kept r s = ground (arith, length-drop (length s - r.cap) s)

-- Text put into a valid ring is appended, cut to its last `cap` bytes where it is longer; the
-- oldest lines are dropped first, whole and only as many as must go, and each is counted in
-- `dropped`. The ring stays valid.
pub put_refines :
    (r : Ring) (s : List ℕ)
    → IsValid r
    → r.dropped < word
    → (lines : ℕ) × (left : List ℕ) × Evicts r.cap (length (kept r s)) lines (contents r) left
      × (contents (put r s) ≡ left ++ kept r s)
      × ((put r s).dropped ≡ (r.dropped + lines) % word)
      × IsValid (put r s)
unfolding put
put_refines r s v d =
    let (lines, g) =
      make_room-Roomy r.len (length (kept r s)) r v d (length-kept r s) (omega arith) in
    let room = make_room r.len (length (kept r s)) r in
    let c = copy_in-Copied (kept r s) room 0 g.valid (omega (arith, g.same_cap, g.room)) in
    let (bytes, valid) =
      Copied-done (kept r s) room (copy_in room 0 (kept r s)) g.valid
        (omega (arith, g.same_cap, g.room)) c in
    rw (ne→== r.cap 0 (omega (arith, v.some_room)))
      (lines, contents room, g.evicts, bytes, c.dropped_kept ∙ g.counts, valid)
