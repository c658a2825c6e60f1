-- ===== src/Log/Take.antt =====
-- `log_ring_take`: whole lines, oldest first, or a piece of a line that is longer than the request.
use stark_one.Base.{
  ℕ, zero, suc, ◌+◌, ◌-◌, ◌%◌, ◌^◌, ◌≤◌, ◌<◌, ◌≡◌, refl, sym, ap, ap₂, ◌∙◌, subst, ◌⊎◌, some,
  get_elem?, inl, inr, Bool, true, false, ◌&&◌, List, [], ◌∷◌, ◌++◌, length, get_or, drop, min,
  length-take, append-nil, append_assoc, ltb, ltb→lt, ltb→le, ◌==◌, ne→==, Bool-cases,
  if◌then◌else◌, arith, word, wrap, wrap_lem,
}
use stark_one.Base
use stark_one.Base.Window.{length-window, window-add}
use stark_one.Log.{Ring, Taken, newline, at, last_end, copy_out, take}
use stark_one.Log.Spec.{whole_lines, chunk}
use stark_one.Log.Lines.{
  IsValid, contents, bytes_from, length-contents, at_lem, contents-advance, advance-IsValid,
}

copy_out-window :
    (k : ℕ) (r : Ring) (i : ℕ) → IsValid r → i + k ≤ r.cap → copy_out k r i ≡ bytes_from r i k
unfolding copy_out
copy_out-window zero r i v h = refl
copy_out-window (suc k) r i v h =
    ap₂ ◌∷◌ (at_lem r i v (omega arith)) (copy_out-window k r (i + 1) v (omega arith))

-- The scan for the last newline, in terms of the bytes it goes over.
abbrev scanned : ℕ → ℕ → List ℕ → ℕ
scanned i end q = if length (whole_lines q) == 0 then end else i + length (whole_lines q)

length-whole_lines-cons :
    (x : ℕ) (q : List ℕ)
    → length (whole_lines (x ∷ q)) ≡ (
        if length (whole_lines q) == 0
        then (if x == newline then 1 else 0)
        else length (whole_lines q) + 1)
unfolding whole_lines
length-whole_lines-cons x q = ground arith

scanned-cons :
    (x i end : ℕ) (q : List ℕ)
    → scanned (i + 1) (if x == newline then i + 1 else end) q ≡ scanned i end (x ∷ q)
scanned-cons x i end q = ground (arith, length-whole_lines-cons x q)

last_end-scanned :
    (k : ℕ) (r : Ring) (i end : ℕ)
    → IsValid r
    → i + k ≤ r.cap
    → last_end k r i end ≡ scanned i end (bytes_from r i k)
unfolding last_end whole_lines
last_end-scanned zero r i end v h = refl
last_end-scanned (suc k) r i end v h =
    last_end-scanned k r (i + 1) (if at r i == newline then i + 1 else end) v (omega arith)
    ∙ scanned-cons (at r i) i end (bytes_from r (i + 1) k)
    ∙ ap (λ x. scanned i end (x ∷ bytes_from r (i + 1) k)) (at_lem r i v (omega arith))

whole_lines-prefix : (q : List ℕ) → Base.take (length (whole_lines q)) q ≡ whole_lines q
unfolding whole_lines
whole_lines-prefix [] = refl
whole_lines-prefix (x ∷ q) = ground (arith, whole_lines-prefix q)

take-window :
    (r : Ring) (i k n : ℕ)
    → Base.take k (bytes_from r i n) ≡ bytes_from r i (if ltb n k then n else k)
take-window r i zero n = ap (bytes_from r i) {x = 0} (ground arith)
take-window r i (suc k) zero = ap (bytes_from r i) {x = 0} (ground arith)
take-window r i (suc k) (suc n) =
    ap (λ l. get_or r.buf ((r.head + i) % r.cap) 0 ∷ l) (take-window r (i + 1) k n)
    ∙ ap (bytes_from r i) {x = suc (if ltb n k then n else k)} (ground arith)

-- How many bytes a call moves, by the bytes `q` within its limit.
abbrev moved : ℕ → List ℕ → ℕ
moved max q =
    if length (whole_lines q) == 0 && length q == max then length q else length (whole_lines q)

take-moved :
    (max : ℕ) (q : List ℕ)
    → Base.take (moved max q) q
      ≡ (if length (whole_lines q) == 0 && length q == max then q else whole_lines q)
take-moved max q = ground (arith, whole_lines-prefix q, Base.take_all (length q) q)

length-whole_lines : (q : List ℕ) → length (whole_lines q) ≤ length q
length-whole_lines q =
    omega (arith, ap length (whole_lines-prefix q), length-take (length (whole_lines q)) q)

moved-le : (max : ℕ) (q : List ℕ) → moved max q ≤ length q
moved-le max q = ground (arith, length-whole_lines q)

-- The bytes within the limit of a call.
within : Ring → ℕ → List ℕ
within r max = bytes_from r 0 (if ltb r.len max then r.len else max)

within_lem : (r : Ring) (max : ℕ) → within r max ≡ Base.take max (contents r)
unfolding within
within_lem r max = sym (take-window r 0 max r.len)

length-within :
    (r : Ring) (max : ℕ) → length (within r max) ≡ (if ltb r.len max then r.len else max)
unfolding within
length-within r max = length-window 0 r.cap r.buf r.head 0 _

length-within-le : (r : Ring) (max : ℕ) → length (within r max) ≤ r.len
length-within-le r max = ground (arith, length-within r max)

-- `chunk`, by the bytes within the limit
abbrev chunk_of : ℕ → List ℕ → List ℕ
chunk_of max q = if length (whole_lines q) == 0 && length q == max then q else whole_lines q

taken : Ring → ℕ → Taken
taken r n = record {
  out = copy_out n r 0;
  lost = r.dropped;
  ring = record r { head = wrap r.cap r.head n; len = r.len - n; dropped = 0 };
}

scanned_zero : (q : List ℕ) → scanned 0 0 q ≡ length (whole_lines q)
scanned_zero q = ground arith

take-taken : (r : Ring) (max : ℕ) → IsValid r → take r max ≡ taken r (moved max (within r max))
unfolding take taken within
take-taken r max v =
    let limit : ℕ = if ltb r.len max then r.len else max in
    let q = within r max in
    ap (taken r) (
      ap₂ (λ (lines room : ℕ). if lines == 0 && room == max then room else lines)
        (last_end-scanned limit r 0 0 v (ground (arith, v)) ∙ scanned_zero q)
        (sym (length-within r max)))

-- a call that moves `n` bytes
record Takes (r : Ring) (n : ℕ) (t : Taken) : Type 0 where
  out : t.out ≡ Base.take n (contents r)
  split : contents r ≡ t.out ++ contents t.ring
  lost : t.lost ≡ r.dropped
  restart : t.ring.dropped ≡ 0
  valid : IsValid t.ring

taken-Takes : (r : Ring) (n : ℕ) → IsValid r → n ≤ r.len → Takes r n (taken r n)
unfolding taken
taken-Takes r n v h = record {
  out =
      copy_out-window n r 0 v (omega (arith, v))
      ∙ sym (take-window r 0 n r.len ∙ ap (bytes_from r 0) (ground arith));
  split =
      sym (
        window-add 0 r.cap r.buf r.head 0 n (r.len - n) n (omega arith)
        ∙ ap (bytes_from r 0) (omega arith))
      ∙ ap₂ ◌++◌ (sym (copy_out-window n r 0 v (omega (arith, v))))
          (sym (contents-advance r n 0 v h));
  lost = refl;
  restart = refl;
  valid = advance-IsValid r n 0 v h;
}

take-take :
    (n max : ℕ) (q : List ℕ)
    → n ≤ length (Base.take max q)
    → Base.take n (Base.take max q) ≡ Base.take n q
take-take zero max q h = refl
take-take (suc n) zero q h = absurd (omega arith)
take-take (suc n) (suc max) [] h = refl
take-take (suc n) (suc max) (x ∷ q) h = ap (λ l. x ∷ l) (take-take n max q (omega arith))

-- A read of at most `max` bytes from a valid ring returns the chunk of whole lines, or the piece of a
-- longer line, that `chunk` says, and the number of lines lost since the last read; what it
-- returns is exactly what leaves the ring, the count restarts, and the ring stays valid.
pub take_refines :
    (r : Ring) (max : ℕ)
    → IsValid r
    → let t = take r max in
      (t.out ≡ chunk max (contents r))
      × (contents r ≡ t.out ++ contents t.ring)
      × (t.lost ≡ r.dropped)
      × (t.ring.dropped ≡ 0)
      × IsValid t.ring
unfolding chunk
take_refines r max v =
    let whole : List ℕ = Base.take max (contents r) in
    let q = within r max in
    let n = moved max q in
    let g = taken-Takes r n v (omega (arith, moved-le max q, length-within-le r max)) in
    rw (take-taken r max v) (
      g.out
          ∙ sym (
              take-take n max (contents r)
                (omega (arith, moved-le max q, ap length (within_lem r max))))
          ∙ ap (Base.take n) (sym (within_lem r max))
          ∙ take-moved max q
          ∙ ap (chunk_of max) (within_lem r max),
      g.split,
      g.lost,
      g.restart,
      g.valid,
    )

whole_lines-pos : (q : List ℕ) (i : ℕ) → get_elem? q i ≡ some newline → 0 < length (whole_lines q)
whole_lines-pos [] i h = absurd (ground arith)
whole_lines-pos (x ∷ q) zero h = ground (arith, length-whole_lines-cons x q)
whole_lines-pos (x ∷ q) (suc i) h =
    ground (arith, length-whole_lines-cons x q, whole_lines-pos q i h)

get_elem?-take : (q : List ℕ) (i max : ℕ) → i < max → get_elem? (Base.take max q) i ≡ get_elem? q i
get_elem?-take q i zero h = absurd (omega arith)
get_elem?-take [] i (suc max) h = refl
get_elem?-take (x ∷ q) zero (suc max) h = refl
get_elem?-take (x ∷ q) (suc i) (suc max) h = get_elem?-take q i max (omega arith)

-- the end of a line among the first `max` bytes
unfoldable pub LineWithin : ℕ → List ℕ → Type 0
LineWithin max q = (i : ℕ) × (i < max) × (get_elem? q i ≡ some newline)

length-chunk-pos :
    (max : ℕ) (q : List ℕ)
    → 0 < max
    → (max ≤ length q) ⊎ LineWithin max q
    → 0 < length (chunk max q)
unfolding chunk LineWithin
length-chunk-pos max q h (inl l) = ground (arith, length-take max q)
length-chunk-pos max q h (inr (i, l, e)) =
    let w = whole_lines-pos (Base.take max q) i (get_elem?-take q i max l ∙ e) in
    ground (arith, length-take max q)

-- The ring cannot stall: when as many bytes as are asked for are held, or the end of a line is among
-- the first of them, a read returns some.
pub take_progress :
    (r : Ring) (max : ℕ)
    → IsValid r
    → 0 < max
    → (max ≤ r.len) ⊎ LineWithin max (contents r)
    → 0 < length (take r max).out
take_progress r max v h l = omega (
  arith,
  ap length (take_refines r max v).0,
  length-chunk-pos max (contents r) h
      (subst (λ n. (max ≤ n) ⊎ LineWithin max (contents r)) (sym (length-contents r)) l),
)
