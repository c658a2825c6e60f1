-- ===== src/Log/Tests.antt =====
-- The capture ring on concrete contents.
use stark_one.Base.{inr, ℕ, ◌+◌, ◌%◌, ◌<◌, ◌≡◌, refl, List, [], ◌∷◌, ◌++◌, length, arith, word}
use stark_one.Log.{Ring, put, take}
use stark_one.Log.Spec.{Evicts, chunk}
use stark_one.Log.Lines.{IsValid, contents}
use stark_one.Log.Put.{kept, put_refines}
use stark_one.Log.Take.{LineWithin, take_refines, take_progress}

-- "a\nbc\nd", gone round a ring of eight
abbrev wrapped : Ring
wrapped = record {
  buf = 99 ∷ 10 ∷ 100 ∷ 0 ∷ 0 ∷ 97 ∷ 10 ∷ 98 ∷ [];
  cap = 8;
  head = 5;
  len = 6;
  dropped = 2;
}

wrapped-IsValid : IsValid wrapped
wrapped-IsValid = omega arith

contents-put :
    contents (put wrapped (101 ∷ 102 ∷ 103 ∷ 10 ∷ []))
    ≡ 98 ∷ 99 ∷ 10 ∷ 100 ∷ 101 ∷ 102 ∷ 103 ∷ 10 ∷ []
unfolding put
contents-put = refl

out-take : (take wrapped 100).out ≡ 97 ∷ 10 ∷ 98 ∷ 99 ∷ 10 ∷ []
unfolding take
out-take = refl

put_refines_example :
    (lines : ℕ) × (left : List ℕ) × Evicts 8
      (length (kept wrapped (7 ∷ 8 ∷ 10 ∷ [])))
      lines
      (contents wrapped)
      left
    × (contents (put wrapped (7 ∷ 8 ∷ 10 ∷ [])) ≡ left ++ kept wrapped (7 ∷ 8 ∷ 10 ∷ []))
    × ((put wrapped (7 ∷ 8 ∷ 10 ∷ [])).dropped ≡ (2 + lines) % word)
    × IsValid (put wrapped (7 ∷ 8 ∷ 10 ∷ []))
put_refines_example = put_refines wrapped (7 ∷ 8 ∷ 10 ∷ []) wrapped-IsValid (omega arith)

take_refines_example :
    let t = take wrapped 4 in
    (t.out ≡ chunk 4 (contents wrapped))
    × (contents wrapped ≡ t.out ++ contents t.ring)
    × (t.lost ≡ 2)
    × (t.ring.dropped ≡ 0)
    × IsValid t.ring
take_refines_example = take_refines wrapped 4 wrapped-IsValid

take_progress_example : 0 < length (take wrapped 8).out
unfolding LineWithin
take_progress_example =
    take_progress wrapped 8 wrapped-IsValid (omega arith) (inr (1, omega arith, refl))
