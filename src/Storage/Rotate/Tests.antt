-- ===== src/Storage/Rotate/Tests.antt =====
-- A rotation of three log files.
use stark_one.Base.{
  ℕ, ◌+◌, ◌≤◌, ◌<◌, ◌≡◌, ◌⊎◌, ◌≢◌, refl, sym, Bool, true, false, Option, none, some, List, [], ◌∷◌,
  ◌==◌, eq→==, ne→==, if◌then◌else◌, arith,
}
use stark_one.Err.{ok, state}
use stark_one.Storage.Rotate.{LogDir, ok_or_missing, rotate}
use stark_one.Storage.Rotate.Shift.{Works, Turns, rotate_shifts}

-- a directory as a function, and whether the card is in; without it every call fails
abbrev Dir : Type 0
Dir = Bool × (ℕ → Option (List ℕ))

abbrev without : (ℕ → Option (List ℕ)) → ℕ → ℕ → Option (List ℕ)
without m i k = if k == i then none else m k

abbrev moved : (ℕ → Option (List ℕ)) → ℕ → ℕ → ℕ → Option (List ℕ)
moved m i j k = if k == i then none else if k == j then m i else m k

abbrev disk : LogDir Dir
disk = record {
  remove = λ d i. if d.0 then (ok, (d.0, without d.1 i)) else (state, d);
  rename = λ d i j. if d.0 then (ok, (d.0, moved d.1 i j)) else (state, d);
}

abbrev view : Dir → ℕ → Option (List ℕ)
view d k = d.1 k

abbrev Files : Type 0
Files = ℕ → Option (List ℕ)

removed :
    (b : Bool) (m : Files) (i : ℕ)
    → ok_or_missing (disk.remove (b, m) i).0 ≡ true
    → view (disk.remove (b, m) i).1 i ≡ none
removed true m i h = rw (eq→== i i refl) refl
removed false m i h = absurd (ground arith)

kept :
    (b : Bool) (m : Files) (i j : ℕ)
    → ok_or_missing (disk.remove (b, m) i).0 ≡ true
    → j ≢ i
    → view (disk.remove (b, m) i).1 j ≡ m j
kept true m i j h n = rw (ne→== j i n) refl
kept false m i j h n = refl

unremoved :
    (b : Bool) (m : Files) (i j : ℕ)
    → ok_or_missing (disk.remove (b, m) i).0 ≡ false
    → view (disk.remove (b, m) i).1 j ≡ m j
unremoved true m i j h = absurd (ground arith)
unremoved false m i j h = refl

renamed_from :
    (b : Bool) (m : Files) (i j : ℕ)
    → ok_or_missing (disk.rename (b, m) i j).0 ≡ true
    → view (disk.rename (b, m) i j).1 i ≡ none
renamed_from true m i j h = rw (eq→== i i refl) refl
renamed_from false m i j h = absurd (ground arith)

renamed_to :
    (b : Bool) (m : Files) (i j : ℕ)
    → i ≢ j
    → ok_or_missing (disk.rename (b, m) i j).0 ≡ true
    → view (disk.rename (b, m) i j).1 j ≡ m i
renamed_to true m i j n h = rw (ne→== j i (λ q. n (sym q)), eq→== j j refl) refl
renamed_to false m i j n h = absurd (ground arith)

renamed_other :
    (b : Bool) (m : Files) (i j k : ℕ)
    → ok_or_missing (disk.rename (b, m) i j).0 ≡ true
    → k ≢ i
    → k ≢ j
    → view (disk.rename (b, m) i j).1 k ≡ m k
renamed_other true m i j k h p q = rw (ne→== k i p, ne→== k j q) refl
renamed_other false m i j k h p q = refl

unrenamed :
    (b : Bool) (m : Files) (i j k : ℕ)
    → ok_or_missing (disk.rename (b, m) i j).0 ≡ false
    → view (disk.rename (b, m) i j).1 k ≡ m k
unrenamed true m i j k h = absurd (ground arith)
unrenamed false m i j k h = refl

disk-Works : Works disk view
disk-Works = record {
  remove_self = λ d i. removed d.0 d.1 i;
  remove_other = λ d i j. kept d.0 d.1 i j;
  remove_failed = λ d i j. unremoved d.0 d.1 i j;
  rename_from = λ d i j n e. renamed_from d.0 d.1 i j;
  rename_to = λ d i j n e. renamed_to d.0 d.1 i j n;
  rename_other = λ d i j k n e. renamed_other d.0 d.1 i j k;
  rename_failed = λ d i j k. unrenamed d.0 d.1 i j k;
}

abbrev logs : Dir
logs = (true, λ k. if k == 0 then some (1 ∷ []) else if k == 1 then some (2 ∷ []) else none)

abbrev full : ℕ
full = 90

rotate_shifts_example :
    ((full ≡ 0) ⊎ (full + 20 ≤ 100)) × (rotate disk 100 3 full 20 logs ≡ (true, full, logs))
    ⊎ (0 < full)
      × (100 < full + 20)
      × Turns disk view disk-Works 2 full logs (rotate disk 100 3 full 20 logs)
rotate_shifts_example =
    rotate_shifts disk view disk-Works 100 3 full 20 logs (omega arith) (omega arith)
