-- ===== src/Log/Lines.antt =====
-- The ring as a list of bytes, its invariant, and `drop_line` on it.
use stark_one.Base.{
  ℕ, zero, suc, ◌+◌, ◌-◌, ◌%◌, ◌^◌, ◌≤◌, ◌<◌, ◌≡◌, refl, sym, ap, ◌∙◌, subst, inl, inr, true, false,
  List, length, get_or, ltb, lt→ltb, ◌==◌, Bool-cases, if◌then◌else◌, arith, word, wrap, wrap_lem,
}
use stark_one.Base.Window.{window, length-window, window-advance}
use stark_one.Log.{Ring, newline, at, line_end, drop_line}
use stark_one.Log.Spec.{without_line}

pub record IsValid (r : Ring) : Type 0 where
  pub some_room : 0 < r.cap
  pub small : r.cap ≤ 2 ^ 30
  pub storage_fits : r.cap ≤ length r.buf
  pub head_in : r.head < r.cap
  pub len_in : r.len ≤ r.cap

-- The `n` bytes from the `i`-th on.
abbrev pub bytes_from : Ring → ℕ → ℕ → List ℕ
bytes_from r i n = window 0 r.cap r.buf r.head i n

-- The bytes held, oldest first.
abbrev pub contents : Ring → List ℕ
contents r = bytes_from r 0 r.len

pub length-contents : (r : Ring) → length (contents r) ≡ r.len
length-contents r = length-window 0 r.cap r.buf r.head 0 r.len

pub at_lem :
    (r : Ring) (i : ℕ) → IsValid r → i ≤ r.cap → at r i ≡ get_or r.buf ((r.head + i) % r.cap) 0
at_lem r i v h =
    ap (λ j. get_or r.buf j 0) (wrap_lem r.cap r.head i (omega arith) h (omega arith) (omega arith))

-- Moving the head past the first `n` bytes leaves the rest.
pub contents-advance :
    (r : Ring) (n d : ℕ)
    → IsValid r
    → n ≤ r.len
    → contents (record r { head = wrap r.cap r.head n; len = r.len - n; dropped = d })
      ≡ bytes_from r n (r.len - n)
contents-advance r n d v h =
    ap (λ j. window 0 r.cap r.buf j 0 (r.len - n))
      (wrap_lem r.cap r.head n (omega arith) (omega arith) (omega arith) (omega arith))
    ∙ window-advance 0 r.cap r.buf r.head n 0 (r.len - n)
    ∙ ap (λ j. window 0 r.cap r.buf r.head j (r.len - n)) (omega arith)

pub advance-IsValid :
    (r : Ring) (n d : ℕ)
    → IsValid r
    → n ≤ r.len
    → IsValid (record r { head = wrap r.cap r.head n; len = r.len - n; dropped = d })
advance-IsValid r n d v h = omega arith

without_line_step :
    (r : Ring) (i k : ℕ)
    → IsValid r
    → i ≤ r.cap
    → without_line (bytes_from r i (suc k)) ≡ (
        if at r i == newline then bytes_from r (i + 1) k else without_line (bytes_from r (i + 1) k))
unfolding without_line
without_line_step r i k v h =
    ap (λ x. if x == newline then bytes_from r (i + 1) k else without_line (bytes_from r (i + 1) k))
      (sym (at_lem r i v h))

-- The bytes that `drop_line` drops when its `while` stops at `e`.
past : Ring → ℕ → ℕ
past r e = if ltb e r.len then e + 1 else r.len

-- The `while`, started at the `i`-th byte with `k` to go, may stop at `e`.
record LineEnd (r : Ring) (i k e : ℕ) : Type 0 where
  onward : i ≤ e
  inside : past r e ≤ r.len
  rest : bytes_from r (past r e) (r.len - past r e) ≡ without_line (bytes_from r i k)

LineEnd-here :
    (r : Ring) (i k : ℕ)
    → IsValid r
    → i + suc k ≡ r.len
    → (at r i == newline) ≡ true
    → LineEnd r i (suc k) i
unfolding past
LineEnd-here r i k v h t = record {
  onward = omega arith;
  inside = ground arith;
  rest = rw (lt→ltb i r.len (omega arith)) (
      ap (λ n. bytes_from r (i + 1) n) {x = r.len - (i + 1)} {y = k} (omega arith)
      ∙ sym (without_line_step r i k v (omega (arith, v)) ∙ rw t));
}

LineEnd-next :
    (r : Ring) (i k e : ℕ)
    → IsValid r
    → i + suc k ≡ r.len
    → (at r i == newline) ≡ false
    → LineEnd r (i + 1) k e
    → LineEnd r i (suc k) e
LineEnd-next r i k e v h f l = record {
  onward = omega (arith, l.onward);
  inside = l.inside;
  rest = l.rest ∙ sym (without_line_step r i k v (omega (arith, v)) ∙ rw f);
}

-- the test of the `while`, at a byte that is held
line_end_step :
    (r : Ring) (i k : ℕ)
    → i < r.len
    → line_end (suc k) r i ≡ (if at r i == newline then i else line_end k r (i + 1))
unfolding line_end
line_end_step r i k h = ground arith

line_end-LineEnd :
    (k : ℕ) (r : Ring) (i : ℕ) → IsValid r → i + k ≡ r.len → LineEnd r i k (line_end k r i)
unfolding line_end past without_line
line_end-LineEnd zero r i v h = record {
  onward = omega arith;
  inside = ground arith;
  rest = ap (λ n. bytes_from r (past r i) n) {x = r.len - past r i} {y = 0} (ground arith) ∙ refl;
}
line_end-LineEnd (suc k) r i v h = elim (Bool-cases (at r i == newline)) [
  | inl t ↦
      subst (LineEnd r i (suc k)) (sym (line_end_step r i k (omega arith) ∙ rw t))
        (LineEnd-here r i k v h t)
  | inr f ↦ subst (LineEnd r i (suc k)) (sym (line_end_step r i k (omega arith) ∙ rw f)) (
      LineEnd-next r i k (line_end k r (i + 1)) v h f
        (line_end-LineEnd k r (i + 1) v (omega arith)))
]

-- `drop_line` takes the oldest line off a ring that holds anything, counts it, and keeps the ring
-- valid.
pub drop_line_lem :
    (r : Ring)
    → IsValid r
    → 0 < r.len
    → (contents (drop_line r) ≡ without_line (contents r))
      × ((drop_line r).len < r.len)
      × IsValid (drop_line r)
unfolding drop_line past
drop_line_lem r v h =
    let l = line_end-LineEnd r.len r 0 v (omega arith) in
    let n = past r (line_end r.len r 0) in
    (
      contents-advance r n ((r.dropped + 1) % word) v l.inside ∙ l.rest,
      ground arith,
      advance-IsValid r n ((r.dropped + 1) % word) v l.inside,
    )

pub drop_line_keeps :
    (r : Ring) → ((drop_line r).dropped ≡ (r.dropped + 1) % word) × ((drop_line r).cap ≡ r.cap)
unfolding drop_line
drop_line_keeps r = (refl, refl)
