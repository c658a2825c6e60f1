-- ===== src/Ir/Sirc/Reading.antt =====
-- A receiver reads back what the SIRC encoder sent, however its durations are quantised.
use stark_one.Base.{
  ℕ, zero, suc, ◌+◌, ◌-◌, ◌*◌, ◌/◌, ◌%◌, ◌^◌, ◌≤◌, ◌<◌, ◌≡◌, refl, sym, ap, subst, ◌∙◌, bit_and,
  bit_or, Bool, false, Option, none, some, List, [], ◌∷◌, ◌++◌, append_assoc, append-nil, length,
  length-append, get_or, ltb, ◌!=◌, Bool-cases, inl, inr, if◌then◌else◌, arith,
}
use stark_one.Base.Bits.{bit_and_low, bit_or_high}
use native.Mathlib.Nat.{mod-eq_of_lt}
use stark_one.Err.{ok}
use stark_one.Ir.{Protocol, Frame, sirc12, sirc15, sirc20, push, max_durations}
use stark_one.Ir.Push.{push_lem, next_word}
use stark_one.Ir.Match.{Near, Close, matches-Near}
use stark_one.Ir.Sirc.{
  start_mark, space, one_mark, zero_mark, bits_of, push_bits, frame_word, encode, at, variant,
  read_bit, read_bits, frame_of, decode_as, decode,
}

abbrev mark_of : ℕ → ℕ → ℕ
mark_of w i = if bit_and (w / 2 ^ i) 1 != 0 then one_mark else zero_mark

-- spaces and marks of `k` bits from the `i`-th on
abbrev pulses : ℕ → ℕ → ℕ → List ℕ
pulses zero i w = []
pulses (suc k) i w = space ∷ mark_of w i ∷ pulses k (i + 1) w

mark_of-in : (w i : ℕ) → (0 < mark_of w i) × (mark_of w i ≤ 65535)
mark_of-in w i = ground arith

push_bits_lem :
    (k i w : ℕ) (t : List ℕ)
    → length t + 2 * k ≤ max_durations
    → push_bits k i w t ≡ t ++ pulses k i w
unfolding push_bits
push_bits_lem zero i w t h = sym (append-nil t)
push_bits_lem (suc k) i w t h =
    let (p, q) = mark_of-in w i in
    let t1 = t ++ (space ∷ []) in
    let t2 = t1 ++ (mark_of w i ∷ []) in
    let l1 = length-append t (space ∷ []) in
    let l2 = length-append t1 (mark_of w i ∷ []) in
    ap (λ l. push_bits k (i + 1) w (push l (mark_of w i)))
      (push_lem t space (omega arith) (omega arith) (omega arith))
    ∙ ap (push_bits k (i + 1) w) (push_lem t1 (mark_of w i) (omega arith) p q)
    ∙ push_bits_lem k (i + 1) w t2 (omega arith)
    ∙ append_assoc t1 (mark_of w i ∷ []) (pulses k (i + 1) w)
    ∙ append_assoc t (space ∷ []) (mark_of w i ∷ pulses k (i + 1) w)

-- What a capture says of bit `j`.
record Heard (t : List ℕ) (w j : ℕ) : Type 0 where
  gap : Near (at t (1 + 2 * j)) space
  mark : Near (at t (2 + 2 * j)) (mark_of w j)

read_bit_lem :
    (j : ℕ) (t : List ℕ) (w : ℕ) → Heard t w j → read_bit j t ≡ some (bit_and (w / 2 ^ j) 1 != 0)
unfolding read_bit
read_bit_lem j t w h = elim (Bool-cases (bit_and (w / 2 ^ j) 1 != 0)) [
  | inl e ↦ let s : Near (at t (2 + 2 * j)) one_mark = rw e at h.mark in ground (arith, h.gap, s)
  | inr e ↦ let s : Near (at t (2 + 2 * j)) zero_mark = rw e at h.mark in ground (arith, h.gap, s)
]

read_bits_lem :
    (k i n : ℕ) (t : List ℕ) (v w : ℕ)
    → n ≡ i + k
    → ((j : ℕ) → i ≤ j → j < n → Heard t v j)
    → w ≡ v % 2 ^ i
    → read_bits k i t w ≡ some (v % 2 ^ n)
unfolding read_bits
read_bits_lem zero i n t v w e h q = ap some (q ∙ ap (λ (m : ℕ). v % 2 ^ m) (omega arith))
read_bits_lem (suc k) i n t v w e h q =
    let next = λ (o : Option Bool). elim o as (λ _. Option ℕ) [
      | none ↦ none
      | some one ↦ read_bits k (i + 1) t (if one then bit_or w (1 * 2 ^ i) else w)
    ] in
    ap next (read_bit_lem i t v (h i (omega arith) (omega arith)))
    ∙ read_bits_lem k (i + 1) n t v _ (omega arith) (λ j p r. h j (omega arith) r)
        (next_word v i w q)

pulses_at :
    (k i w j : ℕ)
    → j < k
    → (get_or (pulses k i w) (2 * j) 0 ≡ space)
      × (get_or (pulses k i w) (2 * j + 1) 0 ≡ mark_of w (i + j))
pulses_at zero i w j h = absurd (omega arith)
pulses_at (suc k) i w zero h = (refl, ap (mark_of w) {x = i} (omega arith))
pulses_at (suc k) i w (suc j) h =
    let (a, b) = pulses_at k (i + 1) w j (omega arith) in
    let l = pulses (suc k) i w in
    (
      ap (λ (n : ℕ). get_or l n 0) {x = 2 * suc j} {y = suc (suc (2 * j))} (omega arith) ∙ a,
      ap (λ (n : ℕ). get_or l n 0) {x = 2 * suc j + 1} {y = suc (suc (2 * j + 1))} (omega arith)
          ∙ b
          ∙ ap (mark_of w) {x = i + 1 + j} (omega arith),
    )

abbrev sent : ℕ → ℕ → List ℕ
sent bits w = start_mark ∷ pulses bits 0 w

encode_bits : (bits w : ℕ) → bits ≤ 20 → push_bits bits 0 w (push [] start_mark) ≡ sent bits w
encode_bits bits w h =
    ap (push_bits bits 0 w) (push_lem [] start_mark (omega arith) (omega arith) (omega arith))
    ∙ push_bits_lem bits 0 w (start_mark ∷ []) (omega arith)

Close-Heard : (bits : ℕ) (t : List ℕ) (w j : ℕ) → Close t (sent bits w) → j < bits → Heard t w j
Close-Heard bits t w j c h =
    let (a, b) = pulses_at bits 0 w j h in
    record {
      gap =
          subst (Near (at t (1 + 2 * j)))
            (ap (λ (n : ℕ). get_or (sent bits w) n 0) {x = 1 + 2 * j} {y = suc (2 * j)}
                (omega arith)
              ∙ a)
            (c.near (1 + 2 * j));
      mark =
          subst (Near (at t (2 + 2 * j)))
            (ap (λ (n : ℕ). get_or (sent bits w) n 0) {x = 2 + 2 * j} {y = suc (2 * j + 1)}
                (omega arith)
              ∙ b
              ∙ ap (mark_of w) {x = 0 + j} (omega arith))
            (c.near (2 + 2 * j));
    }

read_sent :
    (bits : ℕ) (t : List ℕ) (w : ℕ)
    → w < 2 ^ bits
    → Close t (sent bits w)
    → read_bits bits 0 t 0 ≡ some (w % 2 ^ bits)
read_sent bits t w h c =
    read_bits_lem bits 0 bits t w 0 (omega arith) (λ j p q. Close-Heard bits t w j c q)
      (omega arith)

pub data IsSirc : Protocol → Type 0 where
  twelve : IsSirc sirc12
  fifteen : IsSirc sirc15
  twenty : IsSirc sirc20

-- A frame that fits the bits of its variant.
abbrev pub sirc_frame : Protocol → ℕ → ℕ → Frame
sirc_frame p a c = record { protocol = p; address = a; command = c; repeat = false; toggle = 0 }

frame_word_lem : (p : Protocol) (a c : ℕ) → c ≤ 127 → frame_word (sirc_frame p a c) ≡ c + a * 128
frame_word_lem p a c h = bit_or_high 7 c a (omega arith)

frame_of_lem :
    (p : Protocol) (a c : ℕ)
    → c ≤ 127
    → a < 8192
    → frame_of p (some (c + a * 128)) ≡ some (sirc_frame p a c)
frame_of_lem p a c h l =
    let e : (c + a * 128) / 2 ^ 7 % 2 ^ 16 ≡ a = omega arith in
    let q : bit_and (c + a * 128) 0x7f % 2 ^ 16 ≡ c = omega (arith, bit_and_low 7 (c + a * 128)) in
    ap (λ x. some (sirc_frame p x (bit_and (c + a * 128) 0x7f % 2 ^ 16))) e
    ∙ ap (λ x. some (sirc_frame p a x)) q

decode_as_lem :
    (p : Protocol) (a c : ℕ) (t : List ℕ)
    → c ≤ 127
    → a < 8192
    → c + a * 128 < 2 ^ bits_of p
    → Close t (sent (bits_of p) (c + a * 128))
    → decode_as (some p) t ≡ some (sirc_frame p a c)
decode_as_lem p a c t h l w heard =
    let w' = c + a * 128 in
    let m = matches-Near (at t 0) start_mark (omega arith) (heard.near 0) in
    let small : w' % 2 ^ bits_of p ≡ w' = mod-eq_of_lt w in
    rw m (
      ap (frame_of p) (read_sent (bits_of p) t w' w heard ∙ ap some small) ∙ frame_of_lem p a c h l)

decoded :
    (p : Protocol) (a c : ℕ) (t : List ℕ)
    → IsSirc p
    → c ≤ 127
    → a < 2 ^ (bits_of p - 7)
    → Close t (sent (bits_of p) (c + a * 128))
    → decode t ≡ some (sirc_frame p a c)
unfolding decode
decoded p a c t twelve h l heard =
    let n : length t ≡ 25 = heard.same_length in
    ap (λ k. decode_as (variant k) t) n
    ∙ decode_as_lem sirc12 a c t h (omega arith) (omega arith) heard
decoded p a c t fifteen h l heard =
    let n : length t ≡ 31 = heard.same_length in
    ap (λ k. decode_as (variant k) t) n
    ∙ decode_as_lem sirc15 a c t h (omega arith) (omega arith) heard
decoded p a c t twenty h l heard =
    let n : length t ≡ 41 = heard.same_length in
    ap (λ k. decode_as (variant k) t) n
    ∙ decode_as_lem sirc20 a c t h (omega arith) (omega arith) heard

few_bits : {p : Protocol} → IsSirc p → bits_of p ≤ 20
few_bits twelve = omega arith
few_bits fifteen = omega arith
few_bits twenty = omega arith

encoded :
    (p : Protocol) (a c : ℕ)
    → IsSirc p
    → c ≤ 127
    → a < 2 ^ (bits_of p - 7)
    → encode (sirc_frame p a c) ≡ (ok, sent (bits_of p) (c + a * 128))
unfolding encode
encoded p a c i h l =
    let x : ltb 0x7f c ≡ false = ground arith in
    let y : ltb (1 * 2 ^ (bits_of p - 7) - 1) a ≡ false = ground arith in
    let w = frame_word_lem p a c h in
    rw (x, y)
      (ap (λ l. (ok, l))
        (ap (λ v. push_bits (bits_of p) 0 v (push [] start_mark)) w
          ∙ encode_bits (bits_of p) (c + a * 128) (few_bits i)))

-- Every SIRC frame of 12, 15 or 20 bits whose command and address fit is encoded, and a capture of it
-- decodes to it as long as no duration is off by more than 60 us.
pub decode-encode_sirc :
    (p : Protocol) (a c : ℕ) (t : List ℕ)
    → IsSirc p
    → c ≤ 127
    → a < 2 ^ (bits_of p - 7)
    → Close t (encode (sirc_frame p a c)).1
    → ((encode (sirc_frame p a c)).0 ≡ ok) × (decode t ≡ some (sirc_frame p a c))
decode-encode_sirc p a c t i h l heard =
    let e = encoded p a c i h l in
    (ap (λ r. r.0) e, decoded p a c t i h l (subst (λ r. Close t r.1) e heard))
