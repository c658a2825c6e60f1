-- ===== src/Ir/Nec/RoundTrip.antt =====
-- A receiver reads back what the encoder sent, however its durations are quantised.
use stark_one.Base.{
  ℕ, zero, suc, ◌+◌, ◌-◌, ◌*◌, ◌/◌, ◌%◌, ◌^◌, ◌≤◌, ◌<◌, ◌≡◌, refl, sym, ap, subst, ◌∙◌, bit_and,
  bit_or, Bool, true, false, ◌&&◌, ◌||◌, ◌==◌, ==→eq, ==→ne, ◌≢◌, ◌⊎◌, Option, none, some, List, [],
  ◌∷◌, ◌++◌, append_assoc, append-nil, length, length-append, get_or, ltb, ◌!=◌, Bool-cases, inl,
  inr, if◌then◌else◌, arith,
}
use stark_one.Err.{ok}
use stark_one.Ir.{Protocol, Frame, nec, necx, push, max_durations}
use stark_one.Ir.Push.{push_lem, next_word}
use stark_one.Ir.Match.{Near, Close, matches-Near}
use stark_one.Ir.Nec.{
  lead_mark, lead_space, repeat_space, bit_mark, one_space, zero_space, at, push_bits, encode,
  read_bit, read_bits, is_repeat, decode, frame_word, read_word, repeat_frame, is_nec, inverted,
}
use stark_one.Ir.Nec.Word.{
  packed, frame_word-standard, frame_word-extended, read_word-standard, read_word-extended,
}

abbrev pub space_of : ℕ → ℕ → ℕ
space_of w i = if bit_and (w / 2 ^ i) 1 != 0 then one_space else zero_space

-- marks and spaces of `k` bits from the `i`-th on
abbrev pub pulses : ℕ → ℕ → ℕ → List ℕ
pulses zero i w = []
pulses (suc k) i w = bit_mark ∷ space_of w i ∷ pulses k (i + 1) w

space_of-in : (w i : ℕ) → (0 < space_of w i) × (space_of w i ≤ 65535)
space_of-in w i = ground arith

push_bits_lem :
    (k i w : ℕ) (t : List ℕ)
    → length t + 2 * k ≤ max_durations
    → push_bits k i w t ≡ t ++ pulses k i w
unfolding push_bits
push_bits_lem zero i w t h = sym (append-nil t)
push_bits_lem (suc k) i w t h =
    let (p, q) = space_of-in w i in
    let t1 = t ++ (bit_mark ∷ []) in
    let t2 = t1 ++ (space_of w i ∷ []) in
    let l1 = length-append t (bit_mark ∷ []) in
    let l2 = length-append t1 (space_of w i ∷ []) in
    ap (λ l. push_bits k (i + 1) w (push l (space_of w i)))
      (push_lem t bit_mark (omega arith) (omega arith) (omega arith))
    ∙ ap (push_bits k (i + 1) w) (push_lem t1 (space_of w i) (omega arith) p q)
    ∙ push_bits_lem k (i + 1) w t2 (omega arith)
    ∙ append_assoc t1 (space_of w i ∷ []) (pulses k (i + 1) w)
    ∙ append_assoc t (bit_mark ∷ []) (space_of w i ∷ pulses k (i + 1) w)

-- What a capture says of bit `j`.
record Heard (t : List ℕ) (w j : ℕ) : Type 0 where
  mark : Near (at t (2 + 2 * j)) bit_mark
  space : Near (at t (3 + 2 * j)) (space_of w j)

read_bit_lem :
    (j : ℕ) (t : List ℕ) (w : ℕ) → Heard t w j → read_bit j t ≡ some (bit_and (w / 2 ^ j) 1 != 0)
unfolding read_bit
read_bit_lem j t w h = elim (Bool-cases (bit_and (w / 2 ^ j) 1 != 0)) [
  | inl e ↦ let s : Near (at t (3 + 2 * j)) one_space = rw e at h.space in ground (arith, h.mark, s)
  | inr e ↦
      let s : Near (at t (3 + 2 * j)) zero_space = rw e at h.space in ground (arith, h.mark, s)
]

read_bits_lem :
    (k i n : ℕ) (t : List ℕ) (v w : ℕ)
    → n ≡ i + k
    → ((j : ℕ) → i ≤ j → j < n → Heard t v j)
    → w ≡ v % 2 ^ i
    → read_bits k i t w ≡ some (v % 2 ^ n)
unfolding read_bits
read_bits_lem zero i n t v w e h q = ap some (q ∙ ap (λ (m : ℕ). v % 2 ^ m) (omega arith))
read_bits_lem (suc k) i n t v w e h q =
    let b = read_bit_lem i t v (h i (omega arith) (omega arith)) in
    ap
      (λ (o : Option Bool). elim o [
        | none ↦ none
        | some one ↦ read_bits k (i + 1) t (if one then bit_or w (1 * 2 ^ i) else w)
      ])
      b
    ∙ read_bits_lem k (i + 1) n t v _ (omega arith) (λ j p r. h j (omega arith) r)
        (next_word v i w q)

pub pulses_at :
    (k i w j : ℕ) (rest : List ℕ)
    → j < k
    → (get_or (pulses k i w ++ rest) (2 * j) 0 ≡ bit_mark)
      × (get_or (pulses k i w ++ rest) (2 * j + 1) 0 ≡ space_of w (i + j))
pulses_at zero i w j rest h = absurd (omega arith)
pulses_at (suc k) i w zero rest h = (refl, ap (space_of w) {x = i} (omega arith))
pulses_at (suc k) i w (suc j) rest h =
    let (a, b) = pulses_at k (i + 1) w j rest (omega arith) in
    let l = pulses (suc k) i w ++ rest in
    (
      ap (λ (n : ℕ). get_or l n 0) {x = 2 * suc j} {y = suc (suc (2 * j))} (omega arith) ∙ a,
      ap (λ (n : ℕ). get_or l n 0) {x = 2 * suc j + 1} {y = suc (suc (2 * j + 1))} (omega arith)
          ∙ b
          ∙ ap (space_of w) {x = i + 1 + j} (omega arith),
    )

abbrev pub sent : ℕ → List ℕ
sent w = lead_mark ∷ lead_space ∷ (pulses 32 0 w ++ (bit_mark ∷ []))

pub encode_bits :
    (w : ℕ) → push (push_bits 32 0 w (push (push [] lead_mark) lead_space)) bit_mark ≡ sent w
encode_bits w =
    ap (λ t. push (push_bits 32 0 w (push t lead_space)) bit_mark)
      (push_lem [] lead_mark (omega arith) (omega arith) (omega arith))
    ∙ ap (λ t. push (push_bits 32 0 w t) bit_mark)
        (push_lem (lead_mark ∷ []) lead_space (omega arith) (omega arith) (omega arith))
    ∙ ap (λ t. push t bit_mark) (push_bits_lem 32 0 w (lead_mark ∷ lead_space ∷ []) (omega arith))
    ∙ push_lem (lead_mark ∷ lead_space ∷ pulses 32 0 w) bit_mark (omega arith) (omega arith)
        (omega arith)

Close-Heard : (t : List ℕ) (w j : ℕ) → Close t (sent w) → j < 32 → Heard t w j
Close-Heard t w j c h =
    let (a, b) = pulses_at 32 0 w j (bit_mark ∷ []) h in
    record {
      mark =
          subst (Near (at t (2 + 2 * j)))
            (ap (λ (n : ℕ). get_or (sent w) n 0) {x = 2 + 2 * j} {y = suc (suc (2 * j))}
                (omega arith)
              ∙ a)
            (c.near (2 + 2 * j));
      space =
          subst (Near (at t (3 + 2 * j)))
            (ap (λ (n : ℕ). get_or (sent w) n 0) {x = 3 + 2 * j} {y = suc (suc (2 * j + 1))}
                (omega arith)
              ∙ b
              ∙ ap (space_of w) {x = 0 + j} (omega arith))
            (c.near (3 + 2 * j));
    }

decode-sent : (v : ℕ) (t : List ℕ) → v < 2 ^ 32 → Close t (sent v) → decode t ≡ read_word v
unfolding decode is_repeat
decode-sent v t h c =
    let n : length t ≡ 67 = c.same_length in
    let r = read_bits_lem 32 0 32 t v 0 refl (λ j p q. Close-Heard t v j c q) (omega arith) in
    let m0 = matches-Near (at t 0) lead_mark (omega arith) (c.near 0) in
    let m1 = matches-Near (at t 1) lead_space (omega arith) (c.near 1) in
    let m66 = matches-Near (at t 66) bit_mark (omega arith) (c.near 66) in
    rw (n, m0, m1, m66, r) (ap read_word (omega arith))

-- The frame of a repeat code.
decode_again :
    (t : List ℕ) → Close t (lead_mark ∷ repeat_space ∷ bit_mark ∷ []) → decode t ≡ some repeat_frame
unfolding decode is_repeat
decode_again t c =
    let n : length t ≡ 3 = c.same_length in
    let m0 = matches-Near (at t 0) lead_mark (omega arith) (c.near 0) in
    let m1 = matches-Near (at t 1) repeat_space (omega arith) (c.near 1) in
    let m2 = matches-Near (at t 2) bit_mark (omega arith) (c.near 2) in rw (n, m0, m1, m2) refl

push_again :
    push (push (push [] lead_mark) repeat_space) bit_mark ≡ lead_mark ∷ repeat_space ∷ bit_mark ∷ []
unfolding push
push_again = refl

packed-bound : (addr c : ℕ) → addr < 65536 → c ≤ 255 → packed addr c < 2 ^ 32
packed-bound addr c p q = omega arith

decode_word :
    (f : Frame) (t : List ℕ) (v : ℕ) (g : Frame)
    → v < 2 ^ 32
    → frame_word f ≡ v
    → read_word v ≡ some g
    → Close t (push (push_bits 32 0 (frame_word f) (push (push [] lead_mark) lead_space)) bit_mark)
    → decode t ≡ some g
decode_word f t v g h e r c =
    decode-sent v t h (subst (Close t) (encode_bits (frame_word f) ∙ ap sent e) c) ∙ r

-- the fields that the encoder takes
pub record Fits (f : Frame) : Type 0 where
  pub command_in : f.command ≤ 255
  pub address_in : f.address < 65536
  pub nec_in : is_nec f.protocol ≡ true → f.address ≤ 255

-- What a receiver makes of a frame: a repeat code carries nothing, and an extended address whose
-- bytes are complements is that of a standard frame.
pub heard_as : Frame → Frame
heard_as f =
    if f.repeat
    then repeat_frame
    else if is_nec f.protocol
    then record {
      protocol = nec;
      address = f.address;
      command = f.command;
      repeat = false;
      toggle = 0;
    }
    else if f.address % 256 + f.address / 256 == 255
    then record {
      protocol = nec;
      address = f.address % 256;
      command = f.command;
      repeat = false;
      toggle = 0;
    }
    else record {
      protocol = necx;
      address = f.address;
      command = f.command;
      repeat = false;
      toggle = 0;
    }

not_repeat : (f : Frame) → f.repeat ≡ false → (f.repeat ≡ true) ⊎ Fits f → Fits f
not_repeat f r (inl t) = absurd (ground arith)
not_repeat f r (inr v) = v

frame_word_as :
    (f : Frame) (p : Protocol)
    → (if is_nec f.protocol then bit_or f.address (inverted f.address * 2 ^ 8) else f.address)
      ≡ (if is_nec p then bit_or f.address (inverted f.address * 2 ^ 8) else f.address)
    → frame_word f
      ≡ frame_word (record {
        protocol = p;
        address = f.address;
        command = f.command;
        repeat = false;
        toggle = 0;
      })
unfolding frame_word
frame_word_as f p e =
    ap (λ (x : ℕ). bit_or (bit_or x (f.command * 2 ^ 16)) (inverted f.command * 2 ^ 24)) e

-- the word of any frame is that of the frame with its protocol's fields alone
frame_word-nec :
    (f : Frame)
    → is_nec f.protocol ≡ true
    → f.address ≤ 255
    → f.command ≤ 255
    → frame_word f ≡ packed (f.address + (255 - f.address) * 256) f.command
frame_word-nec f e p q =
    frame_word_as f nec
      (ap (λ b. if b then bit_or f.address (inverted f.address * 2 ^ 8) else f.address) e)
    ∙ frame_word-standard f.address f.command p q

frame_word-other :
    (f : Frame)
    → is_nec f.protocol ≡ false
    → f.address < 65536
    → f.command ≤ 255
    → frame_word f ≡ packed f.address f.command
frame_word-other f e p q =
    frame_word_as f necx
      (ap (λ b. if b then bit_or f.address (inverted f.address * 2 ^ 8) else f.address) e)
    ∙ frame_word-extended f.address f.command p q

decode-nec :
    (f : Frame) (t : List ℕ)
    → is_nec f.protocol ≡ true
    → f.address ≤ 255
    → f.command ≤ 255
    → Close t (push (push_bits 32 0 (frame_word f) (push (push [] lead_mark) lead_space)) bit_mark)
    → decode t
      ≡ some (record {
        protocol = nec;
        address = f.address;
        command = f.command;
        repeat = false;
        toggle = 0;
      })
decode-nec f t e p q c =
    decode_word f t (packed (f.address + (255 - f.address) * 256) f.command) _
      (packed-bound _ f.command (omega arith) q) (frame_word-nec f e p q)
      (read_word-standard f.address f.command p q) c

decode-complement :
    (f : Frame) (t : List ℕ)
    → is_nec f.protocol ≡ false
    → f.address < 65536
    → f.address % 256 + f.address / 256 ≡ 255
    → f.command ≤ 255
    → Close t (push (push_bits 32 0 (frame_word f) (push (push [] lead_mark) lead_space)) bit_mark)
    → decode t
      ≡ some (record {
        protocol = nec;
        address = f.address % 256;
        command = f.command;
        repeat = false;
        toggle = 0;
      })
decode-complement f t e p s q c =
    let a = f.address % 256 in
    let whole : f.address ≡ a + (255 - a) * 256 = omega arith in
    decode_word f t (packed (a + (255 - a) * 256) f.command) _
      (packed-bound _ f.command (omega arith) q)
      (frame_word-other f e p q ∙ ap (λ (x : ℕ). packed x f.command) whole)
      (read_word-standard a f.command (omega arith) q) c

decode-extended :
    (f : Frame) (t : List ℕ)
    → is_nec f.protocol ≡ false
    → f.address < 65536
    → f.address % 256 + f.address / 256 ≢ 255
    → f.command ≤ 255
    → Close t (push (push_bits 32 0 (frame_word f) (push (push [] lead_mark) lead_space)) bit_mark)
    → decode t
      ≡ some (record {
        protocol = necx;
        address = f.address;
        command = f.command;
        repeat = false;
        toggle = 0;
      })
decode-extended f t e p n q c =
    decode_word f t (packed f.address f.command) _ (packed-bound f.address f.command p q)
      (frame_word-other f e p q) (read_word-extended f.address f.command p n q) c

decode-heard_as :
    (f : Frame) (t : List ℕ)
    → f.repeat ≡ false
    → Fits f
    → Close t (push (push_bits 32 0 (frame_word f) (push (push [] lead_mark) lead_space)) bit_mark)
    → decode t ≡ some (heard_as f)
unfolding heard_as
decode-heard_as f t r v c = elim (Bool-cases (is_nec f.protocol)) [
  | inl e ↦ simp (r, e) (decode-nec f t e (v.nec_in e) v.command_in c)
  | inr e ↦ elim (Bool-cases (f.address % 256 + f.address / 256 == 255)) [
    | inl s ↦ simp (r, e, s) (decode-complement f t e v.address_in (==→eq _ _ s) v.command_in c)
    | inr s ↦ simp (r, e, s) (decode-extended f t e v.address_in (==→ne _ _ s) v.command_in c)
  ]
]

accepted :
    (f : Frame) → Fits f → (ltb 0xff f.command || (is_nec f.protocol && ltb 0xff f.address)) ≡ false
accepted f v = ground (arith, v.command_in, v.nec_in)

-- The encoder sends every repeat frame and every frame with a command of 8 bits, an address of 16 and,
-- for plain NEC, of 8; and a capture of it in which no duration is off by more than 60 us decodes to
-- that frame, without its toggle, as NECX if it is not NEC. The exceptions are those of the protocol: a
-- repeat code decodes to the empty repeat frame, and an extended address whose two bytes are
-- complements decodes as plain NEC with the low byte.
pub decode-encode :
    (f : Frame) (t : List ℕ)
    → (f.repeat ≡ true) ⊎ Fits f
    → Close t (encode f).1
    → ((encode f).0 ≡ ok) × (decode t ≡ some (heard_as f))
unfolding encode heard_as
decode-encode f t v c = elim (Bool-cases f.repeat) [
  | inl r ↦
      let c' : Close t (push (push (push [] lead_mark) repeat_space) bit_mark) = simp r at c in
      simp r (refl, decode_again t (subst (Close t) push_again c'))
  | inr r ↦
      let v' = not_repeat f r v in
      let a = accepted f v' in
      let c' : Close t
          (push (push_bits 32 0 (frame_word f) (push (push [] lead_mark) lead_space)) bit_mark) =
        simp (r, a) at c in
      let h = decode-heard_as f t r v' c' in (simp (r, a) refl, h)
]
