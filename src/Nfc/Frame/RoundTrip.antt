-- ===== src/Nfc/Frame/RoundTrip.antt =====
-- A frame that was built is read back, whatever follows it in the buffer.
use stark_one.Base.{
  ℕ, ◌+◌, ◌-◌, ◌%◌, ◌≤◌, ◌<◌, ◌≡◌, refl, sym, ap, ◌∙◌, false, some, List, [], ◌∷◌, ◌++◌,
  append_assoc, length, length-append, get_or-append, take, take_all, take-append, drop, ltb, ◌==◌,
  ◌!=◌, arith,
}
use stark_one.Err.{ok}
use stark_one.Nfc.Frame.{data_frame, tfi_host, sum_bytes, build, byte, parse_body, parse}

sum_bytes-in : (s : ℕ) (bs : List ℕ) → s < 256 → sum_bytes s bs < 256
unfolding sum_bytes
sum_bytes-in s [] h = h
sum_bytes-in s (b ∷ bs) h = sum_bytes-in ((s + b) % 256) bs (omega arith)

sum_bytes-append : (s : ℕ) (xs ys : List ℕ) → sum_bytes s (xs ++ ys) ≡ sum_bytes (sum_bytes s xs) ys
unfolding sum_bytes
sum_bytes-append s [] ys = refl
sum_bytes-append s (x ∷ xs) ys = sum_bytes-append ((s + x) % 256) xs ys

take_prefix : (k : ℕ) (xs ys : List ℕ) → k ≡ length xs → take k (xs ++ ys) ≡ xs
take_prefix k xs ys h = take-append k xs ys (omega arith) ∙ take_all k xs (omega arith)

module _ (cmd : ℕ) (params : List ℕ) (room : ℕ) (rest : List ℕ) (small : length params ≤ 252)
    (fits : length params + 9 ≤ room) where
  n : ℕ
  n = length params + 2

  content : List ℕ
  content = tfi_host ∷ cmd ∷ params

  check_byte : ℕ
  check_byte = (0x100 - sum_bytes ((tfi_host + cmd) % 256) params) % 256

  head : List ℕ
  unfolding n
  head = 0 ∷ 0 ∷ 0xff ∷ n ∷ (256 - n) ∷ []

  frame : List ℕ
  unfolding head content check_byte
  frame = head ++ (content ++ (check_byte ∷ 0 ∷ rest))

  built : build cmd params room ++ rest ≡ frame
  unfolding frame build n head content check_byte
  built =
      let a : ltb 252 (length params) ≡ false = ground arith in
      let b : ltb room (length params + 2 + 7) ≡ false = ground arith in
      let c : (length params + 2) % 256 ≡ length params + 2 = omega arith in
      let d : (256 - (length params + 2)) % 256 ≡ 256 - (length params + 2) = omega arith in
      rw (a, b, c, d)
        (ap (λ l. head ++ (tfi_host ∷ cmd ∷ l)) (append_assoc params (check_byte ∷ 0 ∷ []) rest))

  summed : sum_bytes 0 (take (n + 1) (drop 5 frame)) ≡ 0
  unfolding frame sum_bytes content head check_byte n
  summed =
      let t =
        take_prefix (n + 1) (content ++ (check_byte ∷ [])) (0 ∷ rest)
          (omega (arith, length-append params (check_byte ∷ []))) in
      let l = ap (λ l. tfi_host ∷ cmd ∷ l) (append_assoc params (check_byte ∷ []) (0 ∷ rest)) in
      let s = sum_bytes-in ((tfi_host + cmd) % 256) params (omega arith) in
      ap (λ l. sum_bytes 0 (take (n + 1) l)) (sym l)
      ∙ ap (sum_bytes 0) t
      ∙ sum_bytes-append 0 content (check_byte ∷ [])
      ∙ omega arith

  last_byte : byte frame (6 + n) ≡ 0
  unfolding frame content head n
  last_byte =
      let p = head ++ (content ++ (check_byte ∷ [])) in
      let l =
        ap (λ l. head ++ (tfi_host ∷ cmd ∷ l)) (append_assoc params (check_byte ∷ []) (0 ∷ rest)) in
      ap (λ l. byte l (6 + n)) (sym l)
      ∙ ap (byte (p ++ (0 ∷ rest))) {y = 6 + n + 0} (omega arith)
      ∙ get_or-append p (0 ∷ rest) 0 (6 + n) 0
          (omega (arith, length-append params (check_byte ∷ [])))

  data_read : take n (drop 5 frame) ≡ content
  unfolding frame content head n
  data_read = take_prefix n content (check_byte ∷ 0 ∷ rest) (omega arith)

  length-frame : length frame ≡ n + 7 + length rest
  unfolding frame content head n
  length-frame = omega (arith, length-append params (check_byte ∷ 0 ∷ rest))

  n_range : (2 ≤ n) × (n ≤ 254)
  unfolding n
  n_range = (omega arith, omega arith)

  body_read : parse_body frame n ≡ (ok, some (data_frame content))
  unfolding parse_body
  body_read =
      let (low, high) = n_range in
      let one : (n == 1) ≡ false = ground arith in rw (summed, last_byte, one, data_read) refl

  frame_read : parse frame ≡ (ok, some (data_frame content))
  unfolding parse frame head
  frame_read =
      let (low, high) = n_range in
      let long : ltb (length frame) 6 ≡ false = ground (arith, length-frame) in
      let whole : ltb (length frame) (n + 7) ≡ false = ground (arith, length-frame) in
      let zero_not : (n == 0) ≡ false = ground arith in
      let full_not : (n == 0xff) ≡ false = ground arith in
      let sum : ((n + (256 - n)) % 256 != 0) ≡ false = ground arith in
      rw (long, zero_not, full_not, sum, whole) body_read

  -- A frame built for a command that fits has nine bytes more than its parameters, and at the front of
  -- any buffer parses to the host's TFI, the command and the parameters.
  pub parse-build :
      (length (build cmd params room) ≡ length params + 9)
      × (parse (build cmd params room ++ rest) ≡ (ok, some (data_frame (tfi_host ∷ cmd ∷ params))))
  unfolding content n
  parse-build = (
    omega (arith, length-append (build cmd params room) rest, ap length built, length-frame),
    ap parse built ∙ frame_read,
  )
