-- ===== src/Nfc/Frame.antt =====
-- components/stark_nfc/pn532_frame.c: the frames between the host and the PN532.
pub mod RoundTrip
use stark_one.Base.{
  ℕ, zero, suc, ◌+◌, ◌-◌, ◌%◌, Bool, true, false, ◌&&◌, ◌||◌, not, Option, none, some, List, [],
  ◌∷◌, ◌++◌, length, get_or, take, drop, ltb, ◌==◌, ◌!=◌, if◌then◌else◌,
}
use stark_one.Err.{Err, ok, invalid_arg, not_supported, io}

-- `pn532_rx_t`; DATA carries the TFI and the bytes after it.
pub data Rx : Type 0 where
  ack nack app_error : Rx
  data_frame : List ℕ → Rx

-- PN532_DATA_MAX
abbrev pub data_max : ℕ
data_max = 254

-- PN532_FRAME_OVERHEAD
abbrev pub frame_overhead : ℕ
frame_overhead = 7

-- PN532_TFI_HOST
abbrev pub tfi_host : ℕ
tfi_host = 0xd4

-- the sum of bytes in a `uint8_t`
pub sum_bytes : ℕ → List ℕ → ℕ
sum_bytes sum [] = sum
sum_bytes sum (b ∷ bs) = sum_bytes ((sum + b) % 256) bs

-- The bytes written to `out`, none if the call returns 0.
pub build : ℕ → List ℕ → ℕ → List ℕ
unfolding sum_bytes
build cmd params room =
    if ltb (data_max - 2) (length params) || ltb room (length params + 2 + frame_overhead)
    then []
    else (let len = (length params + 2) % 256 in
        let sum = sum_bytes ((tfi_host + cmd) % 256) params in
        0
        ∷ 0
        ∷ 0xff
        ∷ len
        ∷ ((0x100 - len) % 256)
        ∷ tfi_host
        ∷ cmd
        ∷ (params ++ (((0x100 - sum) % 256) ∷ 0 ∷ [])))

abbrev pub byte : List ℕ → ℕ → ℕ
byte buf i = get_or buf i 0

-- `memcmp` with the six bytes of PN532_ACK or PN532_NACK
abbrev pub is_ack : List ℕ → Bool
is_ack b =
    byte b 0 == 0
    && byte b 1 == 0
    && byte b 2 == 0xff
    && byte b 3 == 0
    && byte b 4 == 0xff
    && byte b 5 == 0

abbrev pub is_nack : List ℕ → Bool
is_nack b =
    byte b 0 == 0
    && byte b 1 == 0
    && byte b 2 == 0xff
    && byte b 3 == 0xff
    && byte b 4 == 0
    && byte b 5 == 0

-- What follows the tests of the length.
pub parse_body : List ℕ → ℕ → Err × Option Rx
parse_body buf n =
    if sum_bytes 0 (take (n + 1) (drop 5 buf)) != 0
    then (io, none)
    else if byte buf (6 + n) != 0
    then (invalid_arg, none)
    else if n == 1 && byte buf 5 == 0x7f
    then (ok, some app_error)
    else (ok, some (data_frame (take n (drop 5 buf))))

-- `buf` has `len` bytes; the kind and the data are one result.
pub parse : List ℕ → Err × Option Rx
parse buf =
    if ltb (length buf) 6 || byte buf 0 != 0 || byte buf 1 != 0 || byte buf 2 != 0xff
    then (invalid_arg, none)
    else if is_ack buf
    then (ok, some ack)
    else if is_nack buf
    then (ok, some nack)
    else if byte buf 3 == 0xff && byte buf 4 == 0xff
    then (not_supported, none)
    else if (byte buf 3 + byte buf 4) % 256 != 0 || byte buf 3 == 0
    then (io, none)
    else if ltb (length buf) (byte buf 3 + frame_overhead)
    then (invalid_arg, none)
    else parse_body buf (byte buf 3)
