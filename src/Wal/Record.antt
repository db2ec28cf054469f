-- ===== src/Wal/Record.antt =====
-- pkg/wal/record.go: one record is [length: uint32][crc32: uint32][payload].
pub mod RoundTrip
pub mod Torn
pub mod Inversion
use Prim.Native.Nat.{bit_xor}
use nile.Prelude.{
  ℕ, zero, suc, ◌+◌, ◌*◌, ◌/◌, ◌%◌, Bytes, u32, length, take, drop, ltb, ◌==◌, if◌then◌else◌, Bool,
  true, false, List, [], ◌∷◌, ◌++◌,
}

-- The errors that the log reports. The context that `fmt.Errorf` adds is left out.
pub data Error : Type 0 where
  corrupt_record truncated record_too_large : Error
  closed no_messages index_inconsistency invalid_snapshot : Error
  -- a system call or a library call failed
  io : Error
  -- a Go runtime panic (index out of range)
  panic : Error
  -- no Go value: the fuel of a loop ran out
  out_of_fuel : Error

abbrev pub header_size : ℕ
header_size = 8

abbrev pub max_record_payload : ℕ
max_record_payload = 67108864

-- binary.LittleEndian.PutUint32 and Uint32
abbrev pub put_uint32 : ℕ → Bytes
put_uint32 v = (v % 256) ∷ (v / 256 % 256) ∷ (v / 65536 % 256) ∷ (v / 16777216 % 256) ∷ []

abbrev pub uint32 : Bytes → ℕ
uint32 (a ∷ b ∷ c ∷ d ∷ _) = a + b * 256 + c * 65536 + d * 16777216
uint32 _ = 0

-- hash/crc32, the IEEE polynomial, bit by bit.
crc_bits : ℕ → ℕ → ℕ
crc_bits zero c = c
crc_bits (suc n) c = crc_bits n (if c % 2 == 1 then bit_xor (c / 2) 0xedb88320 else c / 2)

crc_bytes : ℕ → Bytes → ℕ
crc_bytes c [] = c
crc_bytes c (b ∷ bs) = crc_bytes (crc_bits 8 (bit_xor c b)) bs

unfoldable pub checksum_ieee : Bytes → ℕ
unfolding crc_bytes crc_bits
checksum_ieee payload = u32 (bit_xor (crc_bytes 0xffffffff payload) 0xffffffff)

-- The bytes that encodeRecord hands to a single Write call.
unfoldable pub encode_record : Bytes → Bytes
encode_record payload =
    put_uint32 (u32 (length payload)) ++ (put_uint32 (checksum_ieee payload) ++ payload)

-- io.ReadFull on a reader that has the given bytes left.
pub data ReadFull : Type 0 where
  full : Bytes → Bytes → ReadFull
  eof unexpected_eof : ReadFull

unfoldable pub read_full : ℕ → Bytes → ReadFull
read_full zero src = full [] src
read_full (suc n) [] = eof
read_full (suc n) (b ∷ src) =
    if ltb (length src) n
    then unexpected_eof
    else full (take (suc n) (b ∷ src)) (drop (suc n) (b ∷ src))

-- What decodeRecord returns, with the bytes that the reader has left after a record.
pub data Decoded : Type 0 where
  payload : Bytes → Bytes → Decoded
  end_of_file : Decoded
  failed : Error → Decoded

unfoldable pub check_payload : ℕ → ReadFull → Decoded
check_payload checksum eof = failed truncated
check_payload checksum unexpected_eof = failed truncated
check_payload checksum (full p rest) =
    if checksum_ieee p == checksum then payload p rest else failed corrupt_record

unfoldable pub decode_body : ReadFull → Decoded
unfolding check_payload
decode_body eof = end_of_file
decode_body unexpected_eof = failed truncated
decode_body (full hdr rest) =
    let len = uint32 (take 4 hdr) in
    let checksum = uint32 (drop 4 hdr) in
    if ltb max_record_payload len
    then failed record_too_large
    else check_payload checksum (read_full len rest)

unfoldable pub decode_record : Bytes → Decoded
unfolding decode_body
decode_record src = decode_body (read_full header_size src)

-- recordSize
unfoldable pub record_size : ℕ → ℕ
record_size payload_len = header_size + payload_len
