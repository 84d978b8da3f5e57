-- ===== src/Wire.antt =====
-- utils/utils.go: little-endian integers on a byte stream. A reader is the list of the bytes that are
-- still to be read; what a Buffer is written is the list of the bytes that are appended to it.
pub mod Float16
pub mod Progress
pub mod Errors
pub mod RoundTrip
use plus_quic_go.Base.{
  ℕ, zero, suc, ◌+◌, ◌*◌, ◌/◌, ◌%◌, ◌^◌, List, [], ◌∷◌, ltb, if◌then◌else◌, length, take, drop, ok,
  err, ◌>>=◌, Result,
}

-- The errors of the parsers and writers of frames and headers, one for each that the code makes.
-- io.EOF and io.ErrUnexpectedEOF come from reading.
pub data Error : Type 0 where
  eof : Error
  unexpected_eof : Error
  data_len_too_large : Error
  could_not_read_data_len : Error
  data_overflows_maximum_offset : Error
  empty_stream_frame_no_fin : Error
  empty_frame_without_fin : Error
  invalid_stream_id_len : Error
  invalid_offset_len : Error
  invalid_least_unacked_delta : Error
  packet_number_not_set : Error
  least_unacked_higher_than_packet_number : Error
  packet_number_len_not_set : Error
  reason_phrase_too_long : Error
  invalid_frame_type : Error
  invalid_len_byte : Error
  unexpected_end_of_data : Error
  invalid_ack_ranges : Error
  invalid_first_ack_range : Error
  inconsistent_ack_largest_acked : Error
  inconsistent_ack_lowest_acked : Error
  inconsistent_number_of_ranges_written : Error
  reset_and_version_flag_set : Error
  invalid_nonce_length : Error
  received_truncated_connection_id : Error
  invalid_connection_id : Error
  invalid_version_negotiation_packet : Error
  get_length_not_for_version_negotiation : Error
  -- the panics: an index into an empty slice, and the explicit one
  index_out_of_range : Error
  too_many_ack_ranges : Error

-- What a parser of an `A` gives: the value, and the bytes behind it.
abbrev pub Parsed : Type 0 → Type 0
Parsed A = Result Error (A × List ℕ)

unfoldable pub read_byte : List ℕ → Parsed ℕ
read_byte [] = err eof
read_byte (b ∷ bs) = ok (b, bs)

-- The loop of ReadUintN from the byte `i` on. The bytes fill different bits of `res`, so that `^=`
-- adds; the lengths in use are at most 8, so that no shift leaves the uint64.
unfoldable pub read_bytes_from : ℕ → ℕ → ℕ → List ℕ → Parsed ℕ
read_bytes_from i zero res bs = ok (res, bs)
read_bytes_from i (suc left) res [] = err eof
read_bytes_from i (suc left) res (b ∷ bs) = read_bytes_from (i + 1) left (res + b * 2 ^ (i * 8)) bs

-- ReadUintN
unfoldable pub read_uint_n : ℕ → List ℕ → Parsed ℕ
read_uint_n len bs = read_bytes_from 0 len 0 bs

unfoldable pub read_uint16 : List ℕ → Parsed ℕ
read_uint16 bs = read_byte bs >>= λ (b1, bs). read_byte bs >>= λ (b2, bs). ok (b1 + b2 * 2 ^ 8, bs)

unfoldable pub read_uint32 : List ℕ → Parsed ℕ
read_uint32 bs = read_byte bs >>= λ (b1, bs). read_byte bs >>= λ (b2, bs).
    read_byte bs >>= λ (b3, bs).
    read_byte bs >>= λ (b4, bs). ok (b1 + b2 * 2 ^ 8 + b3 * 2 ^ 16 + b4 * 2 ^ 24, bs)

unfoldable pub read_uint64 : List ℕ → Parsed ℕ
read_uint64 bs = read_byte bs >>= λ (b1, bs). read_byte bs >>= λ (b2, bs).
    read_byte bs >>= λ (b3, bs). read_byte bs >>= λ (b4, bs). read_byte bs >>= λ (b5, bs).
    read_byte bs >>= λ (b6, bs). read_byte bs >>= λ (b7, bs). read_byte bs >>= λ (b8, bs). ok (
      b1
          + b2 * 2 ^ 8
          + b3 * 2 ^ 16
          + b4 * 2 ^ 24
          + b5 * 2 ^ 32
          + b6 * 2 ^ 40
          + b7 * 2 ^ 48
          + b8 * 2 ^ 56,
      bs,
    )

-- io.ReadFull into a slice of length `n`.
unfoldable pub read_full : ℕ → List ℕ → Parsed (List ℕ)
read_full n bs =
    if ltb (length bs) n
    then (if ltb 0 (length bs) then err unexpected_eof else err eof)
    else ok (take n bs, drop n bs)

-- `uint8(i >> (8 * k))`
abbrev pub byte_at : ℕ → ℕ → ℕ
byte_at k i = i / 2 ^ (8 * k) % 256

unfoldable pub write_byte : ℕ → List ℕ
write_byte i = i % 256 ∷ []

unfoldable pub write_uint16 : ℕ → List ℕ
write_uint16 i = byte_at 0 i ∷ byte_at 1 i ∷ []

unfoldable pub write_uint24 : ℕ → List ℕ
write_uint24 i = byte_at 0 i ∷ byte_at 1 i ∷ byte_at 2 i ∷ []

unfoldable pub write_uint32 : ℕ → List ℕ
write_uint32 i = byte_at 0 i ∷ byte_at 1 i ∷ byte_at 2 i ∷ byte_at 3 i ∷ []

unfoldable pub write_uint40 : ℕ → List ℕ
write_uint40 i = byte_at 0 i ∷ byte_at 1 i ∷ byte_at 2 i ∷ byte_at 3 i ∷ byte_at 4 i ∷ []

unfoldable pub write_uint48 : ℕ → List ℕ
write_uint48 i =
    byte_at 0 i ∷ byte_at 1 i ∷ byte_at 2 i ∷ byte_at 3 i ∷ byte_at 4 i ∷ byte_at 5 i ∷ []

unfoldable pub write_uint56 : ℕ → List ℕ
write_uint56 i =
    byte_at 0 i
    ∷ byte_at 1 i
    ∷ byte_at 2 i
    ∷ byte_at 3 i
    ∷ byte_at 4 i
    ∷ byte_at 5 i
    ∷ byte_at 6 i
    ∷ []

unfoldable pub write_uint64 : ℕ → List ℕ
write_uint64 i =
    byte_at 0 i
    ∷ byte_at 1 i
    ∷ byte_at 2 i
    ∷ byte_at 3 i
    ∷ byte_at 4 i
    ∷ byte_at 5 i
    ∷ byte_at 6 i
    ∷ byte_at 7 i
    ∷ []
