-- ===== src/Frames/Stream.antt =====
-- frames/stream_frame.go: the STREAM frame.
pub mod Fields
pub mod RoundTrip
use plus_quic_go.Base.{
  ℕ, ◌+◌, ◌-◌, ◌*◌, ◌/◌, ◌%◌, ◌^◌, ◌&&◌, Bool, true, false, not, Option, none, some, List, [], ◌∷◌,
  ◌++◌, ltb, ◌==◌, if◌then◌else◌, length, take, drop, Result, ok, err, ◌>>=◌, ◌>>◌, fail_if,
}
use plus_quic_go.Base.Words.{add64}
use plus_quic_go.Protocol.Parameters.{max_packet_size}
use plus_quic_go.Wire.{
  Error, Parsed, read_byte, read_uint_n, read_uint16, write_byte, write_uint16, write_uint24,
  write_uint32, write_uint40, write_uint48, write_uint56, write_uint64,
}

pub record StreamFrame : Type 0 where
  pub stream_id : ℕ
  pub fin_bit : Bool
  pub data_len_present : Bool
  pub offset : ℕ
  pub payload : List ℕ

-- DataLen
abbrev pub data_len : StreamFrame → ℕ
data_len f = length f.payload

-- `typeByte & 0x1C >> 2`, and one more unless it is 0.
abbrev pub offset_len_of : ℕ → ℕ
offset_len_of type_byte = let len = type_byte / 4 % 8 in if len == 0 then 0 else len + 1

-- Reading the data: a slice of `n` bytes and one Read.
unfoldable pub read_data : ℕ → List ℕ → Parsed (List ℕ)
read_data n bs =
    if n == 0
    then ok ([], bs)
    else if ltb (length bs) n
    then err Error.could_not_read_data_len
    else ok (take n bs, drop n bs)

unfoldable pub parse_stream_frame : List ℕ → Parsed StreamFrame
unfolding read_byte read_uint_n read_uint16 read_data
parse_stream_frame bs = read_byte bs >>= λ (type_byte, bs).
    let fin = type_byte / 64 % 2 == 1 in
    let present = type_byte / 32 % 2 == 1 in
    read_uint_n (type_byte % 4 + 1) bs >>= λ (sid, bs).
    read_uint_n (offset_len_of type_byte) bs >>= λ (off, bs).
    (if present then read_uint16 bs else ok (0, bs)) >>= λ (len, bs).
    fail_if (ltb (max_packet_size % 2 ^ 16) len) Error.data_len_too_large
    >> (read_data (if present then len else length bs % 2 ^ 16) bs >>= λ (d, bs).
        fail_if (ltb (add64 off (length d)) off) Error.data_overflows_maximum_offset
        >> fail_if (not fin && length d == 0) Error.empty_stream_frame_no_fin
        >> ok (
          record {
            stream_id = sid;
            fin_bit = fin;
            data_len_present = present;
            offset = off;
            payload = d;
          },
          bs,
        ))

unfoldable pub calculate_stream_id_length : ℕ → ℕ
calculate_stream_id_length id =
    if ltb id (2 ^ 8) then 1 else if ltb id (2 ^ 16) then 2 else if ltb id (2 ^ 24) then 3 else 4

unfoldable pub get_offset_length : ℕ → ℕ
get_offset_length off =
    if off == 0
    then 0
    else if ltb off (2 ^ 16)
    then 2
    else if ltb off (2 ^ 24)
    then 3
    else if ltb off (2 ^ 32)
    then 4
    else if ltb off (2 ^ 40)
    then 5
    else if ltb off (2 ^ 48)
    then 6
    else if ltb off (2 ^ 56)
    then 7
    else 8

-- The switch over the length of the stream id.
unfoldable pub write_stream_id : ℕ → ℕ → Result Error (List ℕ)
unfolding write_byte write_uint16 write_uint24 write_uint32
write_stream_id len id =
    if len == 1
    then ok (write_byte id)
    else if len == 2
    then ok (write_uint16 (id % 2 ^ 16))
    else if len == 3
    then ok (write_uint24 id)
    else if len == 4
    then ok (write_uint32 id)
    else err Error.invalid_stream_id_len

-- The switch over the length of the offset.
unfoldable pub write_offset : ℕ → ℕ → Result Error (List ℕ)
unfolding write_uint16 write_uint24 write_uint32 write_uint40 write_uint48 write_uint56 write_uint64
write_offset len off =
    if len == 0
    then ok []
    else if len == 2
    then ok (write_uint16 (off % 2 ^ 16))
    else if len == 3
    then ok (write_uint24 (off % 2 ^ 32))
    else if len == 4
    then ok (write_uint32 (off % 2 ^ 32))
    else if len == 5
    then ok (write_uint40 off)
    else if len == 6
    then ok (write_uint48 off)
    else if len == 7
    then ok (write_uint56 off)
    else if len == 8
    then ok (write_uint64 off)
    else err Error.invalid_offset_len

-- The bits are set one after the other with `^=`, and none twice.
abbrev pub stream_type_byte : StreamFrame → ℕ
stream_type_byte f =
    let offset_length = get_offset_length f.offset in
    128
    + (if f.fin_bit then 64 else 0)
    + (if f.data_len_present then 32 else 0)
    + (if ltb 0 offset_length then (offset_length - 1) * 4 else 0)
    + (calculate_stream_id_length f.stream_id - 1)

-- What Write appends, and the error that it returns.
unfoldable pub write_stream_frame : StreamFrame → List ℕ × Option Error
unfolding get_offset_length calculate_stream_id_length write_stream_id write_offset write_uint16
write_stream_frame f =
    if length f.payload == 0 && not f.fin_bit
    then ([], some Error.empty_frame_without_fin)
    else (let t = stream_type_byte f in
        elim (write_stream_id (calculate_stream_id_length f.stream_id) f.stream_id) [
          | err e ↦ (t ∷ [], some e)
          | ok sid ↦ elim (write_offset (get_offset_length f.offset) f.offset) [
            | err e ↦ (t ∷ sid, some e)
            | ok off ↦ (
              t
                  ∷ (sid
                      ++ (off
                          ++ ((if f.data_len_present
                                then write_uint16 (length f.payload % 2 ^ 16)
                                else [])
                              ++ f.payload))),
              none,
            )
          ]
        ])

-- MinLength
unfoldable pub stream_frame_min_length : StreamFrame → ℕ
unfolding get_offset_length calculate_stream_id_length
stream_frame_min_length f =
    1
    + calculate_stream_id_length f.stream_id
    + get_offset_length f.offset
    + (if f.data_len_present then 2 else 0)
