-- ===== src/Frames/Ack/Writing/Head.antt =====
-- frames/ack_frame.go: the type byte and the delay of an ACK frame.
use plus_quic_go.Base.{
  ℕ, ◌+◌, ◌*◌, ◌/◌, ◌%◌, ◌^◌, ◌<◌, ◌≡◌, refl, List, ◌++◌, Bool, ◌==◌, if◌then◌else◌, ok, arith,
}
use plus_quic_go.Protocol.PacketNumber.{get_packet_number_length}
use plus_quic_go.Protocol.PacketNumber.Inference.{IsLength}
use plus_quic_go.Wire.RoundTrip.{read_uint16-write_uint16}
use plus_quic_go.Wire.Float16.{read_ufloat16, write_ufloat16, decode_ufloat16, encode_ufloat16}
use plus_quic_go.Frames.Ack.{AckFrame, has_missing_ranges}
use plus_quic_go.Frames.Ack.Parsing.{number_len}
use plus_quic_go.Frames.Ack.Writing.{get_missing_sequence_number_delta_len, ack_type_byte}
use plus_quic_go.Frames.Ack.Writing.Lengths.{get_packet_number_length-IsLength, delta_len-IsLength}

-- The fields of the type byte.
pub ack_type_byte-fields :
    (f : AckFrame)
    → let t = ack_type_byte f in
      ((t / 32 % 2 == 1) ≡ has_missing_ranges f.ack_ranges)
      × (number_len (t / 4 % 4) ≡ get_packet_number_length f.largest_acked)
      × (number_len (t % 4) ≡ get_missing_sequence_number_delta_len f)
unfolding number_len
ack_type_byte-fields f =
    fields (has_missing_ranges f.ack_ranges) (get_packet_number_length f.largest_acked)
      (get_missing_sequence_number_delta_len f) (get_packet_number_length-IsLength f.largest_acked)
      (delta_len-IsLength f)
  where
    fields :
        (missing : Bool) (l d : ℕ)
        → IsLength l
        → IsLength d
        → let t =
            64
            + (if l == 1 then 0 else l / 2 * 4)
            + (if d == 1 then 0 else d / 2)
            + (if missing then 32 else 0) in
          ((t / 32 % 2 == 1) ≡ missing) × (number_len (t / 4 % 4) ≡ l) × (number_len (t % 4) ≡ d)
    fields missing l d h k = ground arith

encode-lt : (v : ℕ) → encode_ufloat16 v < 2 ^ 16
unfolding encode_ufloat16
encode-lt v = ground arith

pub read_ufloat16-write :
    (v : ℕ) (rest : List ℕ)
    → read_ufloat16 (write_ufloat16 v ++ rest) ≡ ok (decode_ufloat16 (encode_ufloat16 v), rest)
unfolding read_ufloat16 write_ufloat16
read_ufloat16-write v rest =
    rw (read_uint16-write_uint16 (encode_ufloat16 v) rest (encode-lt v)) refl
