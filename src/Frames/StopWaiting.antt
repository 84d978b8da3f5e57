-- ===== src/Frames/StopWaiting.antt =====
-- frames/stop_waiting_frame.go: the StopWaiting frame. It carries how far LeastUnacked lies below the
-- number of the packet that it stands in.
pub mod RoundTrip
use plus_quic_go.Base.{
  ℕ, ◌+◌, ◌-◌, ◌%◌, ◌^◌, Bool, Option, none, some, List, [], ◌∷◌, ltb, ◌==◌, if◌then◌else◌, Result,
  ok, err, ◌>>=◌, ◌>>◌, fail_if,
}
use plus_quic_go.Protocol.PacketNumber.{
  packet_number_len1, packet_number_len2, packet_number_len4, packet_number_len6,
}
use plus_quic_go.Wire.{
  Error, Parsed, read_byte, read_uint_n, write_byte, write_uint16, write_uint32, write_uint48,
}

pub record StopWaitingFrame : Type 0 where
  pub least_unacked : ℕ
  pub packet_number_len : ℕ
  pub packet_number : ℕ

abbrev pub packet_number_len_invalid : ℕ
packet_number_len_invalid = 0

-- What Write appends, and the error that it returns: the type byte stands in the buffer already when
-- the frame is refused.
unfoldable pub write_stop_waiting_frame : StopWaitingFrame → List ℕ × Option Error
write_stop_waiting_frame f =
    let delta = f.packet_number - f.least_unacked in
    if f.packet_number == 0
    then (6 ∷ [], some Error.packet_number_not_set)
    else if ltb f.packet_number f.least_unacked
    then (6 ∷ [], some Error.least_unacked_higher_than_packet_number)
    else if f.packet_number_len == packet_number_len1
    then (6 ∷ write_byte delta, none)
    else if f.packet_number_len == packet_number_len2
    then (6 ∷ write_uint16 (delta % 2 ^ 16), none)
    else if f.packet_number_len == packet_number_len4
    then (6 ∷ write_uint32 (delta % 2 ^ 32), none)
    else if f.packet_number_len == packet_number_len6
    then (6 ∷ write_uint48 delta, none)
    else (6 ∷ [], some Error.packet_number_len_not_set)

-- MinLength
unfoldable pub stop_waiting_frame_min_length : StopWaitingFrame → Result Error ℕ
stop_waiting_frame_min_length f =
    if f.packet_number_len == packet_number_len_invalid
    then err Error.packet_number_len_not_set
    else ok (1 + f.packet_number_len)

-- The parser sets LeastUnacked only. Lengths in use are at most 8.
unfoldable pub parse_stop_waiting_frame : ℕ → ℕ → List ℕ → Parsed StopWaitingFrame
parse_stop_waiting_frame packet_number packet_number_len bs = read_byte bs >>= λ (type_byte, bs).
    read_uint_n packet_number_len bs >>= λ (delta, bs).
    fail_if (ltb packet_number delta) Error.invalid_least_unacked_delta
    >> ok (
      record { least_unacked = packet_number - delta; packet_number_len = 0; packet_number = 0 },
      bs,
    )
