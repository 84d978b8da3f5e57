-- ===== src/Packets/Unpacker.antt =====
-- packet_unpacker.go: a packet is opened and read into its frames.
pub mod Total
pub mod Travels
pub mod RoundTrip
use plus_quic_go.Base.{
  ℕ, zero, suc, ◌/◌, ◌%◌, ◌&&◌, Bool, not, Option, none, some, List, [], ◌∷◌, leb, ◌==◌,
  if◌then◌else◌, length, Result, ok, err,
}
use plus_quic_go.Wire
use plus_quic_go.Wire.{Parsed}
use plus_quic_go.Frames.Ack.{AckFrame}
use plus_quic_go.Frames.Ack.Parsing.{parse_ack_frame}
use plus_quic_go.Frames.Stream.{StreamFrame, parse_stream_frame}
use plus_quic_go.Frames.StopWaiting.{StopWaitingFrame, parse_stop_waiting_frame}
use plus_quic_go.Frames.Control.{
  WindowUpdateFrame, parse_window_update_frame, BlockedFrame, parse_blocked_frame, RstStreamFrame,
  parse_rst_stream_frame, PingFrame, parse_ping_frame, GoawayFrame, parse_goaway_frame,
  ConnectionCloseFrame, parse_connection_close_frame, PlusFeedbackFrame, parse_plus_feedback_frame,
}

-- The interface Frame, by what implements it.
pub data Frame : Type 0 where
  stream : StreamFrame → Frame
  ack : AckFrame → Frame
  rst_stream : RstStreamFrame → Frame
  connection_close : ConnectionCloseFrame → Frame
  goaway : GoawayFrame → Frame
  window_update : WindowUpdateFrame → Frame
  blocked : BlockedFrame → Frame
  stop_waiting : StopWaitingFrame → Frame
  ping : PingFrame → Frame
  plus_feedback : PlusFeedbackFrame → Frame

-- The errors of Unpack: the code of a qerr error with the text of the parser's error, or the parser's
-- error as it is.
pub data UnpackError : Type 0 where
  decryption_failure : UnpackError
  missing_payload : UnpackError
  invalid_stream_data : Wire.Error → UnpackError
  unencrypted_stream_data : ℕ → UnpackError
  invalid_ack_data : Wire.Error → UnpackError
  congestion_feedback_unimplemented : UnpackError
  invalid_rst_stream_data : Wire.Error → UnpackError
  invalid_connection_close_data : Wire.Error → UnpackError
  invalid_goaway_data : Wire.Error → UnpackError
  invalid_window_update_data : Wire.Error → UnpackError
  invalid_blocked_data : Wire.Error → UnpackError
  invalid_stop_waiting_data : Wire.Error → UnpackError
  frame_error : Wire.Error → UnpackError
  invalid_frame_data : ℕ → UnpackError

-- The order of the Go constants.
abbrev pub encryption_unencrypted : ℕ
encryption_unencrypted = 1

abbrev pub encryption_secure : ℕ
encryption_secure = 2

abbrev pub encryption_forward_secure : ℕ
encryption_forward_secure = 3

-- What the header of the packet says of its number.
pub record PacketInfo : Type 0 where
  pub packet_number : ℕ
  pub packet_number_len : ℕ

abbrev wrap :
    {A : Type 0}
    → (Wire.Error → UnpackError)
    → (A → Frame)
    → Parsed A
    → Result UnpackError (Frame × List ℕ)
wrap on_error frame (ok (a, rest)) = ok (frame a, rest)
wrap on_error frame (err e) = err (on_error e)

-- A stream other than the crypto stream needs encryption.
abbrev check_encryption : ℕ → Parsed StreamFrame → Result UnpackError (Frame × List ℕ)
check_encryption level (ok (f, rest)) =
    if not (f.stream_id == 1) && leb level encryption_unencrypted
    then err (UnpackError.unencrypted_stream_data f.stream_id)
    else ok (stream f, rest)
check_encryption level (err e) = err (UnpackError.invalid_stream_data e)

-- The parser that the type byte chooses; `bs` starts with the type byte.
unfoldable pub parse_frame : ℕ → PacketInfo → ℕ → List ℕ → Result UnpackError (Frame × List ℕ)
parse_frame level hdr type_byte bs =
    if type_byte / 128 % 2 == 1
    then check_encryption level (parse_stream_frame bs)
    else if type_byte / 64 % 4 == 1
    then wrap UnpackError.invalid_ack_data ack (parse_ack_frame bs)
    else if type_byte / 32 % 8 == 1
    then err UnpackError.congestion_feedback_unimplemented
    else if type_byte == 1
    then wrap UnpackError.invalid_rst_stream_data rst_stream (parse_rst_stream_frame bs)
    else if type_byte == 2
    then wrap UnpackError.invalid_connection_close_data connection_close
        (parse_connection_close_frame bs)
    else if type_byte == 3
    then wrap UnpackError.invalid_goaway_data goaway (parse_goaway_frame bs)
    else if type_byte == 4
    then wrap UnpackError.invalid_window_update_data window_update (parse_window_update_frame bs)
    else if type_byte == 5
    then wrap UnpackError.invalid_blocked_data blocked (parse_blocked_frame bs)
    else if type_byte == 6
    then wrap UnpackError.invalid_stop_waiting_data stop_waiting
        (parse_stop_waiting_frame hdr.packet_number hdr.packet_number_len bs)
    else if type_byte == 7
    then wrap UnpackError.frame_error ping (parse_ping_frame bs)
    else if type_byte == 8
    then wrap UnpackError.frame_error plus_feedback (parse_plus_feedback_frame bs)
    else err (UnpackError.invalid_frame_data type_byte)

-- A frame before those of the rest; an error of the rest is the error.
abbrev pub cons_frame :
    Frame → Option (Result UnpackError (List Frame)) → Option (Result UnpackError (List Frame))
cons_frame f none = none
cons_frame f (some (err e)) = some (err e)
cons_frame f (some (ok fs)) = some (ok (f ∷ fs))

-- The loop that reads all frames; `none` is a lack of fuel, which a round takes one of.
unfoldable pub read_frames : ℕ → ℕ → PacketInfo → List ℕ → Option (Result UnpackError (List Frame))
read_frames fuel level hdr [] = some (ok [])
read_frames zero level hdr (b ∷ bs) = none
read_frames (suc fuel) level hdr (b ∷ bs) =
    if b == 0 then read_frames fuel level hdr bs else elim (parse_frame level hdr b (b ∷ bs)) [
      | err e ↦ some (err e)
      | ok p ↦ cons_frame p.0 (read_frames fuel level hdr p.1)
    ]

pub record UnpackedPacket : Type 0 where
  pub encryption_level : ℕ
  pub frames : List Frame

-- quicAEAD.Open of the packet's data, for its number and header: the plaintext and its level, or no
-- answer.
abbrev pub Aead : Type 0
Aead = (payload : List ℕ) (packet_number : ℕ) (associated : List ℕ) → Option (List ℕ × ℕ)

-- The packet, or an error; the fuel is the number of bytes.
abbrev finish :
    ℕ → Option (Result UnpackError (List Frame)) → Option (Result UnpackError UnpackedPacket)
finish level none = none
finish level (some (err e)) = some (err e)
finish level (some (ok fs)) = some (ok (record { encryption_level = level; frames = fs }))

abbrev pub unpack_opened :
    PacketInfo → Option (List ℕ × ℕ) → Option (Result UnpackError UnpackedPacket)
unpack_opened hdr none = some (err UnpackError.decryption_failure)
unpack_opened hdr (some ([], level)) = some (err UnpackError.missing_payload)
unpack_opened hdr (some (b ∷ bs, level)) =
    finish level (read_frames (length (b ∷ bs)) level hdr (b ∷ bs))

-- Unpack
unfoldable pub unpack :
    Aead → List ℕ → PacketInfo → List ℕ → Option (Result UnpackError UnpackedPacket)
unpack aead header hdr payload = unpack_opened hdr (aead payload hdr.packet_number header)
