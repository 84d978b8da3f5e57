-- ===== src/Packets/Unpacker/Travels.antt =====
-- packet_unpacker.go: every frame that can be sent is read by the parser that its type byte chooses.
use plus_quic_go.Base.{
  ℕ, ◌+◌, ◌-◌, ◌*◌, ◌/◌, ◌%◌, ◌^◌, ◌≤◌, ◌<◌, ◌≡◌, refl, ◌⊎◌, List, ◌∷◌, ◌++◌, true, false, not,
  ◌&&◌, none, leb, ltb, ◌==◌, length, ok, arith,
}
use plus_quic_go.Protocol.PacketNumber.Inference.{IsLength}
use plus_quic_go.Wire.{write_byte, write_uint16, write_uint32}
use plus_quic_go.Frames.Ack.{AckFrame}
use plus_quic_go.Frames.Ack.Writing.{ack_type_byte}
use plus_quic_go.Frames.Ack.Writing.RoundTrip.{
  IsWritable, received_at, write_ack_frame-starts, parse_ack_frame-write,
}
use plus_quic_go.Frames.Stream.{StreamFrame}
use plus_quic_go.Frames.Stream.RoundTrip.{
  IsDelimited, write_stream_frame-starts, parse_stream_frame-write,
}
use plus_quic_go.Frames.StopWaiting.{StopWaitingFrame}
use plus_quic_go.Frames.StopWaiting.RoundTrip.{
  write_stop_waiting_frame-starts, parse_stop_waiting_frame-write,
}
use plus_quic_go.Frames.Control.{
  PingFrame, RstStreamFrame, ConnectionCloseFrame, GoawayFrame, WindowUpdateFrame, BlockedFrame,
  PlusFeedbackFrame, write_rst_stream_frame, write_connection_close_frame, write_goaway_frame,
  write_window_update_frame, write_blocked_frame, write_plus_feedback_frame,
}
use plus_quic_go.Frames.Control.RoundTrip.{
  parse_window_update_frame-write, parse_blocked_frame-write, parse_rst_stream_frame-write,
  parse_ping_frame-write, parse_goaway_frame-write, parse_connection_close_frame-write,
  parse_plus_feedback_frame-write,
}
use plus_quic_go.Packets.Unpacker.{
  Frame, stream, ack, rst_stream, connection_close, goaway, window_update, blocked, stop_waiting,
  ping, plus_feedback, PacketInfo, parse_frame,
}
use plus_quic_go.Packets.Frames.{write_frame}

-- What a frame needs to be written and read in a packet: `rest` is what is written behind it.
abbrev pub IsSendable : ℕ → PacketInfo → Frame → List ℕ → Type 0
IsSendable level hdr (stream f) rest =
    (f.stream_id < 2 ^ 32)
    × (f.offset + length f.payload < 2 ^ 64)
    × ((f.fin_bit ≡ true) ⊎ (0 < length f.payload))
    × IsDelimited f rest
    × ((f.stream_id ≡ 1) ⊎ (2 ≤ level))
IsSendable level hdr (ack f) rest = IsWritable f
IsSendable level hdr (rst_stream f) rest =
    (f.stream_id < 2 ^ 32) × (f.error_code < 2 ^ 32) × (f.byte_offset < 2 ^ 64)
IsSendable level hdr (connection_close f) rest =
    (f.error_code < 2 ^ 32) × (length f.reason_phrase ≤ 1350)
IsSendable level hdr (goaway f) rest =
    (f.error_code < 2 ^ 32) × (f.last_good_stream < 2 ^ 32) × (length f.reason_phrase ≤ 1350)
IsSendable level hdr (window_update f) rest = (f.stream_id < 2 ^ 32) × (f.byte_offset < 2 ^ 64)
IsSendable level hdr (blocked f) rest = f.stream_id < 2 ^ 32
IsSendable level hdr (stop_waiting f) rest =
    (f.packet_number ≡ hdr.packet_number)
    × (f.packet_number_len ≡ hdr.packet_number_len)
    × IsLength f.packet_number_len
    × (0 < f.packet_number)
    × (f.least_unacked ≤ f.packet_number)
    × (f.packet_number - f.least_unacked < 2 ^ (f.packet_number_len * 8))
IsSendable level hdr (ping f) rest = Unit
IsSendable level hdr (plus_feedback f) rest = length f.feedback ≤ 255

-- What the receiver makes of a frame: the delay of an ACK as it was written, and of a StopWaiting
-- frame LeastUnacked.
unfoldable pub received : ℕ → Frame → Frame
received now (ack f) = ack (received_at now f)
received now (stop_waiting f) =
    stop_waiting
      (record { least_unacked = f.least_unacked; packet_number_len = 0; packet_number = 0 })
received now f = f

-- The frame starts with a type byte other than 0, and is read by what the type byte chooses.
pub record Travels (now level : ℕ) (hdr : PacketInfo) (f : Frame) (rest : List ℕ) : Type 0 where
  pub type_byte : ℕ
  pub others : List ℕ
  pub starts : write_frame now f ≡ (type_byte ∷ others, none)
  pub no_padding : (type_byte == 0) ≡ false
  pub reads :
      parse_frame level hdr type_byte (type_byte ∷ (others ++ rest)) ≡ ok (received now f, rest)

module _ (now level : ℕ) (hdr : PacketInfo) (rest : List ℕ) where
  Travels-window_update :
      (f : WindowUpdateFrame)
      → IsSendable level hdr (window_update f) rest
      → Travels now level hdr (window_update f) rest
  unfolding write_frame write_window_update_frame parse_frame received
  Travels-window_update f (h, k) = record {
    type_byte = 4;
    others = _;
    starts = refl;
    no_padding = refl;
    reads = rw (parse_window_update_frame-write f rest h k) refl;
  }

  Travels-blocked :
      (f : BlockedFrame)
      → IsSendable level hdr (blocked f) rest
      → Travels now level hdr (blocked f) rest
  unfolding write_frame write_blocked_frame parse_frame received
  Travels-blocked f h = record {
    type_byte = 5;
    others = _;
    starts = refl;
    no_padding = refl;
    reads = rw (parse_blocked_frame-write f rest h) refl;
  }

  Travels-rst_stream :
      (f : RstStreamFrame)
      → IsSendable level hdr (rst_stream f) rest
      → Travels now level hdr (rst_stream f) rest
  unfolding write_frame write_rst_stream_frame parse_frame received
  Travels-rst_stream f (h, k, l) = record {
    type_byte = 1;
    others = _;
    starts = refl;
    no_padding = refl;
    reads = rw (parse_rst_stream_frame-write f rest h k l) refl;
  }

  Travels-goaway :
      (f : GoawayFrame)
      → IsSendable level hdr (goaway f) rest
      → Travels now level hdr (goaway f) rest
  unfolding write_frame write_goaway_frame parse_frame received
  Travels-goaway f (h, k, l) = record {
    type_byte = 3;
    others = _;
    starts = refl;
    no_padding = refl;
    reads = rw (parse_goaway_frame-write f rest h k l) refl;
  }

  Travels-ping :
      (f : PingFrame) → IsSendable level hdr (ping f) rest → Travels now level hdr (ping f) rest
  unfolding write_frame parse_frame received
  Travels-ping f h = record {
    type_byte = 7;
    others = _;
    starts = refl;
    no_padding = refl;
    reads = rw (parse_ping_frame-write f rest) refl;
  }

  Travels-connection_close :
      (f : ConnectionCloseFrame)
      → IsSendable level hdr (connection_close f) rest
      → Travels now level hdr (connection_close f) rest
  unfolding write_frame write_connection_close_frame parse_frame received
  Travels-connection_close f (h, l) =
      let a : ltb (2 ^ 16 - 1) (length f.reason_phrase) ≡ false = ground arith in
      let p = rw a at (parse_connection_close_frame-write f rest h l) in
      record {
        type_byte = 2;
        others =
            write_uint32 (f.error_code % 2 ^ 32)
            ++ (write_uint16 (length f.reason_phrase % 2 ^ 16) ++ f.reason_phrase);
        starts = rw a refl;
        no_padding = refl;
        reads = rw p refl;
      }

  Travels-plus_feedback :
      (f : PlusFeedbackFrame)
      → IsSendable level hdr (plus_feedback f) rest
      → Travels now level hdr (plus_feedback f) rest
  unfolding write_frame write_plus_feedback_frame parse_frame received
  Travels-plus_feedback f l =
      let a : ltb 255 (length f.feedback) ≡ false = ground arith in
      let p = rw a at (parse_plus_feedback_frame-write f rest l) in
      record {
        type_byte = 8;
        others = write_byte (length f.feedback) ++ f.feedback;
        starts = rw a refl;
        no_padding = refl;
        reads = rw p refl;
      }

  Travels-stream :
      (f : StreamFrame)
      → IsSendable level hdr (stream f) rest
      → Travels now level hdr (stream f) rest
  unfolding write_frame parse_frame received
  Travels-stream f (small, bounded, s, d, encrypted) =
      let (t, others, starts, lo, hi) = write_stream_frame-starts f small (omega arith) s in
      let p = rw starts at (parse_stream_frame-write f rest small bounded s d).1 in
      let a : (t / 128 % 2 == 1) ≡ true = ground arith in
      let b : (not (f.stream_id == 1) && leb level 1) ≡ false = ground arith in
      record {
        type_byte = t;
        others = others;
        starts = starts;
        no_padding = ground arith;
        reads = rw (a, p, b) refl;
      }

  Travels-ack :
      (f : AckFrame) → IsSendable level hdr (ack f) rest → Travels now level hdr (ack f) rest
  unfolding write_frame parse_frame received
  Travels-ack f w =
      let (others, starts, lo, hi) = write_ack_frame-starts now f in
      let (e, p) = parse_ack_frame-write now f rest w in
      let t = ack_type_byte f in
      let q = rw starts at p in
      let a : (t / 128 % 2 == 1) ≡ false = ground arith in
      let b : (t / 64 % 4 == 1) ≡ true = ground arith in
      record {
        type_byte = t;
        others = others;
        starts = λ i. (starts i, e i);
        no_padding = ground arith;
        reads = rw (a, b, q) refl;
      }

  Travels-stop_waiting :
      (f : StopWaitingFrame)
      → IsSendable level hdr (stop_waiting f) rest
      → Travels now level hdr (stop_waiting f) rest
  unfolding write_frame parse_frame received
  Travels-stop_waiting f (n, l, len, pos, le, small) =
      let (bytes, (w, m, r)) = write_stop_waiting_frame-starts f len pos le small in
      let (e, m', p) = parse_stop_waiting_frame-write f rest len pos le small in
      let q = rw (w, n, l) at p in
      record { type_byte = 6; others = bytes; starts = w; no_padding = refl; reads = rw q refl }

pub travels :
    (now level : ℕ) (hdr : PacketInfo) (f : Frame) (rest : List ℕ)
    → IsSendable level hdr f rest
    → Travels now level hdr f rest
travels now level hdr (stream f) rest s = Travels-stream now level hdr rest f s
travels now level hdr (ack f) rest s = Travels-ack now level hdr rest f s
travels now level hdr (rst_stream f) rest s = Travels-rst_stream now level hdr rest f s
travels now level hdr (connection_close f) rest s = Travels-connection_close now level hdr rest f s
travels now level hdr (goaway f) rest s = Travels-goaway now level hdr rest f s
travels now level hdr (window_update f) rest s = Travels-window_update now level hdr rest f s
travels now level hdr (blocked f) rest s = Travels-blocked now level hdr rest f s
travels now level hdr (stop_waiting f) rest s = Travels-stop_waiting now level hdr rest f s
travels now level hdr (ping f) rest s = Travels-ping now level hdr rest f s
travels now level hdr (plus_feedback f) rest s = Travels-plus_feedback now level hdr rest f s
