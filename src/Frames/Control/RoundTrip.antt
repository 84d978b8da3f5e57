-- ===== src/Frames/Control/RoundTrip.antt =====
-- The control frames are read back, and nothing behind them is touched.
use plus_quic_go.Base.{
  ℕ, ◌-◌, ◌%◌, ◌^◌, ◌<◌, ◌≤◌, ◌≡◌, refl, List, ◌++◌, false, ltb, length, length-append,
  take-append_length, drop-append_length, ok, arith,
}
use mathlib.Core.List.{append_assoc}
use plus_quic_go.Wire.{read_byte, read_full, write_uint16, write_uint32, write_uint64, write_byte}
use plus_quic_go.Wire.RoundTrip.{
  read_uint16-converted, read_uint32-converted, read_uint64-converted,
}
use plus_quic_go.Frames.Control.{
  WindowUpdateFrame, write_window_update_frame, parse_window_update_frame, BlockedFrame,
  write_blocked_frame, parse_blocked_frame, RstStreamFrame, write_rst_stream_frame,
  parse_rst_stream_frame, PingFrame, write_ping_frame, parse_ping_frame, GoawayFrame,
  write_goaway_frame, parse_goaway_frame, ConnectionCloseFrame, write_connection_close_frame,
  parse_connection_close_frame, PlusFeedbackFrame, write_plus_feedback_frame,
  parse_plus_feedback_frame,
}

append3 : (a b c rest : List ℕ) → (a ++ (b ++ c)) ++ rest ≡ a ++ (b ++ (c ++ rest))
append3 a b c rest = simp append_assoc

append4 : (a b c d rest : List ℕ) → (a ++ (b ++ (c ++ d))) ++ rest ≡ a ++ (b ++ (c ++ (d ++ rest)))
append4 a b c d rest = simp append_assoc

read_full-append : (d rest : List ℕ) → read_full (length d) (d ++ rest) ≡ ok (d, rest)
unfolding read_full
read_full-append d rest =
    let e : ltb (length (d ++ rest)) (length d) ≡ false = ground (arith, length-append d rest) in
    rw (e, take-append_length d rest, drop-append_length d rest)

pub parse_window_update_frame-write :
    (f : WindowUpdateFrame) (rest : List ℕ)
    → f.stream_id < 2 ^ 32
    → f.byte_offset < 2 ^ 64
    → parse_window_update_frame (write_window_update_frame f ++ rest) ≡ ok (f, rest)
unfolding parse_window_update_frame read_byte write_window_update_frame
parse_window_update_frame-write f rest h k = rw (
  append_assoc (write_uint32 (f.stream_id % 2 ^ 32)) (write_uint64 (f.byte_offset % 2 ^ 64)) rest,
  read_uint32-converted f.stream_id (write_uint64 (f.byte_offset % 2 ^ 64) ++ rest) h,
  read_uint64-converted f.byte_offset rest k,
)

pub parse_blocked_frame-write :
    (f : BlockedFrame) (rest : List ℕ)
    → f.stream_id < 2 ^ 32
    → parse_blocked_frame (write_blocked_frame f ++ rest) ≡ ok (f, rest)
unfolding parse_blocked_frame read_byte write_blocked_frame
parse_blocked_frame-write f rest h = rw (read_uint32-converted f.stream_id rest h)

pub parse_rst_stream_frame-write :
    (f : RstStreamFrame) (rest : List ℕ)
    → f.stream_id < 2 ^ 32
    → f.error_code < 2 ^ 32
    → f.byte_offset < 2 ^ 64
    → parse_rst_stream_frame (write_rst_stream_frame f ++ rest) ≡ ok (f, rest)
unfolding parse_rst_stream_frame read_byte write_rst_stream_frame
parse_rst_stream_frame-write f rest h k l = rw (
  append3 (write_uint32 (f.stream_id % 2 ^ 32)) (write_uint64 (f.byte_offset % 2 ^ 64))
      (write_uint32 (f.error_code % 2 ^ 32)) rest,
  read_uint32-converted f.stream_id
      (write_uint64 (f.byte_offset % 2 ^ 64) ++ (write_uint32 (f.error_code % 2 ^ 32) ++ rest)) h,
  read_uint64-converted f.byte_offset (write_uint32 (f.error_code % 2 ^ 32) ++ rest) l,
  read_uint32-converted f.error_code rest k,
)

pub parse_ping_frame-write :
    (f : PingFrame) (rest : List ℕ) → parse_ping_frame (write_ping_frame f ++ rest) ≡ ok (f, rest)
unfolding parse_ping_frame read_byte
parse_ping_frame-write f rest = refl

pub parse_goaway_frame-write :
    (f : GoawayFrame) (rest : List ℕ)
    → f.error_code < 2 ^ 32
    → f.last_good_stream < 2 ^ 32
    → length f.reason_phrase ≤ 1350
    → parse_goaway_frame (write_goaway_frame f ++ rest) ≡ ok (f, rest)
unfolding parse_goaway_frame read_byte write_goaway_frame
parse_goaway_frame-write f rest h k l =
    let len = write_uint16 (length f.reason_phrase % 2 ^ 16) in
    let e : ltb (1350 % 2 ^ 16) (length f.reason_phrase) ≡ false = ground arith in
    rw (
      append4 (write_uint32 (f.error_code % 2 ^ 32)) (write_uint32 (f.last_good_stream % 2 ^ 32))
          len f.reason_phrase rest,
      read_uint32-converted f.error_code
          (write_uint32 (f.last_good_stream % 2 ^ 32) ++ (len ++ (f.reason_phrase ++ rest))) h,
      read_uint32-converted f.last_good_stream (len ++ (f.reason_phrase ++ rest)) k,
      read_uint16-converted (length f.reason_phrase) (f.reason_phrase ++ rest) (omega arith),
      e,
      read_full-append f.reason_phrase rest,
    )

pub parse_connection_close_frame-write :
    (f : ConnectionCloseFrame) (rest : List ℕ)
    → f.error_code < 2 ^ 32
    → length f.reason_phrase ≤ 1350
    → parse_connection_close_frame ((write_connection_close_frame f).0 ++ rest) ≡ ok (f, rest)
unfolding parse_connection_close_frame read_byte write_connection_close_frame
parse_connection_close_frame-write f rest h l =
    let len = write_uint16 (length f.reason_phrase % 2 ^ 16) in
    let e : ltb (1350 % 2 ^ 16) (length f.reason_phrase) ≡ false = ground arith in
    let a : ltb (2 ^ 16 - 1) (length f.reason_phrase) ≡ false = ground arith in
    rw (
      a,
      append3 (write_uint32 (f.error_code % 2 ^ 32)) len f.reason_phrase rest,
      read_uint32-converted f.error_code (len ++ (f.reason_phrase ++ rest)) h,
      read_uint16-converted (length f.reason_phrase) (f.reason_phrase ++ rest) (omega arith),
      e,
      read_full-append f.reason_phrase rest,
    )

pub parse_plus_feedback_frame-write :
    (f : PlusFeedbackFrame) (rest : List ℕ)
    → length f.feedback ≤ 255
    → parse_plus_feedback_frame ((write_plus_feedback_frame f).0 ++ rest) ≡ ok (f, rest)
unfolding parse_plus_feedback_frame read_byte write_plus_feedback_frame write_byte
parse_plus_feedback_frame-write f rest l =
    let a : ltb 255 (length f.feedback) ≡ false = ground arith in
    let e : length f.feedback % 256 ≡ length f.feedback = omega arith in
    let b : ltb (length (f.feedback ++ rest)) (length f.feedback) ≡ false =
      ground (arith, length-append f.feedback rest) in
    rw (a, e, b, take-append_length f.feedback rest, drop-append_length f.feedback rest)
