-- ===== src/Frames/Control.antt =====
-- The control frames of fixed layout: frames/window_update_frame.go, frames/blocked_frame.go,
-- frames/rst_stream_frame.go, frames/ping_frame.go, and those with a text or data behind them:
-- frames/goaway_frame.go, frames/connection_close_frame.go, frames/plus_feedback_frame.go. A Go string
-- is the list of its bytes. A writer without an error gives what it appends.
pub mod RoundTrip
use plus_quic_go.Base.{
  ℕ, ◌+◌, ◌-◌, ◌%◌, ◌^◌, Bool, not, Option, none, some, List, [], ◌∷◌, ◌++◌, ltb, leb, ◌==◌,
  if◌then◌else◌, length, take, drop, ok, ◌>>=◌, ◌>>◌, fail_if,
}
use plus_quic_go.Protocol.Parameters.{max_packet_size}
use plus_quic_go.Wire.{
  Error, Parsed, read_byte, read_uint16, read_uint32, read_uint64, read_full, write_byte,
  write_uint16, write_uint32, write_uint64,
}

pub record WindowUpdateFrame : Type 0 where
  pub stream_id : ℕ
  pub byte_offset : ℕ

unfoldable pub write_window_update_frame : WindowUpdateFrame → List ℕ
write_window_update_frame f =
    4 ∷ (write_uint32 (f.stream_id % 2 ^ 32) ++ write_uint64 (f.byte_offset % 2 ^ 64))

abbrev pub window_update_frame_min_length : ℕ
window_update_frame_min_length = 1 + 4 + 8

unfoldable pub parse_window_update_frame : List ℕ → Parsed WindowUpdateFrame
parse_window_update_frame bs = read_byte bs >>= λ (type_byte, bs). read_uint32 bs >>= λ (sid, bs).
    read_uint64 bs >>= λ (off, bs). ok (record { stream_id = sid; byte_offset = off }, bs)

pub record BlockedFrame : Type 0 where
  pub stream_id : ℕ

unfoldable pub write_blocked_frame : BlockedFrame → List ℕ
write_blocked_frame f = 5 ∷ write_uint32 (f.stream_id % 2 ^ 32)

abbrev pub blocked_frame_min_length : ℕ
blocked_frame_min_length = 1 + 4

unfoldable pub parse_blocked_frame : List ℕ → Parsed BlockedFrame
parse_blocked_frame bs = read_byte bs >>= λ (type_byte, bs).
    read_uint32 bs >>= λ (sid, bs). ok (record { stream_id = sid }, bs)

pub record RstStreamFrame : Type 0 where
  pub stream_id : ℕ
  pub error_code : ℕ
  pub byte_offset : ℕ

unfoldable pub write_rst_stream_frame : RstStreamFrame → List ℕ
write_rst_stream_frame f =
    1
    ∷ (write_uint32 (f.stream_id % 2 ^ 32)
        ++ (write_uint64 (f.byte_offset % 2 ^ 64) ++ write_uint32 (f.error_code % 2 ^ 32)))

abbrev pub rst_stream_frame_min_length : ℕ
rst_stream_frame_min_length = 1 + 4 + 8 + 4

unfoldable pub parse_rst_stream_frame : List ℕ → Parsed RstStreamFrame
parse_rst_stream_frame bs = read_byte bs >>= λ (type_byte, bs). read_uint32 bs >>= λ (sid, bs).
    read_uint64 bs >>= λ (off, bs). read_uint32 bs >>= λ (code, bs).
    ok (record { stream_id = sid; error_code = code; byte_offset = off }, bs)

pub record PingFrame : Type 0 where

abbrev pub write_ping_frame : PingFrame → List ℕ
write_ping_frame f = 7 ∷ []

abbrev pub ping_frame_min_length : ℕ
ping_frame_min_length = 1

unfoldable pub parse_ping_frame : List ℕ → Parsed PingFrame
parse_ping_frame bs = read_byte bs >>= λ (type_byte, bs). ok (record {}, bs)

pub record GoawayFrame : Type 0 where
  pub error_code : ℕ
  pub last_good_stream : ℕ
  pub reason_phrase : List ℕ

unfoldable pub parse_goaway_frame : List ℕ → Parsed GoawayFrame
parse_goaway_frame bs = read_byte bs >>= λ (type_byte, bs). read_uint32 bs >>= λ (code, bs).
    read_uint32 bs >>= λ (last, bs). read_uint16 bs >>= λ (len, bs).
    fail_if (ltb (max_packet_size % 2 ^ 16) len) Error.reason_phrase_too_long
    >> (read_full len bs >>= λ (reason, bs).
        ok (record { error_code = code; last_good_stream = last; reason_phrase = reason }, bs))

unfoldable pub write_goaway_frame : GoawayFrame → List ℕ
write_goaway_frame f =
    3
    ∷ (write_uint32 (f.error_code % 2 ^ 32)
        ++ (write_uint32 (f.last_good_stream % 2 ^ 32)
            ++ (write_uint16 (length f.reason_phrase % 2 ^ 16) ++ f.reason_phrase)))

abbrev pub goaway_frame_min_length : GoawayFrame → ℕ
goaway_frame_min_length f = 1 + 4 + 4 + 2 + length f.reason_phrase

pub record ConnectionCloseFrame : Type 0 where
  pub error_code : ℕ
  pub reason_phrase : List ℕ

unfoldable pub parse_connection_close_frame : List ℕ → Parsed ConnectionCloseFrame
parse_connection_close_frame bs = read_byte bs >>= λ (type_byte, bs).
    read_uint32 bs >>= λ (code, bs). read_uint16 bs >>= λ (len, bs).
    fail_if (ltb (max_packet_size % 2 ^ 16) len) Error.reason_phrase_too_long
    >> (read_full len bs >>= λ (reason, bs).
        ok (record { error_code = code; reason_phrase = reason }, bs))

abbrev pub connection_close_frame_min_length : ConnectionCloseFrame → ℕ
connection_close_frame_min_length f = 1 + 4 + 2 + length f.reason_phrase

-- What Write appends, and the error that it returns.
unfoldable pub write_connection_close_frame : ConnectionCloseFrame → List ℕ × Option Error
write_connection_close_frame f =
    let head = 2 ∷ write_uint32 (f.error_code % 2 ^ 32) in
    if ltb (2 ^ 16 - 1) (length f.reason_phrase)
    then (head, some Error.reason_phrase_too_long)
    else (head ++ (write_uint16 (length f.reason_phrase % 2 ^ 16) ++ f.reason_phrase), none)

pub record PlusFeedbackFrame : Type 0 where
  pub feedback : List ℕ

abbrev pub plus_feedback_frame_type : ℕ
plus_feedback_frame_type = 8

abbrev pub plus_feedback_frame_min_length : PlusFeedbackFrame → ℕ
plus_feedback_frame_min_length f = 2 + length f.feedback

-- `lenByte, err := r.ReadByte()`, where the error is not looked at.
abbrev pub read_len_byte : List ℕ → ℕ × List ℕ
read_len_byte [] = (0, [])
read_len_byte (b ∷ bs) = (b, bs)

-- One Read into a slice of the length read, whose error is not looked at either.
unfoldable pub parse_plus_feedback_frame : List ℕ → Parsed PlusFeedbackFrame
parse_plus_feedback_frame bs = read_byte bs >>= λ (type_byte, bs).
    fail_if (not (type_byte == plus_feedback_frame_type)) Error.invalid_frame_type
    >> (let (len, bs) = read_len_byte bs in
        fail_if (ltb (length bs) len) Error.unexpected_end_of_data
        >> ok (record { feedback = take len bs }, drop len bs))

-- A Buffer's own errors are always nil.
unfoldable pub write_plus_feedback_frame : PlusFeedbackFrame → List ℕ × Option Error
write_plus_feedback_frame f =
    if ltb 255 (length f.feedback)
    then (plus_feedback_frame_type ∷ [], some Error.invalid_len_byte)
    else (plus_feedback_frame_type ∷ (write_byte (length f.feedback) ++ f.feedback), none)
