-- ===== src/Packets/Frames.antt =====
-- The methods Write and MinLength of the interface Frame of the package frames, for each frame.
use plus_quic_go.Base.{ℕ, Option, none, List, Result, ok}
use plus_quic_go.Wire
use plus_quic_go.Frames.Ack.Writing.{write_ack_frame, ack_frame_min_length}
use plus_quic_go.Frames.Stream.{write_stream_frame, stream_frame_min_length}
use plus_quic_go.Frames.StopWaiting.{write_stop_waiting_frame, stop_waiting_frame_min_length}
use plus_quic_go.Frames.Control.{
  write_window_update_frame, window_update_frame_min_length, write_blocked_frame,
  blocked_frame_min_length, write_rst_stream_frame, rst_stream_frame_min_length, write_ping_frame,
  ping_frame_min_length, write_goaway_frame, goaway_frame_min_length, write_connection_close_frame,
  connection_close_frame_min_length, write_plus_feedback_frame, plus_feedback_frame_min_length,
}
use plus_quic_go.Packets.Unpacker.{
  Frame, stream, ack, rst_stream, connection_close, goaway, window_update, blocked, stop_waiting,
  ping, plus_feedback,
}

-- What Write appends at the time `now`, and the error that it returns.
unfoldable pub write_frame : ℕ → Frame → List ℕ × Option Wire.Error
write_frame now (stream f) = write_stream_frame f
write_frame now (ack f) = (write_ack_frame now f).1
write_frame now (rst_stream f) = (write_rst_stream_frame f, none)
write_frame now (connection_close f) = write_connection_close_frame f
write_frame now (goaway f) = (write_goaway_frame f, none)
write_frame now (window_update f) = (write_window_update_frame f, none)
write_frame now (blocked f) = (write_blocked_frame f, none)
write_frame now (stop_waiting f) = write_stop_waiting_frame f
write_frame now (ping f) = (write_ping_frame f, none)
write_frame now (plus_feedback f) = write_plus_feedback_frame f

unfoldable pub frame_min_length : Frame → Result Wire.Error ℕ
frame_min_length (stream f) = ok (stream_frame_min_length f)
frame_min_length (ack f) = ok (ack_frame_min_length f)
frame_min_length (rst_stream f) = ok rst_stream_frame_min_length
frame_min_length (connection_close f) = ok (connection_close_frame_min_length f)
frame_min_length (goaway f) = ok (goaway_frame_min_length f)
frame_min_length (window_update f) = ok window_update_frame_min_length
frame_min_length (blocked f) = ok blocked_frame_min_length
frame_min_length (stop_waiting f) = stop_waiting_frame_min_length f
frame_min_length (ping f) = ok ping_frame_min_length
frame_min_length (plus_feedback f) = ok (plus_feedback_frame_min_length f)
