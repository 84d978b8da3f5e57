-- ===== src/Flowcontrol/Controller.antt =====
-- flowcontrol/flow_controller.go: the flow controller of one stream, or of the connection (stream
-- 0). Byte counts are uint64. A time is a number of nanoseconds and the zero time.Time is `none`;
-- the clock and the smoothed RTT, which other parts own, are arguments. The parameters that
-- handshake.ConnectionParametersManager answers are a record of the answers at the time of the
-- call.
pub mod Windows
use plus_quic_go.Base.{
  ℕ, ◌+◌, ◌-◌, ◌*◌, ◌/◌, ◌^◌, Bool, true, false, Option, none, some, ltb, leb, ◌==◌, if◌then◌else◌,
  Result, ok, err,
}
use plus_quic_go.Base.Words.{add64, sub64, mul64}

pub record ConnectionParameters : Type 0 where
  pub send_stream_window : ℕ
  pub send_connection_window : ℕ
  pub receive_stream_window : ℕ
  pub max_receive_stream_window : ℕ
  pub receive_connection_window : ℕ
  pub max_receive_connection_window : ℕ

pub record FlowController : Type 0 where
  pub stream_id : ℕ
  pub contributes_to_connection : Bool
  pub bytes_sent : ℕ
  pub send_window : ℕ
  pub last_window_update_time : Option ℕ
  pub bytes_read : ℕ
  pub highest_received : ℕ
  pub receive_window : ℕ
  pub receive_window_increment : ℕ
  pub max_receive_window_increment : ℕ

-- newFlowController
unfoldable pub new_flow_controller : ℕ → Bool → ConnectionParameters → FlowController
new_flow_controller stream_id contributes p =
    let window = if stream_id == 0 then p.receive_connection_window else p.receive_stream_window in
    record {
      stream_id = stream_id;
      contributes_to_connection = contributes;
      bytes_sent = 0;
      send_window = 0;
      last_window_update_time = none;
      bytes_read = 0;
      highest_received = 0;
      receive_window = window;
      receive_window_increment = window;
      max_receive_window_increment =
          if stream_id == 0 then p.max_receive_connection_window else p.max_receive_stream_window;
    }

-- getSendWindow
unfoldable pub get_send_window : ConnectionParameters → FlowController → ℕ
get_send_window p c =
    if c.send_window == 0
    then if c.stream_id == 0 then p.send_connection_window else p.send_stream_window
    else c.send_window

-- AddBytesSent
unfoldable pub add_bytes_sent : ℕ → FlowController → FlowController
add_bytes_sent n c = record c { bytes_sent = add64 c.bytes_sent n }

-- UpdateSendWindow
unfoldable pub update_send_window : ℕ → FlowController → Bool × FlowController
update_send_window new_offset c =
    if ltb c.send_window new_offset
    then (true, record c { send_window = new_offset })
    else (false, c)

-- SendWindowSize
unfoldable pub send_window_size : ConnectionParameters → FlowController → ℕ
send_window_size p c =
    if ltb (get_send_window p c) c.bytes_sent then 0 else get_send_window p c - c.bytes_sent

pub data Error : Type 0 where
  received_smaller_byte_offset : Error

-- UpdateHighestReceived. On the error the controller stays as it is and the increment is 0.
unfoldable pub update_highest_received : ℕ → FlowController → Result Error (ℕ × FlowController)
update_highest_received byte_offset c =
    if byte_offset == c.highest_received
    then ok (0, c)
    else if ltb c.highest_received byte_offset
    then ok (byte_offset - c.highest_received, record c { highest_received = byte_offset })
    else err received_smaller_byte_offset

-- IncrementHighestReceived
unfoldable pub increment_highest_received : ℕ → FlowController → FlowController
increment_highest_received increment c = record c {
  highest_received = add64 c.highest_received increment;
}

-- AddBytesRead
unfoldable pub add_bytes_read : ℕ → ℕ → FlowController → FlowController
add_bytes_read n now c = record c {
  last_window_update_time = if c.bytes_read == 0 then some now else c.last_window_update_time;
  bytes_read = add64 c.bytes_read n;
}

-- utils.MinByteCount
abbrev pub min_byte_count : ℕ → ℕ → ℕ
min_byte_count a b = if ltb a b then a else b

-- The increment after maybeAdjustWindowIncrement: it is doubled, up to its maximum, where the last
-- update is less than two RTTs ago.
unfoldable pub adjusted_increment : Option ℕ → ℕ → ℕ → ℕ → ℕ → ℕ
adjusted_increment none rtt now increment max_increment = increment
adjusted_increment (some last) rtt now increment max_increment =
    if rtt == 0
    then increment
    else if leb (2 * rtt) (now - last)
    then increment
    else min_byte_count (mul64 2 increment) max_increment

-- maybeAdjustWindowIncrement
unfoldable pub maybe_adjust_window_increment : ℕ → ℕ → FlowController → FlowController
maybe_adjust_window_increment rtt now c = record c {
  receive_window_increment =
      adjusted_increment c.last_window_update_time rtt now c.receive_window_increment
        c.max_receive_window_increment;
}

pub record WindowUpdate : Type 0 where
  pub necessary : Bool
  -- The new increment where it has changed, and 0 where not.
  pub increment : ℕ
  pub offset : ℕ

-- MaybeUpdateWindow
unfoldable pub maybe_update_window : ℕ → ℕ → FlowController → WindowUpdate × FlowController
unfolding maybe_adjust_window_increment
maybe_update_window rtt now c =
    if ltb (sub64 c.receive_window c.bytes_read) (c.receive_window_increment / 2)
    then (let c' = maybe_adjust_window_increment rtt now c in
        let window = add64 c.bytes_read c'.receive_window_increment in
        (
          record {
            necessary = true;
            increment =
                if c'.receive_window_increment == c.receive_window_increment
                then 0
                else c'.receive_window_increment;
            offset = window;
          },
          record c' { last_window_update_time = some now; receive_window = window },
        ))
    else (record { necessary = false; increment = 0; offset = 0 }, c)

-- EnsureMinimumWindowIncrement
unfoldable pub ensure_minimum_window_increment : ℕ → FlowController → FlowController
ensure_minimum_window_increment inc c =
    if ltb c.receive_window_increment inc
    then record c {
      receive_window_increment = min_byte_count inc c.max_receive_window_increment;
      last_window_update_time = none;
    }
    else c

-- CheckFlowControlViolation
unfoldable pub check_flow_control_violation : FlowController → Bool
check_flow_control_violation c = ltb c.receive_window c.highest_received
