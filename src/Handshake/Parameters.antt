-- ===== src/Handshake/Parameters.antt =====
-- handshake/connection_parameters_manager.go: the limits that the hello messages negotiate. A message
-- is a Go map from tags to bytes.
pub mod Exchange
pub mod Renegotiation
use plus_quic_go.Base.{
  ℕ, ◌+◌, ◌*◌, ◌/◌, ◌%◌, ◌^◌, Option, none, some, List, [], ◌∷◌, Bool, true, false, ltb, ◌||◌,
  if◌then◌else◌, Result, ok, err, ◌==◌,
}
use plus_quic_go.Base.Keyed.{lookup}
use plus_quic_go.Protocol.Parameters.{
  max_streams_per_connection, max_incoming_dynamic_streams_per_connection,
  initial_stream_flow_control_window, initial_connection_flow_control_window,
  receive_stream_flow_control_window, receive_connection_flow_control_window, default_idle_timeout,
  max_idle_timeout_server, max_idle_timeout_client, max_receive_stream_flow_control_window_server,
  max_receive_stream_flow_control_window_client, max_receive_connection_flow_control_window_server,
  max_receive_connection_flow_control_window_client, max_streams_minimum_increment,
}
use plus_quic_go.Wire.{read_uint32, write_uint32}
use plus_quic_go.Ackhandler.Sent.Loss.{min_duration}
use plus_quic_go.Streams.Map.{Perspective, server, client, is_server, StreamLimits}
use plus_quic_go.Flowcontrol.Controller.{ConnectionParameters}

-- A tag is four letters, the first of them in the lowest byte.
abbrev tag_of : ℕ → ℕ → ℕ → ℕ → ℕ
tag_of a b c d = a + b * 2 ^ 8 + c * 2 ^ 16 + d * 2 ^ 24

abbrev pub tag_tcid : ℕ
tag_tcid = tag_of 84 67 73 68

abbrev pub tag_mspc : ℕ
tag_mspc = tag_of 77 83 80 67

abbrev pub tag_mids : ℕ
tag_mids = tag_of 77 73 68 83

abbrev pub tag_icsl : ℕ
tag_icsl = tag_of 73 67 83 76

abbrev pub tag_cfcw : ℕ
tag_cfcw = tag_of 67 70 67 87

abbrev pub tag_sfcw : ℕ
tag_sfcw = tag_of 83 70 67 87

pub data ParametersError : Type 0 where
  malformed_tag : ParametersError
  flow_control_renegotiation_not_supported : ParametersError

pub record ConnectionParametersManager : Type 0 where
  pub version : ℕ
  pub perspective : Perspective
  pub flow_control_negotiated : Bool
  pub truncates_connection_id : Bool
  pub max_streams : ℕ
  pub max_incoming_dynamic_streams : ℕ
  pub idle_connection_state_lifetime : ℕ
  pub send_stream_window : ℕ
  pub send_connection_window : ℕ
  pub receive_stream_window : ℕ
  pub receive_connection_window : ℕ

-- NewConnectionParamatersManager
abbrev pub new_connection_parameters_manager : Perspective → ℕ → ConnectionParametersManager
new_connection_parameters_manager p v = record {
  version = v;
  perspective = p;
  flow_control_negotiated = false;
  truncates_connection_id = false;
  max_streams = max_streams_per_connection;
  max_incoming_dynamic_streams = max_streams_per_connection;
  idle_connection_state_lifetime =
      if is_server p then default_idle_timeout else max_idle_timeout_client;
  send_stream_window = initial_stream_flow_control_window;
  send_connection_window = initial_connection_flow_control_window;
  receive_stream_window = receive_stream_flow_control_window;
  receive_connection_window = receive_connection_flow_control_window;
}

abbrev pub min_uint32 : ℕ → ℕ → ℕ
min_uint32 a b = if ltb a b then a else b

abbrev pub max_uint32 : ℕ → ℕ → ℕ
max_uint32 a b = if ltb a b then b else a

abbrev pub second : ℕ
second = 1_000_000_000

-- negotiateIdleConnectionStateLifetime
abbrev pub negotiate_idle_lifetime : Perspective → ℕ → ℕ
negotiate_idle_lifetime p value =
    min_duration value (if is_server p then max_idle_timeout_server else max_idle_timeout_client)

-- The manager and the error that SetFromMap returns.
abbrev pub Changed : Type 0
Changed = ConnectionParametersManager × Option ParametersError

-- `x`, and then, where it met no error, `next`.
unfoldable pub and_then : Changed → (ConnectionParametersManager → Changed) → Changed
and_then (h, none) next = next h
and_then (h, some e) next = (h, some e)

-- The value of a tag is read, and the bytes behind it are ignored.
unfoldable pub read_value : List ℕ → Result ParametersError ℕ
read_value value = elim (read_uint32 value) [ err e ↦ err malformed_tag | ok (v, rest) ↦ ok v ]

-- The block for one tag, where `set` stores the value.
unfoldable pub set_value :
    List (ℕ × List ℕ)
    → ℕ
    → (ℕ → ConnectionParametersManager → ConnectionParametersManager)
    → ConnectionParametersManager
    → Changed
set_value params tag set h = elim (lookup tag params) [
  | none ↦ (h, none)
  | some value ↦ elim (read_value value) [ err e ↦ (h, some e) | ok v ↦ (set v h, none) ]
]

-- The block for a window, which is refused where windows have been negotiated.
unfoldable pub set_window :
    List (ℕ × List ℕ)
    → ℕ
    → (ℕ → ConnectionParametersManager → ConnectionParametersManager)
    → ConnectionParametersManager
    → Changed
set_window params tag set h = elim (lookup tag params) [
  | none ↦ (h, none)
  | some value ↦
      if h.flow_control_negotiated
      then (h, some flow_control_renegotiation_not_supported)
      else set_value params tag set h
]

abbrev pub contains : ℕ → List (ℕ × List ℕ) → Bool
contains tag params = elim (lookup tag params) [ none ↦ false | some value ↦ true ]

abbrev pub set_truncates : ℕ → ConnectionParametersManager → ConnectionParametersManager
set_truncates v h = record h { truncates_connection_id = v == 0 }

abbrev pub set_max_streams : ℕ → ConnectionParametersManager → ConnectionParametersManager
set_max_streams v h = record h { max_streams = min_uint32 v max_streams_per_connection }

abbrev pub set_max_incoming : ℕ → ConnectionParametersManager → ConnectionParametersManager
set_max_incoming v h = record h {
  max_incoming_dynamic_streams = min_uint32 v max_incoming_dynamic_streams_per_connection;
}

abbrev pub set_idle : ℕ → ConnectionParametersManager → ConnectionParametersManager
set_idle v h = record h {
  idle_connection_state_lifetime = negotiate_idle_lifetime h.perspective (v * second);
}

abbrev pub set_send_stream : ℕ → ConnectionParametersManager → ConnectionParametersManager
set_send_stream v h = record h { send_stream_window = v }

abbrev pub set_send_connection : ℕ → ConnectionParametersManager → ConnectionParametersManager
set_send_connection v h = record h { send_connection_window = v }

-- The end of SetFromMap.
abbrev pub mark_negotiated :
    List (ℕ × List ℕ) → ConnectionParametersManager → ConnectionParametersManager
mark_negotiated params h =
    if contains tag_cfcw params || contains tag_sfcw params
    then record h { flow_control_negotiated = true }
    else h

-- The block for TCID, which only the server reads.
unfoldable pub set_truncation : List (ℕ × List ℕ) → ConnectionParametersManager → Changed
set_truncation params h =
    if is_server h.perspective then set_value params tag_tcid set_truncates h else (h, none)

-- The blocks for MSPC, MIDS and ICSL.
unfoldable pub set_limits : List (ℕ × List ℕ) → ConnectionParametersManager → Changed
set_limits params h = and_then (set_value params tag_mspc set_max_streams h) (λ h.
    and_then (set_value params tag_mids set_max_incoming h) (set_value params tag_icsl set_idle))

-- The blocks for SFCW and CFCW, and the end of SetFromMap.
unfoldable pub set_windows : List (ℕ × List ℕ) → ConnectionParametersManager → Changed
set_windows params h = and_then (set_window params tag_sfcw set_send_stream h) (λ h.
    and_then (set_window params tag_cfcw set_send_connection h)
      (λ h. (mark_negotiated params h, none)))

unfoldable pub set_from_map : List (ℕ × List ℕ) → ConnectionParametersManager → Changed
set_from_map params h =
    and_then (set_truncation params h) (λ h. and_then (set_limits params h) (set_windows params))

unfoldable pub get_hello_map : ConnectionParametersManager → List (ℕ × List ℕ)
get_hello_map h =
    (tag_icsl, write_uint32 (h.idle_connection_state_lifetime / second % 2 ^ 32))
    ∷ (tag_mspc, write_uint32 h.max_streams)
    ∷ (tag_mids, write_uint32 max_incoming_dynamic_streams_per_connection)
    ∷ (tag_cfcw, write_uint32 (h.receive_connection_window % 2 ^ 32))
    ∷ (tag_sfcw, write_uint32 (h.receive_stream_window % 2 ^ 32))
    ∷ []

-- What the flow control asks for.
abbrev pub flow_control_parameters : ConnectionParametersManager → ConnectionParameters
flow_control_parameters h = record {
  send_stream_window = h.send_stream_window;
  send_connection_window = h.send_connection_window;
  receive_stream_window = h.receive_stream_window;
  max_receive_stream_window =
      if is_server h.perspective
      then max_receive_stream_flow_control_window_server
      else max_receive_stream_flow_control_window_client;
  receive_connection_window = h.receive_connection_window;
  max_receive_connection_window =
      if is_server h.perspective
      then max_receive_connection_flow_control_window_server
      else max_receive_connection_flow_control_window_client;
}

-- What the streams map asks for. MaxStreamsMultiplier is 1.1; the product with it is computed in
-- floating point, and for the constant 100 it truncates to 110.
abbrev pub stream_limits : ConnectionParametersManager → StreamLimits
stream_limits h = record {
  max_incoming =
      max_uint32 (max_incoming_dynamic_streams_per_connection + max_streams_minimum_increment)
        (max_incoming_dynamic_streams_per_connection * 11 / 10);
  max_outgoing = h.max_incoming_dynamic_streams;
}

abbrev pub truncate_connection_id : ConnectionParametersManager → Bool
truncate_connection_id h = if is_server h.perspective then h.truncates_connection_id else false
