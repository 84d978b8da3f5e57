-- ===== src/Tests/Handshake.antt =====
-- The negotiation of the connection parameters.
use plus_quic_go.Base.{ℕ, ◌*◌, ◌/◌, ◌≡◌, ◌≢◌, refl, ◌⊎◌, none, some, true, List, [], ◌∷◌, arith}
use plus_quic_go.Base.Keyed.{lookup}
use plus_quic_go.Streams.Map.{server, client}
use plus_quic_go.Wire.{read_uint32, read_byte}
use plus_quic_go.Protocol.Parameters.{max_streams_per_connection}
use plus_quic_go.Handshake.Parameters.{
  ConnectionParametersManager, new_connection_parameters_manager, set_from_map, set_truncation,
  set_limits, set_windows, and_then, set_value, set_window, read_value, get_hello_map, min_uint32,
  negotiate_idle_lifetime, second, flow_control_parameters, stream_limits, malformed_tag, tag_mspc,
  tag_sfcw, tag_cfcw,
}
use plus_quic_go.Handshake.Parameters.Exchange.{set_from_map-get_hello_map}
use plus_quic_go.Handshake.Parameters.Renegotiation.{set_from_map_negotiates_once}

abbrev of_client : ConnectionParametersManager
of_client = new_connection_parameters_manager client 37

abbrev of_server : ConnectionParametersManager
of_server = new_connection_parameters_manager server 37

-- A value of three bytes is malformed, and nothing is changed.
three_bytes :
    set_from_map ((tag_mspc, 1 ∷ 2 ∷ 3 ∷ []) ∷ []) of_server ≡ (of_server, some malformed_tag)
unfolding set_from_map set_truncation set_limits set_windows and_then set_value set_window
    read_value read_uint32 read_byte
three_bytes = refl

-- 16 streams are fewer than 100; the server takes the client's window.
sixteen_streams :
    let (h, error) =
      set_from_map
        ((tag_sfcw, 0 ∷ 1 ∷ 0 ∷ 0 ∷ []) ∷ (tag_mspc, 16 ∷ 0 ∷ 0 ∷ 0 ∷ []) ∷ [])
        of_server in
    (error ≡ none)
    × (h.max_streams ≡ 16)
    × (h.send_stream_window ≡ 256)
    × (h.flow_control_negotiated ≡ true)
unfolding set_from_map set_truncation set_limits set_windows and_then set_value set_window
    read_value read_uint32 read_byte
sixteen_streams = (refl, refl, refl, refl)

incoming_limit : (stream_limits of_server).max_incoming ≡ 110
incoming_limit = refl

set_from_map-get_hello_map_example :
    let (p', error) = set_from_map (get_hello_map of_client) of_server in
    (error ≡ none)
    × ((flow_control_parameters p').send_stream_window
        ≡ (flow_control_parameters of_client).receive_stream_window)
    × ((flow_control_parameters p').send_connection_window
        ≡ (flow_control_parameters of_client).receive_connection_window)
    × ((stream_limits p').max_outgoing ≡ 100)
    × (p'.max_streams ≡ min_uint32 of_client.max_streams max_streams_per_connection)
    × (p'.idle_connection_state_lifetime
        ≡ negotiate_idle_lifetime server
            (of_client.idle_connection_state_lifetime / second * second))
    × (p'.flow_control_negotiated ≡ true)
set_from_map-get_hello_map_example =
    set_from_map-get_hello_map of_client of_server (omega arith) (omega arith) (omega arith)
      (omega arith) refl

abbrev negotiated : ConnectionParametersManager
negotiated = record of_server { flow_control_negotiated = true }

abbrev offers_window : List (ℕ × List ℕ)
offers_window = (tag_sfcw, 0 ∷ 1 ∷ 0 ∷ 0 ∷ []) ∷ []

set_from_map_negotiates_once_example :
    let (h', error) = set_from_map offers_window negotiated in
    (h'.flow_control_negotiated ≡ true)
    × (h'.send_stream_window ≡ negotiated.send_stream_window)
    × (h'.send_connection_window ≡ negotiated.send_connection_window)
    × ((error ≢ none)
        ⊎ ((lookup tag_sfcw offers_window ≡ none) × (lookup tag_cfcw offers_window ≡ none)))
set_from_map_negotiates_once_example = set_from_map_negotiates_once offers_window negotiated refl
