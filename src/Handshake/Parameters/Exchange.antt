-- ===== src/Handshake/Parameters/Exchange.antt =====
-- handshake/connection_parameters_manager.go: what one side offers is what the other side sends by.
use plus_quic_go.Base.{
  ℕ, ◌*◌, ◌/◌, ◌^◌, ◌<◌, ◌≡◌, refl, ap, sym, none, some, List, [], err, Bool, true, false, ok,
  arith, if◌then◌else◌,
}
use mathlib.Core.Path.{subst}
use plus_quic_go.Base.Keyed.{lookup}
use plus_quic_go.Protocol.Parameters.{max_streams_per_connection}
use plus_quic_go.Wire.{write_uint32}
use plus_quic_go.Wire.RoundTrip.{read_uint32-write_uint32}
use plus_quic_go.Streams.Map.{is_server}
use plus_quic_go.Handshake.Parameters.{
  ConnectionParametersManager, malformed_tag, flow_control_renegotiation_not_supported,
  mark_negotiated, set_max_streams, set_max_incoming, set_idle, set_send_stream,
  set_send_connection, tag_mspc, tag_mids, tag_icsl, tag_sfcw, tag_cfcw, and_then, read_value,
  set_value, set_window, set_from_map, set_truncation, set_limits, set_windows, get_hello_map,
  min_uint32, negotiate_idle_lifetime, second, flow_control_parameters, stream_limits, tag_tcid,
  set_truncates,
}

read_value-write_uint32 : (i : ℕ) → i < 2 ^ 32 → read_value (write_uint32 i) ≡ ok i
unfolding read_value write_uint32
read_value-write_uint32 i h =
    ap (λ r. elim r [ err e ↦ err malformed_tag | ok (v, rest) ↦ ok v ])
      (read_uint32-write_uint32 i [] h)

module _ (params : List (ℕ × List ℕ)) (tag i : ℕ)
    (set : ℕ → ConnectionParametersManager → ConnectionParametersManager)
    (h : ConnectionParametersManager) (named : lookup tag params ≡ some (write_uint32 i))
    (small : i < 2 ^ 32) where
  set_value-ok : set_value params tag set h ≡ (set i h, none)
  unfolding set_value
  set_value-ok = rw (set_value, named, read_value-write_uint32 i small)

  set_window-ok : h.flow_control_negotiated ≡ false → set_window params tag set h ≡ (set i h, none)
  unfolding set_window
  set_window-ok fresh =
      rw (set_window, named)
        (subst
          (λ b.
            (if b
              then (h, some flow_control_renegotiation_not_supported)
              else set_value params tag set h)
            ≡ (set i h, none))
          (sym fresh) set_value-ok)

named_mspc :
    (h : ConnectionParametersManager)
    → lookup tag_mspc (get_hello_map h) ≡ some (write_uint32 h.max_streams)
unfolding get_hello_map
named_mspc h = refl

named_mids :
    (h : ConnectionParametersManager) → lookup tag_mids (get_hello_map h) ≡ some (write_uint32 100)
unfolding get_hello_map
named_mids h = refl

named_icsl :
    (h : ConnectionParametersManager)
    → h.idle_connection_state_lifetime / second < 2 ^ 32
    → lookup tag_icsl (get_hello_map h)
      ≡ some (write_uint32 (h.idle_connection_state_lifetime / second))
unfolding get_hello_map
named_icsl h d = ap (λ x. some (write_uint32 x)) (omega arith)

named_sfcw :
    (h : ConnectionParametersManager)
    → h.receive_stream_window < 2 ^ 32
    → lookup tag_sfcw (get_hello_map h) ≡ some (write_uint32 h.receive_stream_window)
unfolding get_hello_map
named_sfcw h b = ap (λ x. some (write_uint32 x)) (omega arith)

named_cfcw :
    (h : ConnectionParametersManager)
    → h.receive_connection_window < 2 ^ 32
    → lookup tag_cfcw (get_hello_map h) ≡ some (write_uint32 h.receive_connection_window)
unfolding get_hello_map
named_cfcw h c = ap (λ x. some (write_uint32 x)) (omega arith)

-- A hello message has no TCID.
skips_tcid :
    (h p : ConnectionParametersManager) (b : Bool)
    → (if b then set_value (get_hello_map h) tag_tcid set_truncates p else (p, none)) ≡ (p, none)
unfolding set_value get_hello_map
skips_tcid h p true = refl
skips_tcid h p false = refl

-- What SetFromMap makes of the hello message of `h`.
unfoldable accepted :
    ConnectionParametersManager → ConnectionParametersManager → ConnectionParametersManager
accepted h p = mark_negotiated (get_hello_map h) (
    set_send_connection h.receive_connection_window (
      set_send_stream h.receive_stream_window (
        set_idle (h.idle_connection_state_lifetime / second)
          (set_max_incoming 100 (set_max_streams h.max_streams p)))))

module _ (h p : ConnectionParametersManager) (a : h.max_streams < 2 ^ 32)
    (b : h.receive_stream_window < 2 ^ 32) (c : h.receive_connection_window < 2 ^ 32)
    (d : h.idle_connection_state_lifetime / second < 2 ^ 32)
    (fresh : p.flow_control_negotiated ≡ false) where
  set_from_map-accepted : set_from_map (get_hello_map h) p ≡ (accepted h p, none)
  unfolding set_from_map set_truncation set_limits set_windows and_then accepted
  set_from_map-accepted =
      let m = get_hello_map h in
      let p1 = set_max_streams h.max_streams p in
      let p2 = set_max_incoming 100 p1 in
      let p3 = set_idle (h.idle_connection_state_lifetime / second) p2 in
      let p4 = set_send_stream h.receive_stream_window p3 in
      rw (
        skips_tcid h p (is_server p.perspective),
        set_value-ok m tag_mspc h.max_streams set_max_streams p (named_mspc h) a,
        set_value-ok m tag_mids 100 set_max_incoming p1 (named_mids h) (omega arith),
        set_value-ok m tag_icsl _ set_idle p2 (named_icsl h d) d,
        set_window-ok m tag_sfcw _ set_send_stream p3 (named_sfcw h b) b fresh,
        set_window-ok m tag_cfcw _ set_send_connection p4 (named_cfcw h c) c fresh,
      )

-- The message that GetHelloMap of one side makes is accepted by SetFromMap of a side that has not
-- negotiated windows before. From then on that side sends by the windows that the first receives by,
-- gives the streams map 100 as the limit on outgoing streams, and takes the number of streams and the
-- idle timeout that are offered, in whole seconds, or its own limits where these are smaller. The first
-- side's numbers fit the 32 bits that they are written with.
pub set_from_map-get_hello_map :
    (h p : ConnectionParametersManager)
    → h.max_streams < 2 ^ 32
    → h.receive_stream_window < 2 ^ 32
    → h.receive_connection_window < 2 ^ 32
    → h.idle_connection_state_lifetime / second < 2 ^ 32
    → p.flow_control_negotiated ≡ false
    → let (p', error) = set_from_map (get_hello_map h) p in
      (error ≡ none)
      × ((flow_control_parameters p').send_stream_window
          ≡ (flow_control_parameters h).receive_stream_window)
      × ((flow_control_parameters p').send_connection_window
          ≡ (flow_control_parameters h).receive_connection_window)
      × ((stream_limits p').max_outgoing ≡ 100)
      × (p'.max_streams ≡ min_uint32 h.max_streams max_streams_per_connection)
      × (p'.idle_connection_state_lifetime
          ≡ negotiate_idle_lifetime p.perspective
              (h.idle_connection_state_lifetime / second * second))
      × (p'.flow_control_negotiated ≡ true)
unfolding accepted get_hello_map
set_from_map-get_hello_map h p a b c d fresh =
    rw (set_from_map-accepted h p a b c d fresh) (refl, refl, refl, refl, refl, refl, refl)
