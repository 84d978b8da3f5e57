-- ===== src/Tests/Streams.antt =====
-- The streams map, with streams that are their ids.
use plus_quic_go.Base.{ℕ, ltb, ◌+◌, ◌≤◌, ◌≡◌, refl, inr, List, [], ◌∷◌, ◌++◌, none, some, ok, arith}
use plus_quic_go.Base.Rotation.{rotated}
use plus_quic_go.Streams.Map
use plus_quic_go.Streams.Map.{
  Perspective, server, client, StreamLimits, StreamFactory, StreamsMap, new_streams_map,
  get_or_open_stream, open_stream, remove_stream,
}
use plus_quic_go.Streams.Map.Counts.{count_parity}
use plus_quic_go.Streams.Map.Validity.{IsValid, new_streams_map-IsValid}
use plus_quic_go.Streams.Map.Runs.{IsFaithful, Found}
use plus_quic_go.Streams.Map.Opening.{get_or_open_stream_opens}
use plus_quic_go.Streams.Map.Reachable.{here, next, gets_or_opens, iterates, Reach-IsValid}
use plus_quic_go.Session.{garbage_collect_streams}
use plus_quic_go.Session.Collection.{garbage_collect_streams-Step}
use plus_quic_go.Flowcontrol.Controller.{ConnectionParameters}
use plus_quic_go.Flowcontrol.Manager.{new_flow_control_manager}
use plus_quic_go.Streams.Map.Limits.{open_times, open_times-unlimited, open_stream-limited}
use plus_quic_go.Streams.Map.Iteration.{iterate_func, iterate_over, iterate, round_robin_iterate}
use plus_quic_go.Streams.Map.Iteration.RoundRobin.{always, serve, others, round_robin_iterate-serve}

abbrev plain : StreamFactory ℕ
plain = record { create = λ id. ok id; id_of = λ s. s }

plain-IsFaithful : IsFaithful plain
plain-IsFaithful id s e = ground arith

abbrev limits : StreamLimits
limits = record { max_incoming = 110; max_outgoing = 2 }

abbrev parameters : ConnectionParameters
parameters = record {
  send_stream_window = 100;
  send_connection_window = 150;
  receive_stream_window = 100;
  max_receive_stream_window = 400;
  receive_connection_window = 150;
  max_receive_connection_window = 600;
}

abbrev empty_server : StreamsMap ℕ
empty_server = new_streams_map server

-- After the peer has used stream 5.
abbrev with_five : StreamsMap ℕ
with_five = (get_or_open_stream plain limits 5 empty_server).0

opens_three : with_five.open_streams ≡ 1 ∷ 3 ∷ 5 ∷ []
unfolding get_or_open_stream new_streams_map Map.open_remote_streams Map.next_remote
    Map.open_remote_stream
opens_three = refl

abbrev log : ℕ → List ℕ → List ℕ
log s t = t ++ s ∷ []

-- RoundRobinIterate has served stream 5, where the index was 0, and has moved it to 1.
abbrev served : StreamsMap ℕ
served = (round_robin_iterate (always log) with_five []).0.0

moves_index : served.round_robin_index ≡ 1
unfolding round_robin_iterate get_or_open_stream new_streams_map Map.open_remote_streams
    Map.next_remote Map.open_remote_stream iterate_func
moves_index = refl

-- Streams 3 and above have finished; 1 is left, and the index is at the end.
abbrev collected : StreamsMap ℕ
collected =
    (garbage_collect_streams (ltb 2) (λ s. s) (served, new_flow_control_manager parameters)).1.0

leaves_one : (collected.open_streams ≡ 1 ∷ []) × (collected.round_robin_index ≡ 1)
unfolding garbage_collect_streams iterate iterate_over round_robin_iterate get_or_open_stream
    new_streams_map Map.open_remote_streams Map.next_remote Map.open_remote_stream iterate_func
    remove_stream
leaves_one = (refl, refl)

Reach-IsValid_example : IsValid collected
unfolding new_streams_map
Reach-IsValid_example = Reach-IsValid plain plain-IsFaithful server (
    next
      (next (next here (gets_or_opens limits 5 (omega arith) refl)) (iterates (always log) [] refl))
      (garbage_collect_streams-Step (ltb 2) (λ s. s) plain served
        (new_flow_control_manager parameters)))

get_or_open_stream_opens_example : Found 3 with_five
unfolding get_or_open_stream new_streams_map Map.open_remote_streams Map.next_remote
    Map.open_remote_stream
get_or_open_stream_opens_example =
    get_or_open_stream_opens plain plain-IsFaithful limits 5 3 empty_server with_five (some 5)
      (new_streams_map-IsValid server) (omega arith) refl refl
      (inr (omega arith, omega arith, ground arith))

open_times-unlimited_example :
    (count_parity 1 (open_times plain limits 3 (new_streams_map client)).streams ≡ 0 + 3)
    × ((open_times plain limits 3 (new_streams_map client)).num_outgoing_streams ≡ 0)
unfolding new_streams_map
open_times-unlimited_example =
    open_times-unlimited plain plain-IsFaithful limits 3 (new_streams_map client) (λ id. (id, refl))
      (new_streams_map-IsValid client) refl refl (omega arith) (omega arith)

open_stream-limited_example :
    let m' = (open_stream plain limits empty_server).0 in
    (count_parity 0 m'.streams ≤ 2)
    × (count_parity 0 m'.streams ≡ 0 + 1)
    × (count_parity 1 m'.streams ≡ 0)
unfolding open_stream new_streams_map
open_stream-limited_example =
    open_stream-limited plain plain-IsFaithful limits empty_server
      (open_stream plain limits empty_server).0 2 (new_streams_map-IsValid server) refl
      (omega arith) refl

abbrev turned : StreamsMap ℕ
turned = record (get_or_open_stream plain limits 9 empty_server).0 { round_robin_index = 3 }

turned-IsValid : IsValid turned
unfolding get_or_open_stream new_streams_map Map.open_remote_streams Map.next_remote
    Map.open_remote_stream
turned-IsValid =
    let v =
      Reach-IsValid plain plain-IsFaithful server
        (next here (gets_or_opens limits 9 (omega arith) refl)) in
    record {
      listed = v.listed;
      distinct = v.distinct;
      outgoing_counted = v.outgoing_counted;
      incoming_counted = v.incoming_counted;
      below = v.below;
      next_parity = v.next_parity;
      highest_parity = v.highest_parity;
      index_le = omega arith;
    }

round_robin_iterate-serve_example :
    let ((m', e), t') = round_robin_iterate (always log) turned [] in
    (e ≡ none) × (t' ≡ serve log turned (1 ∷ 3 ∷ others (rotated 3 turned.open_streams)) [])
unfolding get_or_open_stream new_streams_map Map.open_remote_streams Map.next_remote
    Map.open_remote_stream
round_robin_iterate-serve_example =
    round_robin_iterate-serve log turned turned-IsValid (omega arith) []

serves_from_index : (round_robin_iterate (always log) turned []).1 ≡ 1 ∷ 3 ∷ 7 ∷ 9 ∷ 5 ∷ []
unfolding round_robin_iterate get_or_open_stream new_streams_map Map.open_remote_streams
    Map.next_remote Map.open_remote_stream iterate_func
serves_from_index = refl
