-- ===== src/Flowcontrol/Manager.antt =====
-- flowcontrol/flow_control_manager.go: the controllers of all streams and of the connection. The
-- mutex makes each call one step. A call that fails may have changed the state before.
pub mod Accounting
use plus_quic_go.Base.{
  ℕ, ◌+◌, ◌-◌, ◌*◌, ◌/◌, Bool, true, false, List, [], ◌∷◌, ◌++◌, Option, none, some, ltb, ◌==◌,
  ◌&&◌, not, if◌then◌else◌, Result, ok, err,
}
use plus_quic_go.Base.Keyed.{lookup, insert, delete}
use plus_quic_go.Flowcontrol.Controller
use plus_quic_go.Flowcontrol.Controller.{
  ConnectionParameters, FlowController, new_flow_controller, add_bytes_sent, update_send_window,
  send_window_size, increment_highest_received, add_bytes_read, min_byte_count, WindowUpdate,
  maybe_update_window, ensure_minimum_window_increment, check_flow_control_violation,
}

pub record FlowControlManager : Type 0 where
  pub stream_flow_controller : List (ℕ × FlowController)
  pub conn_flow_controller : FlowController

pub data Error : Type 0 where
  map_access : Error
  stream_data_after_termination : Error
  flow_control_received_too_much_data : Error

abbrev pub Outcome : Type 0
Outcome = FlowControlManager × Option Error

-- NewFlowControlManager
unfoldable pub new_flow_control_manager : ConnectionParameters → FlowControlManager
new_flow_control_manager p = record {
  stream_flow_controller = [];
  conn_flow_controller = new_flow_controller 0 false p;
}

unfoldable pub add_missing :
    Option FlowController → ℕ → FlowController → FlowControlManager → FlowControlManager
add_missing (some old) stream_id c f = f
add_missing none stream_id c f = record f {
  stream_flow_controller = insert stream_id c f.stream_flow_controller;
}

-- NewStream
unfoldable pub new_stream :
    ℕ → Bool → ConnectionParameters → FlowControlManager → FlowControlManager
unfolding add_missing
new_stream stream_id contributes p f =
    add_missing (lookup stream_id f.stream_flow_controller) stream_id
      (new_flow_controller stream_id contributes p) f

-- RemoveStream
unfoldable pub remove_stream : ℕ → FlowControlManager → FlowControlManager
remove_stream stream_id f = record f {
  stream_flow_controller = delete stream_id f.stream_flow_controller;
}

-- The end of ResetStream and UpdateHighestReceived: `c` is the stream's controller with the new
-- highest offset, which was raised by `increment`.
unfoldable pub account_received : ℕ → ℕ → FlowController → FlowControlManager → Outcome
account_received stream_id increment c f =
    let f' = record f { stream_flow_controller = insert stream_id c f.stream_flow_controller } in
    if check_flow_control_violation c
    then (f', some flow_control_received_too_much_data)
    else if c.contributes_to_connection
    then (let conn = increment_highest_received increment f.conn_flow_controller in
        (
          record f' { conn_flow_controller = conn },
          if check_flow_control_violation conn
              then some flow_control_received_too_much_data
              else none,
        ))
    else (f', none)

unfoldable pub reset_with :
    ℕ → Result Controller.Error (ℕ × FlowController) → FlowControlManager → Outcome
reset_with stream_id (err e) f = (f, some stream_data_after_termination)
reset_with stream_id (ok (increment, c)) f = account_received stream_id increment c f

unfoldable pub reset_found : Option FlowController → ℕ → ℕ → FlowControlManager → Outcome
unfolding reset_with account_received
reset_found none stream_id byte_offset f = (f, some map_access)
reset_found (some c) stream_id byte_offset f =
    reset_with stream_id (Controller.update_highest_received byte_offset c) f

-- ResetStream
unfoldable pub reset_stream : ℕ → ℕ → FlowControlManager → Outcome
unfolding reset_found
reset_stream stream_id byte_offset f =
    reset_found (lookup stream_id f.stream_flow_controller) stream_id byte_offset f

-- An offset below the highest one is ignored: the increment is 0 and the controller as before.
unfoldable pub ignoring_reordering :
    FlowController → Result Controller.Error (ℕ × FlowController) → ℕ × FlowController
ignoring_reordering c (err e) = (0, c)
ignoring_reordering c (ok r) = r

unfoldable pub update_found : Option FlowController → ℕ → ℕ → FlowControlManager → Outcome
unfolding ignoring_reordering account_received
update_found none stream_id byte_offset f = (f, some map_access)
update_found (some c) stream_id byte_offset f =
    let (increment, c') =
      ignoring_reordering c (Controller.update_highest_received byte_offset c) in
    account_received stream_id increment c' f

-- UpdateHighestReceived
unfoldable pub update_highest_received : ℕ → ℕ → FlowControlManager → Outcome
unfolding update_found
update_highest_received stream_id byte_offset f =
    update_found (lookup stream_id f.stream_flow_controller) stream_id byte_offset f

-- A change of a stream's controller, and of the connection's where the stream contributes.
unfoldable pub change_both :
    Option FlowController → (FlowController → FlowController) → ℕ → FlowControlManager → Outcome
change_both none change stream_id f = (f, some map_access)
change_both (some c) change stream_id f = (
  record {
    stream_flow_controller = insert stream_id (change c) f.stream_flow_controller;
    conn_flow_controller =
        if c.contributes_to_connection
        then change f.conn_flow_controller
        else f.conn_flow_controller;
  },
  none,
)

-- AddBytesRead
unfoldable pub add_bytes_read_to : ℕ → ℕ → ℕ → FlowControlManager → Outcome
unfolding change_both
add_bytes_read_to stream_id n now f =
    change_both (lookup stream_id f.stream_flow_controller) (add_bytes_read n now) stream_id f

-- AddBytesSent
unfoldable pub add_bytes_sent_to : ℕ → ℕ → FlowControlManager → Outcome
unfolding change_both
add_bytes_sent_to stream_id n f =
    change_both (lookup stream_id f.stream_flow_controller) (add_bytes_sent n) stream_id f

-- `float64(newIncrement) * ConnectionFlowControlMultiplier`, as a ByteCount: exact below 2^52.
abbrev pub connection_increment : ℕ → ℕ
connection_increment increment = increment * 3 / 2

unfoldable pub adjust_connection : Bool → ℕ → FlowController → FlowController
adjust_connection contributes increment conn =
    if contributes && not (increment == 0)
    then ensure_minimum_window_increment (connection_increment increment) conn
    else conn

-- The loop of GetWindowUpdates over the streams. Go visits the map in any order, here that of the
-- list. The results are the updates (stream and offset), the streams and the connection.
unfoldable pub stream_updates :
    ℕ
    → ℕ
    → List (ℕ × FlowController)
    → FlowController
    → List (ℕ × ℕ) × List (ℕ × FlowController) × FlowController
stream_updates rtt now [] conn = ([], [], conn)
stream_updates rtt now ((id, c) ∷ cs) conn =
    let (u, c') = maybe_update_window rtt now c in
    let conn' =
      if u.necessary
      then adjust_connection c.contributes_to_connection u.increment conn
      else conn in
    let (updates, cs', conn'') = stream_updates rtt now cs conn' in
    (if u.necessary then (id, u.offset) ∷ updates else updates, (id, c') ∷ cs', conn'')

-- GetWindowUpdates
unfoldable pub get_window_updates : ℕ → ℕ → FlowControlManager → List (ℕ × ℕ) × FlowControlManager
unfolding stream_updates adjust_connection
get_window_updates rtt now f =
    let (updates, streams, conn) =
      stream_updates rtt now f.stream_flow_controller f.conn_flow_controller in
    let (u, conn') = maybe_update_window rtt now conn in
    (
      if u.necessary then updates ++ (0, u.offset) ∷ [] else updates,
      record { stream_flow_controller = streams; conn_flow_controller = conn' },
    )

unfoldable pub smaller_window : ConnectionParameters → FlowController → FlowController → ℕ
smaller_window p c conn =
    if c.contributes_to_connection
    then min_byte_count (send_window_size p c) (send_window_size p conn)
    else send_window_size p c

unfoldable pub window_of_found :
    Option FlowController → ConnectionParameters → FlowControlManager → Result Error ℕ
window_of_found none p f = err map_access
window_of_found (some c) p f = ok (smaller_window p c f.conn_flow_controller)

-- SendWindowSize
unfoldable pub send_window_size_of : ℕ → ConnectionParameters → FlowControlManager → Result Error ℕ
unfolding window_of_found smaller_window
send_window_size_of stream_id p f = window_of_found (lookup stream_id f.stream_flow_controller) p f

-- RemainingConnectionWindowSize
unfoldable pub remaining_connection_window_size : ConnectionParameters → FlowControlManager → ℕ
remaining_connection_window_size p f = send_window_size p f.conn_flow_controller

unfoldable pub receive_window_of_found : Option FlowController → Result Error ℕ
receive_window_of_found none = err map_access
receive_window_of_found (some c) = ok c.receive_window

-- GetReceiveWindow
unfoldable pub get_receive_window : ℕ → FlowControlManager → Result Error ℕ
unfolding receive_window_of_found
get_receive_window stream_id f = receive_window_of_found (lookup stream_id f.stream_flow_controller)

unfoldable pub update_window_of_found :
    Option FlowController → ℕ → ℕ → FlowControlManager → Result Error (Bool × FlowControlManager)
update_window_of_found none stream_id offset f = err map_access
update_window_of_found (some c) stream_id offset f =
    let (updated, c') = update_send_window offset c in
    ok (updated, record f { stream_flow_controller = insert stream_id c' f.stream_flow_controller })

-- UpdateWindow
unfoldable pub update_window : ℕ → ℕ → FlowControlManager → Result Error (Bool × FlowControlManager)
unfolding update_window_of_found
update_window stream_id offset f =
    if stream_id == 0
    then (let (updated, c') = update_send_window offset f.conn_flow_controller in
        ok (updated, record f { conn_flow_controller = c' }))
    else update_window_of_found (lookup stream_id f.stream_flow_controller) stream_id offset f
