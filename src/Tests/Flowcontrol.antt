-- ===== src/Tests/Flowcontrol.antt =====
-- The package flowcontrol.
use plus_quic_go.Base.{◌≤◌, ◌≡◌, refl, true, false, [], ◌∷◌, none, some, arith}
use plus_quic_go.Base.Keyed.{lookup}
use plus_quic_go.Flowcontrol.Controller.{
  ConnectionParameters, FlowController, get_send_window, add_bytes_sent, update_send_window,
  send_window_size, maybe_update_window,
}
use plus_quic_go.Flowcontrol.Controller
use plus_quic_go.Flowcontrol.Controller.Windows.{update_all, update_all-largest}
use plus_quic_go.Flowcontrol.Manager.{
  FlowControlManager, reset_stream, update_highest_received, add_bytes_sent_to, send_window_size_of,
}
use plus_quic_go.Flowcontrol.Manager.Accounting.{
  IsAccounted, update_highest_received-IsAccounted, reset_stream-IsAccounted,
  add_bytes_sent_to_within,
}

abbrev parameters : ConnectionParameters
parameters = record {
  send_stream_window = 100;
  send_connection_window = 150;
  receive_stream_window = 100;
  max_receive_stream_window = 400;
  receive_connection_window = 150;
  max_receive_connection_window = 600;
}

-- Stream 5 after 60 bytes each way.
abbrev stream : FlowController
stream = record {
  stream_id = 5;
  contributes_to_connection = true;
  bytes_sent = 60;
  send_window = 0;
  last_window_update_time = some 1000;
  bytes_read = 60;
  highest_received = 60;
  receive_window = 100;
  receive_window_increment = 100;
  max_receive_window_increment = 400;
}

abbrev connection : FlowController
connection = record stream {
  stream_id = 0;
  contributes_to_connection = false;
  receive_window = 150;
}

abbrev manager : FlowControlManager
manager = record { stream_flow_controller = (5, stream) ∷ []; conn_flow_controller = connection }

-- Offsets in any order; the parameter is 100, and the largest offset 70.
update_all-largest_example :
    (get_send_window parameters (update_all (30 ∷ 70 ∷ 50 ∷ []) stream) ≡ 70)
    × (send_window_size parameters (update_all (30 ∷ 70 ∷ 50 ∷ []) stream) ≡ 10)
update_all-largest_example = update_all-largest (30 ∷ 70 ∷ 50 ∷ []) parameters stream

abbrev after_80 : FlowControlManager
after_80 = record {
  stream_flow_controller = (5, record stream { highest_received = 80 }) ∷ [];
  conn_flow_controller = record connection { highest_received = 80 };
}

update_highest_received-IsAccounted_example :
    (c' : FlowController) × IsAccounted 5 80 manager after_80 stream c'
unfolding update_highest_received Controller.check_flow_control_violation
    Controller.update_highest_received Controller.increment_highest_received
update_highest_received-IsAccounted_example =
    update_highest_received-IsAccounted 5 80 stream manager after_80 refl (omega arith)
      (omega arith) refl

reset_stream-IsAccounted_example :
    (60 ≤ 80) × ((c' : FlowController) × IsAccounted 5 80 manager after_80 stream c')
unfolding reset_stream Controller.check_flow_control_violation Controller.update_highest_received
    Controller.increment_highest_received
reset_stream-IsAccounted_example =
    reset_stream-IsAccounted 5 80 stream manager after_80 refl (omega arith) (omega arith) refl

add_bytes_sent_to_within_example :
    let (f', e) = add_bytes_sent_to 5 30 manager in
    (e ≡ none)
    × (lookup 5 f'.stream_flow_controller ≡ some (add_bytes_sent 30 stream))
    × ((add_bytes_sent 30 stream).bytes_sent ≤ get_send_window parameters stream)
    × (f'.conn_flow_controller.bytes_sent ≡ 90)
    × (f'.conn_flow_controller.bytes_sent ≤ get_send_window parameters connection)
unfolding send_window_size_of get_send_window send_window_size
add_bytes_sent_to_within_example =
    add_bytes_sent_to_within 5 30 40 parameters stream manager refl refl (omega arith) (omega arith)
      (omega arith) (omega arith) (omega arith)
