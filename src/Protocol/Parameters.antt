-- ===== src/Protocol/Parameters.antt =====
-- The limits of protocol/server_parameters.go and protocol/protocol.go that the modelled code
-- reads. Durations are counted in nanoseconds, as time.Duration does.
use plus_quic_go.Base.{ℕ, ◌*◌, ◌^◌}

abbrev pub default_max_congestion_window : ℕ
default_max_congestion_window = 1000

abbrev pub ack_send_delay : ℕ
ack_send_delay = 25 * 1_000_000

abbrev pub max_tracked_skipped_packets : ℕ
max_tracked_skipped_packets = 10

abbrev pub max_tracked_sent_packets : ℕ
max_tracked_sent_packets = 2 * default_max_congestion_window

abbrev pub max_tracked_received_packets : ℕ
max_tracked_received_packets = 2 * default_max_congestion_window

abbrev pub max_tracked_received_ack_ranges : ℕ
max_tracked_received_ack_ranges = default_max_congestion_window

abbrev pub max_packets_received_before_ack_send : ℕ
max_packets_received_before_ack_send = 20

abbrev pub retransmittable_packets_before_ack : ℕ
retransmittable_packets_before_ack = 2

abbrev pub max_streams_per_connection : ℕ
max_streams_per_connection = 100

abbrev pub max_new_stream_id_delta : ℕ
max_new_stream_id_delta = 4 * max_streams_per_connection

abbrev pub default_tcp_mss : ℕ
default_tcp_mss = 1460

abbrev pub max_packet_size : ℕ
max_packet_size = 1350

abbrev pub max_incoming_dynamic_streams_per_connection : ℕ
max_incoming_dynamic_streams_per_connection = 100

abbrev pub max_streams_minimum_increment : ℕ
max_streams_minimum_increment = 10

abbrev pub initial_stream_flow_control_window : ℕ
initial_stream_flow_control_window = 2 ^ 14

abbrev pub initial_connection_flow_control_window : ℕ
initial_connection_flow_control_window = 2 ^ 14

abbrev pub receive_stream_flow_control_window : ℕ
receive_stream_flow_control_window = 2 ^ 10 * 32

abbrev pub receive_connection_flow_control_window : ℕ
receive_connection_flow_control_window = 2 ^ 10 * 48

abbrev pub max_receive_stream_flow_control_window_server : ℕ
max_receive_stream_flow_control_window_server = 1 * 2 ^ 20

-- 1.5 MB
abbrev pub max_receive_connection_flow_control_window_server : ℕ
max_receive_connection_flow_control_window_server = 3 * 2 ^ 19

abbrev pub max_receive_stream_flow_control_window_client : ℕ
max_receive_stream_flow_control_window_client = 6 * 2 ^ 20

abbrev pub max_receive_connection_flow_control_window_client : ℕ
max_receive_connection_flow_control_window_client = 15 * 2 ^ 20

abbrev pub default_idle_timeout : ℕ
default_idle_timeout = 30 * 1_000_000_000

abbrev pub max_idle_timeout_server : ℕ
max_idle_timeout_server = 60 * 1_000_000_000

abbrev pub max_idle_timeout_client : ℕ
max_idle_timeout_client = 120 * 1_000_000_000
