-- ===== src/Tests/Receiving.antt =====
-- The receiving side of the package ackhandler.
use plus_quic_go.Base.{
  ℕ, ◌≤◌, ◌≡◌, ◌≢◌, refl, ◌⊎◌, ◌↔◌, inr, true, false, List, [], ◌∷◌, none, some, ok, arith,
}
use plus_quic_go.Frames.Ack.{AckFrame, acks_packet, validate_ack_ranges}
use plus_quic_go.Ackhandler.History
use plus_quic_go.Ackhandler.History.{
  History, PacketInterval, new_history, is_duplicate, delete_below,
}
use plus_quic_go.Ackhandler.History.Intervals.{covers}
use plus_quic_go.Ackhandler.History.Duplicates.{
  IsValid, new_history-IsValid, received_packet-IsValid,
}
use plus_quic_go.Ackhandler.Received
use plus_quic_go.Ackhandler.Received.{
  ReceivedPacketHandler, Error, new_received_packet_handler, received_packet, received_stop_waiting,
  get_ack_frame, sent, nothing_to_send, index_out_of_range, maybe_queue_ack,
}
use plus_quic_go.Ackhandler.Received.Acceptance.{
  IsConsistent, Step, packet, stop_waiting, here, next, new_received_packet_handler-IsConsistent,
  Step-IsConsistent, accepted_once,
}
use plus_quic_go.Ackhandler.Received.Refusals.{
  Run, start, accepts, stops_waiting, is_ok, received_packet_refuses,
}
use plus_quic_go.Ackhandler.Received.AckFrames.{get_ack_frame_acks, validate-get_ack_frame}
use plus_quic_go.Ackhandler.Received.Alarms.{ack_after_enough_packets, get_ack_frame_panics}

-- The history that has received the packet 5.
abbrev with_five : History
with_five = record {
  ranges = record { start = 5; end = 5 } ∷ [];
  received_packet_numbers = (5, true) ∷ [];
  lowest = 0;
}

with_five_run : History.received_packet 5 new_history ≡ ok with_five
unfolding History.received_packet new_history History.insert_back
with_five_run = refl

-- 4 joins 5, and 7 stays apart.
abbrev three_packets : List PacketInterval
three_packets = record { start = 7; end = 7 } ∷ record { start = 4; end = 5 } ∷ []

with_five-IsValid : IsValid with_five
with_five-IsValid =
    received_packet-IsValid 5 new_history with_five (omega arith) (omega arith) new_history-IsValid
      with_five_run

merges_three : History.insert_back 4 (History.insert_back 7 with_five.ranges) ≡ three_packets
unfolding History.insert_back History.merge_with_prev
merges_three = refl

closes_gap : History.insert_back 6 three_packets ≡ record { start = 4; end = 7 } ∷ []
unfolding History.insert_back History.merge_with_prev
closes_gap = refl

received_packet-IsValid_example : IsValid with_five
received_packet-IsValid_example =
    received_packet-IsValid 5 new_history with_five (omega arith) (omega arith) new_history-IsValid
      with_five_run

-- The handler that has received the packet 5 at time 9: its ACK is queued at once.
abbrev after_five : ReceivedPacketHandler
after_five = record {
  largest_observed = 5;
  ignore_packets_below = 0;
  largest_observed_received_time = 9;
  packet_history = with_five;
  ack_send_delay_time = 25_000_000;
  packets_received_since_last_ack = 1;
  retransmittable_packets_received_since_last_ack = 1;
  ack_queued = true;
  ack_alarm = none;
  last_ack = none;
}

after_five_run : received_packet 5 true 9 new_received_packet_handler ≡ ok (after_five, none)
unfolding received_packet new_received_packet_handler new_history is_duplicate
    History.received_packet History.insert_back maybe_queue_ack
after_five_run = refl

five_arrives : Step new_received_packet_handler after_five
five_arrives = packet 5 true 9 none (omega arith) after_five_run

after_five-IsConsistent : IsConsistent after_five
after_five-IsConsistent = Step-IsConsistent five_arrives new_received_packet_handler-IsConsistent

Step-IsConsistent_example : IsConsistent (received_stop_waiting 4 after_five)
Step-IsConsistent_example = Step-IsConsistent (stop_waiting 4 refl) after_five-IsConsistent

accepted_once_example :
    received_packet 5 true 20 (received_stop_waiting 4 after_five) ≢ ok (after_five, none)
accepted_once_example =
    accepted_once 5 true true 9 20 none (after_five, none) (omega arith)
      new_received_packet_handler-IsConsistent after_five_run (next here (stop_waiting 4 refl))

-- After the packet 5 and a StopWaiting for 4.
abbrev five_then_four : Run (5 ∷ []) (received_stop_waiting 4 after_five)
five_then_four = stops_waiting 4 (accepts 5 true 9 none start (omega arith) after_five_run) refl

received_packet_refuses_example :
    is_ok (received_packet 6 true 10 (received_stop_waiting 4 after_five)) ≡ true
unfolding received_stop_waiting
received_packet_refuses_example = received_packet_refuses 6 true 10 five_then_four (omega arith)

-- The ACK for the packet 5.
abbrev ack_five : AckFrame
ack_five = record {
  largest_acked = 5;
  lowest_acked = 5;
  ack_ranges = [];
  packet_received_time = 9;
  delay_time = 0;
}

abbrev acked_five : ReceivedPacketHandler
acked_five = record after_five {
  packets_received_since_last_ack = 0;
  retransmittable_packets_received_since_last_ack = 0;
  ack_queued = false;
  last_ack = some ack_five;
}

ack_five_run : get_ack_frame 12 after_five ≡ sent ack_five acked_five
unfolding get_ack_frame History.get_ack_ranges Received.lowest_of
ack_five_run = refl

get_ack_frame_acks_example : acks_packet ack_five 5 ≡ covers 5 with_five.ranges
get_ack_frame_acks_example =
    get_ack_frame_acks 5 12 after_five acked_five ack_five after_five-IsConsistent ack_five_run

validate-get_ack_frame_example : validate_ack_ranges ack_five ≡ true
validate-get_ack_frame_example =
    validate-get_ack_frame 12 after_five acked_five ack_five after_five-IsConsistent ack_five_run

abbrev after_six : ReceivedPacketHandler
after_six = record after_five {
  largest_observed = 6;
  largest_observed_received_time = 10;
  packet_history = record {
    ranges = record { start = 5; end = 6 } ∷ [];
    received_packet_numbers = (5, true) ∷ (6, true) ∷ [];
    lowest = 0;
  };
  packets_received_since_last_ack = 2;
  retransmittable_packets_received_since_last_ack = 2;
}

after_six_run : received_packet 6 true 10 after_five ≡ ok (after_six, none)
unfolding received_packet is_duplicate History.received_packet History.insert_back
    History.merge_with_prev maybe_queue_ack
after_six_run = refl

ack_after_enough_packets_example : get_ack_frame 11 after_six ≢ nothing_to_send
ack_after_enough_packets_example =
    ack_after_enough_packets 11
      (next (next here five_arrives) (packet 6 true 10 none (omega arith) after_six_run))
      (inr (omega arith))

-- A StopWaiting for 9 has deleted the only interval.
abbrev emptied : ReceivedPacketHandler
emptied = record after_five {
  ignore_packets_below = 8;
  packet_history = record { ranges = []; received_packet_numbers = []; lowest = 9 };
}

emptied_run : received_stop_waiting 9 after_five ≡ emptied
unfolding received_stop_waiting delete_below History.delete_front History.delete_range
    History.max_packet_number
emptied_run = refl

get_ack_frame_panics_example : (get_ack_frame 12 emptied ≡ index_out_of_range) ↔ (
    (emptied.packet_history.ranges ≡ [])
    × ((emptied.ack_queued ≡ true) ⊎ ((t : ℕ) × (emptied.ack_alarm ≡ some t) × (t ≤ 12))))
get_ack_frame_panics_example = get_ack_frame_panics 12 emptied
