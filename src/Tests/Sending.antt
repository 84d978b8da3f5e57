-- ===== src/Tests/Sending.antt =====
-- The sending side of the package ackhandler.
use plus_quic_go.Base.{ℕ, ◌+◌, ◌*◌, ◌^◌, ◌≤◌, ◌≡◌, refl, List, [], ◌∷◌, ok, arith}
use plus_quic_go.Frames.Ack.{AckRange, AckFrame, validate_ack_ranges}
use plus_quic_go.Ackhandler.Sent.{SendAlgorithm, Packet, SentPacketHandler, new_sent_packet_handler}
use plus_quic_go.Ackhandler.Sent.Loss.{rto_timeout, on_alarm}
use plus_quic_go.Ackhandler.Sent.Send.{sent_packet}
use plus_quic_go.Ackhandler.Sent.Acks
use plus_quic_go.Frames.Ack
use plus_quic_go.Ackhandler.Sent.Acks.{determine_newly_acked_packets, received_ack}
use plus_quic_go.Ackhandler.Sent.Newly.{acked_of, determine_newly_acked_packets-acked_of}
use plus_quic_go.Ackhandler.Sent.Tracking.{IsTracked}
use plus_quic_go.Ackhandler.Sent.Tracking.Reachable.{here, next, sends, alarms, Reach-IsTracked}
use plus_quic_go.Ackhandler.Sent.Backoff.{rto_timeout_bounds, rto_timeout_collapses}

-- A congestion controller whose window is its state and never moves.
abbrev steady : SendAlgorithm ℕ
steady = record {
  on_packet_sent = λ now bytes pn length retransmittable s. s;
  get_congestion_window = λ s. s;
  maybe_exit_slow_start = λ s. s;
  on_packet_acked = λ pn length bytes s. s;
  on_packet_lost = λ pn length bytes s. s;
  on_retransmission_timeout = λ b s. s;
  retransmission_delay = λ s. 0;
  update_rtt = λ rcv sent delay now s. s;
  latest_rtt = λ s. 8_000_000;
  smoothed_rtt = λ s. 8_000_000;
}

abbrev numbered : ℕ → Packet ℕ
numbered pn = record {
  packet_number = pn;
  frames = [];
  length_bytes = 100;
  encryption_level = 0;
  send_time = 0;
}

abbrev idle : SentPacketHandler ℕ ℕ
idle = new_sent_packet_handler 50_000

-- The frame that acks 1, 2, 5 and 6.
abbrev two_ranges : AckFrame
two_ranges = record {
  largest_acked = 6;
  lowest_acked = 1;
  ack_ranges =
      record { first_packet_number = 5; last_packet_number = 6 }
      ∷ record { first_packet_number = 1; last_packet_number = 2 }
      ∷ [];
  packet_received_time = 0;
  delay_time = 0;
}

abbrev sent_five : List (Packet ℕ)
sent_five = numbered 2 ∷ numbered 3 ∷ numbered 4 ∷ numbered 6 ∷ numbered 7 ∷ []

acks_two_and_six :
    determine_newly_acked_packets two_ranges sent_five ≡ ok (numbered 2 ∷ numbered 6 ∷ [])
unfolding determine_newly_acked_packets Acks.newly_acked Acks.advance Acks.contained_in
    Acks.add_contained
acks_two_and_six = refl

determine_newly_acked_packets_example :
    determine_newly_acked_packets two_ranges sent_five ≡ ok (acked_of two_ranges sent_five)
unfolding validate_ack_ranges Ack.ranges_well_formed Ack.ranges_consistent
determine_newly_acked_packets_example =
    determine_newly_acked_packets-acked_of two_ranges sent_five 1 refl (omega arith) (omega arith)

Reach-IsTracked_example :
    IsTracked (on_alarm steady 900_000_000 (sent_packet steady (numbered 3) 5 idle).0)
Reach-IsTracked_example =
    Reach-IsTracked steady 50_000
      (next (next here (sends (numbered 3) 5 (omega arith) refl)) (alarms 900_000_000 refl))

rto_timeout_bounds_example :
    (200_000_000 ≤ rto_timeout 0 3)
    × (rto_timeout 0 3 ≤ 60_000_000_000)
    × (rto_timeout 0 3 ≡ 500_000_000 * 2 ^ 3)
rto_timeout_bounds_example = rto_timeout_bounds 0 3 (omega arith)

rto_timeout_collapses_example : rto_timeout 0 (0 + 64) ≡ 0
rto_timeout_collapses_example = rto_timeout_collapses 0 0
