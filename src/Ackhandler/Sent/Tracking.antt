-- ===== src/Ackhandler/Sent/Tracking.antt =====
-- ackhandler/sent_packet_handler.go: the bytes in flight are those of the history. The invariant,
-- and the two ways in which a packet leaves the history.
pub mod Lost
pub mod Calls
pub mod Reachable
use plus_quic_go.Base.{
  ℕ, zero, suc, ◌+◌, ◌-◌, ◌%◌, ◌^◌, ◌≤◌, ◌<◌, ◌≡◌, ◌≢◌, refl, ◌⊎◌, inl, inr, Bool, true, false,
  List, [], ◌∷◌, ◌++◌, Option, none, some, ltb, leb, ◌==◌, if◌then◌else◌, Bool-cases, Option-cases,
  length, length-append, ap, ok, err, Result, arith,
}
use plus_quic_go.Frames.Ack.{AckFrame, validate_ack_ranges}
use plus_quic_go.Ackhandler.Sent.{
  SendAlgorithm, Packet, SentPacketHandler, new_sent_packet_handler, Error, Outcome, remove_packet,
  largest_in_order_acked,
}
use plus_quic_go.Ackhandler.Sent.Loss.{
  update_loss_detection_alarm, queue_packet_for_retransmission, lost_packets, next_loss_time,
  queue_lost, delay_until_lost, detect_lost_packets, queue_rto, queue_front,
  retransmit_oldest_two_packets, on_loss_or_rto, on_alarm,
}
use plus_quic_go.Ackhandler.Sent.Send.{
  track_packet, sent_packet, dequeue, dequeue_packet_for_retransmission, get_stop_waiting_frame,
  init_of,
}
use plus_quic_go.Ackhandler.Sent.Acks.{
  skipped_packets_acked, determine_newly_acked_packets, send_time_of,
  garbage_collect_skipped_packets, on_packet_acked, update_rtt_at, ack_packets, finish_ack,
  received_ack,
}
use plus_quic_go.Ackhandler.Sent.Newly.{
  acked_of, IsRising, AreSmall, determine_newly_acked_packets-acked_of,
}
use plus_quic_go.Ackhandler.Sent.Bytes.{
  sum_lengths, find_packet, IsUpTo, IsSelection, sum_lengths-append, sum_lengths-remove_packet,
  remove_packet-IsRising, remove_packet-IsUpTo, find-IsUpTo, IsSelection-remove_packet,
  acked_of-IsSelection, lost_packets-IsSelection, OkSelection,
  determine_newly_acked_packets-OkSelection,
}

-- Packet numbers rise up to the last one sent, `bytes_in_flight` is the sum of the lengths in the
-- history as a uint64, and history and queue together stay within MaxTrackedSentPackets.
pub record Tracks {F : Type 0} (last : ℕ) (history queue : List (Packet F)) (bytes : ℕ)
    : Type 0 where
  pub rising : IsRising 0 history
  pub up_to : IsUpTo last history
  pub in_flight : bytes ≡ sum_lengths history % 2 ^ 64
  pub within : length queue + length history ≤ 2000

abbrev pub IsTracked : {State F : Type 0} → SentPacketHandler State F → Type 0
IsTracked h =
    Tracks h.last_sent_packet_number h.packet_history h.retransmission_queue h.bytes_in_flight

module _ {State F : Type 0} where
  pub new_sent_packet_handler-IsTracked :
      (s : State) → IsTracked (new_sent_packet_handler {F = F} s)
  unfolding new_sent_packet_handler
  new_sent_packet_handler-IsTracked s = record {
    rising = tt;
    up_to = tt;
    in_flight = refl;
    within = omega arith;
  }

  -- A packet of the history is taken out, to the queue or for good.
  pub queue_packet-IsTracked :
      (p : Packet F) (h : SentPacketHandler State F)
      → find_packet p.packet_number h.packet_history ≡ some p
      → IsTracked h
      → IsTracked (queue_packet_for_retransmission p h)
  unfolding queue_packet_for_retransmission
  queue_packet-IsTracked p h e v =
      let m = sum_lengths-remove_packet p.packet_number h.packet_history p e in
      let small =
        find-IsUpTo h.last_sent_packet_number p.packet_number h.packet_history p v.up_to e in
      record {
        rising = remove_packet-IsRising 0 p.packet_number h.packet_history v.rising;
        up_to =
            remove_packet-IsUpTo h.last_sent_packet_number p.packet_number h.packet_history v.up_to;
        in_flight = omega (arith, m, small, v.in_flight);
        within = omega (arith, m, v.within, length-append h.retransmission_queue (p ∷ []));
      }

  pub acked_packet-IsTracked :
      (p : Packet F) (h : SentPacketHandler State F)
      → find_packet p.packet_number h.packet_history ≡ some p
      → IsTracked h
      → IsTracked (on_packet_acked p h)
  unfolding on_packet_acked
  acked_packet-IsTracked p h e v =
      let m = sum_lengths-remove_packet p.packet_number h.packet_history p e in
      let small =
        find-IsUpTo h.last_sent_packet_number p.packet_number h.packet_history p v.up_to e in
      record {
        rising = remove_packet-IsRising 0 p.packet_number h.packet_history v.rising;
        up_to =
            remove_packet-IsUpTo h.last_sent_packet_number p.packet_number h.packet_history v.up_to;
        in_flight = omega (arith, m, small, v.in_flight);
        within = omega (arith, m, v.within);
      }
