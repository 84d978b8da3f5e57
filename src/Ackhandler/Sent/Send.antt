-- ===== src/Ackhandler/Sent/Send.antt =====
-- ackhandler/sent_packet_handler.go: SentPacket, and the packets that it hands out again.
use plus_quic_go.Base.{
  ℕ, zero, suc, ◌+◌, ◌-◌, Bool, true, List, [], ◌∷◌, ◌++◌, Option, none, some, ltb, leb, ◌==◌,
  if◌then◌else◌, length,
}
use plus_quic_go.Base.Words.{add64}
use plus_quic_go.Protocol.Parameters.{max_tracked_sent_packets, max_tracked_skipped_packets}
use plus_quic_go.Frames.StopWaiting.{StopWaitingFrame}
use plus_quic_go.Ackhandler.StopWaiting
use plus_quic_go.Ackhandler.Sent.{
  SendAlgorithm, Packet, SentPacketHandler, too_many_tracked_sent_packets,
  packet_number_not_increasing, packet_cannot_be_empty, Outcome, largest_in_order_acked,
}
use plus_quic_go.Ackhandler.Sent.Loss.{update_loss_detection_alarm}

-- `skippedPackets[1:]`, where there are more than MaxTrackedSkippedPackets.
unfoldable pub trim_skipped : List ℕ → List ℕ
trim_skipped [] = []
trim_skipped (s ∷ ss) = if ltb max_tracked_skipped_packets (length (s ∷ ss)) then ss else s ∷ ss

-- `for p := lo; p < packet.PacketNumber; p++`, of which `n` rounds are left.
unfoldable pub note_skipped : ℕ → ℕ → List ℕ → List ℕ
note_skipped zero lo skipped = skipped
note_skipped (suc n) lo skipped = note_skipped n (lo + 1) (trim_skipped (skipped ++ lo ∷ []))

module _ {State F : Type 0} (c : SendAlgorithm State) where
  -- The part of SentPacket behind its last check, with the send time set.
  unfoldable pub track_packet : Packet F → ℕ → SentPacketHandler State F → SentPacketHandler State F
  track_packet p now h =
      let in_flight = add64 h.bytes_in_flight p.length_bytes in
      update_loss_detection_alarm c now (record h {
        bytes_in_flight = in_flight;
        last_sent_packet_number = p.packet_number;
        packet_history = h.packet_history ++ record p { send_time = now } ∷ [];
        congestion =
            c.on_packet_sent now in_flight p.packet_number p.length_bytes true h.congestion;
      })

  -- SentPacket. The skipped packets are noted before the packet is refused as empty.
  unfoldable pub sent_packet : Packet F → ℕ → SentPacketHandler State F → Outcome State F
  unfolding track_packet
  sent_packet p now h =
      if leb p.packet_number h.last_sent_packet_number
      then (h, some packet_number_not_increasing)
      else if ltb max_tracked_sent_packets
          (length h.retransmission_queue + length h.packet_history + 1)
      then (h, some too_many_tracked_sent_packets)
      else (let h' = record h {
        skipped_packets =
            note_skipped (p.packet_number - (h.last_sent_packet_number + 1))
              (h.last_sent_packet_number + 1) h.skipped_packets;
      } in
          if p.length_bytes == 0
          then (h', some packet_cannot_be_empty)
          else (track_packet p now h', none))

module _ {F : Type 0} where
  unfoldable pub last_of : Packet F → List (Packet F) → Packet F
  last_of p [] = p
  last_of p (q ∷ qs) = last_of q qs

  -- `queue[:queueLen-1]`
  unfoldable pub init_of : Packet F → List (Packet F) → List (Packet F)
  init_of p [] = []
  init_of p (q ∷ qs) = p ∷ init_of q qs

module _ {State F : Type 0} where
  unfoldable pub dequeue :
      List (Packet F) → SentPacketHandler State F → Option (Packet F) × SentPacketHandler State F
  dequeue [] h = (none, h)
  dequeue (p ∷ ps) h = (some (last_of p ps), record h { retransmission_queue = init_of p ps })

  -- DequeuePacketForRetransmission
  unfoldable pub dequeue_packet_for_retransmission :
      SentPacketHandler State F → Option (Packet F) × SentPacketHandler State F
  unfolding dequeue
  dequeue_packet_for_retransmission h = dequeue h.retransmission_queue h

  -- GetLeastUnacked
  unfoldable pub get_least_unacked : SentPacketHandler State F → ℕ
  get_least_unacked h = add64 (largest_in_order_acked h) 1

  -- GetStopWaitingFrame
  unfoldable pub get_stop_waiting_frame :
      Bool → SentPacketHandler State F → Option StopWaitingFrame × SentPacketHandler State F
  get_stop_waiting_frame force h =
      let (f, s) = StopWaiting.get_stop_waiting_frame force h.stop_waiting_manager in
      (f, record h { stop_waiting_manager = s })
