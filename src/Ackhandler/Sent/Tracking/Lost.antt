-- ===== src/Ackhandler/Sent/Tracking/Lost.antt =====
-- ackhandler/sent_packet_handler.go: acked and lost packets, and the alarm.
use plus_quic_go.Base.{ℕ, ◌≡◌, refl, List, [], ◌∷◌, Option, none, some, arith}
use plus_quic_go.Ackhandler.Sent.{SendAlgorithm, Packet, SentPacketHandler}
use plus_quic_go.Ackhandler.Sent.Loss.{
  update_loss_detection_alarm, queue_packet_for_retransmission, queue_lost, delay_until_lost,
  detect_lost_packets, queue_rto, queue_front, retransmit_oldest_two_packets, on_loss_or_rto,
  on_alarm,
}
use plus_quic_go.Ackhandler.Sent.Acks.{on_packet_acked, ack_packets}
use plus_quic_go.Ackhandler.Sent.Bytes.{
  IsSelection, IsSelection-remove_packet, lost_packets-IsSelection,
}
use plus_quic_go.Ackhandler.Sent.Tracking.{
  IsTracked, queue_packet-IsTracked, acked_packet-IsTracked,
}

module _ {State F : Type 0} (c : SendAlgorithm State) where
  pub ack_packets-IsTracked :
      (low : ℕ) (qs : List (Packet F)) (h : SentPacketHandler State F)
      → IsSelection low qs h.packet_history
      → IsTracked h
      → IsTracked (ack_packets c qs h)
  unfolding ack_packets on_packet_acked
  ack_packets-IsTracked low [] h s v = v
  ack_packets-IsTracked low (q ∷ qs) h s v =
      ack_packets-IsTracked q.packet_number qs _
        (IsSelection-remove_packet q.packet_number q.packet_number qs h.packet_history (omega arith)
          s.2)
        (acked_packet-IsTracked q h s.1 v)

  queue_lost-IsTracked :
      (low : ℕ) (qs : List (Packet F)) (h : SentPacketHandler State F)
      → IsSelection low qs h.packet_history
      → IsTracked h
      → IsTracked (queue_lost c qs h)
  unfolding queue_lost queue_packet_for_retransmission
  queue_lost-IsTracked low [] h s v = v
  queue_lost-IsTracked low (q ∷ qs) h s v =
      queue_lost-IsTracked q.packet_number qs _
        (IsSelection-remove_packet q.packet_number q.packet_number qs h.packet_history (omega arith)
          s.2)
        (queue_packet-IsTracked q h s.1 v)

  pub detect_lost_packets-IsTracked :
      (now : ℕ) (h : SentPacketHandler State F)
      → IsTracked h
      → IsTracked (detect_lost_packets c now h)
  unfolding detect_lost_packets
  detect_lost_packets-IsTracked now h v =
      queue_lost-IsTracked 0 _ _
        (lost_packets-IsSelection h.largest_acked (delay_until_lost c h.congestion) now 0
          h.packet_history v.rising)
        v

  queue_front-IsTracked :
      (ps : List (Packet F)) (h : SentPacketHandler State F)
      → h.packet_history ≡ ps
      → IsTracked h
      → IsTracked (queue_front c ps h)
  unfolding queue_front queue_rto
  queue_front-IsTracked [] h e v = v
  queue_front-IsTracked (p ∷ ps) h e v = queue_packet-IsTracked p h (rw e (ground arith)) v

  on_loss_or_rto-IsTracked :
      (t : Option ℕ) (now : ℕ) (h : SentPacketHandler State F)
      → IsTracked h
      → IsTracked (on_loss_or_rto c t now h)
  unfolding on_loss_or_rto retransmit_oldest_two_packets
  on_loss_or_rto-IsTracked (some t) now h v = detect_lost_packets-IsTracked now h v
  on_loss_or_rto-IsTracked none now h v =
      let h' = queue_front c h.packet_history h in
      queue_front-IsTracked h'.packet_history h' refl
        (queue_front-IsTracked h.packet_history h refl v)

  pub on_alarm-IsTracked :
      (now : ℕ) (h : SentPacketHandler State F) → IsTracked h → IsTracked (on_alarm c now h)
  unfolding on_alarm update_loss_detection_alarm
  on_alarm-IsTracked now h v = on_loss_or_rto-IsTracked h.loss_time now h v
