-- ===== src/Ackhandler/Sent/Tracking/Calls.antt =====
-- ackhandler/sent_packet_handler.go: SentPacket and ReceivedAck.
use plus_quic_go.Base.{
  ℕ, ◌+◌, ◌^◌, ◌≤◌, ◌<◌, inl, inr, List, [], ◌∷◌, ◌++◌, Option, none, some, ltb, leb, ◌==◌,
  Bool-cases, length, length-append, ok, err, Result, arith,
}
use plus_quic_go.Frames.Ack.{AckFrame}
use plus_quic_go.Ackhandler.Sent.{
  SendAlgorithm, Packet, SentPacketHandler, Error, largest_in_order_acked,
}
use plus_quic_go.Ackhandler.Sent.Loss.{update_loss_detection_alarm}
use plus_quic_go.Ackhandler.Sent.Send.{track_packet, sent_packet}
use plus_quic_go.Ackhandler.Sent.Acks.{
  skipped_packets_acked, send_time_of, garbage_collect_skipped_packets, update_rtt_at, ack_packets,
  finish_ack, received_ack,
}
use plus_quic_go.Ackhandler.Sent.Newly.{IsRising}
use plus_quic_go.Ackhandler.Sent.Bytes.{
  IsUpTo, sum_lengths-append, OkSelection, determine_newly_acked_packets-OkSelection,
}
use plus_quic_go.Ackhandler.Sent.Tracking.{IsTracked}
use plus_quic_go.Ackhandler.Sent.Tracking.Lost.{
  ack_packets-IsTracked, detect_lost_packets-IsTracked,
}

module _ {F : Type 0} where
  append-IsRising :
      (low last : ℕ) (ps : List (Packet F)) (p : Packet F)
      → last < p.packet_number
      → low < p.packet_number
      → IsUpTo last ps
      → IsRising low ps
      → IsRising low (ps ++ p ∷ [])
  append-IsRising low last [] p h k u r = (k, tt)
  append-IsRising low last (q ∷ ps) p h k u r =
      (r.0, append-IsRising q.packet_number last ps p h (omega arith) u.2 r.1)

  append-IsUpTo :
      (last : ℕ) (ps : List (Packet F)) (p : Packet F)
      → last < p.packet_number
      → p.length_bytes < 2 ^ 64
      → IsUpTo last ps
      → IsUpTo p.packet_number (ps ++ p ∷ [])
  append-IsUpTo last [] p h small u = (omega arith, small, tt)
  append-IsUpTo last (q ∷ ps) p h small u = (omega arith, u.1, append-IsUpTo last ps p h small u.2)

module _ {State F : Type 0} (c : SendAlgorithm State) where
  track_packet-IsTracked :
      (p : Packet F) (now : ℕ) (h : SentPacketHandler State F)
      → h.last_sent_packet_number < p.packet_number
      → p.length_bytes < 2 ^ 64
      → length h.retransmission_queue + length h.packet_history + 1 ≤ 2000
      → IsTracked h
      → IsTracked (track_packet c p now h)
  unfolding track_packet update_loss_detection_alarm
  track_packet-IsTracked p now h above small room v =
      let p' = record p { send_time = now } in
      record {
        rising =
            append-IsRising 0 h.last_sent_packet_number h.packet_history p' above (omega arith)
              v.up_to v.rising;
        up_to = append-IsUpTo h.last_sent_packet_number h.packet_history p' above small v.up_to;
        in_flight = omega (arith, sum_lengths-append h.packet_history (p' ∷ []), v.in_flight);
        within = omega (arith, length-append h.packet_history (p' ∷ []), room);
      }

  pub sent_packet-IsTracked :
      (p : Packet F) (now : ℕ) (h : SentPacketHandler State F)
      → p.length_bytes < 2 ^ 64
      → IsTracked h
      → IsTracked (sent_packet c p now h).0
  unfolding sent_packet
  sent_packet-IsTracked p now h small v =
      elim (Bool-cases (leb p.packet_number h.last_sent_packet_number)) [
        | inl a ↦ rw a v
        | inr a ↦
            rw a
              (elim (Bool-cases
                (ltb 2000 (length h.retransmission_queue + length h.packet_history + 1))) [
                  | inl b ↦ rw b v
                  | inr b ↦ rw b (elim (Bool-cases (p.length_bytes == 0)) [
                    | inl d ↦ rw d v
                    | inr d ↦
                        rw d (track_packet-IsTracked p now _ (ground arith) small (ground arith) v)
                  ])
                ])
      ]

  finish_ack-IsTracked :
      (acked : Result Error (List (Packet F))) (frame : AckFrame) (now : ℕ)
      (h : SentPacketHandler State F)
      → OkSelection 0 h.packet_history acked
      → IsTracked h
      → IsTracked (finish_ack c acked frame now h).0
  unfolding finish_ack update_loss_detection_alarm garbage_collect_skipped_packets
  finish_ack-IsTracked (err e) frame now h s v = v
  finish_ack-IsTracked (ok qs) frame now h s v =
      detect_lost_packets-IsTracked c now (ack_packets c qs h) (ack_packets-IsTracked c 0 qs h s v)

  update_rtt_at-IsTracked :
      (sent : Option ℕ) (ack_delay rcv_time now : ℕ) (h : SentPacketHandler State F)
      → IsTracked h
      → IsTracked (update_rtt_at c sent ack_delay rcv_time now h)
  unfolding update_rtt_at
  update_rtt_at-IsTracked none ack_delay rcv_time now h v = v
  update_rtt_at-IsTracked (some t) ack_delay rcv_time now h v = v

  pub received_ack-IsTracked :
      (frame : AckFrame) (with_packet_number rcv_time now : ℕ) (h : SentPacketHandler State F)
      → IsTracked h
      → IsTracked (received_ack c frame with_packet_number rcv_time now h).0
  unfolding received_ack
  received_ack-IsTracked frame with_packet_number rcv_time now h v =
      elim (Bool-cases (ltb h.last_sent_packet_number frame.largest_acked)) [
        | inl a ↦ rw a v
        | inr a ↦
            rw a (elim (Bool-cases (leb with_packet_number h.largest_received_packet_with_ack)) [
              | inl b ↦ rw b v
              | inr b ↦
                  rw b (elim (Bool-cases (leb frame.largest_acked (largest_in_order_acked h1))) [
                    | inl d ↦ rw d v
                    | inr d ↦
                        rw d (elim (Bool-cases (skipped_packets_acked frame h.skipped_packets)) [
                          | inl e ↦ rw e v
                          | inr e ↦ rw e (
                              finish_ack-IsTracked _ frame now h3
                                (determine_newly_acked_packets-OkSelection frame h3.packet_history
                                  w.rising)
                                w)
                        ])
                  ])
            ])
      ]
    where
      h1 : SentPacketHandler State F
      h1 = record h { largest_received_packet_with_ack = with_packet_number }

      h2 : SentPacketHandler State F
      h2 = record h1 { largest_acked = frame.largest_acked }

      h3 : SentPacketHandler State F
      h3 =
          update_rtt_at c (send_time_of frame.largest_acked h2.packet_history) frame.delay_time
            rcv_time now h2

      w : IsTracked h3
      w =
          update_rtt_at-IsTracked (send_time_of frame.largest_acked h2.packet_history)
            frame.delay_time rcv_time now h2 v
