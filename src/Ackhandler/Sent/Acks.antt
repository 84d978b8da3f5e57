-- ===== src/Ackhandler/Sent/Acks.antt =====
-- ackhandler/sent_packet_handler.go: ReceivedAck.
use plus_quic_go.Base.{
  ℕ, ◌+◌, Bool, true, false, List, [], ◌∷◌, Option, none, some, ltb, leb, ◌==◌, if◌then◌else◌, drop,
  reverse_onto, Result, ok, err,
}
use plus_quic_go.Base.Words.{sub64}
use plus_quic_go.Frames.Ack.{AckRange, AckFrame, acks_packet}
use plus_quic_go.Ackhandler.StopWaiting
use plus_quic_go.Ackhandler.Sent.{
  SendAlgorithm, Packet, SentPacketHandler, Error, duplicate_or_out_of_order_ack,
  ack_for_skipped_packet, ack_for_unsent_packet, acked_wrong_packet, Outcome,
  largest_in_order_acked, remove_packet,
}
use plus_quic_go.Ackhandler.Sent.Loss.{detect_lost_packets, update_loss_detection_alarm}

-- skippedPacketsAcked
unfoldable pub skipped_packets_acked : AckFrame → List ℕ → Bool
skipped_packets_acked frame [] = false
skipped_packets_acked frame (p ∷ ps) =
    if acks_packet frame p then true else skipped_packets_acked frame ps

-- The index behind the last skipped packet at or below `limit`; `i` is the index of the head.
unfoldable pub delete_index : ℕ → ℕ → ℕ → List ℕ → ℕ
delete_index limit i index [] = index
delete_index limit i index (p ∷ ps) =
    delete_index limit (i + 1) (if leb p limit then i + 1 else index) ps

-- The inner loop of determineNewlyAckedPackets over the ranges, the lowest first: it leaves the
-- ranges that end before the packet, but never the last one.
unfoldable pub advance : ℕ → List AckRange → List AckRange
advance pn [] = []
advance pn (r ∷ []) = r ∷ []
advance pn (r ∷ s ∷ rs) = if ltb r.last_packet_number pn then advance pn (s ∷ rs) else r ∷ s ∷ rs

pub data Containment : Type 0 where
  contained not_contained beyond_range : Containment

-- Whether the packet is contained in the range that the loop has come to.
unfoldable pub contained_in : ℕ → List AckRange → Containment
contained_in pn [] = contained
contained_in pn (r ∷ rs) =
    if leb r.first_packet_number pn
    then if ltb r.last_packet_number pn then beyond_range else contained
    else not_contained

unfoldable pub add_contained :
    {F : Type 0}
    → Containment
    → Packet F
    → Result Error (List (Packet F))
    → Result Error (List (Packet F))
add_contained beyond_range p rest = err acked_wrong_packet
add_contained not_contained p rest = rest
add_contained contained p (ok ps) = ok (p ∷ ps)
add_contained contained p (err e) = err e

module _ {F : Type 0} where
  -- The outer loop of determineNewlyAckedPackets. Without missing ranges `ranges` is empty.
  unfoldable pub newly_acked :
      ℕ → ℕ → List AckRange → List (Packet F) → Result Error (List (Packet F))
  newly_acked lowest largest ranges [] = ok []
  newly_acked lowest largest ranges (p ∷ ps) = elim (ltb p.packet_number lowest) [
    | true ↦ newly_acked lowest largest ranges ps
    | false ↦ elim (ltb largest p.packet_number) [
      | true ↦ ok []
      | false ↦
          let ranges' = advance p.packet_number ranges in
          add_contained (contained_in p.packet_number ranges') p
            (newly_acked lowest largest ranges' ps)
    ]
  ]

  -- determineNewlyAckedPackets
  unfoldable pub determine_newly_acked_packets :
      AckFrame → List (Packet F) → Result Error (List (Packet F))
  determine_newly_acked_packets f ps =
      newly_acked f.lowest_acked f.largest_acked (reverse_onto f.ack_ranges []) ps

  -- The send time of the packet with this number, in a list that is sorted by number.
  unfoldable pub send_time_of : ℕ → List (Packet F) → Option ℕ
  send_time_of pn [] = none
  send_time_of pn (p ∷ ps) =
      if p.packet_number == pn
      then some p.send_time
      else if ltb pn p.packet_number
      then none
      else send_time_of pn ps

module _ {State F : Type 0} where
  -- garbageCollectSkippedPackets
  unfoldable pub garbage_collect_skipped_packets :
      SentPacketHandler State F → SentPacketHandler State F
  garbage_collect_skipped_packets h = record h {
    skipped_packets =
        drop (delete_index (largest_in_order_acked h) 0 0 h.skipped_packets) h.skipped_packets;
  }

  -- onPacketAcked
  unfoldable pub on_packet_acked : Packet F → SentPacketHandler State F → SentPacketHandler State F
  on_packet_acked p h = record h {
    bytes_in_flight = sub64 h.bytes_in_flight p.length_bytes;
    rto_count = 0;
    packet_history = remove_packet p.packet_number h.packet_history;
  }

module _ {State F : Type 0} (c : SendAlgorithm State) where
  -- maybeUpdateRTT, and MaybeExitSlowStart where it has updated the RTT.
  unfoldable pub update_rtt_at :
      Option ℕ → ℕ → ℕ → ℕ → SentPacketHandler State F → SentPacketHandler State F
  update_rtt_at none ack_delay rcv_time now h = h
  update_rtt_at (some sent) ack_delay rcv_time now h = record h {
    congestion = c.maybe_exit_slow_start (c.update_rtt rcv_time sent ack_delay now h.congestion);
  }

  -- The loop over the newly acked packets.
  unfoldable pub ack_packets :
      List (Packet F) → SentPacketHandler State F → SentPacketHandler State F
  ack_packets [] h = h
  ack_packets (p ∷ ps) h =
      let h' = on_packet_acked p h in
      ack_packets ps (record h' {
        congestion =
            c.on_packet_acked p.packet_number p.length_bytes h'.bytes_in_flight h'.congestion;
      })

  -- The end of ReceivedAck, once the newly acked packets are known.
  unfoldable pub finish_ack :
      Result Error (List (Packet F)) → AckFrame → ℕ → SentPacketHandler State F → Outcome State F
  finish_ack (err e) frame now h = (h, some e)
  finish_ack (ok acked) frame now h =
      let h' =
        garbage_collect_skipped_packets
          (update_loss_detection_alarm c now (detect_lost_packets c now (ack_packets acked h))) in
      (
        record h' {
          stop_waiting_manager =
              StopWaiting.received_ack frame.largest_acked h'.stop_waiting_manager;
        },
        none,
      )

  -- ReceivedAck
  unfoldable pub received_ack : AckFrame → ℕ → ℕ → ℕ → SentPacketHandler State F → Outcome State F
  unfolding finish_ack
  received_ack frame with_packet_number rcv_time now h =
      if ltb h.last_sent_packet_number frame.largest_acked
      then (h, some ack_for_unsent_packet)
      else if leb with_packet_number h.largest_received_packet_with_ack
      then (h, some duplicate_or_out_of_order_ack)
      else (let h1 = record h { largest_received_packet_with_ack = with_packet_number } in
          if leb frame.largest_acked (largest_in_order_acked h1)
          then (h1, none)
          else (let h2 = record h1 { largest_acked = frame.largest_acked } in
              if skipped_packets_acked frame h2.skipped_packets
              then (h2, some ack_for_skipped_packet)
              else (let h3 =
                    update_rtt_at (send_time_of frame.largest_acked h2.packet_history)
                      frame.delay_time rcv_time now h2 in
                  finish_ack (determine_newly_acked_packets frame h3.packet_history) frame now h3)))
