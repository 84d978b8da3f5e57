-- ===== src/Tests/Congestion.antt =====
-- The package congestion.
use plus_quic_go.Base.{◌+◌, ◌*◌, ◌≤◌, ◌≡◌, refl, true, false, [], ◌∷◌, arith}
use plus_quic_go.Congestion.PrrSender
use plus_quic_go.Congestion.PrrSender.{PrrSender, on_packet_lost}
use plus_quic_go.Congestion.PrrSender.Pacing.{here, next, sends, acked, sent_since_loss_bounded}
use plus_quic_go.Congestion.HybridSlowStart.{HybridSlowStart}
use plus_quic_go.Congestion.HybridSlowStart.Rounds.{answers, eight_samples_decide}

abbrev before_loss : PrrSender
before_loss = record {
  bytes_sent_since_loss = 9;
  bytes_delivered_since_loss = 9;
  ack_count_since_loss = 9;
  bytes_in_flight_before_loss = 9;
}

-- One ACK, and two packets.
abbrev recovering : PrrSender
recovering = PrrSender.on_packet_sent 1400 (
    PrrSender.on_packet_sent 1350
      (PrrSender.on_packet_acked 1350 (on_packet_lost 30_000 before_loss)))

sent_since_loss_bounded_example :
    recovering.bytes_sent_since_loss
    ≤ recovering.bytes_delivered_since_loss + 1460 * recovering.ack_count_since_loss + 1460
unfolding on_packet_lost PrrSender.on_packet_sent PrrSender.on_packet_acked
    PrrSender.time_until_send
sent_since_loss_bounded_example = sent_since_loss_bounded 30_000 before_loss (
    next
      (next (next here (acked 1350 (omega arith) (omega arith) refl)) (
        sends 20_000 15_000 10_000 1350 (omega arith) (omega arith) refl (omega arith) (omega arith)
          refl))
      (sends 20_000 15_000 10_000 1400 (omega arith) (omega arith) refl (omega arith) (omega arith)
        refl))

abbrev idle : HybridSlowStart
idle = record {
  end_packet_number = 0;
  last_sent_packet_number = 40;
  started = false;
  current_min_rtt = 0;
  rtt_sample_count = 0;
  hystart_found = false;
}

eight_samples_decide_example :
    (answers
      (70_000_000 ∷ 70_000_000 ∷ 66_000_000 ∷ 70_000_000 ∷ 70_000_000 ∷ 70_000_000 ∷ 70_000_000
        ∷ 70_000_000 ∷ [])
      50_000_000
      20
      false
      idle).0
    ≡ true
eight_samples_decide_example =
    eight_samples_decide 70_000_000 70_000_000 50_000_000 20
      (70_000_000 ∷ 66_000_000 ∷ 70_000_000 ∷ 70_000_000 ∷ 70_000_000 ∷ 70_000_000 ∷ []) idle
      (omega arith) (ground arith) refl refl refl
