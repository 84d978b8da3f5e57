-- ===== src/Congestion/PrrSender.antt =====
-- congestion/prr_sender.go: proportional rate reduction, after a loss. Byte counts are uint64.
pub mod Pacing
use plus_quic_go.Base.{ℕ, ◌^◌, ◌-◌, ltb, leb, ◌==◌, ◌||◌, if◌then◌else◌}
use plus_quic_go.Base.Words.{add64, mul64}
use plus_quic_go.Protocol.Parameters.{default_tcp_mss}

pub record PrrSender : Type 0 where
  pub bytes_sent_since_loss : ℕ
  pub bytes_delivered_since_loss : ℕ
  pub ack_count_since_loss : ℕ
  pub bytes_in_flight_before_loss : ℕ

-- utils.InfDuration, the largest time.Duration.
abbrev pub inf_duration : ℕ
inf_duration = 2 ^ 63 - 1

-- OnPacketSent
unfoldable pub on_packet_sent : ℕ → PrrSender → PrrSender
on_packet_sent sent_bytes p = record p {
  bytes_sent_since_loss = add64 p.bytes_sent_since_loss sent_bytes;
}

-- OnPacketLost
unfoldable pub on_packet_lost : ℕ → PrrSender → PrrSender
on_packet_lost bytes_in_flight p = record {
  bytes_sent_since_loss = 0;
  bytes_delivered_since_loss = 0;
  ack_count_since_loss = 0;
  bytes_in_flight_before_loss = bytes_in_flight;
}

-- OnPacketAcked
unfoldable pub on_packet_acked : ℕ → PrrSender → PrrSender
on_packet_acked acked_bytes p = record p {
  bytes_delivered_since_loss = add64 p.bytes_delivered_since_loss acked_bytes;
  ack_count_since_loss = add64 p.ack_count_since_loss 1;
}

-- TimeUntilSend
unfoldable pub time_until_send : ℕ → ℕ → ℕ → PrrSender → ℕ
time_until_send congestion_window bytes_in_flight slowstart_threshold p =
    if (p.bytes_sent_since_loss == 0) || ltb bytes_in_flight default_tcp_mss
    then 0
    else if ltb bytes_in_flight congestion_window
    then if leb (add64 p.bytes_delivered_since_loss (mul64 p.ack_count_since_loss default_tcp_mss))
        p.bytes_sent_since_loss
      then inf_duration
      else 0
    else if ltb (mul64 p.bytes_sent_since_loss p.bytes_in_flight_before_loss)
        (mul64 p.bytes_delivered_since_loss slowstart_threshold)
    then 0
    else inf_duration
