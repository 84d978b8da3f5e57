-- ===== src/Congestion/PrrSender/Pacing.antt =====
-- congestion/prr_sender.go: how much may be sent after a loss.
use plus_quic_go.Base.{ℕ, ◌+◌, ◌*◌, ◌^◌, ◌≤◌, ◌<◌, ◌≡◌, arith}
use plus_quic_go.Congestion.PrrSender.{
  PrrSender, on_packet_sent, on_packet_lost, on_packet_acked, time_until_send,
}

-- Calls in a recovery period in which the congestion window is above the bytes in flight, which are
-- at least a segment. A packet is sent only where TimeUntilSend gives 0, and is at most a segment of
-- 1460 bytes. The counted bytes stay below 2^60.
pub data Step (p : PrrSender) : PrrSender → Type 0 where
  sends :
      (window in_flight threshold n : ℕ) {p' : PrrSender}
      → 1460 ≤ in_flight
      → in_flight < window
      → time_until_send window in_flight threshold p ≡ 0
      → n ≤ 1460
      → p.bytes_sent_since_loss < 2 ^ 60
      → p' ≡ on_packet_sent n p
      → Step p p'
  acked :
      (n : ℕ) {p' : PrrSender}
      → p.bytes_delivered_since_loss + n < 2 ^ 60
      → p.ack_count_since_loss + 1 < 2 ^ 48
      → p' ≡ on_packet_acked n p
      → Step p p'

pub data Reach (p : PrrSender) : PrrSender → Type 0 where
  here : Reach p p
  next : {q r : PrrSender} → Reach p q → Step q r → Reach p r

record IsPaced (p : PrrSender) : Type 0 where
  pub paced :
      p.bytes_sent_since_loss ≤ p.bytes_delivered_since_loss + 1460 * p.ack_count_since_loss + 1460
  pub delivered_small : p.bytes_delivered_since_loss < 2 ^ 60
  pub acks_small : p.ack_count_since_loss < 2 ^ 48

Step-IsPaced : {p q : PrrSender} → Step p q → IsPaced p → IsPaced q
unfolding on_packet_sent on_packet_acked time_until_send
Step-IsPaced {p} (sends window in_flight threshold n h k t l small e) v = rw e (record {
  paced = ground (arith, v.paced, v.delivered_small, v.acks_small);
  delivered_small = v.delivered_small;
  acks_small = v.acks_small;
})
Step-IsPaced {p} (acked n small few e) v = rw e (record {
  paced = ground (arith, v.paced);
  delivered_small = omega arith;
  acks_small = omega arith;
})

Reach-IsPaced : {p q : PrrSender} → Reach p q → IsPaced p → IsPaced q
Reach-IsPaced here v = v
Reach-IsPaced (next r s) v = Step-IsPaced s (Reach-IsPaced r v)

lost-IsPaced : (in_flight : ℕ) (p : PrrSender) → IsPaced (on_packet_lost in_flight p)
unfolding on_packet_lost
lost-IsPaced in_flight p = record {
  paced = omega arith;
  delivered_small = omega arith;
  acks_small = omega arith;
}

-- From a loss on, while the congestion window is above the bytes in flight and these are at least a
-- segment, a sender that follows TimeUntilSend, in packets of at most a segment of 1460 bytes, never
-- sends more than what was delivered since, a segment for each ACK, and one more segment. The
-- counted bytes stay below 2^60, and the ACKs below 2^48.
pub sent_since_loss_bounded :
    (in_flight : ℕ) (p : PrrSender) {q : PrrSender}
    → Reach (on_packet_lost in_flight p) q
    → q.bytes_sent_since_loss ≤ q.bytes_delivered_since_loss + 1460 * q.ack_count_since_loss + 1460
sent_since_loss_bounded in_flight p r = (Reach-IsPaced r (lost-IsPaced in_flight p)).paced
