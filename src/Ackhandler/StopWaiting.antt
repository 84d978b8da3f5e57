-- ===== src/Ackhandler/StopWaiting.antt =====
-- ackhandler/stop_waiting_manager.go: which LeastUnacked the next StopWaiting frame announces.
pub mod Announcements
use plus_quic_go.Base.{ℕ, Bool, true, false, Option, none, some, leb, if◌then◌else◌}
use plus_quic_go.Base.Words.{add64}
use plus_quic_go.Frames.StopWaiting.{StopWaitingFrame}

pub record StopWaitingManager : Type 0 where
  pub largest_least_unacked_sent : ℕ
  pub next_least_unacked : ℕ
  pub last_stop_waiting_frame : Option StopWaitingFrame

-- The zero value.
unfoldable pub new_stop_waiting_manager : StopWaitingManager
new_stop_waiting_manager = record {
  largest_least_unacked_sent = 0;
  next_least_unacked = 0;
  last_stop_waiting_frame = none;
}

abbrev pub announcing : ℕ → StopWaitingFrame
announcing least_unacked = record {
  least_unacked = least_unacked;
  packet_number_len = 0;
  packet_number = 0;
}

-- GetStopWaitingFrame
unfoldable pub get_stop_waiting_frame :
    Bool → StopWaitingManager → Option StopWaitingFrame × StopWaitingManager
get_stop_waiting_frame force s =
    if leb s.next_least_unacked s.largest_least_unacked_sent
    then (if force then s.last_stop_waiting_frame else none, s)
    else (
      some (announcing s.next_least_unacked),
      record s {
        largest_least_unacked_sent = s.next_least_unacked;
        last_stop_waiting_frame = some (announcing s.next_least_unacked);
      },
    )

-- ReceivedAck, of a frame with this LargestAcked.
unfoldable pub received_ack : ℕ → StopWaitingManager → StopWaitingManager
received_ack largest_acked s =
    if leb s.next_least_unacked largest_acked
    then record s { next_least_unacked = add64 largest_acked 1 }
    else s

-- QueuedRetransmissionForPacketNumber
unfoldable pub queued_retransmission_for_packet_number : ℕ → StopWaitingManager → StopWaitingManager
queued_retransmission_for_packet_number p s =
    if leb s.next_least_unacked p then record s { next_least_unacked = add64 p 1 } else s
