-- ===== src/Ackhandler/Sent.antt =====
-- ackhandler/sent_packet_handler.go: the state of the sender, and its data.
-- Operations are in the child modules: Sent/Loss (alarms, loss and retransmission), Sent/Send
-- (sending) and Sent/Acks (the reception of ACKs).
pub mod Loss
pub mod Send
pub mod Acks
pub mod Newly
pub mod Bytes
pub mod Tracking
pub mod Backoff
use plus_quic_go.Base.{
  ℕ, zero, suc, ◌+◌, ◌-◌, ◌*◌, ◌/◌, ◌^◌, Bool, true, false, List, [], ◌∷◌, ◌++◌, Option, none, some,
  ltb, leb, ◌==◌, if◌then◌else◌, length,
}
use plus_quic_go.Base.Words.{sub64}
use plus_quic_go.Ackhandler.StopWaiting.{StopWaitingManager, new_stop_waiting_manager}

-- congestion.SendAlgorithm together with the RTTStats that the handler and the congestion
-- controller share. `State` is the state of both. Times are nanoseconds.
pub record SendAlgorithm (State : Type 0) : Type 0 where
  -- sentTime, bytesInFlight, packetNumber, bytes, isRetransmittable
  pub on_packet_sent : ℕ → ℕ → ℕ → ℕ → Bool → State → State
  pub get_congestion_window : State → ℕ
  pub maybe_exit_slow_start : State → State
  -- number, bytes, bytesInFlight
  pub on_packet_acked : ℕ → ℕ → ℕ → State → State
  pub on_packet_lost : ℕ → ℕ → ℕ → State → State
  pub on_retransmission_timeout : Bool → State → State
  pub retransmission_delay : State → ℕ
  -- UpdateRTT of rcvTime.Sub(SendTime), from the two times, the ack delay and the present time.
  pub update_rtt : ℕ → ℕ → ℕ → ℕ → State → State
  pub latest_rtt : State → ℕ
  pub smoothed_rtt : State → ℕ

-- A sent packet (ackhandler/packet.go); `F` is the type of its frames.
pub record Packet (F : Type 0) : Type 0 where
  pub packet_number : ℕ
  pub frames : List F
  pub length_bytes : ℕ
  pub encryption_level : ℕ
  pub send_time : ℕ

-- The linked list of packets is the list of its values, front first. Its elements are told apart by
-- their packet numbers, which differ (Sent/Tracking).
pub record SentPacketHandler (State F : Type 0) : Type 0 where
  pub last_sent_packet_number : ℕ
  pub skipped_packets : List ℕ
  pub largest_acked : ℕ
  pub largest_received_packet_with_ack : ℕ
  pub packet_history : List (Packet F)
  pub stop_waiting_manager : StopWaitingManager
  pub retransmission_queue : List (Packet F)
  pub bytes_in_flight : ℕ
  pub congestion : State
  pub rto_count : ℕ
  -- The zero time.Time is `none`.
  pub loss_time : Option ℕ
  pub alarm : Option ℕ

pub data Error : Type 0 where
  duplicate_or_out_of_order_ack : Error
  too_many_tracked_sent_packets : Error
  ack_for_skipped_packet : Error
  ack_for_unsent_packet : Error
  packet_number_not_increasing : Error
  packet_cannot_be_empty : Error
  acked_wrong_packet : Error

-- A call returns the new state, and `some e` where it fails: the state may have changed before.
abbrev pub Outcome : Type 0 → Type 0 → Type 0
Outcome State F = SentPacketHandler State F × Option Error

module _ {F : Type 0} where
  unfoldable pub front_in_order : ℕ → List (Packet F) → ℕ
  front_in_order largest_acked [] = largest_acked
  front_in_order largest_acked (p ∷ ps) = sub64 p.packet_number 1

  -- `packetHistory.Remove(el)` for the element with this packet number.
  unfoldable pub remove_packet : ℕ → List (Packet F) → List (Packet F)
  remove_packet pn [] = []
  remove_packet pn (p ∷ ps) = if p.packet_number == pn then ps else p ∷ remove_packet pn ps

module _ {State F : Type 0} where
  -- NewSentPacketHandler, with the congestion controller that it makes.
  unfoldable pub new_sent_packet_handler : State → SentPacketHandler State F
  new_sent_packet_handler congestion = record {
    last_sent_packet_number = 0;
    skipped_packets = [];
    largest_acked = 0;
    largest_received_packet_with_ack = 0;
    packet_history = [];
    stop_waiting_manager = new_stop_waiting_manager;
    retransmission_queue = [];
    bytes_in_flight = 0;
    congestion = congestion;
    rto_count = 0;
    loss_time = none;
    alarm = none;
  }

  -- largestInOrderAcked
  unfoldable pub largest_in_order_acked : SentPacketHandler State F → ℕ
  unfolding front_in_order
  largest_in_order_acked h = front_in_order h.largest_acked h.packet_history
