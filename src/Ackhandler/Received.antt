-- ===== src/Ackhandler/Received.antt =====
-- ackhandler/received_packet_handler.go: which packets are accepted, and when an ACK is sent.
-- A time is a number of nanoseconds; the zero time.Time is `none`. The clock (time.Now) is an
-- argument, and the call of ackAlarmResetCallback is an output: `some t` where it is made with t.
pub mod Acceptance
pub mod AckFrames
pub mod Alarms
pub mod Refusals
use plus_quic_go.Base.{
  ℕ, ◌+◌, ◌-◌, ◌&&◌, ◌||◌, not, Bool, true, false, List, [], ◌∷◌, Option, none, some, ltb, leb,
  ◌==◌, if◌then◌else◌, Result, ok, err, ◌>>=◌, ◌>>◌, fail_if,
}
use plus_quic_go.Protocol.Parameters.{
  ack_send_delay, max_packets_received_before_ack_send, retransmittable_packets_before_ack,
}
use plus_quic_go.Frames.Ack.{AckRange, AckFrame}
use plus_quic_go.Ackhandler.History
use plus_quic_go.Ackhandler.History.{
  History, new_history, is_duplicate, delete_below, get_ack_ranges, get_highest_ack_range,
}

pub record ReceivedPacketHandler : Type 0 where
  pub largest_observed : ℕ
  pub ignore_packets_below : ℕ
  pub largest_observed_received_time : ℕ
  pub packet_history : History
  pub ack_send_delay_time : ℕ
  pub packets_received_since_last_ack : ℕ
  pub retransmittable_packets_received_since_last_ack : ℕ
  pub ack_queued : Bool
  pub ack_alarm : Option ℕ
  pub last_ack : Option AckFrame

pub data Error : Type 0 where
  invalid_packet_number : Error
  packet_smaller_than_last_stop_waiting : Error
  duplicate_packet : Error
  history_error : History.Error → Error

-- NewReceivedPacketHandler
unfoldable pub new_received_packet_handler : ReceivedPacketHandler
new_received_packet_handler = record {
  largest_observed = 0;
  ignore_packets_below = 0;
  largest_observed_received_time = 0;
  packet_history = new_history;
  ack_send_delay_time = ack_send_delay;
  packets_received_since_last_ack = 0;
  retransmittable_packets_received_since_last_ack = 0;
  ack_queued = false;
  ack_alarm = none;
  last_ack = none;
}

abbrev pub is_zero : Option ℕ → Bool
is_zero none = true
is_zero (some t) = false

-- `h.lastAck == nil`, or the packet was missing in the last ACK, or the highest range lies above it.
unfoldable pub ack_is_due : Option AckFrame → ℕ → AckRange → Bool
ack_is_due none packet_number highest = true
ack_is_due (some ack) packet_number highest =
    ltb packet_number ack.largest_acked || ltb ack.largest_acked highest.first_packet_number

-- The end of maybeQueueAck: with the ACK queued the alarm is cancelled, else the alarm may be set.
unfoldable pub settle_alarm : Bool → Bool → Option ℕ → ℕ → Option ℕ × Option ℕ
settle_alarm true start alarm deadline = (none, none)
settle_alarm false false alarm deadline = (alarm, none)
settle_alarm false true none deadline = (some deadline, some deadline)
settle_alarm false true (some t) deadline = (some t, none)

-- maybeQueueAck
unfoldable pub maybe_queue_ack :
    ℕ → Bool → ℕ → ReceivedPacketHandler → ReceivedPacketHandler × Option ℕ
unfolding ack_is_due settle_alarm
maybe_queue_ack packet_number should_instigate_ack now h =
    let packets = h.packets_received_since_last_ack + 1 in
    let retransmittable =
      if should_instigate_ack
      then h.retransmittable_packets_received_since_last_ack + 1
      else h.retransmittable_packets_received_since_last_ack in
    let queued =
      h.ack_queued
      || leb max_packets_received_before_ack_send packets
      || ack_is_due h.last_ack packet_number (get_highest_ack_range h.packet_history)
      || (should_instigate_ack && leb retransmittable_packets_before_ack retransmittable) in
    let (alarm, callback) =
      settle_alarm queued should_instigate_ack h.ack_alarm (now + h.ack_send_delay_time) in
    (
      record h {
        packets_received_since_last_ack = packets;
        retransmittable_packets_received_since_last_ack = retransmittable;
        ack_queued = queued;
        ack_alarm = alarm;
      },
      callback,
    )

abbrev pub lift_history : Result History.Error History → Result Error History
lift_history (ok h) = ok h
lift_history (err e) = err (history_error e)

-- The new largest packet number and its time.
unfoldable pub observe : ℕ → ℕ → History → ReceivedPacketHandler → ReceivedPacketHandler
observe packet_number now history h =
    if ltb h.largest_observed packet_number
    then record h {
      packet_history = history;
      largest_observed = packet_number;
      largest_observed_received_time = now;
    }
    else record h { packet_history = history }

-- ReceivedPacket. On an error the handler stays as it is.
unfoldable pub received_packet :
    ℕ → Bool → ℕ → ReceivedPacketHandler → Result Error (ReceivedPacketHandler × Option ℕ)
unfolding observe
received_packet packet_number should_instigate_ack now h = do
  fail_if (packet_number == 0) invalid_packet_number
  fail_if (leb packet_number h.ignore_packets_below) packet_smaller_than_last_stop_waiting
  fail_if (is_duplicate packet_number h.packet_history) duplicate_packet
  history ← lift_history (History.received_packet packet_number h.packet_history)
  ok (maybe_queue_ack packet_number should_instigate_ack now (observe packet_number now history h))

-- ReceivedStopWaiting, which never fails.
unfoldable pub received_stop_waiting : ℕ → ReceivedPacketHandler → ReceivedPacketHandler
received_stop_waiting least_unacked h =
    if leb least_unacked h.ignore_packets_below then h else record h {
      ignore_packets_below = least_unacked - 1;
      packet_history = delete_below least_unacked h.packet_history;
    }

-- `ackRanges[len(ackRanges)-1].FirstPacketNumber`; `none` is the panic at an empty slice.
unfoldable pub lowest_of : List AckRange → Option ℕ
lowest_of [] = none
lowest_of (r ∷ []) = some r.first_packet_number
lowest_of (r ∷ s ∷ rs) = lowest_of (s ∷ rs)

-- `if len(ackRanges) > 1 { ack.AckRanges = ackRanges }`
abbrev pub reported_ranges : List AckRange → List AckRange
reported_ranges [] = []
reported_ranges (r ∷ []) = []
reported_ranges (r ∷ s ∷ rs) = r ∷ s ∷ rs

abbrev pub after : Option ℕ → ℕ → Bool
after none now = false
after (some t) now = ltb now t

pub data AckOutcome : Type 0 where
  nothing_to_send : AckOutcome
  sent : AckFrame → ReceivedPacketHandler → AckOutcome
  index_out_of_range : AckOutcome

unfoldable pub build_ack : Option ℕ → List AckRange → ReceivedPacketHandler → AckOutcome
build_ack none ranges h = index_out_of_range
build_ack (some lowest) ranges h =
    let ack : AckFrame = record {
      largest_acked = h.largest_observed;
      lowest_acked = lowest;
      ack_ranges = reported_ranges ranges;
      packet_received_time = h.largest_observed_received_time;
      delay_time = 0;
    } in
    sent ack (record h {
      last_ack = some ack;
      ack_alarm = none;
      ack_queued = false;
      packets_received_since_last_ack = 0;
      retransmittable_packets_received_since_last_ack = 0;
    })

-- GetAckFrame
unfoldable pub get_ack_frame : ℕ → ReceivedPacketHandler → AckOutcome
unfolding build_ack
get_ack_frame now h =
    if not h.ack_queued && (is_zero h.ack_alarm || after h.ack_alarm now)
    then nothing_to_send
    else build_ack (lowest_of (get_ack_ranges h.packet_history)) (get_ack_ranges h.packet_history) h
