-- ===== src/Ackhandler/Sent/Loss.antt =====
-- ackhandler/sent_packet_handler.go: the loss detection alarm, lost packets, and the queue of
-- retransmissions.
use plus_quic_go.Base.{
  ℕ, ◌+◌, ◌-◌, ◌*◌, ◌/◌, ◌%◌, ◌^◌, ◌||◌, not, Bool, true, List, [], ◌∷◌, ◌++◌, Option, none, some,
  ltb, leb, ◌==◌, if◌then◌else◌, length,
}
use plus_quic_go.Base.Words.{sub64}
use plus_quic_go.Protocol.Parameters.{max_tracked_sent_packets}
use plus_quic_go.Ackhandler.StopWaiting.{queued_retransmission_for_packet_number}
use plus_quic_go.Ackhandler.Sent.{SendAlgorithm, Packet, SentPacketHandler, remove_packet}

abbrev pub default_rto_timeout : ℕ
default_rto_timeout = 500 * 1_000_000

abbrev pub min_rto_timeout : ℕ
min_rto_timeout = 200 * 1_000_000

abbrev pub max_rto_timeout : ℕ
max_rto_timeout = 60 * 1_000_000_000

-- A time.Duration as the bit pattern of an int64: 2^63 and above stand for negative durations.
abbrev pub is_negative : ℕ → Bool
is_negative d = leb (2 ^ 63) d

-- utils.MinDuration with a second argument that is not negative.
abbrev pub min_duration : ℕ → ℕ → ℕ
min_duration a b = if is_negative a then a else if ltb b a then b else a

abbrev pub max_duration : ℕ → ℕ → ℕ
max_duration a b = if ltb b a then a else b

-- `t.Add(d)`
abbrev pub add_duration : ℕ → ℕ → ℕ
add_duration t d = if is_negative d then t - (2 ^ 64 - d) else t + d

-- computeRTOTimeout, from the retransmission delay and the number of timeouts so far. The shift
-- drops the bits that leave the 64 bit word.
unfoldable pub rto_timeout : ℕ → ℕ → ℕ
rto_timeout delay rto_count =
    let rto = max_duration (if delay == 0 then default_rto_timeout else delay) min_rto_timeout in
    min_duration (rto * 2 ^ rto_count % 2 ^ 64) max_rto_timeout

module _ {F : Type 0} where
  -- The packets that detectLostPackets finds lost: sent more than `delay` ago, up to LargestAcked.
  unfoldable pub lost_packets : ℕ → ℕ → ℕ → List (Packet F) → List (Packet F)
  lost_packets largest_acked delay now [] = []
  lost_packets largest_acked delay now (p ∷ ps) =
      let rest = lost_packets largest_acked delay now ps in
      if ltb largest_acked p.packet_number
      then []
      else if ltb delay (now - p.send_time)
      then p ∷ rest
      else rest

  -- The time at which the first packet that is not yet lost will be.
  unfoldable pub next_loss_time : ℕ → ℕ → ℕ → List (Packet F) → Option ℕ
  next_loss_time largest_acked delay now [] = none
  next_loss_time largest_acked delay now (p ∷ ps) =
      let rest = next_loss_time largest_acked delay now ps in
      if ltb largest_acked p.packet_number
      then none
      else if ltb delay (now - p.send_time)
      then rest
      else some (now + (delay - (now - p.send_time)))

module _ {State F : Type 0} where
  -- queuePacketForRetransmission
  unfoldable pub queue_packet_for_retransmission :
      Packet F → SentPacketHandler State F → SentPacketHandler State F
  queue_packet_for_retransmission p h = record h {
    bytes_in_flight = sub64 h.bytes_in_flight p.length_bytes;
    retransmission_queue = h.retransmission_queue ++ p ∷ [];
    packet_history = remove_packet p.packet_number h.packet_history;
    stop_waiting_manager =
        queued_retransmission_for_packet_number p.packet_number h.stop_waiting_manager;
  }

module _ {State : Type 0} (c : SendAlgorithm State) where
  -- (1 + timeReorderingFraction) * maxRTT, in exact arithmetic.
  abbrev pub delay_until_lost : State → ℕ
  delay_until_lost s = max_duration (c.latest_rtt s) (c.smoothed_rtt s) * 9 / 8

module _ {State F : Type 0} (c : SendAlgorithm State) where
  unfoldable pub alarm_of : List (Packet F) → Option ℕ → ℕ → SentPacketHandler State F → Option ℕ
  alarm_of [] loss_time now h = none
  alarm_of (p ∷ ps) (some t) now h = some t
  alarm_of (p ∷ ps) none now h =
      some (add_duration now (rto_timeout (c.retransmission_delay h.congestion) h.rto_count))

  -- updateLossDetectionAlarm
  unfoldable pub update_loss_detection_alarm :
      ℕ → SentPacketHandler State F → SentPacketHandler State F
  unfolding alarm_of
  update_loss_detection_alarm now h = record h {
    alarm = alarm_of h.packet_history h.loss_time now h;
  }

  -- The loop over the lost packets.
  unfoldable pub queue_lost :
      List (Packet F) → SentPacketHandler State F → SentPacketHandler State F
  queue_lost [] h = h
  queue_lost (p ∷ ps) h =
      let h' = queue_packet_for_retransmission p h in
      queue_lost ps (record h' {
        congestion =
            c.on_packet_lost p.packet_number p.length_bytes h'.bytes_in_flight h'.congestion;
      })

  -- detectLostPackets
  unfoldable pub detect_lost_packets : ℕ → SentPacketHandler State F → SentPacketHandler State F
  detect_lost_packets now h =
      let delay = delay_until_lost c h.congestion in
      queue_lost (lost_packets h.largest_acked delay now h.packet_history)
        (record h { loss_time = next_loss_time h.largest_acked delay now h.packet_history })

  -- queueRTO
  unfoldable pub queue_rto : Packet F → SentPacketHandler State F → SentPacketHandler State F
  queue_rto p h =
      let h' = queue_packet_for_retransmission p h in
      record h' {
        congestion =
            c.on_retransmission_timeout true
              (c.on_packet_lost p.packet_number p.length_bytes h'.bytes_in_flight h'.congestion);
      }

  unfoldable pub queue_front :
      List (Packet F) → SentPacketHandler State F → SentPacketHandler State F
  queue_front [] h = h
  queue_front (p ∷ ps) h = queue_rto p h

  -- retransmitOldestTwoPackets
  unfoldable pub retransmit_oldest_two_packets :
      SentPacketHandler State F → SentPacketHandler State F
  retransmit_oldest_two_packets h =
      let h' = queue_front h.packet_history h in queue_front h'.packet_history h'

  unfoldable pub on_loss_or_rto :
      Option ℕ → ℕ → SentPacketHandler State F → SentPacketHandler State F
  on_loss_or_rto (some t) now h = detect_lost_packets now h
  on_loss_or_rto none now h =
      let h' = retransmit_oldest_two_packets h in
      record h' { rto_count = (h'.rto_count + 1) % 2 ^ 32 }

  -- OnAlarm
  unfoldable pub on_alarm : ℕ → SentPacketHandler State F → SentPacketHandler State F
  on_alarm now h = update_loss_detection_alarm now (on_loss_or_rto h.loss_time now h)

  -- SendingAllowed
  unfoldable pub sending_allowed : SentPacketHandler State F → Bool
  sending_allowed h = not (
      ltb (c.get_congestion_window h.congestion) h.bytes_in_flight
      || leb max_tracked_sent_packets (length h.retransmission_queue + length h.packet_history))
