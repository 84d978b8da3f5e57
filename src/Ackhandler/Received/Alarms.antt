-- ===== src/Ackhandler/Received/Alarms.antt =====
-- ackhandler/received_packet_handler.go: when an ACK becomes due, and when there is none to build.
use plus_quic_go.Base.{
  ℕ, ◌+◌, ◌≤◌, ◌≡◌, ◌≢◌, refl, ◌⊎◌, inl, inr, ◌↔◌, Bool, true, false, List, [], ◌∷◌, map, Option,
  none, some, Bool-cases, Option-cases, ok, arith,
}
use plus_quic_go.Frames.Ack.{AckFrame}
use plus_quic_go.Ackhandler.History.{PacketInterval, to_ack_range, get_ack_ranges}
use plus_quic_go.Ackhandler.Received.{
  ReceivedPacketHandler, new_received_packet_handler, received_stop_waiting, lowest_of,
  maybe_queue_ack, received_packet, get_ack_frame, nothing_to_send, sent, index_out_of_range,
}
use plus_quic_go.Ackhandler.Received.Acceptance.{packet, stop_waiting, ack, Reach, here, next}

-- After a retransmittable packet is accepted an ACK is queued or the alarm is set. The callback
-- is called exactly when the alarm was not set before and is now, with the alarm's time, which is
-- `ack_send_delay_time` ahead.
received_packet_pending :
    (p now : ℕ) (h h' : ReceivedPacketHandler) (callback : Option ℕ)
    → received_packet p true now h ≡ ok (h', callback)
    → ((h'.ack_queued ≡ true) × (h'.ack_alarm ≡ none) × (callback ≡ none))
      ⊎ ((h'.ack_queued ≡ false)
          × (h.ack_alarm ≡ none)
          × (h'.ack_alarm ≡ some (now + h.ack_send_delay_time))
          × (callback ≡ some (now + h.ack_send_delay_time)))
      ⊎ ((h'.ack_queued ≡ false)
          × (h.ack_alarm ≢ none)
          × (h'.ack_alarm ≡ h.ack_alarm)
          × (callback ≡ none))
unfolding received_packet maybe_queue_ack
received_packet_pending p now h h' callback e = ground arith

-- The counters since the last ACK never reach their limits without an ACK being queued.
abbrev pub IsCounted : ReceivedPacketHandler → Type 0
IsCounted h =
    (20 ≤ h.packets_received_since_last_ack → h.ack_queued ≡ true)
    × (2 ≤ h.retransmittable_packets_received_since_last_ack → h.ack_queued ≡ true)

new_received_packet_handler-IsCounted : IsCounted new_received_packet_handler
unfolding new_received_packet_handler
new_received_packet_handler-IsCounted = (λ h. absurd (omega arith), λ h. absurd (omega arith))

received_packet-IsCounted :
    (p : ℕ) (instigate : Bool) (now : ℕ) (h h' : ReceivedPacketHandler) (callback : Option ℕ)
    → IsCounted h
    → received_packet p instigate now h ≡ ok (h', callback)
    → IsCounted h'
unfolding received_packet maybe_queue_ack
received_packet-IsCounted p true now h h' callback v e =
    (λ k. ground (arith, v), λ k. ground (arith, v))
received_packet-IsCounted p false now h h' callback v e =
    (λ k. ground (arith, v), λ k. ground (arith, v))

received_stop_waiting-IsCounted :
    (least_unacked : ℕ) (h : ReceivedPacketHandler)
    → IsCounted h
    → IsCounted (received_stop_waiting least_unacked h)
unfolding received_stop_waiting
received_stop_waiting-IsCounted least_unacked h v = (λ k. ground (arith, v), λ k. ground (arith, v))

get_ack_frame-IsCounted :
    (now : ℕ) (frame : AckFrame) (h h' : ReceivedPacketHandler)
    → get_ack_frame now h ≡ sent frame h'
    → IsCounted h'
unfolding get_ack_frame
get_ack_frame-IsCounted now frame h h' e = (λ k. ground arith, λ k. ground arith)

Reach-IsCounted : {h h' : ReceivedPacketHandler} → Reach h h' → IsCounted h → IsCounted h'
Reach-IsCounted here v = v
Reach-IsCounted (next {g} {g'} r (packet p i now c small e)) v =
    received_packet-IsCounted p i now g g' c (Reach-IsCounted r v) e
Reach-IsCounted (next {g} {g'} r (stop_waiting l e)) v =
    rw e (received_stop_waiting-IsCounted l g (Reach-IsCounted r v))
Reach-IsCounted (next {g} {g'} r (ack now f e)) v = get_ack_frame-IsCounted now f g g' e

-- In every reachable state where 20 packets, or 2 retransmittable ones, came in since the last ACK,
-- `get_ack_frame` does not answer that there is nothing to send, whatever the time is.
pub ack_after_enough_packets :
    (now : ℕ) {h : ReceivedPacketHandler}
    → Reach new_received_packet_handler h
    → (20 ≤ h.packets_received_since_last_ack)
      ⊎ (2 ≤ h.retransmittable_packets_received_since_last_ack)
    → get_ack_frame now h ≢ nothing_to_send
unfolding get_ack_frame
ack_after_enough_packets now {h} r k e =
    let v = Reach-IsCounted r new_received_packet_handler-IsCounted in ground (arith, queued v k)
  where
    queued :
        IsCounted h
        → (20 ≤ h.packets_received_since_last_ack)
          ⊎ (2 ≤ h.retransmittable_packets_received_since_last_ack)
        → h.ack_queued ≡ true
    queued v (inl k) = v.0 k
    queued v (inr k) = v.1 k

not-lowest_of-eq-none :
    (r : PacketInterval) (rs : List PacketInterval) → lowest_of (map to_ack_range (r ∷ rs)) ≢ none
unfolding lowest_of
not-lowest_of-eq-none r [] e = cc
not-lowest_of-eq-none r (s ∷ rs) e = not-lowest_of-eq-none s rs e

lowest_of-eq-none : (rs : List PacketInterval) → lowest_of (map to_ack_range rs) ≡ none → rs ≡ []
unfolding lowest_of
lowest_of-eq-none [] e = refl
lowest_of-eq-none (r ∷ rs) e = absurd (not-lowest_of-eq-none r rs e)

abbrev IsDue : ℕ → ReceivedPacketHandler → Type 0
IsDue now h = (h.ack_queued ≡ true) ⊎ ((t : ℕ) × (h.ack_alarm ≡ some t) × (t ≤ now))

IsDue-of_panic :
    (now : ℕ) (h : ReceivedPacketHandler) → get_ack_frame now h ≡ index_out_of_range → IsDue now h
unfolding get_ack_frame
IsDue-of_panic now h e = elim (Option-cases h.ack_alarm) [
  | inl a ↦ inl (ground arith)
  | inr (t, a) ↦ elim (Bool-cases h.ack_queued) [ inl q ↦ inl q | inr n ↦ inr (t, a, ground arith) ]
]

empty_of_panic :
    (now : ℕ) (h : ReceivedPacketHandler)
    → get_ack_frame now h ≡ index_out_of_range
    → h.packet_history.ranges ≡ []
unfolding get_ack_frame get_ack_ranges
empty_of_panic now h e = ground (arith, lowest_of-eq-none h.packet_history.ranges)

panic_of_due :
    (now : ℕ) (h : ReceivedPacketHandler)
    → h.packet_history.ranges ≡ []
    → IsDue now h
    → get_ack_frame now h ≡ index_out_of_range
unfolding get_ack_frame get_ack_ranges lowest_of
panic_of_due now h e (inl q) = ground arith
panic_of_due now h e (inr (t, a, k)) = ground arith

-- `get_ack_frame` runs out of the range of its slice exactly when an ACK is due, by the queue or by
-- an alarm that has passed, and no interval is left in the history.
pub get_ack_frame_panics :
    (now : ℕ) (h : ReceivedPacketHandler)
    → (get_ack_frame now h ≡ index_out_of_range) ↔ (
        (h.packet_history.ranges ≡ [])
        × ((h.ack_queued ≡ true) ⊎ ((t : ℕ) × (h.ack_alarm ≡ some t) × (t ≤ now))))
get_ack_frame_panics now h =
    (λ e. (empty_of_panic now h e, IsDue-of_panic now h e), λ d. panic_of_due now h d.0 d.1)
