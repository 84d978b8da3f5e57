-- ===== src/Ackhandler/StopWaiting/Announcements.antt =====
-- ackhandler/stop_waiting_manager.go: the announced values rise, and are not lost.
use plus_quic_go.Base.{
  ℕ, ◌+◌, ◌^◌, ◌≤◌, ◌<◌, ◌≡◌, refl, ◌⊎◌, inl, Bool, true, false, none, some, arith,
}
use plus_quic_go.Ackhandler.StopWaiting.{
  StopWaitingManager, new_stop_waiting_manager, announcing, get_stop_waiting_frame, received_ack,
  queued_retransmission_for_packet_number,
}

-- The last announced value is at most the next one, and its frame is kept.
pub record IsSettled (s : StopWaitingManager) : Type 0 where
  pub announced_le : s.largest_least_unacked_sent ≤ s.next_least_unacked
  pub kept :
      (s.largest_least_unacked_sent ≡ 0)
      ⊎ (s.last_stop_waiting_frame ≡ some (announcing s.largest_least_unacked_sent))

-- The calls of the manager; packet numbers are below 2^64 - 1.
pub data Step (s : StopWaitingManager) : StopWaitingManager → Type 0 where
  asked :
      {s' : StopWaitingManager} (force : Bool) → s' ≡ (get_stop_waiting_frame force s).1 → Step s s'
  acked :
      {s' : StopWaitingManager} (largest_acked : ℕ)
      → largest_acked + 1 < 2 ^ 64
      → s' ≡ received_ack largest_acked s
      → Step s s'
  queued :
      {s' : StopWaitingManager} (p : ℕ)
      → p + 1 < 2 ^ 64
      → s' ≡ queued_retransmission_for_packet_number p s
      → Step s s'

pub data Reach (s : StopWaitingManager) : StopWaitingManager → Type 0 where
  here : Reach s s
  next : {t u : StopWaitingManager} → Reach s t → Step t u → Reach s u

new_stop_waiting_manager-IsSettled : IsSettled new_stop_waiting_manager
unfolding new_stop_waiting_manager
new_stop_waiting_manager-IsSettled = record { announced_le = omega arith; kept = inl refl }

Step-IsSettled : {s s' : StopWaitingManager} → Step s s' → IsSettled s → IsSettled s'
unfolding get_stop_waiting_frame received_ack queued_retransmission_for_packet_number
Step-IsSettled (asked force e) v = ground arith
Step-IsSettled (acked l small e) v = ground arith
Step-IsSettled (queued p small e) v = ground arith

Reach-IsSettled : {s s' : StopWaitingManager} → Reach s s' → IsSettled s → IsSettled s'
Reach-IsSettled here v = v
Reach-IsSettled (next r t) v = Step-IsSettled t (Reach-IsSettled r v)

-- In every reachable state in which a packet was acked or lost, a forced StopWaiting frame exists
-- and announces the current `next_least_unacked`; and once a frame was given, forced or not, an
-- unforced request is answered by none until the value changes.
forced_frame_current :
    (force : Bool) {s : StopWaitingManager}
    → Reach new_stop_waiting_manager s
    → 0 < s.next_least_unacked
    → ((get_stop_waiting_frame true s).0 ≡ some (announcing s.next_least_unacked))
      × ((get_stop_waiting_frame false (get_stop_waiting_frame force s).1).0 ≡ none)
unfolding get_stop_waiting_frame
forced_frame_current force r pos =
    let v = Reach-IsSettled r new_stop_waiting_manager-IsSettled in
    (ground (arith, v), ground (arith, v))

-- Neither an ACK nor a lost packet takes `next_least_unacked` back, and each leaves it above the
-- packet number that it names.
next_least_unacked_rises :
    (p : ℕ) (s : StopWaitingManager)
    → p + 1 < 2 ^ 64
    → (s.next_least_unacked ≤ (received_ack p s).next_least_unacked)
      × (p < (received_ack p s).next_least_unacked)
      × (s.next_least_unacked ≤ (queued_retransmission_for_packet_number p s).next_least_unacked)
      × (p < (queued_retransmission_for_packet_number p s).next_least_unacked)
unfolding received_ack queued_retransmission_for_packet_number
next_least_unacked_rises p s small = ground arith
