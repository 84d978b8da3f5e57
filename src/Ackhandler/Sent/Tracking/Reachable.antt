-- ===== src/Ackhandler/Sent/Tracking/Reachable.antt =====
-- ackhandler/sent_packet_handler.go: the calls of the session as steps, and what holds in every state
-- that they reach.
use plus_quic_go.Base.{ℕ, ◌^◌, ◌<◌, ◌≡◌, refl, Bool, List, [], ◌∷◌, length, ap, arith}
use plus_quic_go.Frames.Ack.{AckFrame}
use plus_quic_go.Ackhandler.Sent.{SendAlgorithm, Packet, SentPacketHandler, new_sent_packet_handler}
use plus_quic_go.Ackhandler.Sent.Loss.{on_alarm}
use plus_quic_go.Ackhandler.Sent.Send.{
  sent_packet, dequeue, dequeue_packet_for_retransmission, get_stop_waiting_frame, init_of,
}
use plus_quic_go.Ackhandler.Sent.Acks.{received_ack}
use plus_quic_go.Ackhandler.Sent.Tracking.{IsTracked, new_sent_packet_handler-IsTracked}
use plus_quic_go.Ackhandler.Sent.Tracking.Lost.{on_alarm-IsTracked}
use plus_quic_go.Ackhandler.Sent.Tracking.Calls.{sent_packet-IsTracked, received_ack-IsTracked}

module _ {F : Type 0} where
  length-init_of : (p : Packet F) (ps : List (Packet F)) → length (init_of p ps) ≡ length ps
  unfolding init_of
  length-init_of p [] = refl
  length-init_of p (q ∷ ps) = omega (arith, length-init_of q ps)

module _ {State F : Type 0} where
  dequeue-IsTracked :
      (ps : List (Packet F)) (h : SentPacketHandler State F)
      → h.retransmission_queue ≡ ps
      → IsTracked h
      → IsTracked (dequeue ps h).1
  unfolding dequeue
  dequeue-IsTracked [] h e v = v
  dequeue-IsTracked (p ∷ ps) h e v = record {
    rising = v.rising;
    up_to = v.up_to;
    in_flight = v.in_flight;
    within = omega (arith, length-init_of p ps, v.within, ap length e);
  }

-- The calls that the session makes of the handler. Lengths are uint64.
pub data Step {State F : Type 0} (c : SendAlgorithm State) (h : SentPacketHandler State F)
    : SentPacketHandler State F → Type 0 where
  sends :
      {h' : SentPacketHandler State F} (p : Packet F) (now : ℕ)
      → p.length_bytes < 2 ^ 64
      → h' ≡ (sent_packet c p now h).0
      → Step c h h'
  gets_ack :
      {h' : SentPacketHandler State F} (frame : AckFrame) (with_packet_number rcv_time now : ℕ)
      → h' ≡ (received_ack c frame with_packet_number rcv_time now h).0
      → Step c h h'
  alarms : {h' : SentPacketHandler State F} (now : ℕ) → h' ≡ on_alarm c now h → Step c h h'
  dequeues :
      {h' : SentPacketHandler State F} → h' ≡ (dequeue_packet_for_retransmission h).1 → Step c h h'
  asks_stop_waiting :
      {h' : SentPacketHandler State F} (force : Bool)
      → h' ≡ (get_stop_waiting_frame force h).1
      → Step c h h'

pub data Reach {State F : Type 0} (c : SendAlgorithm State) (h : SentPacketHandler State F)
    : SentPacketHandler State F → Type 0 where
  here : Reach c h h
  next : {g g' : SentPacketHandler State F} → Reach c h g → Step c g g' → Reach c h g'

module _ {State F : Type 0} (c : SendAlgorithm State) where
  Step-IsTracked : {h h' : SentPacketHandler State F} → Step c h h' → IsTracked h → IsTracked h'
  unfolding dequeue_packet_for_retransmission get_stop_waiting_frame
  Step-IsTracked {h} (sends p now small e) v = rw e (sent_packet-IsTracked c p now h small v)
  Step-IsTracked {h} (gets_ack frame w rcv now e) v =
      rw e (received_ack-IsTracked c frame w rcv now h v)
  Step-IsTracked {h} (alarms now e) v = rw e (on_alarm-IsTracked c now h v)
  Step-IsTracked {h} (dequeues e) v = rw e (dequeue-IsTracked h.retransmission_queue h refl v)
  Step-IsTracked {h} (asks_stop_waiting force e) v = rw e v

  -- In every state that a new handler reaches, whatever ACKs arrive, whichever alarms go off and
  -- whichever calls fail: the packet numbers of the history rise up to the last one sent,
  -- `bytes_in_flight` is the sum of the lengths of the packets in the history (as a uint64), and
  -- history and retransmission queue together hold at most 2000 packets.
  pub Reach-IsTracked :
      (s : State) {h : SentPacketHandler State F}
      → Reach c (new_sent_packet_handler s) h
      → IsTracked h
  Reach-IsTracked s here = new_sent_packet_handler-IsTracked s
  Reach-IsTracked s (next r t) = Step-IsTracked t (Reach-IsTracked s r)
