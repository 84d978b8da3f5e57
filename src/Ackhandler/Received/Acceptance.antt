-- ===== src/Ackhandler/Received/Acceptance.antt =====
-- ackhandler/received_packet_handler.go: a packet number is accepted at most once, over any
-- sequence of calls.
use plus_quic_go.Base.{
  ℕ, ◌+◌, ◌^◌, ◌≤◌, ◌<◌, ◌≡◌, ◌≢◌, ◌⊎◌, inl, inr, ◌&&◌, Bool, true, false, Option, ltb, leb,
  if◌then◌else◌, Bool-cases, ok, arith,
}
use plus_quic_go.Ackhandler.History
use plus_quic_go.Ackhandler.History.{History, new_history, is_duplicate, delete_below}
use plus_quic_go.Ackhandler.History.Intervals.{covers}
use plus_quic_go.Ackhandler.History.Duplicates.{
  IsValid, new_history-IsValid, received_packet-IsValid, is_duplicate-received_packet,
  covers-received_packet, delete_below-IsValid, is_duplicate-delete_below, covers-delete_below,
}
use plus_quic_go.Frames.Ack.{AckFrame}
use plus_quic_go.Ackhandler.Received.{
  ReceivedPacketHandler, new_received_packet_handler, maybe_queue_ack, received_packet,
  received_stop_waiting, get_ack_frame, sent,
}

-- What an accepted packet says of the handler before and after.
pub received_packet_accepts :
    (p : ℕ) (instigate : Bool) (now : ℕ) (h : ReceivedPacketHandler) {h' : ReceivedPacketHandler}
    {callback : Option ℕ}
    → received_packet p instigate now h ≡ ok (h', callback)
    → (0 < p)
      × (h.ignore_packets_below < p)
      × (is_duplicate p h.packet_history ≡ false)
      × (History.received_packet p h.packet_history ≡ ok h'.packet_history)
      × (h'.ignore_packets_below ≡ h.ignore_packets_below)
unfolding received_packet maybe_queue_ack
received_packet_accepts p instigate now h e = ground arith

-- The calls that the session makes.
pub data Step : ReceivedPacketHandler → ReceivedPacketHandler → Type 0 where
  packet :
      {h h' : ReceivedPacketHandler} (p : ℕ) (instigate : Bool) (now : ℕ) (callback : Option ℕ)
      → p + 1 < 2 ^ 64
      → received_packet p instigate now h ≡ ok (h', callback)
      → Step h h'
  stop_waiting :
      {h h' : ReceivedPacketHandler} (least_unacked : ℕ)
      → h' ≡ received_stop_waiting least_unacked h
      → Step h h'
  ack :
      {h h' : ReceivedPacketHandler} (now : ℕ) (frame : AckFrame)
      → get_ack_frame now h ≡ sent frame h'
      → Step h h'

pub data Reach (h : ReceivedPacketHandler) : ReceivedPacketHandler → Type 0 where
  here : Reach h h
  next : {g g' : ReceivedPacketHandler} → Reach h g → Step g g' → Reach h g'

-- The history is valid, its numbers lie above `ignore_packets_below` and reach up to
-- `largest_observed`.
pub record IsConsistent (h : ReceivedPacketHandler) : Type 0 where
  pub history : IsValid h.packet_history
  pub above : (q : ℕ) → covers q h.packet_history.ranges ≡ true → h.ignore_packets_below < q
  pub bounded : (q : ℕ) → covers q h.packet_history.ranges ≡ true → q ≤ h.largest_observed
  pub reached :
      (covers h.largest_observed h.packet_history.ranges ≡ true)
      ⊎ (h.largest_observed ≤ h.ignore_packets_below)

pub new_received_packet_handler-IsConsistent : IsConsistent new_received_packet_handler
unfolding new_received_packet_handler new_history
new_received_packet_handler-IsConsistent = record {
  history = new_history-IsValid;
  above = λ q e. cc;
  bounded = λ q e. cc;
  reached = inr (omega arith);
}

received_packet_largest :
    (p : ℕ) (instigate : Bool) (now : ℕ) (h : ReceivedPacketHandler) {h' : ReceivedPacketHandler}
    {callback : Option ℕ}
    → received_packet p instigate now h ≡ ok (h', callback)
    → h'.largest_observed ≡ (if ltb h.largest_observed p then p else h.largest_observed)
unfolding received_packet maybe_queue_ack
received_packet_largest p instigate now h e = ground arith

received_packet-IsConsistent :
    (p : ℕ) (instigate : Bool) (now : ℕ) (h : ReceivedPacketHandler) {h' : ReceivedPacketHandler}
    {callback : Option ℕ}
    → p + 1 < 2 ^ 64
    → IsConsistent h
    → received_packet p instigate now h ≡ ok (h', callback)
    → IsConsistent h'
received_packet-IsConsistent p instigate now h {h'} small v e =
    let a = received_packet_accepts p instigate now h e in
    let l = received_packet_largest p instigate now h e in
    let c = λ (q : ℕ).
      covers-received_packet p q h.packet_history h'.packet_history a.0 small v.history a.3 in
    record {
      history =
          received_packet-IsValid p h.packet_history h'.packet_history a.0 small v.history a.3;
      above = λ q k. ground (arith, a, c q, v.above q);
      bounded = λ q k. ground (arith, a, l, c q, v.bounded q);
      reached = ground (arith, a, l, c p, c h.largest_observed, v.reached);
    }

received_stop_waiting-IsConsistent :
    (least_unacked : ℕ) (h : ReceivedPacketHandler)
    → IsConsistent h
    → IsConsistent (received_stop_waiting least_unacked h)
unfolding received_stop_waiting
received_stop_waiting-IsConsistent least_unacked h v =
    elim (Bool-cases (leb least_unacked h.ignore_packets_below)) [
      | inl old ↦ rw old v
      | inr new ↦ rw new (record {
        history = delete_below-IsValid least_unacked h.packet_history v.history;
        above = λ q k. ground (arith, c q, v.above q);
        bounded = λ q k. ground (arith, c q, v.bounded q);
        reached = ground (arith, c h.largest_observed, v.reached);
      })
    ]
  where
    c :
        (q : ℕ)
        → covers q (delete_below least_unacked h.packet_history).ranges
          ≡ leb least_unacked q && covers q h.packet_history.ranges
    c q = covers-delete_below least_unacked h.packet_history v.history q

-- Sending an ACK keeps all that acceptance depends on.
pub get_ack_frame_keeps :
    (now : ℕ) (frame : AckFrame) (h h' : ReceivedPacketHandler)
    → get_ack_frame now h ≡ sent frame h'
    → (h'.packet_history ≡ h.packet_history)
      × (h'.ignore_packets_below ≡ h.ignore_packets_below)
      × (h'.largest_observed ≡ h.largest_observed)
unfolding get_ack_frame
get_ack_frame_keeps now frame h h' e = ground arith

get_ack_frame-IsConsistent :
    (now : ℕ) (frame : AckFrame) (h h' : ReceivedPacketHandler)
    → IsConsistent h
    → get_ack_frame now h ≡ sent frame h'
    → IsConsistent h'
get_ack_frame-IsConsistent now frame h h' v e =
    let k = get_ack_frame_keeps now frame h h' e in
    record {
      history = rw k.0 v.history;
      above = λ q c. ground (arith, k, v.above q);
      bounded = λ q c. ground (arith, k, v.bounded q);
      reached = rw (k.0, k.1, k.2) v.reached;
    }

-- Accepted packets below 2^64 - 1, StopWaiting frames and built ACKs keep the handler consistent: its
-- history is valid, and the covered numbers lie above `ignore_packets_below` and reach up to
-- `largest_observed`.
pub Step-IsConsistent :
    {h h' : ReceivedPacketHandler} → Step h h' → IsConsistent h → IsConsistent h'
Step-IsConsistent {h} (packet p i now c small e) v =
    received_packet-IsConsistent p i now h small v e
Step-IsConsistent {h} (stop_waiting l e) v = rw e (received_stop_waiting-IsConsistent l h v)
Step-IsConsistent {h} {h'} (ack now f e) v = get_ack_frame-IsConsistent now f h h' v e

pub Reach-IsConsistent :
    {h h' : ReceivedPacketHandler} → Reach h h' → IsConsistent h → IsConsistent h'
Reach-IsConsistent here v = v
Reach-IsConsistent (next r s) v = Step-IsConsistent s (Reach-IsConsistent r v)

-- `p` will be refused.
abbrev IsRefused : ℕ → ReceivedPacketHandler → Type 0
IsRefused p h = (p ≤ h.ignore_packets_below) ⊎ (is_duplicate p h.packet_history ≡ true)

received_stop_waiting-IsRefused :
    (p least_unacked : ℕ) (h : ReceivedPacketHandler)
    → IsConsistent h
    → IsRefused p h
    → IsRefused p (received_stop_waiting least_unacked h)
unfolding received_stop_waiting
received_stop_waiting-IsRefused p least_unacked h v r =
    ground (arith, is_duplicate-delete_below least_unacked h.packet_history v.history p, r)

Step-IsRefused :
    {h h' : ReceivedPacketHandler} (p : ℕ)
    → IsConsistent h
    → Step h h'
    → IsRefused p h
    → IsRefused p h'
Step-IsRefused {h} {h'} p v (packet q i now c small e) r =
    let a = received_packet_accepts q i now h e in
    ground (arith, a, is_duplicate-received_packet q p h.packet_history h'.packet_history a.3, r)
Step-IsRefused {h} {h'} p v (stop_waiting l e) r = rw e (received_stop_waiting-IsRefused p l h v r)
Step-IsRefused {h} {h'} p v (ack now f e) r =
    let k = get_ack_frame_keeps now f h h' e in rw (k.0, k.1) r

Reach-IsRefused :
    {h h' : ReceivedPacketHandler} (p : ℕ)
    → IsConsistent h
    → Reach h h'
    → IsRefused p h
    → IsRefused p h'
Reach-IsRefused p v here r = r
Reach-IsRefused p v (next t s) r =
    Step-IsRefused p (Reach-IsConsistent t v) s (Reach-IsRefused p v t r)

not-accepted_of_IsRefused :
    (p : ℕ) (instigate : Bool) (now : ℕ) (h : ReceivedPacketHandler)
    (r : ReceivedPacketHandler × Option ℕ)
    → IsRefused p h
    → received_packet p instigate now h ≢ ok r
not-accepted_of_IsRefused p instigate now h (h', callback) r e =
    let a = received_packet_accepts p instigate now h e in ground (arith, a, r)

-- A packet number that a consistent handler has accepted is refused ever after: no sequence of accepted
-- packets, StopWaiting frames and sent ACKs leads to a state that accepts it again. The packet
-- number is below 2^64 - 1.
pub accepted_once :
    (p : ℕ) (instigate again : Bool) (now later : ℕ) {h h' g : ReceivedPacketHandler}
    (callback : Option ℕ) (r : ReceivedPacketHandler × Option ℕ)
    → p + 1 < 2 ^ 64
    → IsConsistent h
    → received_packet p instigate now h ≡ ok (h', callback)
    → Reach h' g
    → received_packet p again later g ≢ ok r
accepted_once p instigate again now later {h} {h'} {g} callback r small v e t =
    let a = received_packet_accepts p instigate now h e in
    let d = is_duplicate-received_packet p p h.packet_history h'.packet_history a.3 in
    not-accepted_of_IsRefused p again later g r (
      Reach-IsRefused p (received_packet-IsConsistent p instigate now h small v e) t
        (inr (ground (arith, d))))
