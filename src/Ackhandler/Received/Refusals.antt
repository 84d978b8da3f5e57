-- ===== src/Ackhandler/Received/Refusals.antt =====
-- ackhandler/received_packet_handler.go: which packets a handler refuses, told by the packet numbers
-- that it has accepted, and not by its history.
use plus_quic_go.Base.{
  ℕ, zero, suc, ◌+◌, ◌^◌, ◌≤◌, ◌<◌, ◌≡◌, refl, ◌-◌, not, Result, err, ◌||◌, Bool, true, false, List,
  [], ◌∷◌, Option, leb, ◌==◌, length, reverse_onto, ok, arith,
}
use plus_quic_go.Base.Keyed.{insert, delete}
use plus_quic_go.Ackhandler.History
use plus_quic_go.Ackhandler.History.{
  History, PacketInterval, new_history, is_duplicate, insert_back, merge_with_prev, delete_range,
  delete_front, delete_below,
}
use plus_quic_go.Ackhandler.History.Duplicates.{
  is_duplicate-received_packet, is_duplicate-delete_below,
}
use plus_quic_go.Frames.Ack.{AckFrame}
use plus_quic_go.Ackhandler.Received.{
  ReceivedPacketHandler, Error, new_received_packet_handler, received_packet, received_stop_waiting,
  get_ack_frame, sent,
}
use plus_quic_go.Ackhandler.Received.Acceptance.{
  IsConsistent, packet, stop_waiting, ack, received_packet_accepts, get_ack_frame_keeps,
  new_received_packet_handler-IsConsistent, Step-IsConsistent,
}

length-insert_le : (p : ℕ) (m : List (ℕ × Bool)) → length (insert p true m) ≤ length m + 1
length-insert_le p [] = omega arith
length-insert_le p ((k, v) ∷ m) = ground (arith, length-insert_le p m)

length-delete_le : (p : ℕ) (m : List (ℕ × Bool)) → length (delete p m) ≤ length m
length-delete_le p [] = omega arith
length-delete_le p ((k, v) ∷ m) = ground (arith, length-delete_le p m)

length-delete_range_le : (n lo : ℕ) (m : List (ℕ × Bool)) → length (delete_range n lo m) ≤ length m
unfolding delete_range
length-delete_range_le zero lo m = omega arith
length-delete_range_le (suc n) lo m =
    omega (arith, length-delete_range_le n (lo + 1) (delete lo m), length-delete_le lo m)

length-insert_back_le :
    (p : ℕ) (rs : List PacketInterval) → length (insert_back p rs) ≤ length rs + 1
unfolding insert_back merge_with_prev
length-insert_back_le p [] = omega arith
length-insert_back_le p (r ∷ []) = ground arith
length-insert_back_le p (r ∷ s ∷ rs) = ground (arith, length-insert_back_le p (s ∷ rs))

length-delete_front_le :
    (least : ℕ) (rs : List PacketInterval) (m : List (ℕ × Bool))
    → (length (delete_front least rs m).0 ≤ length rs)
      × (length (delete_front least rs m).1 ≤ length m)
unfolding delete_front
length-delete_front_le least [] m = omega arith
length-delete_front_le least (r ∷ rs) m =
    let m1 = delete_range (least - r.start) r.start m in
    let m2 = delete_range (r.end + 1 - r.start) r.start m in
    ground (
      arith,
      length-delete_front_le least rs m1,
      length-delete_front_le least rs m2,
      length-delete_range_le (least - r.start) r.start m,
      length-delete_range_le (r.end + 1 - r.start) r.start m,
    )

length-reverse_onto :
    (rs acc : List PacketInterval) → length (reverse_onto rs acc) ≡ length rs + length acc
length-reverse_onto [] acc = omega arith
length-reverse_onto (r ∷ rs) acc = omega (arith, length-reverse_onto rs (r ∷ acc))

length-delete_below_le :
    (least : ℕ) (h : History)
    → (length (delete_below least h).ranges ≤ length h.ranges)
      × (length (delete_below least h).received_packet_numbers ≤ length h.received_packet_numbers)
unfolding delete_below
length-delete_below_le least h =
    let f = delete_front least (reverse_onto h.ranges []) h.received_packet_numbers in
    let l = length-delete_front_le least (reverse_onto h.ranges []) h.received_packet_numbers in
    (omega (arith, l, length-reverse_onto h.ranges [], length-reverse_onto f.0 []), l.1)

length-received_packet_le :
    (p : ℕ) (h h' : History)
    → History.received_packet p h ≡ ok h'
    → (length h'.ranges ≤ length h.ranges + 1)
      × (length h'.received_packet_numbers ≤ length h.received_packet_numbers + 1)
unfolding History.received_packet
length-received_packet_le p h h' e =
    ground (arith, length-insert_back_le p h.ranges, length-insert_le p h.received_packet_numbers)

abbrev pub among : ℕ → List ℕ → Bool
among q [] = false
among q (p ∷ ps) = (q == p) || among q ps

-- The states that a new handler reaches with these packet numbers accepted, the last one first.
pub data Run : List ℕ → ReceivedPacketHandler → Type 0 where
  start : Run [] new_received_packet_handler
  accepts :
      {ps : List ℕ} {h h' : ReceivedPacketHandler} (p : ℕ) (instigate : Bool) (now : ℕ)
      (callback : Option ℕ)
      → Run ps h
      → p + 1 < 2 ^ 64
      → received_packet p instigate now h ≡ ok (h', callback)
      → Run (p ∷ ps) h'
  stops_waiting :
      {ps : List ℕ} {h h' : ReceivedPacketHandler} (least_unacked : ℕ)
      → Run ps h
      → h' ≡ received_stop_waiting least_unacked h
      → Run ps h'
  acknowledges :
      {ps : List ℕ} {h h' : ReceivedPacketHandler} (now : ℕ) (frame : AckFrame)
      → Run ps h
      → get_ack_frame now h ≡ sent frame h'
      → Run ps h'

-- What a handler knows of the packet numbers `ps`.
record Knows (ps : List ℕ) (h : ReceivedPacketHandler) : Type 0 where
  pub consistent : IsConsistent h
  pub few_ranges : length h.packet_history.ranges ≤ length ps
  pub few_numbers : length h.packet_history.received_packet_numbers ≤ length ps
  pub marks :
      (q : ℕ)
      → (leb q h.ignore_packets_below || is_duplicate q h.packet_history)
        ≡ (leb q h.ignore_packets_below || among q ps)

new_received_packet_handler-Knows : Knows [] new_received_packet_handler
unfolding new_received_packet_handler new_history is_duplicate
new_received_packet_handler-Knows = record {
  consistent = new_received_packet_handler-IsConsistent;
  few_ranges = omega arith;
  few_numbers = omega arith;
  marks = λ q. ground arith;
}

received_stop_waiting-Knows :
    (least_unacked : ℕ) (ps : List ℕ) (h : ReceivedPacketHandler)
    → Knows ps h
    → IsConsistent (received_stop_waiting least_unacked h)
    → Knows ps (received_stop_waiting least_unacked h)
unfolding received_stop_waiting
received_stop_waiting-Knows l ps h k c =
    let d = length-delete_below_le l h.packet_history in
    record {
      consistent = c;
      few_ranges = ground (arith, d, k.few_ranges);
      few_numbers = ground (arith, d, k.few_numbers);
      marks = λ q.
          ground
            (arith, k.marks q, is_duplicate-delete_below l h.packet_history k.consistent.history q);
    }

Run-Knows : {ps : List ℕ} {h : ReceivedPacketHandler} → Run ps h → Knows ps h
Run-Knows start = new_received_packet_handler-Knows
Run-Knows (accepts {h = h} {h' = h'} p i now c r small e) =
    let k = Run-Knows r in
    let a = received_packet_accepts p i now h e in
    let d = length-received_packet_le p h.packet_history h'.packet_history a.3 in
    record {
      consistent = Step-IsConsistent (packet p i now c small e) k.consistent;
      few_ranges = omega (arith, d, k.few_ranges);
      few_numbers = omega (arith, d, k.few_numbers);
      marks = λ q. ground (
        arith,
        k.marks q,
        a,
        is_duplicate-received_packet p q h.packet_history h'.packet_history a.3,
      );
    }
Run-Knows (stops_waiting {ps = ps} {h = h} l r e) =
    let k = Run-Knows r in
    rw e
      (received_stop_waiting-Knows l ps h k (Step-IsConsistent (stop_waiting l refl) k.consistent))
Run-Knows (acknowledges {h = h} {h' = h'} now f r e) =
    let k = Run-Knows r in
    let s = get_ack_frame_keeps now f h h' e in
    record {
      consistent = Step-IsConsistent (ack now f e) k.consistent;
      few_ranges = rw s.0 k.few_ranges;
      few_numbers = rw s.0 k.few_numbers;
      marks = λ q. rw (s.0, s.1) (k.marks q);
    }

abbrev pub is_ok : {A : Type 0} → Result Error A → Bool
is_ok (ok a) = true
is_ok (err e) = false

received_packet-is_ok :
    (p : ℕ) (instigate : Bool) (now : ℕ) (h : ReceivedPacketHandler)
    → length h.packet_history.ranges < 1000
    → length h.packet_history.received_packet_numbers < 2000
    → is_ok (received_packet p instigate now h)
      ≡ not ((p == 0) || leb p h.ignore_packets_below || is_duplicate p h.packet_history)
unfolding received_packet History.received_packet
received_packet-is_ok p i now h l m = ground arith

-- In every state that a new handler reaches with fewer than 1000 accepted packets, by packets,
-- StopWaiting frames and built ACKs, ReceivedPacket accepts a packet number exactly when it is not 0,
-- lies above the limit ignore_packets_below that StopWaiting frames have set, and is none of those
-- accepted so far, whichever of them the history still holds. The accepted numbers are below 2^64 - 1.
pub received_packet_refuses :
    {ps : List ℕ} {h : ReceivedPacketHandler} (p : ℕ) (instigate : Bool) (now : ℕ)
    → Run ps h
    → length ps < 1000
    → is_ok (received_packet p instigate now h)
      ≡ not ((p == 0) || leb p h.ignore_packets_below || among p ps)
received_packet_refuses {ps} {h} p i now r few =
    let k = Run-Knows r in
    ground (
      arith,
      k.marks p,
      received_packet-is_ok p i now h (omega (arith, k.few_ranges)) (omega (arith, k.few_numbers)),
    )
