-- ===== src/Ackhandler/Received/AckFrames.antt =====
-- ackhandler/received_packet_handler.go: GetAckFrame reports what was received, in a frame that the
-- receiver of the frame finds valid.
use plus_quic_go.Base.{ℕ, ◌^◌, ◌≤◌, ◌≡◌, ◌≢◌, refl, true, List, [], ◌∷◌, map, some, arith}
use plus_quic_go.Frames.Ack.{
  AckRange, AckFrame, in_some_range, acks_packet, ranges_well_formed, ranges_consistent,
  validate_ack_ranges,
}
use plus_quic_go.Ackhandler.History.{PacketInterval, to_ack_range, get_ack_ranges}
use plus_quic_go.Ackhandler.History.Intervals.{IsDescending, covers}
use plus_quic_go.Ackhandler.Received.{
  ReceivedPacketHandler, lowest_of, reported_ranges, get_ack_frame, sent,
}
use plus_quic_go.Ackhandler.Received.Acceptance.{IsConsistent}

in_some_range-covers :
    (q : ℕ) (rs : List PacketInterval) → in_some_range q (map to_ack_range rs) ≡ covers q rs
unfolding in_some_range
in_some_range-covers q [] = refl
in_some_range-covers q (r ∷ rs) = ground (arith, in_some_range-covers q rs)

-- The start of the last interval is the lowest number, and the end of the first the highest.
lowest_of-le :
    (lowest bound : ℕ) (r : PacketInterval) (rs : List PacketInterval)
    → IsDescending bound (r ∷ rs)
    → lowest_of (map to_ack_range (r ∷ rs)) ≡ some lowest
    → lowest ≤ r.start
unfolding lowest_of
lowest_of-le lowest bound r [] d e = ground arith
lowest_of-le lowest bound r (s ∷ rs) d e = omega (arith, lowest_of-le lowest r.start s rs d.2 e)

covers_within :
    (q lowest bound : ℕ) (r : PacketInterval) (rs : List PacketInterval)
    → IsDescending bound (r ∷ rs)
    → lowest_of (map to_ack_range (r ∷ rs)) ≡ some lowest
    → covers q (r ∷ rs) ≡ true
    → (lowest ≤ q) × (q ≤ r.end)
unfolding lowest_of
covers_within q lowest bound r [] d e c = ground arith
covers_within q lowest bound r (s ∷ rs) d e c =
    ground
      (arith, lowest_of-le lowest r.start s rs d.2 e, covers_within q lowest r.start s rs d.2 e)

ranges_well_formed-descending :
    (bound : ℕ) (rs : List PacketInterval)
    → IsDescending bound rs
    → ranges_well_formed (map to_ack_range rs) ≡ true
unfolding ranges_well_formed
ranges_well_formed-descending bound [] d = refl
ranges_well_formed-descending bound (r ∷ rs) d =
    ground (arith, ranges_well_formed-descending r.start rs d.2)

ranges_consistent-descending :
    (bound : ℕ) (r : PacketInterval) (rs : List PacketInterval)
    → bound ≤ 2 ^ 64
    → IsDescending bound (r ∷ rs)
    → ranges_consistent (to_ack_range r) (map to_ack_range rs) ≡ true
unfolding ranges_consistent
ranges_consistent-descending bound r [] h d = refl
ranges_consistent-descending bound r (s ∷ rs) h d =
    ground (arith, ranges_consistent-descending r.start s rs)

lowest_of_total :
    (r : AckRange) (rs : List AckRange) → (lowest : ℕ) × (lowest_of (r ∷ rs) ≡ some lowest)
unfolding lowest_of
lowest_of_total r [] = (r.first_packet_number, refl)
lowest_of_total r (s ∷ rs) = lowest_of_total s rs

head_le :
    (q bound : ℕ) (r : PacketInterval) (rs : List PacketInterval)
    → IsDescending bound (r ∷ rs)
    → covers q (r ∷ rs) ≡ true
    → q ≤ r.end
head_le q bound r [] d c = ground arith
head_le q bound r (s ∷ rs) d c = ground (arith, head_le q r.start s rs)

-- The back of the list ends at `largest_observed`.
back-largest_observed :
    (h : ReceivedPacketHandler) (r : PacketInterval) (rs : List PacketInterval)
    → IsConsistent h
    → h.packet_history.ranges ≡ r ∷ rs
    → r.end ≡ h.largest_observed
back-largest_observed h r rs v e = ground (
  arith,
  descending,
  v.bounded r.end,
  v.above r.end,
  v.reached,
  head_le h.largest_observed (2 ^ 64) r rs,
)
  where
    descending : IsDescending (2 ^ 64) (r ∷ rs)
    descending = rw e at v.history.descending

-- The frame that `build_ack` makes from intervals that reach up to `largest`.
abbrev frame_of : ℕ → ℕ → ℕ → List PacketInterval → AckFrame
frame_of lowest largest received rs = record {
  largest_acked = largest;
  lowest_acked = lowest;
  ack_ranges = reported_ranges (map to_ack_range rs);
  packet_received_time = received;
  delay_time = 0;
}

acks_packet-frame_of :
    (q lowest received bound : ℕ) (r : PacketInterval) (rs : List PacketInterval)
    → IsDescending bound (r ∷ rs)
    → lowest_of (map to_ack_range (r ∷ rs)) ≡ some lowest
    → acks_packet (frame_of lowest r.end received (r ∷ rs)) q ≡ covers q (r ∷ rs)
unfolding acks_packet lowest_of
acks_packet-frame_of q lowest received bound r [] d e = ground arith
acks_packet-frame_of q lowest received bound r (s ∷ rs) d e =
    ground (arith, in_some_range-covers q (r ∷ s ∷ rs), covers_within q lowest bound r (s ∷ rs) d e)

validate_ack_ranges-frame_of :
    (lowest received : ℕ) (r : PacketInterval) (rs : List PacketInterval)
    → IsDescending (2 ^ 64) (r ∷ rs)
    → validate_ack_ranges (frame_of lowest r.end received (r ∷ rs)) ≡ true
unfolding validate_ack_ranges
validate_ack_ranges-frame_of lowest received r [] d = refl
validate_ack_ranges-frame_of lowest received r (s ∷ rs) d = ground (
  arith,
  ranges_well_formed-descending (2 ^ 64) (r ∷ s ∷ rs) d,
  ranges_consistent-descending (2 ^ 64) r (s ∷ rs) (omega arith) d,
)

-- What `get_ack_frame` sends is the frame of the handler's intervals, of which there is one.
sent_frame :
    (now : ℕ) (h h' : ReceivedPacketHandler) (frame : AckFrame) (rs : List PacketInterval)
    → h.packet_history.ranges ≡ rs
    → get_ack_frame now h ≡ sent frame h'
    → (lowest : ℕ) × (lowest_of (map to_ack_range rs) ≡ some lowest)
      × (frame ≡ frame_of lowest h.largest_observed h.largest_observed_received_time rs)
unfolding get_ack_frame get_ack_ranges lowest_of
sent_frame now h h' frame [] e f = absurd (ground arith)
sent_frame now h h' frame (r ∷ rs) e f =
    let (lowest, l) = lowest_of_total (to_ack_range r) (map to_ack_range rs) in
    (lowest, l, ground (arith, l))

ranges_sent :
    (now : ℕ) (h h' : ReceivedPacketHandler) (frame : AckFrame)
    → get_ack_frame now h ≡ sent frame h'
    → h.packet_history.ranges ≢ []
unfolding get_ack_frame get_ack_ranges lowest_of
ranges_sent now h h' frame f e = ground arith

-- The ACK frame that a consistent handler builds acks exactly the packets that its history covers.
pub get_ack_frame_acks :
    (q now : ℕ) (h h' : ReceivedPacketHandler) (frame : AckFrame)
    → IsConsistent h
    → get_ack_frame now h ≡ sent frame h'
    → acks_packet frame q ≡ covers q h.packet_history.ranges
get_ack_frame_acks q now h h' frame v f = go h.packet_history.ranges refl
  where
    go :
        (rs : List PacketInterval)
        → h.packet_history.ranges ≡ rs
        → acks_packet frame q ≡ covers q h.packet_history.ranges
    go [] e = absurd (ranges_sent now h h' frame f e)
    go (r ∷ rs) e =
        let (lowest, l, same) = sent_frame now h h' frame (r ∷ rs) e f in
        rw (same, e, ← back-largest_observed h r rs v e)
          (acks_packet-frame_of q lowest h.largest_observed_received_time (2 ^ 64) r rs
            (rw e at v.history.descending) l)

-- The ACK frame that a consistent handler builds passes `validate_ack_ranges`, the check that
-- `ParseAckFrame` makes of the ranges it has read.
pub validate-get_ack_frame :
    (now : ℕ) (h h' : ReceivedPacketHandler) (frame : AckFrame)
    → IsConsistent h
    → get_ack_frame now h ≡ sent frame h'
    → validate_ack_ranges frame ≡ true
validate-get_ack_frame now h h' frame v f = go h.packet_history.ranges refl
  where
    go :
        (rs : List PacketInterval) → h.packet_history.ranges ≡ rs → validate_ack_ranges frame ≡ true
    go [] e = absurd (ranges_sent now h h' frame f e)
    go (r ∷ rs) e =
        let (lowest, l, same) = sent_frame now h h' frame (r ∷ rs) e f in
        rw (same, ← back-largest_observed h r rs v e)
          (validate_ack_ranges-frame_of lowest h.largest_observed_received_time r rs
            (rw e at v.history.descending))
