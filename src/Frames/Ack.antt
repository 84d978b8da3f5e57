-- ===== src/Frames/Ack.antt =====
-- frames/ack_frame.go and frames/ack_range.go: the ACK frame, the check of its ranges and the test
-- whether it acks a packet. The range with the highest packet numbers stands first.
pub mod Parsing
pub mod Writing
pub mod Panics
use plus_quic_go.Base.{
  ℕ, ◌||◌, ◌&&◌, Bool, true, false, List, [], ◌∷◌, ltb, leb, ◌==◌, if◌then◌else◌,
}
use plus_quic_go.Base.Words.{add64}

pub record AckRange : Type 0 where
  pub first_packet_number : ℕ
  pub last_packet_number : ℕ

-- Times and durations are nanoseconds.
pub record AckFrame : Type 0 where
  pub largest_acked : ℕ
  pub lowest_acked : ℕ
  pub ack_ranges : List AckRange
  pub packet_received_time : ℕ
  pub delay_time : ℕ

abbrev pub has_missing_ranges : List AckRange → Bool
has_missing_ranges [] = false
has_missing_ranges (r ∷ rs) = true

unfoldable pub in_some_range : ℕ → List AckRange → Bool
in_some_range p [] = false
in_some_range p (r ∷ rs) =
    if leb r.first_packet_number p && leb p r.last_packet_number then true else in_some_range p rs

-- AcksPacket
unfoldable pub acks_packet : AckFrame → ℕ → Bool
acks_packet f p =
    if ltb p f.lowest_acked || ltb f.largest_acked p
    then false
    else if has_missing_ranges f.ack_ranges
    then in_some_range p f.ack_ranges
    else (leb f.lowest_acked p && leb p f.largest_acked)

-- The loop that checks every single range.
unfoldable pub ranges_well_formed : List AckRange → Bool
ranges_well_formed [] = true
ranges_well_formed (r ∷ rs) =
    if ltb r.last_packet_number r.first_packet_number then false else ranges_well_formed rs

-- The loop that compares every range with the one before it.
unfoldable pub ranges_consistent : AckRange → List AckRange → Bool
ranges_consistent last [] = true
ranges_consistent last (r ∷ rs) =
    if leb last.first_packet_number r.first_packet_number
    then false
    else if leb last.first_packet_number (add64 r.last_packet_number 1)
    then false
    else ranges_consistent r rs

-- validateAckRanges, with the ranges and the LargestAcked of the frame.
unfoldable pub validate_ranges : List AckRange → ℕ → Bool
validate_ranges [] largest = true
validate_ranges (r ∷ []) largest = false
validate_ranges (r ∷ s ∷ rs) largest =
    if r.last_packet_number == largest
    then if ranges_well_formed (r ∷ s ∷ rs) then ranges_consistent r (s ∷ rs) else false
    else false

unfoldable pub validate_ack_ranges : AckFrame → Bool
unfolding validate_ranges
validate_ack_ranges f = validate_ranges f.ack_ranges f.largest_acked
