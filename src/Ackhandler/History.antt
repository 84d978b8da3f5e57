-- ===== src/Ackhandler/History.antt =====
-- ackhandler/received_packet_history.go over utils/packetinterval_linkedlist.go: the packets that
-- were received, as intervals and as a set.
-- The linked list of intervals is the list of its values with the back of the list first: most
-- loops walk it from the back. DeleteBelow walks it from the front, so it turns the list round.
pub mod Intervals
pub mod Deletion
pub mod Duplicates
use plus_quic_go.Base.{
  ℕ, zero, suc, ◌+◌, ◌-◌, ◌&&◌, ◌||◌, Bool, true, false, List, [], ◌∷◌, Option, none, some, ltb,
  leb, ◌==◌, if◌then◌else◌, length, reverse_onto, map, Result, ok, err, ◌>>◌, fail_if,
}
use plus_quic_go.Base.Words.{add64, sub64}
use plus_quic_go.Base.Keyed.{lookup, insert, delete}
use plus_quic_go.Protocol.Parameters.{max_tracked_received_ack_ranges, max_tracked_received_packets}
use plus_quic_go.Frames.Ack.{AckRange}

pub record PacketInterval : Type 0 where
  pub start : ℕ
  pub end : ℕ

pub record History : Type 0 where
  pub ranges : List PacketInterval
  pub received_packet_numbers : List (ℕ × Bool)
  pub lowest : ℕ

pub data Error : Type 0 where
  too_many_outstanding_received_ack_ranges too_many_outstanding_received_packets : Error

-- newReceivedPacketHistory
unfoldable pub new_history : History
new_history = record { ranges = []; received_packet_numbers = []; lowest = 0 }

-- `r` was extended: it is merged with the element before it, `prev`, where the two now touch.
unfoldable pub merge_with_prev : PacketInterval → List PacketInterval → List PacketInterval
merge_with_prev r [] = r ∷ []
merge_with_prev r (prev ∷ rest) =
    if add64 prev.end 1 == r.start then record prev { end = r.end } ∷ rest else r ∷ prev ∷ rest

-- The loop of ReceivedPacket from the back of the list. Where it runs out, and where the list is
-- empty at the start, `p` becomes an interval at the front.
unfoldable pub insert_back : ℕ → List PacketInterval → List PacketInterval
insert_back p [] = record { start = p; end = p } ∷ []
insert_back p (r ∷ rest) =
    if leb r.start p && leb p r.end
    then r ∷ rest
    else if r.end == sub64 p 1
    then merge_with_prev (record r { end = p }) rest
    else if r.start == add64 p 1
    then merge_with_prev (record r { start = p }) rest
    else if ltb r.end p
    then record { start = p; end = p } ∷ r ∷ rest
    else r ∷ insert_back p rest

-- ReceivedPacket
unfoldable pub received_packet : ℕ → History → Result Error History
received_packet p h = do
  fail_if (leb max_tracked_received_ack_ranges (length h.ranges))
      too_many_outstanding_received_ack_ranges
  fail_if (leb max_tracked_received_packets (length h.received_packet_numbers))
      too_many_outstanding_received_packets
  ok (record h {
    ranges = insert_back p h.ranges;
    received_packet_numbers = insert p true h.received_packet_numbers;
  })

-- `for i := lo; ...; i++ { delete(h.receivedPacketNumbers, i) }`, for `n` rounds.
unfoldable pub delete_range : ℕ → ℕ → List (ℕ × Bool) → List (ℕ × Bool)
delete_range zero lo m = m
delete_range (suc n) lo m = delete_range n (lo + 1) (delete lo m)

-- The loop of DeleteBelow, from the front of the list.
unfoldable pub delete_front :
    ℕ → List PacketInterval → List (ℕ × Bool) → List PacketInterval × List (ℕ × Bool)
delete_front least [] m = ([], m)
delete_front least (r ∷ rest) m = elim (ltb r.start least && leb least r.end) [
  | true ↦
      let (rest', m') = delete_front least rest (delete_range (least - r.start) r.start m) in
      (record r { start = least } ∷ rest', m')
  | false ↦ elim (ltb r.end least) [
    | true ↦ delete_front least rest (delete_range (r.end + 1 - r.start) r.start m)
    | false ↦ (r ∷ rest, m)
  ]
]

unfoldable pub max_packet_number : ℕ → ℕ → ℕ
max_packet_number a b = if ltb b a then a else b

-- DeleteBelow
unfoldable pub delete_below : ℕ → History → History
unfolding max_packet_number
delete_below least h =
    let (ranges', m') = delete_front least (reverse_onto h.ranges []) h.received_packet_numbers in
    record {
      ranges = reverse_onto ranges' [];
      received_packet_numbers = m';
      lowest = max_packet_number h.lowest least;
    }

abbrev pub is_present : Option Bool → Bool
is_present none = false
is_present (some b) = true

-- IsDuplicate
unfoldable pub is_duplicate : ℕ → History → Bool
is_duplicate p h = if ltb p h.lowest then true else is_present (lookup p h.received_packet_numbers)

abbrev pub to_ack_range : PacketInterval → AckRange
to_ack_range r = record { first_packet_number = r.start; last_packet_number = r.end }

-- GetAckRanges
unfoldable pub get_ack_ranges : History → List AckRange
get_ack_ranges h = map to_ack_range h.ranges

unfoldable pub back_range : List PacketInterval → AckRange
back_range [] = record { first_packet_number = 0; last_packet_number = 0 }
back_range (r ∷ rest) = to_ack_range r

-- GetHighestAckRange
unfoldable pub get_highest_ack_range : History → AckRange
unfolding back_range
get_highest_ack_range h = back_range h.ranges
