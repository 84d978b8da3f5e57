-- ===== src/Ackhandler/History/Duplicates.antt =====
-- ackhandler/received_packet_history.go: the intervals and the set of packet numbers agree, and
-- what counts as a duplicate after each operation.
use plus_quic_go.Base.{
  ℕ, ◌+◌, ◌^◌, ◌<◌, ◌≡◌, refl, ◌&&◌, ◌||◌, true, [], some, none, ltb, leb, ◌==◌, if◌then◌else◌,
  reverse_onto, ok, arith,
}
use plus_quic_go.Base.Keyed.{lookup, insert, lookup-insert}
use plus_quic_go.Ackhandler.History.{
  History, new_history, insert_back, received_packet, delete_front, delete_below, is_duplicate,
}
use plus_quic_go.Ackhandler.History.Intervals.{
  IsDescending, covers, insert_back-IsDescending, covers-insert_back,
}
use plus_quic_go.Ackhandler.History.Deletion.{
  IsAscending, reverse_onto-IsAscending, reverse_onto-IsDescending, covers-reverse_onto,
  delete_front-IsAscending, covers-delete_front, lookup-delete_front,
}

-- The intervals are in order and apart, and the set holds exactly the numbers that they cover.
pub record IsValid (h : History) : Type 0 where
  pub descending : IsDescending (2 ^ 64) h.ranges
  pub agrees :
      (q : ℕ) → lookup q h.received_packet_numbers ≡ (if covers q h.ranges then some true else none)

pub new_history-IsValid : IsValid new_history
unfolding new_history
new_history-IsValid = record { descending = tt; agrees = λ q. refl }

received_packet_fields :
    (p : ℕ) (h h' : History)
    → received_packet p h ≡ ok h'
    → (h'.ranges ≡ insert_back p h.ranges)
      × (h'.received_packet_numbers ≡ insert p true h.received_packet_numbers)
      × (h'.lowest ≡ h.lowest)
unfolding received_packet
received_packet_fields p h h' e = ground arith

-- A packet that a valid history accepts, other than 0 and 2^64 - 1, joins the covered numbers, and
-- nothing else changes them.
pub covers-received_packet :
    (p q : ℕ) (h h' : History)
    → 0 < p
    → p + 1 < 2 ^ 64
    → IsValid h
    → received_packet p h ≡ ok h'
    → covers q h'.ranges ≡ (q == p) || covers q h.ranges
covers-received_packet p q h h' h0 h1 v e =
    let f = received_packet_fields p h h' e in
    rw f.0 (covers-insert_back p q (2 ^ 64) h.ranges h0 h1 (omega arith) v.descending)

-- Registering a packet, other than 0 and 2^64 - 1, keeps the history valid: the intervals fall from
-- the back of the list with a packet missing between any two, and the set of received numbers holds
-- exactly the numbers that the intervals cover.
pub received_packet-IsValid :
    (p : ℕ) (h h' : History)
    → 0 < p
    → p + 1 < 2 ^ 64
    → IsValid h
    → received_packet p h ≡ ok h'
    → IsValid h'
received_packet-IsValid p h h' h0 h1 v e =
    let f = received_packet_fields p h h' e in
    record {
      descending =
          rw f.0 (insert_back-IsDescending p (2 ^ 64) h.ranges h0 h1 (omega arith) v.descending);
      agrees = λ q. rw f.1 (
          ground (
            arith,
            lookup-insert p q true h.received_packet_numbers,
            v.agrees q,
            covers-received_packet p q h h' h0 h1 v e,
          ));
    }

-- When the history accepts a packet, exactly that packet becomes a duplicate.
pub is_duplicate-received_packet :
    (p q : ℕ) (h h' : History)
    → received_packet p h ≡ ok h'
    → is_duplicate q h' ≡ (q == p) || is_duplicate q h
unfolding is_duplicate
is_duplicate-received_packet p q h h' e =
    ground
      (arith, received_packet_fields p h h' e, lookup-insert p q true h.received_packet_numbers)

module _ (least : ℕ) (h : History) (v : IsValid h) where
  front_first : IsAscending 0 (2 ^ 64) (reverse_onto h.ranges [])
  front_first = reverse_onto-IsAscending (2 ^ 64) (2 ^ 64) h.ranges [] v.descending (omega arith)

  pub covers-delete_below :
      (q : ℕ) → covers q (delete_below least h).ranges ≡ leb least q && covers q h.ranges
  unfolding delete_below
  covers-delete_below q = ground (
    arith,
    covers-reverse_onto q h.ranges [],
    covers-reverse_onto q
        (delete_front least (reverse_onto h.ranges []) h.received_packet_numbers).0 [],
    covers-delete_front q least 0 (2 ^ 64) (reverse_onto h.ranges []) h.received_packet_numbers
        front_first,
  )

  -- `delete_below` keeps a valid history valid.
  pub delete_below-IsValid : IsValid (delete_below least h)
  unfolding delete_below
  delete_below-IsValid = record {
    descending =
        reverse_onto-IsDescending 0 (2 ^ 64) _ []
          (delete_front-IsAscending least 0 (2 ^ 64) _ h.received_packet_numbers front_first) tt;
    agrees = λ q. ground (
      arith,
      v.agrees q,
      covers-delete_below q,
      covers-reverse_onto q h.ranges [],
      lookup-delete_front q least 0 (2 ^ 64) (reverse_onto h.ranges []) h.received_packet_numbers
          front_first,
    );
  }

  -- In a valid history, `delete_below` turns exactly the numbers below `least` into duplicates,
  -- whether they were received or not.
  pub is_duplicate-delete_below :
      (q : ℕ) → is_duplicate q (delete_below least h) ≡ ltb q least || is_duplicate q h
  unfolding is_duplicate delete_below
  is_duplicate-delete_below q = ground (
    arith,
    v.agrees q,
    covers-reverse_onto q h.ranges [],
    lookup-delete_front q least 0 (2 ^ 64) (reverse_onto h.ranges []) h.received_packet_numbers
        front_first,
  )
