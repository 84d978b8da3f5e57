-- ===== src/Ackhandler/Sent/Newly.antt =====
-- ackhandler/sent_packet_handler.go: the walk over history and ranges at once finds exactly the
-- packets that the frame acks.
use plus_quic_go.Base.{
  ℕ, ◌+◌, ◌^◌, ◌≤◌, ◌<◌, ◌≡◌, refl, ◌||◌, ◌&&◌, true, false, List, [], ◌∷◌, ltb, leb, if◌then◌else◌,
  reverse_onto, ok, ap, arith,
}
use plus_quic_go.Frames.Ack.{
  AckRange, AckFrame, has_missing_ranges, in_some_range, acks_packet, ranges_well_formed,
  ranges_consistent, validate_ranges, validate_ack_ranges,
}
use plus_quic_go.Ackhandler.Sent.{Packet}
use plus_quic_go.Ackhandler.Sent.Acks.{
  advance, contained, not_contained, contained_in, add_contained, newly_acked,
  determine_newly_acked_packets,
}

-- The packets of `ps` that the frame acks, in order: the reference.
unfoldable pub acked_of : {F : Type 0} → AckFrame → List (Packet F) → List (Packet F)
acked_of f [] = []
acked_of f (p ∷ ps) = if acks_packet f p.packet_number then p ∷ acked_of f ps else acked_of f ps

-- Packet numbers rise and lie above `low`.
abbrev pub IsRising : {F : Type 0} → ℕ → List (Packet F) → Type 0
IsRising low [] = Unit {0}
IsRising low (p ∷ ps) = (low < p.packet_number) × IsRising p.packet_number ps

-- Ranges from the lowest to the highest: each holds a number, they do not overlap, and the last
-- one ends at `top`.
abbrev RangesRise : ℕ → ℕ → List AckRange → Type 0
RangesRise low top [] = ⊥
RangesRise low top (r ∷ []) =
    (low ≤ r.first_packet_number)
    × (r.first_packet_number ≤ r.last_packet_number)
    × (r.last_packet_number ≡ top)
RangesRise low top (r ∷ s ∷ rs) =
    (low ≤ r.first_packet_number)
    × (r.first_packet_number ≤ r.last_packet_number)
    × RangesRise (r.last_packet_number + 1) top (s ∷ rs)

in_some_range-below :
    (q low top : ℕ) (rs : List AckRange)
    → RangesRise low top rs
    → q < low
    → in_some_range q rs ≡ false
unfolding in_some_range
in_some_range-below q low top [] v h = absurd v
in_some_range-below q low top (r ∷ []) v h = ground arith
in_some_range-below q low top (r ∷ s ∷ rs) v h =
    ground (arith, in_some_range-below q (r.last_packet_number + 1) top (s ∷ rs))

RangesRise-weaken :
    (low low' top : ℕ) (rs : List AckRange)
    → low' ≤ low
    → RangesRise low top rs
    → RangesRise low' top rs
RangesRise-weaken low low' top [] h v = v
RangesRise-weaken low low' top (r ∷ []) h v = (omega arith, v.1, v.2)
RangesRise-weaken low low' top (r ∷ s ∷ rs) h v = (omega arith, v.1, v.2)

advance-RangesRise :
    (pn low top : ℕ) (rs : List AckRange)
    → RangesRise low top rs
    → RangesRise low top (advance pn rs)
unfolding advance
advance-RangesRise pn low top [] v = v
advance-RangesRise pn low top (r ∷ []) v = v
advance-RangesRise pn low top (r ∷ s ∷ rs) v = ground (
  arith,
  advance-RangesRise pn low top (s ∷ rs),
  RangesRise-weaken (r.last_packet_number + 1) low top (s ∷ rs),
)

-- What is left out ends before the packet, and so before every later packet.
in_some_range-advance :
    (q pn : ℕ) (rs : List AckRange) → pn ≤ q → in_some_range q (advance pn rs) ≡ in_some_range q rs
unfolding advance in_some_range
in_some_range-advance q pn [] h = refl
in_some_range-advance q pn (r ∷ []) h = refl
in_some_range-advance q pn (r ∷ s ∷ rs) h = ground (arith, in_some_range-advance q pn (s ∷ rs))

contained_in-advance :
    (pn low top : ℕ) (rs : List AckRange)
    → RangesRise low top rs
    → pn ≤ top
    → contained_in pn (advance pn rs) ≡ (if in_some_range pn rs then contained else not_contained)
unfolding advance in_some_range contained_in
contained_in-advance pn low top [] v h = absurd v
contained_in-advance pn low top (r ∷ []) v h = ground arith
contained_in-advance pn low top (r ∷ s ∷ rs) v h = ground (
  arith,
  in_some_range-below pn (r.last_packet_number + 1) top (s ∷ rs),
  contained_in-advance pn (r.last_packet_number + 1) top (s ∷ rs),
)

module _ {F : Type 0} (f : AckFrame) where
  acked_of-above :
      (largest low : ℕ) (ps : List (Packet F))
      → ((q : ℕ) → largest < q → acks_packet f q ≡ false)
      → largest ≤ low
      → IsRising low ps
      → acked_of f ps ≡ []
  unfolding acked_of
  acked_of-above largest low [] out h v = refl
  acked_of-above largest low (p ∷ ps) out h v =
      ground (arith, out p.packet_number, acked_of-above largest p.packet_number ps out)

  newly_acked_ranges :
      (lowest largest low bottom : ℕ) (rs : List AckRange) (ps : List (Packet F))
      → RangesRise bottom largest rs
      → IsRising low ps
      → ((q : ℕ)
          → low < q
          → acks_packet f q ≡ (if ltb q lowest || ltb largest q then false else in_some_range q rs))
      → newly_acked lowest largest rs ps ≡ ok (acked_of f ps)
  unfolding newly_acked acked_of add_contained
  newly_acked_ranges lowest largest low bottom rs [] v w acks = refl
  newly_acked_ranges lowest largest low bottom rs (p ∷ ps) v w acks = ground (
    arith,
    acks p.packet_number w.0,
    over,
    acked_of-head,
    contained_in-advance p.packet_number bottom largest rs v,
    newly_acked_ranges lowest largest p.packet_number bottom rs ps v w.1
        (λ q h. acks q (omega arith)),
    newly_acked_ranges lowest largest p.packet_number bottom (advance p.packet_number rs) ps
        (advance-RangesRise p.packet_number bottom largest rs v) w.1
        (λ q h.
          rw (in_some_range-advance q p.packet_number rs (omega arith)) (acks q (omega arith))),
  )
    where
      over : largest < p.packet_number → acked_of f ps ≡ []
      over k =
          acked_of-above p.packet_number p.packet_number ps
            (λ q h. ground (arith, acks q (omega arith))) (omega arith) w.1

      acked_of-head :
          acked_of f (p ∷ ps)
          ≡ (if acks_packet f p.packet_number then p ∷ acked_of f ps else acked_of f ps)
      acked_of-head = refl

  -- Without missing ranges every packet from `lowest` to `largest` is acked.
  newly_acked_all :
      (lowest largest low : ℕ) (ps : List (Packet F))
      → IsRising low ps
      → ((q : ℕ)
          → low < q
          → acks_packet f q ≡ (if ltb q lowest || ltb largest q then false else true))
      → newly_acked lowest largest [] ps ≡ ok (acked_of f ps)
  unfolding newly_acked acked_of add_contained advance contained_in
  newly_acked_all lowest largest low [] w acks = refl
  newly_acked_all lowest largest low (p ∷ ps) w acks = ground (
    arith,
    acks p.packet_number w.0,
    over,
    newly_acked_all lowest largest p.packet_number ps w.1 (λ q h. acks q (omega arith)),
  )
    where
      over : largest < p.packet_number → acked_of f ps ≡ []
      over k =
          acked_of-above p.packet_number p.packet_number ps
            (λ q h. ground (arith, acks q (omega arith))) (omega arith) w.1

-- No range ends at the highest uint64.
abbrev pub AreSmall : List AckRange → Type 0
AreSmall [] = Unit {0}
AreSmall (r ∷ rs) = (r.last_packet_number + 1 < 2 ^ 64) × AreSmall rs

reverse_onto-RangesRise :
    (top : ℕ) (r : AckRange) (rs acc : List AckRange)
    → RangesRise r.first_packet_number top (r ∷ acc)
    → AreSmall rs
    → ranges_well_formed rs ≡ true
    → ranges_consistent r rs ≡ true
    → RangesRise 0 top (reverse_onto rs (r ∷ acc))
unfolding ranges_well_formed ranges_consistent
reverse_onto-RangesRise top r [] acc v small w c =
    RangesRise-weaken r.first_packet_number 0 top (r ∷ acc) (omega arith) v
reverse_onto-RangesRise top r (s ∷ rs) acc v small w c =
    reverse_onto-RangesRise top s rs (r ∷ acc)
      (
        omega arith,
        ground arith,
        RangesRise-weaken r.first_packet_number (s.last_packet_number + 1) top (r ∷ acc)
            (ground arith) v,
      )
      small.1 (ground arith) (ground arith)

in_some_range-reverse_onto :
    (q : ℕ) (rs acc : List AckRange)
    → in_some_range q (reverse_onto rs acc) ≡ in_some_range q rs || in_some_range q acc
unfolding in_some_range
in_some_range-reverse_onto q [] acc = refl
in_some_range-reverse_onto q (r ∷ rs) acc =
    ground (arith, in_some_range-reverse_onto q rs (r ∷ acc))

in_some_range-reverse :
    (q : ℕ) (rs : List AckRange) → in_some_range q (reverse_onto rs []) ≡ in_some_range q rs
unfolding in_some_range
in_some_range-reverse q rs = ground (arith, in_some_range-reverse_onto q rs [])

module _ {F : Type 0} (f : AckFrame) (ps : List (Packet F)) (low : ℕ) (w : IsRising low ps) where
  acks_packet-ranges :
      (q : ℕ) (rs : List AckRange)
      → f.ack_ranges ≡ rs
      → acks_packet f q ≡ (
          if ltb q f.lowest_acked || ltb f.largest_acked q
          then false
          else if has_missing_ranges rs
          then in_some_range q rs
          else (leb f.lowest_acked q && leb q f.largest_acked))
  unfolding acks_packet
  acks_packet-ranges q rs e =
      ap
        (λ (t : List AckRange).
          if ltb q f.lowest_acked || ltb f.largest_acked q
          then false
          else if has_missing_ranges t
          then in_some_range q t
          else (leb f.lowest_acked q && leb q f.largest_acked))
        e

  determine_without_missing :
      f.ack_ranges ≡ [] → determine_newly_acked_packets f ps ≡ ok (acked_of f ps)
  unfolding determine_newly_acked_packets
  determine_without_missing e = simp e (
      newly_acked_all f f.lowest_acked f.largest_acked low ps w
        (λ q h. ground (arith, acks_packet-ranges q [] e)))

  determine_with_missing :
      (r s : AckRange) (rs : List AckRange)
      → f.ack_ranges ≡ r ∷ s ∷ rs
      → validate_ranges (r ∷ s ∷ rs) f.largest_acked ≡ true
      → AreSmall (r ∷ s ∷ rs)
      → determine_newly_acked_packets f ps ≡ ok (acked_of f ps)
  unfolding determine_newly_acked_packets validate_ranges ranges_well_formed
  determine_with_missing r s rs e valid small = simp e (
      newly_acked_ranges f f.lowest_acked f.largest_acked low 0 (reverse_onto (r ∷ s ∷ rs) []) ps
        (reverse_onto-RangesRise f.largest_acked r (s ∷ rs) [] (ground arith) small.1 (ground arith)
          (ground arith))
        w (λ q h. rw in_some_range-reverse (acks_packet-ranges q (r ∷ s ∷ rs) e)))

-- For a frame whose ranges pass `validate_ack_ranges` and end below 2^64 - 1, and a history in
-- which the packet numbers rise, `determine_newly_acked_packets` succeeds and gives exactly those
-- packets of the history, in order, for which `acks_packet` holds. So the error about a wrongly
-- acked packet does not occur.
pub determine_newly_acked_packets-acked_of :
    {F : Type 0} (f : AckFrame) (ps : List (Packet F)) (low : ℕ)
    → validate_ack_ranges f ≡ true
    → AreSmall f.ack_ranges
    → IsRising low ps
    → determine_newly_acked_packets f ps ≡ ok (acked_of f ps)
unfolding validate_ack_ranges
determine_newly_acked_packets-acked_of f ps low valid small w = go f.ack_ranges refl
  where
    go :
        (rs : List AckRange)
        → f.ack_ranges ≡ rs
        → determine_newly_acked_packets f ps ≡ ok (acked_of f ps)
    go [] e = determine_without_missing f ps low w e
    go (r ∷ []) e = absurd (ground arith)
    go (r ∷ s ∷ rs) e = determine_with_missing f ps low w r s rs e (rw e at valid) (rw e at small)
