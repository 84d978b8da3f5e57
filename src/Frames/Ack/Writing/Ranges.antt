-- ===== src/Frames/Ack/Writing/Ranges.antt =====
-- frames/ack_frame.go: ranges in order with gaps, the lengths chosen for their numbers, and the checks
-- that they pass.
use plus_quic_go.Base.{
  ℕ, ◌+◌, ◌*◌, ◌^◌, ◌≤◌, ◌<◌, ◌≡◌, refl, ◌⊎◌, inl, inr, List, [], ◌∷◌, true, false, ltb, leb,
  if◌then◌else◌, arith,
}
use plus_quic_go.Base.Words.{add64}
use plus_quic_go.Protocol.PacketNumber.{get_packet_number_length}
use plus_quic_go.Frames.Ack.{AckRange, AckFrame, ranges_well_formed, ranges_consistent}
use plus_quic_go.Frames.Ack.Writing.{
  gap_between, range_length, blocks_of_gap, max_range_length, longest_range,
  get_missing_sequence_number_delta_len,
}
use plus_quic_go.Frames.Ack.Writing.Blocks.{IsBelow}

-- The ranges below a range, in order and with gaps.
abbrev pub Descends : AckRange → List AckRange → Type 0
Descends above [] = Unit
Descends above (r ∷ rs) = IsBelow above r × Descends r rs

-- The blocks that all gaps take together.
abbrev pub total_blocks : AckRange → List AckRange → ℕ
total_blocks above [] = 0
total_blocks above (r ∷ rs) = blocks_of_gap (gap_between above r) + total_blocks r rs

abbrev pub LengthsBelow : ℕ → List AckRange → Type 0
LengthsBelow m [] = Unit
LengthsBelow m (r ∷ rs) = (range_length r < m) × LengthsBelow m rs

-- Every length fits in the length that is chosen for them.
pub below_mono : (m n : ℕ) (rs : List AckRange) → m ≤ n → LengthsBelow m rs → LengthsBelow n rs
below_mono m n [] h l = tt
below_mono m n (r ∷ rs) h l = (omega (arith, l.0), below_mono m n rs h l.1)

le-max_range_length : (rs : List AckRange) (n : ℕ) → n ≤ max_range_length rs n
unfolding max_range_length
le-max_range_length [] n = omega arith
le-max_range_length (r ∷ rs) n =
    ground (arith, le-max_range_length rs n, le-max_range_length rs (range_length r))

pub max_range_length-below :
    (rs : List AckRange) (n : ℕ) → LengthsBelow (max_range_length rs n + 1) rs
unfolding max_range_length
max_range_length-below [] n = tt
max_range_length-below (r ∷ rs) n =
    let m = if ltb n (range_length r) then range_length r else n in
    let le : range_length r ≤ m = ground arith in
    (omega (arith, le, le-max_range_length rs m), max_range_length-below rs m)

pub max_range_length-lt :
    (rs : List AckRange) (n m : ℕ) → n < m → LengthsBelow m rs → max_range_length rs n < m
unfolding max_range_length
max_range_length-lt [] n m h l = h
max_range_length-lt (r ∷ rs) n m h l =
    max_range_length-lt rs (if ltb n (range_length r) then range_length r else n) m
      (ground (arith, l.0)) l.1

pub Descends-below :
    (above : AckRange) (rs : List AckRange) → Descends above rs → LengthsBelow (2 ^ 48) rs
Descends-below above [] d = tt
Descends-below above (r ∷ rs) d =
    (omega (arith, d.0.ordered, d.0.apart, d.0.small), Descends-below r rs d.1)

length_cases :
    (n : ℕ)
    → n < 2 ^ 48
    → let len : ℕ =
        if leb n 255 then 1 else if leb n 65535 then 2 else if leb n 4294967295 then 4 else 6 in
      ((len ≡ 1) × (n < 2 ^ 8))
      ⊎ ((len ≡ 2) × (n < 2 ^ 16))
      ⊎ ((len ≡ 4) × (n < 2 ^ 32))
      ⊎ (len ≡ 6)
length_cases n h = ground arith

pub delta_len-fits :
    (f : AckFrame)
    → longest_range f < 2 ^ 48
    → longest_range f < 2 ^ (get_missing_sequence_number_delta_len f * 8)
unfolding get_missing_sequence_number_delta_len
delta_len-fits f h = fits (longest_range f) h
  where
    fits :
        (n : ℕ)
        → n < 2 ^ 48
        → n
          < 2
            ^ ((if leb n 255
                  then 1
                  else if leb n 65535
                  then 2
                  else if leb n 4294967295
                  then 4
                  else 6)
                * 8)
    fits n h = elim (length_cases n h) [
      | inl (e, l) ↦ rw e l
      | inr (inl (e, l)) ↦ rw e l
      | inr (inr (inl (e, l))) ↦ rw e l
      | inr (inr (inr e)) ↦ rw e h
    ]

pub largest_len-fits : (p : ℕ) → p < 2 ^ 48 → p < 2 ^ (get_packet_number_length p * 8)
unfolding get_packet_number_length
largest_len-fits p h = elim (cases p) [
  | inl (e, l) ↦ rw e l
  | inr (inl (e, l)) ↦ rw e l
  | inr (inr (inl (e, l))) ↦ rw e l
  | inr (inr (inr e)) ↦ rw e h
]
  where
    cases :
        (p : ℕ)
        → ((get_packet_number_length p ≡ 1) × (p < 2 ^ 8))
          ⊎ ((get_packet_number_length p ≡ 2) × (p < 2 ^ 16))
          ⊎ ((get_packet_number_length p ≡ 4) × (p < 2 ^ 32))
          ⊎ (get_packet_number_length p ≡ 6)
    cases p = ground arith

-- Ranges in order pass the check.
pub well_formed :
    (above : AckRange) (rs : List AckRange) → Descends above rs → ranges_well_formed rs ≡ true
unfolding ranges_well_formed
well_formed above [] d = refl
well_formed above (r ∷ rs) d =
    let e : ltb r.last_packet_number r.first_packet_number ≡ false = ground (arith, d.0.ordered) in
    rw e (well_formed r rs d.1)

pub consistent :
    (above : AckRange) (rs : List AckRange) → Descends above rs → ranges_consistent above rs ≡ true
unfolding ranges_consistent
consistent above [] d = refl
consistent above (r ∷ rs) d =
    let e1 : leb above.first_packet_number r.first_packet_number ≡ false =
      ground (arith, d.0.ordered, d.0.apart) in
    let e2 : leb above.first_packet_number (add64 r.last_packet_number 1) ≡ false =
      ground (arith, d.0.apart, d.0.small) in
    rw (e1, e2) (consistent r rs d.1)
