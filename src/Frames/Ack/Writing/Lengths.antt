-- ===== src/Frames/Ack/Writing/Lengths.antt =====
-- frames/ack_frame.go: an ACK frame that is written without an error takes MinLength, and the writer
-- does not panic.
use plus_quic_go.Base.{
  ℕ, zero, suc, ◌+◌, ◌-◌, ◌*◌, ◌/◌, ◌≤◌, ◌≡◌, ◌⊎◌, inl, inr, refl, Bool, true, false, not, Option,
  none, some, List, [], ◌∷◌, ◌++◌, ltb, leb, ◌==◌, if◌then◌else◌, Bool-cases, length, length-append,
  arith,
}
use plus_quic_go.Base.Words.{add64, sub64}
use plus_quic_go.Protocol.PacketNumber.{get_packet_number_length}
use plus_quic_go.Protocol.PacketNumber.Inference.{IsLength}
use plus_quic_go.Wire.{Error, write_byte, write_uint16, write_uint32, write_uint48}
use plus_quic_go.Wire.Float16.{write_ufloat16}
use plus_quic_go.Frames.Ack.{AckRange, AckFrame, has_missing_ranges}
use plus_quic_go.Frames.Ack.Writing.{
  gap_between, range_length, blocks_of_gap, count_writable, num_writable_nack_ranges,
  get_missing_sequence_number_delta_len, longest_range, write_by_length, write_long_gap,
  write_range, write_ranges, last_range, write_ack_ranges, write_ack_frame, ack_frame_min_length,
}

length-write_by_length : (len i : ℕ) → IsLength len → length (write_by_length len i) ≡ len
unfolding write_by_length write_byte write_uint16 write_uint32 write_uint48
length-write_by_length len i h = elim h [
  | inl e ↦ rw e refl
  | inr (inl e) ↦ rw e refl
  | inr (inr (inl e)) ↦ rw e refl
  | inr (inr (inr e)) ↦ rw e refl
]

pub get_packet_number_length-IsLength : (p : ℕ) → IsLength (get_packet_number_length p)
unfolding get_packet_number_length
get_packet_number_length-IsLength p = ground arith

pub delta_len-IsLength : (f : AckFrame) → IsLength (get_missing_sequence_number_delta_len f)
unfolding get_missing_sequence_number_delta_len
delta_len-IsLength f = by_length (longest_range f)
  where
    by_length :
        (n : ℕ)
        → IsLength
            (if leb n 255 then 1 else if leb n 65535 then 2 else if leb n 4294967295 then 4 else 6)
    by_length n = ground arith

count_writable-le :
    (above : AckRange) (rs : List AckRange) (n : ℕ) → n ≤ 254 → count_writable above rs n ≤ 254
unfolding count_writable
count_writable-le above [] n h = h
count_writable-le above (r ∷ rs) n h =
    ground (arith, count_writable-le r rs (n + blocks_of_gap (gap_between above r)))

pub num_writable_nack_ranges-le : (rs : List AckRange) → num_writable_nack_ranges rs ≤ 255
unfolding num_writable_nack_ranges
num_writable_nack_ranges-le [] = omega arith
num_writable_nack_ranges-le (r ∷ rs) = omega (arith, count_writable-le r rs 0 (omega arith))

module _ (dl : ℕ) (is_length : IsLength dl) where
  length-write_long_gap : (gap len n : ℕ) → length (write_long_gap dl gap len n) ≡ (1 + dl) * n
  unfolding write_long_gap write_byte
  length-write_long_gap gap len zero = omega arith
  length-write_long_gap gap len (suc zero) = omega (arith, length-write_by_length dl len is_length)
  length-write_long_gap gap len (suc (suc n)) = grind (
    arith,
    length-write_by_length dl 0 is_length,
    length-write_long_gap gap len (suc n),
    length-append (write_by_length dl 0) (write_long_gap dl gap len (suc n)),
  )

  length-write_range :
      (above r : AckRange)
      → length (write_range dl above r) ≡ (1 + dl) * blocks_of_gap (gap_between above r)
  unfolding write_range write_byte
  length-write_range above r = elim (decide (blocks_of_gap (gap_between above r))) [
    | inl (e, b) ↦ rw (b, e) (omega (arith, length-write_by_length dl (range_length r) is_length))
    | inr b ↦ rw b (length-write_long_gap _ _ _)
  ]
    where
      decide : (n : ℕ) → ((n ≡ 1) × ((n == 1) ≡ true)) ⊎ ((n == 1) ≡ false)
      decide n = ground arith

  length-write_ranges :
      (num : ℕ) (above : AckRange) (rs : List AckRange) (written : ℕ)
      → let (bytes, total) = write_ranges dl num above rs written in
        length bytes + (1 + dl) * written ≡ (1 + dl) * total
  unfolding write_ranges
  length-write_ranges num above [] written = omega arith
  length-write_ranges num above (r ∷ rs) written =
      let b = blocks_of_gap (gap_between above r) in
      elim (Bool-cases (leb num (written + b))) [
        | inl e ↦ rw e (grind (arith, length-write_range above r))
        | inr e ↦ rw e (
            grind (
              arith,
              length-write_range above r,
              length-write_ranges num r rs (written + b),
              length-append (write_range dl above r) (write_ranges dl num r rs (written + b)).0,
            ))
      ]

-- Four checks in a row that all pass.
checks_passed :
    (a b c d : Bool) (x z v : List ℕ)
    → let r : List ℕ × Option Error =
        if a
        then ([], some Error.too_many_ack_ranges)
        else if b
        then (x, some Error.inconsistent_ack_largest_acked)
        else if c
        then (x, some Error.inconsistent_ack_lowest_acked)
        else if d
        then (z, some Error.inconsistent_number_of_ranges_written)
        else (v, none) in
      r.1 ≡ none → (r.0 ≡ v) × (d ≡ false)
checks_passed a b c d x z v = ground arith

-- What stands behind the head, where there is no error.
length-write_ack_ranges :
    (f : AckFrame) (rs : List AckRange)
    → (write_ack_ranges f rs).1 ≡ none
    → let dl = get_missing_sequence_number_delta_len f in
      length (write_ack_ranges f rs).0
      ≡ 1 + (if has_missing_ranges rs then (1 + dl) * num_writable_nack_ranges rs else dl)
unfolding write_ack_ranges write_byte
length-write_ack_ranges f [] e =
    let dl = get_missing_sequence_number_delta_len f in
    omega (
      arith,
      length-append (write_by_length dl _) (0 ∷ []),
      length-write_by_length dl _ (delta_len-IsLength f),
    )
length-write_ack_ranges f (r ∷ rs) e =
    let dl = get_missing_sequence_number_delta_len f in
    let num = num_writable_nack_ranges (r ∷ rs) in
    let (blocks, written) = write_ranges dl num r rs 1 in
    let first = write_by_length dl (add64 (sub64 f.largest_acked r.first_packet_number) 1) in
    let count = write_byte (num - 1) in
    let (bytes, counted) =
      checks_passed (ltb 255 num) (not (f.largest_acked == r.last_packet_number))
        (not (f.lowest_acked == (last_range r rs).first_packet_number)) (not (num == written)) count
        (count ++ (first ++ blocks)) (count ++ (first ++ (blocks ++ (0 ∷ [])))) e in
    let same : num ≡ written = ground arith in
    rw bytes (
      grind (
        arith,
        same,
        length-write_ranges dl (delta_len-IsLength f) num r rs 1,
        length-write_by_length dl (add64 (sub64 f.largest_acked r.first_packet_number) 1)
            (delta_len-IsLength f),
        length-append first (blocks ++ (0 ∷ [])),
        length-append blocks (0 ∷ []),
      ))

-- An ACK frame that is written without an error takes MinLength bytes.
pub length-write_ack_frame :
    (now : ℕ) (f : AckFrame)
    → (write_ack_frame now f).1.1 ≡ none
    → length (write_ack_frame now f).1.0 ≡ ack_frame_min_length f
unfolding write_ack_frame ack_frame_min_length write_ufloat16 write_uint16
length-write_ack_frame now f e =
    let largest = write_by_length (get_packet_number_length f.largest_acked) f.largest_acked in
    let delay = write_ufloat16 ((now - f.packet_received_time) / 1000) in
    omega (
      arith,
      length-append (largest ++ delay) (write_ack_ranges f f.ack_ranges).0,
      length-append largest delay,
      length-write_by_length _ f.largest_acked (get_packet_number_length-IsLength f.largest_acked),
      length-write_ack_ranges f f.ack_ranges e,
    )
