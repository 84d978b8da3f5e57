-- ===== src/Frames/Ack/Writing/RoundTrip.antt =====
-- frames/ack_frame.go: an ACK frame whose ranges all fit is read back by the parser.
use plus_quic_go.Base.{
  ℕ, ◌+◌, ◌-◌, ◌*◌, ◌/◌, ◌%◌, ◌^◌, ◌≤◌, ◌<◌, ◌≡◌, refl, sym, ap, ◌∙◌, ◌⊎◌, inl, inr, List, [], ◌∷◌,
  ◌++◌, true, false, ◌&&◌, none, ltb, ◌==◌, if◌then◌else◌, ok, arith,
}
use mathlib.Core.List.{append_assoc}
use plus_quic_go.Base.Words.{add64, sub64}
use plus_quic_go.Protocol.PacketNumber.{get_packet_number_length}
use plus_quic_go.Wire.{read_byte, read_uint_n, write_byte}
use plus_quic_go.Wire.Float16.{read_ufloat16, write_ufloat16, decode_ufloat16, encode_ufloat16}
use plus_quic_go.Frames.Ack.{
  AckRange, AckFrame, has_missing_ranges, validate_ack_ranges, validate_ranges, ranges_well_formed,
}
use plus_quic_go.Frames.Ack.Parsing.{parse_timestamps, finish_ack_frame, parse_ack_frame}
use plus_quic_go.Frames.Ack.Writing.{
  gap_between, range_length, num_writable_nack_ranges, max_range_length, longest_range,
  get_missing_sequence_number_delta_len, write_by_length, ack_type_byte, last_range,
  write_ack_ranges, write_ack_frame,
}
use plus_quic_go.Frames.Ack.Writing.Lengths.{get_packet_number_length-IsLength, delta_len-IsLength}
use plus_quic_go.Frames.Ack.Writing.Ranges.{
  Descends, total_blocks, LengthsBelow, below_mono, max_range_length-below, max_range_length-lt,
  Descends-below, delta_len-fits, largest_len-fits, well_formed, consistent,
}
use plus_quic_go.Frames.Ack.Writing.Blocks.{read_uint_n-write_by_length, gap_bounds}
use plus_quic_go.Frames.Ack.Writing.Together.{
  all_bytes, count_writable-all, blocks_positive, write_ranges-all, parse_ranges,
}
use plus_quic_go.Frames.Ack.Writing.Head.{ack_type_byte-fields, read_ufloat16-write}

-- The frames that the writer can write in full.
pub record IsWritable (f : AckFrame) : Type 0 where
  pub small : f.largest_acked < 2 ^ 48
  pub ranged :
      ((f.ack_ranges ≡ []) × (0 < f.lowest_acked) × (f.lowest_acked ≤ f.largest_acked))
      ⊎ ((r : AckRange) × (s : AckRange) × (rs : List AckRange) × (f.ack_ranges ≡ r ∷ s ∷ rs)
          × (r.last_packet_number ≡ f.largest_acked)
          × (r.first_packet_number ≤ r.last_packet_number)
          × Descends r (s ∷ rs)
          × (f.lowest_acked ≡ (last_range s rs).first_packet_number)
          × (total_blocks r (s ∷ rs) < 255))

-- What the receiver makes of the frame: the delay since the packet was received, in microseconds and
-- as a 16 bit floating point number.
abbrev pub received_at : ℕ → AckFrame → AckFrame
received_at now f = record f {
  packet_received_time = 0;
  delay_time = decode_ufloat16 (encode_ufloat16 ((now - f.packet_received_time) / 1000)) * 1000;
}

no_timestamps : (rest : List ℕ) → parse_timestamps (0 ∷ rest) ≡ ok (tt, rest)
unfolding parse_timestamps read_byte
no_timestamps rest = refl

append3 : (a b c rest : List ℕ) → ((a ++ b) ++ c) ++ rest ≡ a ++ (b ++ (c ++ rest))
append3 a b c rest = simp append_assoc

module _ (now : ℕ) (f : AckFrame) (rest : List ℕ) (small : f.largest_acked < 2 ^ 48) where
  -- The head is read, and `more` is left.
  largest_part : List ℕ
  largest_part = write_by_length (get_packet_number_length f.largest_acked) f.largest_acked

  delay_part : List ℕ
  delay_part = write_ufloat16 ((now - f.packet_received_time) / 1000)

  read_largest :
      (more : List ℕ)
      → read_uint_n (get_packet_number_length f.largest_acked) (largest_part ++ more)
        ≡ ok (f.largest_acked, more)
  unfolding largest_part
  read_largest more =
      read_uint_n-write_by_length (get_packet_number_length f.largest_acked) f.largest_acked more
        (get_packet_number_length-IsLength f.largest_acked) (largest_len-fits f.largest_acked small)

  read_delay :
      (more : List ℕ)
      → read_ufloat16 (delay_part ++ more)
        ≡ ok (decode_ufloat16 (encode_ufloat16 ((now - f.packet_received_time) / 1000)), more)
  unfolding delay_part
  read_delay more = read_ufloat16-write ((now - f.packet_received_time) / 1000) more

  read_first :
      (len : ℕ) (more : List ℕ)
      → len < 2 ^ (get_missing_sequence_number_delta_len f * 8)
      → let dl = get_missing_sequence_number_delta_len f in
        read_uint_n dl (write_by_length dl len ++ more) ≡ ok (len, more)
  read_first len more l =
      read_uint_n-write_by_length (get_missing_sequence_number_delta_len f) len more
        (delta_len-IsLength f) l

  parse_without_ranges :
      f.ack_ranges ≡ []
      → 0 < f.lowest_acked
      → f.lowest_acked ≤ f.largest_acked
      → let len = add64 (sub64 f.largest_acked f.lowest_acked) 1 in
        let first = write_by_length (get_missing_sequence_number_delta_len f) len in
        parse_ack_frame (ack_type_byte f ∷ (largest_part ++ (delay_part ++ (first ++ (0 ∷ rest)))))
        ≡ ok (received_at now f, rest)
  unfolding parse_ack_frame read_byte finish_ack_frame validate_ack_ranges validate_ranges
  parse_without_ranges z pos le =
      let (t1, t2, t3) = ack_type_byte-fields f in
      let dl = get_missing_sequence_number_delta_len f in
      let len = add64 (sub64 f.largest_acked f.lowest_acked) 1 in
      let longest : longest_range f ≡ len = rw z refl in
      let first = write_by_length dl len ++ (0 ∷ rest) in
      let fits : len < 2 ^ (dl * 8) =
        omega (arith, longest, delta_len-fits f (omega (arith, longest))) in
      let m : has_missing_ranges f.ack_ranges ≡ false = rw z refl in
      let c1 : (ltb 0 f.largest_acked && ltb len 1) ≡ false = ground arith in
      let c2 : ltb f.largest_acked len ≡ false = ground arith in
      let c3 : (if f.largest_acked == 0 then 0 else f.largest_acked + 1 - len) ≡ f.lowest_acked =
        ground arith in
      rw
        (
          t1,
          t2,
          t3,
          m,
          read_largest (delay_part ++ first),
          read_delay first,
          read_first len (0 ∷ rest) fits,
          c1,
          c2,
          c3,
          no_timestamps rest,
        )
        (rw z refl)

  module _ (r s : AckRange) (rs : List AckRange) (z : f.ack_ranges ≡ r ∷ s ∷ rs)
      (top : r.last_packet_number ≡ f.largest_acked)
      (ordered : r.first_packet_number ≤ r.last_packet_number) (d : Descends r (s ∷ rs))
      (bottom : f.lowest_acked ≡ (last_range s rs).first_packet_number)
      (fit : total_blocks r (s ∷ rs) < 255) where
    all_fit : longest_range f < 2 ^ 48
    all_fit =
        let m : longest_range f ≡ max_range_length (r ∷ s ∷ rs) 0 = rw z refl in
        omega (
          arith,
          m,
          max_range_length-lt (r ∷ s ∷ rs) 0 (2 ^ 48) (omega arith)
              (omega (arith, positive_first), Descends-below r (s ∷ rs) d),
        )
      where
        positive_first : 0 < r.first_packet_number
        positive_first = omega (arith, d.0.apart)

    lengths_fit : LengthsBelow (2 ^ (get_missing_sequence_number_delta_len f * 8)) (r ∷ s ∷ rs)
    lengths_fit =
        let m : longest_range f ≡ max_range_length (r ∷ s ∷ rs) 0 = rw z refl in
        below_mono (max_range_length (r ∷ s ∷ rs) 0 + 1) _ (r ∷ s ∷ rs)
          (omega (arith, m, delta_len-fits f all_fit)) (max_range_length-below (r ∷ s ∷ rs) 0)

    parse_with_ranges :
        let dl = get_missing_sequence_number_delta_len f in
        let first = write_by_length dl (range_length r) in
        parse_ack_frame (
          ack_type_byte f
          ∷ (largest_part
              ++ (delay_part
                  ++ (total_blocks r (s ∷ rs)
                      ∷ (first ++ (all_bytes dl r (s ∷ rs) ++ (0 ∷ rest)))))))
        ≡ ok (received_at now f, rest)
    unfolding parse_ack_frame read_byte finish_ack_frame validate_ack_ranges validate_ranges
        ranges_well_formed
    parse_with_ranges =
        let (t1, t2, t3) = ack_type_byte-fields f in
        let dl = get_missing_sequence_number_delta_len f in
        let num = total_blocks r (s ∷ rs) in
        let blocks = all_bytes dl r (s ∷ rs) ++ (0 ∷ rest) in
        let first = write_by_length dl (range_length r) ++ blocks in
        let m : has_missing_ranges f.ack_ranges ≡ true = rw z refl in
        let c0 : (num == 0) ≡ false =
          ground (arith, blocks_positive (gap_between r s) (gap_bounds r s d.0).0) in
        let c1 : (ltb 0 f.largest_acked && ltb (range_length r) 1) ≡ false = ground arith in
        let c2 : ltb f.largest_acked (range_length r) ≡ false = ground (arith, d.0.apart) in
        let c3 : (r.last_packet_number == f.largest_acked) ≡ true = ground arith in
        let c4 : ltb r.last_packet_number r.first_packet_number ≡ false = ground arith in
        let c5 = well_formed r (s ∷ rs) d in
        let c6 = consistent r (s ∷ rs) d in
        let ranges =
          parse_ranges dl (delta_len-IsLength f) f.largest_acked f.lowest_acked r s rs rest top
            (omega (arith, top)) ordered d bottom lengths_fit.1 in
        rw
          (
            t1,
            t2,
            t3,
            m,
            read_largest (delay_part ++ (num ∷ first)),
            read_delay (num ∷ first),
            c0,
            read_first (range_length r) blocks lengths_fit.0,
            c1,
            c2,
            ranges,
            c3,
            c4,
            c5,
            c6,
            no_timestamps rest,
          )
          (rw z refl)

-- What is behind the head, where all ranges fit.
write_ack_ranges-all :
    (f : AckFrame) (r s : AckRange) (rs : List AckRange)
    → r.last_packet_number ≡ f.largest_acked
    → f.lowest_acked ≡ (last_range s rs).first_packet_number
    → Descends r (s ∷ rs)
    → total_blocks r (s ∷ rs) < 255
    → let dl = get_missing_sequence_number_delta_len f in
      write_ack_ranges f (r ∷ s ∷ rs) ≡ (
        total_blocks r (s ∷ rs)
            ∷ (write_by_length dl (range_length r) ++ (all_bytes dl r (s ∷ rs) ++ (0 ∷ []))),
        none,
      )
unfolding write_ack_ranges num_writable_nack_ranges last_range write_byte
write_ack_ranges-all f r s rs top bottom d fit =
    let dl = get_missing_sequence_number_delta_len f in
    let total = total_blocks r (s ∷ rs) in
    let count = count_writable-all r (s ∷ rs) 0 (omega arith) in
    let ranges = write_ranges-all dl (total + 1) r (s ∷ rs) 1 d (omega arith) in
    let c1 : ltb 255 (total + 1) ≡ false = ground arith in
    let c2 : (f.largest_acked == r.last_packet_number) ≡ true = ground arith in
    let c3 : (f.lowest_acked == (last_range s rs).first_packet_number) ≡ true = ground arith in
    let c4 : (total + 1 == total + 1) ≡ true = ground arith in
    let c5 : (total + 1 - 1) % 256 ≡ total = omega arith in
    let c6 : 0 + total ≡ total = omega arith in
    rw (count, c6, ranges, c1, c2, c3, c4, c5, sym top) refl

append_without :
    (a b c rest : List ℕ) → ((a ++ b) ++ (c ++ (0 ∷ []))) ++ rest ≡ a ++ (b ++ (c ++ (0 ∷ rest)))
append_without a b c rest = simp append_assoc

append_with :
    (a b : List ℕ) (n : ℕ) (c d rest : List ℕ)
    → ((a ++ b) ++ (n ∷ (c ++ (d ++ (0 ∷ []))))) ++ rest
      ≡ a ++ (b ++ (n ∷ (c ++ (d ++ (0 ∷ rest)))))
append_with a b n c d rest = simp append_assoc

pub parse_ack_frame-write :
    (now : ℕ) (f : AckFrame) (rest : List ℕ)
    → IsWritable f
    → ((write_ack_frame now f).1.1 ≡ none)
      × (parse_ack_frame ((write_ack_frame now f).1.0 ++ rest) ≡ ok (received_at now f, rest))
unfolding write_ack_frame write_ack_ranges largest_part delay_part
parse_ack_frame-write now f rest w = elim w.ranged [
  | inl (z, pos, le) ↦
      let e = ap (write_ack_ranges f) z in
      let len = add64 (sub64 f.largest_acked f.lowest_acked) 1 in
      let first = write_by_length (get_missing_sequence_number_delta_len f) len in
      rw e (
        refl,
        rw (append_without _ _ first rest) (parse_without_ranges now f rest w.small z pos le),
      )
  | inr (r, s, rs, z, top, ordered, d, bottom, fit) ↦
      let e = ap (write_ack_ranges f) z ∙ write_ack_ranges-all f r s rs top bottom d fit in
      let dl = get_missing_sequence_number_delta_len f in
      rw e (
        refl,
        rw
            (append_with (largest_part now f rest w.small) (delay_part now f rest w.small)
              (total_blocks r (s ∷ rs)) (write_by_length dl (range_length r))
              (all_bytes dl r (s ∷ rs)) rest)
            (parse_with_ranges now f rest w.small r s rs z top ordered d bottom fit),
      )
]

-- What Write appends starts with a byte that marks an ACK frame.
pub write_ack_frame-starts :
    (now : ℕ) (f : AckFrame)
    → (others : List ℕ) × ((write_ack_frame now f).1.0 ≡ ack_type_byte f ∷ others)
      × (64 ≤ ack_type_byte f)
      × (ack_type_byte f < 128)
unfolding write_ack_frame
write_ack_frame-starts now f = (_, refl, omega arith, bounded)
  where
    bounded : ack_type_byte f < 128
    bounded =
        ground (arith, get_packet_number_length-IsLength f.largest_acked, delta_len-IsLength f)
