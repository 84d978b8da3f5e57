-- ===== src/Frames/Ack/Parsing.antt =====
-- frames/ack_frame.go: ParseAckFrame. A block is a gap and a length; a gap above 255 takes several
-- blocks, all but the last of length 0.
pub mod Checked
use plus_quic_go.Base.{
  ℕ, zero, suc, ◌+◌, ◌-◌, ◌*◌, ◌/◌, ◌%◌, ◌^◌, ◌&&◌, Bool, true, false, not, List, [], ◌∷◌, ltb,
  ◌==◌, if◌then◌else◌, Result, ok, err, ◌>>=◌, ◌>>◌, fail_if, reverse_onto,
}
use plus_quic_go.Base.Words.{add64, sub64}
use plus_quic_go.Wire.{Error, Parsed, read_byte, read_uint_n, read_uint16, read_uint32}
use plus_quic_go.Wire.Float16.{read_ufloat16}
use plus_quic_go.Frames.Ack.{AckRange, AckFrame, validate_ack_ranges}

-- The ranges so far: the one at the end of the slice, and those before it, the latest first.
pub record AckBlocks : Type 0 where
  pub current : AckRange
  pub earlier : List AckRange
  pub in_long_block : Bool
  pub last_range_complete : Bool

-- The body of the loop, with the gap and the length that were read.
unfoldable pub add_ack_block : ℕ → ℕ → AckBlocks → AckBlocks
add_ack_block gap len b =
    let next_last = sub64 (sub64 b.current.first_packet_number gap) 1 in
    let complete =
      if ltb 0 len then true else (if b.in_long_block then b.last_range_complete else false) in
    if b.in_long_block
    then record {
      current = record {
        first_packet_number = sub64 b.current.first_packet_number (add64 gap len);
        last_packet_number = sub64 b.current.last_packet_number gap;
      };
      earlier = b.earlier;
      in_long_block = len == 0;
      last_range_complete = complete;
    }
    else record {
      current = record {
        first_packet_number = add64 (sub64 next_last len) 1;
        last_packet_number = next_last;
      };
      earlier = b.current ∷ b.earlier;
      in_long_block = len == 0;
      last_range_complete = complete;
    }

unfoldable pub read_ack_blocks : ℕ → ℕ → AckBlocks → List ℕ → Parsed AckBlocks
read_ack_blocks delta_len zero b bs = ok (b, bs)
read_ack_blocks delta_len (suc left) b bs = read_byte bs >>= λ (gap, bs).
    read_uint_n delta_len bs >>= λ (len, bs).
    read_ack_blocks delta_len left (add_ack_block gap len b) bs

-- The ranges of the frame without one that is not complete, the last one first.
unfoldable pub complete_ranges : AckBlocks → List AckRange
complete_ranges b = if b.last_range_complete then b.current ∷ b.earlier else b.earlier

-- `frame.AckRanges[len(frame.AckRanges)-1].FirstPacketNumber`
unfoldable pub lowest_of_last : List AckRange → Result Error ℕ
lowest_of_last [] = err Error.index_out_of_range
lowest_of_last (r ∷ rs) = ok r.first_packet_number

-- `2 * bits`, and 1 for 0.
unfoldable pub number_len : ℕ → ℕ
number_len bits = if 2 * bits == 0 then 1 else 2 * bits

-- The block of a frame with missing ranges: ranges and LowestAcked.
unfoldable pub parse_missing_ranges : ℕ → ℕ → ℕ → ℕ → List ℕ → Parsed (List AckRange × ℕ)
parse_missing_ranges delta_len num_ack_blocks largest ack_block_length bs =
    let first : AckRange = record {
      first_packet_number = add64 (largest - ack_block_length) 1;
      last_packet_number = largest;
    } in
    read_ack_blocks delta_len num_ack_blocks
      (record { current = first; earlier = []; in_long_block = false; last_range_complete = false })
      bs
    >>= λ (b, bs). lowest_of_last (complete_ranges b) >>= λ lowest.
        ok ((reverse_onto (complete_ranges b) [], lowest), bs)

-- The timestamps after the first.
unfoldable pub skip_timestamps : ℕ → List ℕ → Parsed Unit
skip_timestamps zero bs = ok (tt, bs)
skip_timestamps (suc left) bs =
    read_byte bs >>= λ (delta, bs). read_uint16 bs >>= λ (time, bs). skip_timestamps left bs

unfoldable pub parse_timestamps : List ℕ → Parsed Unit
parse_timestamps bs = read_byte bs >>= λ (num, bs).
    if ltb 0 num
    then (read_byte bs >>= λ (delta, bs).
        read_uint32 bs >>= λ (time, bs). skip_timestamps (num - 1) bs)
    else ok (tt, bs)

-- Nanoseconds in a microsecond.
abbrev pub microsecond : ℕ
microsecond = 1000

-- The end of ParseAckFrame: the check of the ranges, and the timestamps, which are dropped.
unfoldable pub finish_ack_frame : AckFrame → List ℕ → Parsed AckFrame
finish_ack_frame frame bs =
    fail_if (not (validate_ack_ranges frame)) Error.invalid_ack_ranges
    >> (parse_timestamps bs >>= λ (u, bs). ok (frame, bs))

unfoldable pub parse_ack_frame : List ℕ → Parsed AckFrame
parse_ack_frame bs = read_byte bs >>= λ (type_byte, bs).
    let missing = type_byte / 32 % 2 == 1 in
    let delta_len = number_len (type_byte % 4) in
    read_uint_n (number_len (type_byte / 4 % 4)) bs >>= λ (largest, bs).
    read_ufloat16 bs >>= λ (delay, bs).
    (if missing then read_byte bs else ok (0, bs)) >>= λ (num_ack_blocks, bs).
    fail_if (missing && num_ack_blocks == 0) Error.invalid_ack_ranges
    >> (read_uint_n delta_len bs >>= λ (ack_block_length, bs).
        fail_if (ltb 0 largest && ltb ack_block_length 1) Error.invalid_first_ack_range
        >> fail_if (ltb largest ack_block_length) Error.invalid_ack_ranges
        >> ((if missing
              then parse_missing_ranges delta_len num_ack_blocks largest ack_block_length bs
              else ok (([], if largest == 0 then 0 else largest + 1 - ack_block_length), bs))
            >>= λ ((ranges, lowest), bs).
                finish_ack_frame
                  (record {
                    largest_acked = largest;
                    lowest_acked = lowest;
                    ack_ranges = ranges;
                    packet_received_time = 0;
                    delay_time = delay * microsecond;
                  })
                  bs))
