-- ===== src/Frames/Ack/Writing.antt =====
-- frames/ack_frame.go: Write of an ACK frame, and MinLength. The check of the number of ranges, the
-- blocks of a gap above 255 and the stop at 255 blocks are those of the code.
pub mod Lengths
pub mod Blocks
pub mod Ranges
pub mod Together
pub mod Head
pub mod RoundTrip
use plus_quic_go.Base.{
  ℕ, zero, suc, ◌+◌, ◌-◌, ◌*◌, ◌/◌, ◌%◌, ◌^◌, Bool, not, Option, none, some, List, [], ◌∷◌, ◌++◌,
  ltb, leb, ◌==◌, if◌then◌else◌,
}
use plus_quic_go.Base.Words.{add64, sub64}
use plus_quic_go.Protocol.PacketNumber.{get_packet_number_length}
use plus_quic_go.Wire.{Error, write_byte, write_uint16, write_uint32, write_uint48}
use plus_quic_go.Wire.Float16.{write_ufloat16}
use plus_quic_go.Frames.Ack.{AckRange, AckFrame, has_missing_ranges}
use plus_quic_go.Frames.Ack.Parsing.{microsecond}

-- The gap between a range and the one below it.
abbrev pub gap_between : AckRange → AckRange → ℕ
gap_between above r = sub64 (sub64 above.first_packet_number r.last_packet_number) 1

abbrev pub range_length : AckRange → ℕ
range_length r = add64 (sub64 r.last_packet_number r.first_packet_number) 1

-- The blocks that a gap takes: `gap/0xFF + 1`, one less at a multiple of 0xFF.
unfoldable pub blocks_of_gap : ℕ → ℕ
blocks_of_gap gap = if gap % 255 == 0 then 1 + gap / 255 - 1 else 1 + gap / 255

-- The loop of numWritableNackRanges from a range on.
unfoldable pub count_writable : AckRange → List AckRange → ℕ → ℕ
count_writable above [] n = n
count_writable above (r ∷ rs) n =
    let more = n + blocks_of_gap (gap_between above r) in
    if ltb more 255 then count_writable r rs more else n

unfoldable pub num_writable_nack_ranges : List AckRange → ℕ
num_writable_nack_ranges [] = 0
num_writable_nack_ranges (r ∷ rs) = count_writable r rs 0 + 1

unfoldable pub max_range_length : List AckRange → ℕ → ℕ
max_range_length [] longest = longest
max_range_length (r ∷ rs) longest =
    max_range_length rs (if ltb longest (range_length r) then range_length r else longest)

abbrev pub longest_range : AckFrame → ℕ
longest_range f =
    if has_missing_ranges f.ack_ranges
    then max_range_length f.ack_ranges 0
    else add64 (sub64 f.largest_acked f.lowest_acked) 1

unfoldable pub get_missing_sequence_number_delta_len : AckFrame → ℕ
get_missing_sequence_number_delta_len f =
    let longest = longest_range f in
    if leb longest 255
    then 1
    else if leb longest 65535
    then 2
    else if leb longest 4294967295
    then 4
    else 6

-- The switches over the length of a number.
unfoldable pub write_by_length : ℕ → ℕ → List ℕ
write_by_length len i =
    if len == 1
    then write_byte i
    else if len == 2
    then write_uint16 (i % 2 ^ 16)
    else if len == 4
    then write_uint32 (i % 2 ^ 32)
    else if len == 6
    then write_uint48 i
    else []

-- The inner loop, for a gap of several blocks.
unfoldable pub write_long_gap : ℕ → ℕ → ℕ → ℕ → List ℕ
write_long_gap delta_len gap len zero = []
write_long_gap delta_len gap len (suc zero) =
    write_byte (1 + sub64 gap 1 % 255) ++ write_by_length delta_len len
write_long_gap delta_len gap len (suc (suc n)) =
    write_byte 255 ++ (write_by_length delta_len 0 ++ write_long_gap delta_len gap len (suc n))

-- The blocks of one range below another one.
unfoldable pub write_range : ℕ → AckRange → AckRange → List ℕ
write_range delta_len above r =
    let gap = gap_between above r in
    if blocks_of_gap gap == 1
    then write_byte gap ++ write_by_length delta_len (range_length r)
    else write_long_gap delta_len gap (range_length r) (blocks_of_gap gap)

-- The loop over the ranges: the bytes, and numRangesWritten.
unfoldable pub write_ranges : ℕ → ℕ → AckRange → List AckRange → ℕ → List ℕ × ℕ
write_ranges delta_len num_ranges above [] written = ([], written)
write_ranges delta_len num_ranges above (r ∷ rs) written =
    let bytes = write_range delta_len above r in
    let written = written + blocks_of_gap (gap_between above r) in
    let (more, total) = write_ranges delta_len num_ranges r rs written in
    if leb num_ranges written then (bytes, written) else (bytes ++ more, total)

-- `^=` and `|=` set every bit once.
abbrev pub ack_type_byte : AckFrame → ℕ
ack_type_byte f =
    let largest_len = get_packet_number_length f.largest_acked in
    let delta_len = get_missing_sequence_number_delta_len f in
    64
    + (if largest_len == 1 then 0 else largest_len / 2 * 4)
    + (if delta_len == 1 then 0 else delta_len / 2)
    + (if has_missing_ranges f.ack_ranges then 32 else 0)

-- What stands before the ranges: type byte, LargestAcked and delay.
abbrev pub ack_head : AckFrame → ℕ → List ℕ
ack_head f delay =
    ack_type_byte f
    ∷ (write_by_length (get_packet_number_length f.largest_acked) f.largest_acked
        ++ write_ufloat16 (delay / microsecond))

-- `f.AckRanges[len(f.AckRanges)-1]` of a slice that is not empty.
unfoldable pub last_range : AckRange → List AckRange → AckRange
last_range r [] = r
last_range r (s ∷ rs) = last_range s rs

-- Behind the head, for a frame without and with missing ranges.
unfoldable pub write_ack_ranges : AckFrame → List AckRange → List ℕ × Option Error
write_ack_ranges f [] = (
  write_by_length (get_missing_sequence_number_delta_len f)
        (add64 (sub64 f.largest_acked f.lowest_acked) 1)
      ++ (0 ∷ []),
  none,
)
write_ack_ranges f (r ∷ rs) =
    let delta_len = get_missing_sequence_number_delta_len f in
    let num_ranges = num_writable_nack_ranges (r ∷ rs) in
    let count = write_byte (num_ranges - 1) in
    let first = write_by_length delta_len (add64 (sub64 f.largest_acked r.first_packet_number) 1) in
    let (blocks, written) = write_ranges delta_len num_ranges r rs 1 in
    if ltb 255 num_ranges
    then ([], some Error.too_many_ack_ranges)
    else if not (f.largest_acked == r.last_packet_number)
    then (count, some Error.inconsistent_ack_largest_acked)
    else if not (f.lowest_acked == (last_range r rs).first_packet_number)
    then (count, some Error.inconsistent_ack_lowest_acked)
    else if not (num_ranges == written)
    then (count ++ (first ++ blocks), some Error.inconsistent_number_of_ranges_written)
    else (count ++ (first ++ (blocks ++ (0 ∷ []))), none)

-- Write at the time `now`: what it appends, and the error. It sets DelayTime to the time since the
-- packet was received, which is not before that.
unfoldable pub write_ack_frame : ℕ → AckFrame → AckFrame × (List ℕ × Option Error)
write_ack_frame now f =
    let delay = now - f.packet_received_time in
    let (bytes, e) = write_ack_ranges f f.ack_ranges in
    (record f { delay_time = delay }, (ack_head f delay ++ bytes, e))

-- MinLength
unfoldable pub ack_frame_min_length : AckFrame → ℕ
ack_frame_min_length f =
    let delta_len = get_missing_sequence_number_delta_len f in
    1
    + 2
    + 1
    + get_packet_number_length f.largest_acked
    + (if has_missing_ranges f.ack_ranges
        then (1 + delta_len) * num_writable_nack_ranges f.ack_ranges
        else delta_len)
