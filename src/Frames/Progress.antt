-- ===== src/Frames/Progress.antt =====
-- The package frames: every parser takes at least the type byte.
use plus_quic_go.Base.{
  ℕ, zero, suc, ◌+◌, ◌-◌, ◌/◌, ◌%◌, ◌^◌, ◌≤◌, List, [], ◌∷◌, ltb, ◌==◌, if◌then◌else◌, length, take,
  drop, ok, Result, err, reverse_onto, ◌>>=◌, ◌>>◌, fail_if, arith,
}
use plus_quic_go.Wire.{
  Error, Parsed, read_byte, read_uint_n, read_uint16, read_uint32, read_uint64, read_full,
}
use plus_quic_go.Wire.Float16.{read_ufloat16}
use plus_quic_go.Wire.Progress.{
  Takes, ok-Takes, err-Takes, bind-Takes, check-Takes, checks-Takes, if-Takes, byte-Takes,
  weaken-Takes, read_byte-Takes, read_uint_n-Takes, read_uint16-Takes, read_uint32-Takes,
  read_uint64-Takes, read_ufloat16-Takes, read_full-Takes, drop-Takes,
}
use plus_quic_go.Protocol.Parameters.{max_packet_size}
use plus_quic_go.Frames.Stream.{read_data, offset_len_of, parse_stream_frame}
use plus_quic_go.Frames.StopWaiting.{parse_stop_waiting_frame}
use plus_quic_go.Frames.Control.{
  parse_window_update_frame, parse_blocked_frame, parse_rst_stream_frame, parse_ping_frame,
  parse_goaway_frame, parse_connection_close_frame, read_len_byte, PlusFeedbackFrame,
  parse_plus_feedback_frame,
}
use plus_quic_go.Frames.Ack.{AckRange, AckFrame}
use plus_quic_go.Frames.Ack.Parsing.{
  AckBlocks, add_ack_block, read_ack_blocks, number_len, complete_ranges, lowest_of_last,
  parse_missing_ranges, skip_timestamps, parse_timestamps, finish_ack_frame, parse_ack_frame,
}

-- The type byte, and then what takes no less than nothing.
frame-Takes :
    {A : Type 0} (bs : List ℕ) (f : ℕ × List ℕ → Parsed A)
    → ((b : ℕ) (rest : List ℕ) → Takes 0 (length rest) (f (b, rest)))
    → Takes 1 (length bs) (read_byte bs >>= f)
frame-Takes bs f h = bind-Takes 1 (length bs) (read_byte bs) f (read_byte-Takes bs) h

next32 :
    {A : Type 0} (bs : List ℕ) (f : ℕ × List ℕ → Parsed A)
    → ((b : ℕ) (rest : List ℕ) → Takes 0 (length rest) (f (b, rest)))
    → Takes 0 (length bs) (read_uint32 bs >>= f)
next32 bs f h = bind-Takes 0 (length bs) (read_uint32 bs) f (read_uint32-Takes bs) h

next_n :
    {A : Type 0} (n : ℕ) (bs : List ℕ) (f : ℕ × List ℕ → Parsed A)
    → ((b : ℕ) (rest : List ℕ) → Takes 0 (length rest) (f (b, rest)))
    → Takes 0 (length bs) (read_uint_n n bs >>= f)
next_n n bs f h = bind-Takes 0 (length bs) (read_uint_n n bs) f (read_uint_n-Takes n bs) h

pub parse_window_update_frame-Takes :
    (bs : List ℕ) → Takes 1 (length bs) (parse_window_update_frame bs)
unfolding parse_window_update_frame
parse_window_update_frame-Takes bs = frame-Takes bs _ λ t bs. next32 bs _ λ id bs.
    bind-Takes 0 (length bs) (read_uint64 bs) _ (read_uint64-Takes bs) λ off bs. ok-Takes _ bs

pub parse_blocked_frame-Takes : (bs : List ℕ) → Takes 1 (length bs) (parse_blocked_frame bs)
unfolding parse_blocked_frame
parse_blocked_frame-Takes bs = frame-Takes bs _ λ t bs. next32 bs _ λ id bs. ok-Takes _ bs

pub parse_rst_stream_frame-Takes : (bs : List ℕ) → Takes 1 (length bs) (parse_rst_stream_frame bs)
unfolding parse_rst_stream_frame
parse_rst_stream_frame-Takes bs = frame-Takes bs _ λ t bs. next32 bs _ λ id bs.
    bind-Takes 0 (length bs) (read_uint64 bs) _ (read_uint64-Takes bs)
      λ off bs. next32 bs _ λ code bs. ok-Takes _ bs

pub parse_ping_frame-Takes : (bs : List ℕ) → Takes 1 (length bs) (parse_ping_frame bs)
unfolding parse_ping_frame
parse_ping_frame-Takes bs = frame-Takes bs _ λ t bs. ok-Takes _ bs

-- A length of two bytes, its check, and a text.
module _ {A : Type 0} (bs : List ℕ) (f : List ℕ × List ℕ → Parsed A)
    (h : (b rest : List ℕ) → Takes 0 (length rest) (f (b, rest))) where
  text-Takes : Takes 0 (length bs) (
      read_uint16 bs >>= λ (len, bs).
      fail_if (ltb (max_packet_size % 2 ^ 16) len) Error.reason_phrase_too_long
      >> (read_full len bs >>= f))
  text-Takes = bind-Takes 0 (length bs) (read_uint16 bs) _ (read_uint16-Takes bs) λ len bs.
      check-Takes 0 (length bs) _ Error.reason_phrase_too_long _
        (bind-Takes 0 (length bs) (read_full len bs) f (read_full-Takes len bs) h)

pub parse_goaway_frame-Takes : (bs : List ℕ) → Takes 1 (length bs) (parse_goaway_frame bs)
unfolding parse_goaway_frame
parse_goaway_frame-Takes bs =
    frame-Takes bs _ λ t bs.
      next32 bs _ λ code bs. next32 bs _ λ last bs. text-Takes bs _ λ reason bs. ok-Takes _ bs

pub parse_connection_close_frame-Takes :
    (bs : List ℕ) → Takes 1 (length bs) (parse_connection_close_frame bs)
unfolding parse_connection_close_frame
parse_connection_close_frame-Takes bs =
    frame-Takes bs _ λ t bs. next32 bs _ λ code bs. text-Takes bs _ λ reason bs. ok-Takes _ bs

pub parse_plus_feedback_frame-Takes :
    (bs : List ℕ) → Takes 1 (length bs) (parse_plus_feedback_frame bs)
unfolding parse_plus_feedback_frame
parse_plus_feedback_frame-Takes bs = frame-Takes bs _ λ t bs.
    check-Takes 0 (length bs) _ Error.invalid_frame_type _ (
      let (len, more) = read_len_byte bs in
      check-Takes 0 (length bs) _ Error.unexpected_end_of_data _
        (shorter len more bs _ (len_byte bs)))
  where
    shorter :
        (len : ℕ) (more bs : List ℕ) (f : PlusFeedbackFrame)
        → length more ≤ length bs
        → Takes 0 (length bs) (ok (f, drop len more))
    shorter len more bs f h a rest e = omega (arith, drop-Takes len more f a rest e)

    len_byte : (bs : List ℕ) → length (read_len_byte bs).1 ≤ length bs
    len_byte [] = omega arith
    len_byte (b ∷ bs) = omega arith

pub parse_stop_waiting_frame-Takes :
    (packet_number len : ℕ) (bs : List ℕ)
    → Takes 1 (length bs) (parse_stop_waiting_frame packet_number len bs)
unfolding parse_stop_waiting_frame
parse_stop_waiting_frame-Takes packet_number len bs = frame-Takes bs _ λ t bs.
    next_n len bs _
      λ d bs. check-Takes 0 (length bs) _ Error.invalid_least_unacked_delta _ (ok-Takes _ bs)

read_data-Takes : (n : ℕ) (bs : List ℕ) → Takes 0 (length bs) (read_data n bs)
unfolding read_data
read_data-Takes n bs = if-Takes 0 (length bs) (n == 0) _ _ (ok-Takes [] bs) (
    if-Takes 0 (length bs) (ltb (length bs) n) _ _ (err-Takes 0 _ Error.could_not_read_data_len)
      (drop-Takes n bs (take n bs)))

pub parse_stream_frame-Takes : (bs : List ℕ) → Takes 1 (length bs) (parse_stream_frame bs)
unfolding parse_stream_frame
parse_stream_frame-Takes bs = frame-Takes bs _ λ t bs. next_n (t % 4 + 1) bs _ λ id bs.
    next_n (offset_len_of t) bs _ λ off bs.
      bind-Takes 0 (length bs) (if t / 32 % 2 == 1 then read_uint16 bs else ok (0, bs)) _
        (if-Takes 0 (length bs) (t / 32 % 2 == 1) _ _ (read_uint16-Takes bs) (ok-Takes 0 bs))
        λ len bs. check-Takes 0 (length bs) _ Error.data_len_too_large _ (
          bind-Takes 0 (length bs)
            (read_data (if t / 32 % 2 == 1 then len else length bs % 2 ^ 16) bs) _
            (read_data-Takes _ bs)
            λ d bs.
              checks-Takes 0 (length bs) _ _ Error.data_overflows_maximum_offset
                Error.empty_stream_frame_no_fin _ (ok-Takes _ bs))

read_ack_blocks-Takes :
    (delta_len left : ℕ) (b : AckBlocks) (bs : List ℕ)
    → Takes 0 (length bs) (read_ack_blocks delta_len left b bs)
unfolding read_ack_blocks
read_ack_blocks-Takes delta_len zero b bs a rest e = ok-Takes b bs a rest e
read_ack_blocks-Takes delta_len (suc left) b bs a rest e =
    (byte-Takes bs _ λ gap bs.
        next_n delta_len bs _
          λ len bs. read_ack_blocks-Takes delta_len left (add_ack_block gap len b) bs)
      a rest e

skip_timestamps-Takes : (left : ℕ) (bs : List ℕ) → Takes 0 (length bs) (skip_timestamps left bs)
unfolding skip_timestamps
skip_timestamps-Takes zero bs a rest e = ok-Takes tt bs a rest e
skip_timestamps-Takes (suc left) bs a rest e =
    (byte-Takes bs _ λ delta bs.
        bind-Takes 0 (length bs) (read_uint16 bs) _ (read_uint16-Takes bs)
          λ time bs. skip_timestamps-Takes left bs)
      a rest e

parse_timestamps-Takes : (bs : List ℕ) → Takes 0 (length bs) (parse_timestamps bs)
unfolding parse_timestamps
parse_timestamps-Takes bs = byte-Takes bs _ λ num bs.
    if-Takes 0 (length bs) (ltb 0 num) _ _
      (byte-Takes bs _ λ delta bs. next32 bs _ λ time bs. skip_timestamps-Takes (num - 1) bs)
      (ok-Takes tt bs)

finish_ack_frame-Takes : (f : AckFrame) (bs : List ℕ) → Takes 0 (length bs) (finish_ack_frame f bs)
unfolding finish_ack_frame
finish_ack_frame-Takes f bs = check-Takes 0 (length bs) _ Error.invalid_ack_ranges _ (
    bind-Takes 0 (length bs) (parse_timestamps bs) _ (parse_timestamps-Takes bs)
      λ u bs. ok-Takes f bs)

parse_missing_ranges-Takes :
    (delta_len num largest len : ℕ) (bs : List ℕ)
    → Takes 0 (length bs) (parse_missing_ranges delta_len num largest len bs)
unfolding parse_missing_ranges
parse_missing_ranges-Takes delta_len num largest len bs =
    bind-Takes 0 (length bs) (read_ack_blocks delta_len num _ bs) _
      (read_ack_blocks-Takes delta_len num _ bs)
      λ b bs. lowest-Takes b bs (lowest_of_last (complete_ranges b))
  where
    lowest-Takes :
        (b : AckBlocks) (bs : List ℕ) (r : Result Error ℕ)
        → let p : Parsed (List AckRange × ℕ) =
            r >>= λ lowest. ok ((reverse_onto (complete_ranges b) [], lowest), bs) in
          Takes 0 (length bs) p
    lowest-Takes b bs (ok lowest) = ok-Takes _ bs
    lowest-Takes b bs (err x) = err-Takes 0 (length bs) x

pub parse_ack_frame-Takes : (bs : List ℕ) → Takes 1 (length bs) (parse_ack_frame bs)
unfolding parse_ack_frame
parse_ack_frame-Takes bs = frame-Takes bs _ λ t bs.
    next_n (number_len (t / 4 % 4)) bs _ λ largest bs.
      bind-Takes 0 (length bs) (read_ufloat16 bs) _ (read_ufloat16-Takes bs) λ delay bs.
        bind-Takes 0 (length bs) (if t / 32 % 2 == 1 then read_byte bs else ok (0, bs)) _
          (if-Takes 0 (length bs) (t / 32 % 2 == 1) _ _
            (weaken-Takes 1 (length bs) _ (read_byte-Takes bs)) (ok-Takes 0 bs))
          λ num bs. check-Takes 0 (length bs) _ Error.invalid_ack_ranges _ (
            next_n (number_len (t % 4)) bs _ λ len bs.
              checks-Takes 0 (length bs) _ _ Error.invalid_first_ack_range Error.invalid_ack_ranges
                _
                (bind-Takes 0 (length bs)
                  (if t / 32 % 2 == 1
                    then parse_missing_ranges (number_len (t % 4)) num largest len bs
                    else ok (([], if largest == 0 then 0 else largest + 1 - len), bs))
                  _
                  (if-Takes 0 (length bs) (t / 32 % 2 == 1) _ _
                    (parse_missing_ranges-Takes (number_len (t % 4)) num largest len bs)
                    (ok-Takes _ bs))
                  λ ranges bs. finish_ack_frame-Takes _ bs))
