-- ===== src/Frames/Ack/Panics.antt =====
-- frames/ack_frame.go: neither ParseAckFrame nor Write panics.
use plus_quic_go.Base.{ℕ, ◌≢◌, some, List, [], ◌∷◌, err, arith}
use plus_quic_go.Wire.{Error}
use plus_quic_go.Frames.Ack.{AckRange, AckFrame}
use plus_quic_go.Frames.Ack.Parsing.{parse_ack_frame}
use plus_quic_go.Frames.Ack.Parsing.Checked.{parse_ack_frame-InRange}
use plus_quic_go.Frames.Ack.Writing.{write_ack_ranges, write_ack_frame}
use plus_quic_go.Frames.Ack.Writing.Lengths.{num_writable_nack_ranges-le}

write_ack_ranges-no_panic :
    (f : AckFrame) (rs : List AckRange) → (write_ack_ranges f rs).1 ≢ some Error.too_many_ack_ranges
unfolding write_ack_ranges
write_ack_ranges-no_panic f [] = λ e. ground arith
write_ack_ranges-no_panic f (r ∷ rs) = λ e. ground (arith, num_writable_nack_ranges-le (r ∷ rs))

-- On any input ParseAckFrame does not reach for an element of an empty slice, and Write of any ACK
-- frame does not find more than 255 blocks, so that neither panics.
pub ack_frames-no_panic :
    (bs : List ℕ) (now : ℕ) (f : AckFrame)
    → (parse_ack_frame bs ≢ err Error.index_out_of_range)
      × ((write_ack_frame now f).1.1 ≢ some Error.too_many_ack_ranges)
unfolding write_ack_frame
ack_frames-no_panic bs now f =
    (parse_ack_frame-InRange bs, write_ack_ranges-no_panic f f.ack_ranges)
