-- ===== src/Tests/Wire.antt =====
-- Frames, headers and packets on the wire.
use plus_quic_go.Base.{
  ℕ, ◌+◌, ◌≤◌, ◌<◌, ◌≡◌, ◌≢◌, refl, ◌⊎◌, inl, inr, true, false, List, [], ◌∷◌, ◌++◌, none, some,
  map, length, Result, ok, err, arith,
}
use plus_quic_go.Wire.{Error, read_byte, read_bytes_from, read_uint_n, read_uint16}
use plus_quic_go.Wire.Float16.{read_ufloat16, decode_ufloat16}
use plus_quic_go.Frames.Ack.{AckFrame, validate_ack_ranges, validate_ranges}
use plus_quic_go.Frames.Ack.Parsing.{
  number_len, parse_timestamps, finish_ack_frame, parse_ack_frame,
}
use plus_quic_go.Frames.Ack.Parsing.Checked.{parse_ack_frame-checked}
use plus_quic_go.Frames.Ack.Panics.{ack_frames-no_panic}
use plus_quic_go.Frames.Ack.Writing.{
  write_ack_frame, ack_frame_min_length, last_range, blocks_of_gap,
}
use plus_quic_go.Frames.Ack.Writing.Lengths.{length-write_ack_frame}
use plus_quic_go.Frames.Ack.Writing.RoundTrip.{IsWritable, received_at, parse_ack_frame-write}
use plus_quic_go.Frames.Stream.{
  StreamFrame, data_len, parse_stream_frame, write_stream_frame, stream_frame_min_length,
}
use plus_quic_go.Frames.Stream.RoundTrip.{parse_stream_frame-write, length-write_stream_frame}
use plus_quic_go.Frames.StopWaiting.{StopWaitingFrame}
use plus_quic_go.Packets.Unpacker.{
  Frame, stream, ack, window_update, stop_waiting, Aead, PacketInfo, UnpackedPacket, UnpackError,
  unpack,
}
use plus_quic_go.Packets.Unpacker.Total.{unpack-ends}
use plus_quic_go.Packets.Unpacker.RoundTrip.{payload_of, unpack-written}
use plus_quic_go.Packets.Unpacker.Travels.{received}
use plus_quic_go.Packets.PublicHeader.{PublicHeader}

-- Packets 1 to 5, 300 to 310 and 320 arrived; the gap of 294 takes two blocks.
abbrev with_gaps : AckFrame
with_gaps = record {
  largest_acked = 320;
  lowest_acked = 1;
  ack_ranges =
      record { first_packet_number = 320; last_packet_number = 320 }
      ∷ record { first_packet_number = 300; last_packet_number = 310 }
      ∷ record { first_packet_number = 1; last_packet_number = 5 }
      ∷ [];
  packet_received_time = 1_000_000;
  delay_time = 0;
}

with_gaps-IsWritable : IsWritable with_gaps
unfolding last_range blocks_of_gap
with_gaps-IsWritable = record {
  small = omega arith;
  ranged = inr (
    _,
    _,
    _,
    refl,
    refl,
    omega arith,
    (
      record { ordered = omega arith; apart = omega arith; small = omega arith },
      (record { ordered = omega arith; apart = omega arith; small = omega arith }, tt),
    ),
    refl,
    omega arith,
  );
}

parse_ack_frame-write_example :
    ((write_ack_frame 3_500_000 with_gaps).1.1 ≡ none)
    × (parse_ack_frame ((write_ack_frame 3_500_000 with_gaps).1.0 ++ (7 ∷ []))
        ≡ ok (received_at 3_500_000 with_gaps, 7 ∷ []))
parse_ack_frame-write_example =
    parse_ack_frame-write 3_500_000 with_gaps (7 ∷ []) with_gaps-IsWritable

length-write_ack_frame_example :
    length (write_ack_frame 3_500_000 with_gaps).1.0 ≡ ack_frame_min_length with_gaps
length-write_ack_frame_example =
    length-write_ack_frame 3_500_000 with_gaps parse_ack_frame-write_example.0

abbrev largest_5 : ℕ
largest_5 = 5

-- An ACK of 3 to 5, and a PING behind it.
abbrev ack_bytes : List ℕ
ack_bytes = 0x40 ∷ 5 ∷ 10 ∷ 0 ∷ 3 ∷ 0 ∷ 7 ∷ []

ack_bytes_run :
    parse_ack_frame ack_bytes
    ≡ ok (
      record {
        largest_acked = 5;
        lowest_acked = 3;
        ack_ranges = [];
        packet_received_time = 0;
        delay_time = 10_000;
      },
      7 ∷ [],
    )
unfolding parse_ack_frame finish_ack_frame parse_timestamps validate_ack_ranges validate_ranges
    read_byte read_bytes_from read_uint_n read_uint16 read_ufloat16 decode_ufloat16 number_len
ack_bytes_run = refl

parse_ack_frame-checked_example :
    (validate_ack_ranges (record {
      largest_acked = 5;
      lowest_acked = 3;
      ack_ranges = [];
      packet_received_time = 0;
      delay_time = 10_000;
    })
      ≡ true)
    × ((0 < 0) ⊎ ((3 ≤ 5) × ((largest_5 ≡ 0) ⊎ (0 < 3))))
parse_ack_frame-checked_example = parse_ack_frame-checked ack_bytes _ (7 ∷ []) ack_bytes_run

-- One block of length 0, so that the only range behind the first one is not complete.
ack_frames-no_panic_example :
    (parse_ack_frame (0x60 ∷ 5 ∷ 10 ∷ 0 ∷ 1 ∷ 1 ∷ 2 ∷ 0 ∷ []) ≢ err Error.index_out_of_range)
    × ((write_ack_frame 3_500_000 with_gaps).1.1 ≢ some Error.too_many_ack_ranges)
ack_frames-no_panic_example =
    ack_frames-no_panic (0x60 ∷ 5 ∷ 10 ∷ 0 ∷ 1 ∷ 1 ∷ 2 ∷ 0 ∷ []) 3_500_000 with_gaps

abbrev three_bytes : StreamFrame
three_bytes = record {
  stream_id = 5;
  fin_bit = true;
  data_len_present = true;
  offset = 70_000;
  payload = 1 ∷ 2 ∷ 3 ∷ [];
}

parse_stream_frame-write_example :
    ((write_stream_frame three_bytes).1 ≡ none)
    × (parse_stream_frame ((write_stream_frame three_bytes).0 ++ (7 ∷ []))
        ≡ ok (three_bytes, 7 ∷ []))
parse_stream_frame-write_example =
    parse_stream_frame-write three_bytes (7 ∷ []) (omega arith) (omega arith) (inl refl)
      (inl (refl, omega arith))

length-write_stream_frame_example :
    ((true ≡ false)
      × (data_len three_bytes ≡ 0)
      × (write_stream_frame three_bytes ≡ ([], some Error.empty_frame_without_fin)))
    ⊎ (((write_stream_frame three_bytes).1 ≡ none)
        × (length (write_stream_frame three_bytes).0 ≡ stream_frame_min_length three_bytes + 3))
length-write_stream_frame_example =
    length-write_stream_frame three_bytes (omega arith) (omega arith)

-- The header of a client's packet during the handshake.
abbrev client_header : PublicHeader
client_header = record {
  raw = [];
  connection_id = 77;
  version_flag = true;
  reset_flag = false;
  truncate_connection_id = false;
  packet_number_len = 2;
  packet_number = 65_539;
  version_number = 37;
  supported_versions = [];
  diversification_nonce = [];
}

-- An AEAD that does not encrypt, and takes every packet for forward secure.
abbrev plain : Aead
plain payload packet_number associated = some (payload, 3)

abbrev packet_9 : PacketInfo
packet_9 = record { packet_number = 9; packet_number_len = 1 }

abbrev stop_waiting_4 : StopWaitingFrame
stop_waiting_4 = record { least_unacked = 4; packet_number_len = 1; packet_number = 9 }

abbrev sent_frames : List Frame
sent_frames =
    ack with_gaps
    ∷ window_update (record { stream_id = 5; byte_offset = 99 })
    ∷ stream (record three_bytes { data_len_present = false })
    ∷ []

unpack-written_example :
    unpack plain [] packet_9 (payload_of 3_500_000 (stop_waiting stop_waiting_4 ∷ sent_frames))
    ≡ some (
        ok (record {
          encryption_level = 3;
          frames = map (received 3_500_000) (stop_waiting stop_waiting_4 ∷ sent_frames);
        }))
unpack-written_example =
    unpack-written plain [] (payload_of 3_500_000 (stop_waiting stop_waiting_4 ∷ sent_frames))
      3_500_000 3 packet_9 (stop_waiting stop_waiting_4) sent_frames refl
      (
        (refl, refl, inl refl, omega arith, omega arith, omega arith),
        (
          with_gaps-IsWritable,
          (
            (omega arith, omega arith),
            (
              (
                omega arith,
                omega arith,
                inl refl,
                inr (refl, refl, omega arith),
                inr (omega arith),
              ),
              tt,
            ),
          ),
        ),
      )

-- A CONNECTION_CLOSE that is cut off.
unpack-ends_example :
    (r : Result UnpackError UnpackedPacket) × (unpack plain [] packet_9 (0 ∷ 2 ∷ 1 ∷ []) ≡ some r)
unpack-ends_example = unpack-ends plain [] packet_9 (0 ∷ 2 ∷ 1 ∷ [])
