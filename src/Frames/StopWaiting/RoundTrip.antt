-- ===== src/Frames/StopWaiting/RoundTrip.antt =====
-- frames/stop_waiting_frame.go: the receiver computes the LeastUnacked that the sender meant.
use plus_quic_go.Base.{
  ℕ, suc, ◌+◌, ◌-◌, ◌*◌, ◌%◌, ◌^◌, ◌<◌, ◌≤◌, ◌≡◌, refl, inl, inr, List, ◌∷◌, ◌++◌, false, none, ltb,
  ◌==◌, length, ok, arith,
}
use plus_quic_go.Protocol.PacketNumber.Inference.{IsLength}
use plus_quic_go.Wire.{read_byte, read_uint_n, write_byte, write_uint16, write_uint32, write_uint48}
use plus_quic_go.Wire.RoundTrip.{
  read_uint_n-byte, read_uint_n-converted16, read_uint_n-converted32, read_uint_n-uint48,
}
use plus_quic_go.Frames.StopWaiting.{
  StopWaitingFrame, write_stop_waiting_frame, stop_waiting_frame_min_length,
  parse_stop_waiting_frame,
}

abbrev ReadBack : StopWaitingFrame → List ℕ → Type 0
ReadBack f bytes =
    (write_stop_waiting_frame f ≡ (6 ∷ bytes, none))
    × (suc (length bytes) ≡ 1 + f.packet_number_len)
    × ((rest : List ℕ)
        → read_uint_n f.packet_number_len (bytes ++ rest)
          ≡ ok (f.packet_number - f.least_unacked, rest))

pub write_stop_waiting_frame-starts :
    (f : StopWaitingFrame)
    → IsLength f.packet_number_len
    → 0 < f.packet_number
    → f.least_unacked ≤ f.packet_number
    → f.packet_number - f.least_unacked < 2 ^ (f.packet_number_len * 8)
    → (bytes : List ℕ) × ReadBack f bytes
unfolding write_stop_waiting_frame write_byte write_uint16 write_uint32 write_uint48
write_stop_waiting_frame-starts f len pos le small =
    let d = f.packet_number - f.least_unacked in
    let z : (f.packet_number == 0) ≡ false = ground arith in
    let l : ltb f.packet_number f.least_unacked ≡ false = ground arith in
    elim len [
      | inl e ↦ (
        write_byte d,
        (rw (z, l, e) refl, rw e refl, λ rest. rw e (read_uint_n-byte d rest (rw e at small))),
      )
      | inr (inl e) ↦ (
        write_uint16 (d % 2 ^ 16),
        (
          rw (z, l, e) refl,
          rw e refl,
          λ rest. rw e (read_uint_n-converted16 d rest (rw e at small)),
        ),
      )
      | inr (inr (inl e)) ↦ (
        write_uint32 (d % 2 ^ 32),
        (
          rw (z, l, e) refl,
          rw e refl,
          λ rest. rw e (read_uint_n-converted32 d rest (rw e at small)),
        ),
      )
      | inr (inr (inr e)) ↦ (
        write_uint48 d,
        (rw (z, l, e) refl, rw e refl, λ rest. rw e (read_uint_n-uint48 d rest (rw e at small))),
      )
    ]

-- A StopWaiting frame of a packet is written without an error, takes MinLength, and the parser of
-- that packet gives its LeastUnacked: the length is 1, 2, 4 or 6, the packet number is not 0,
-- LeastUnacked is not above it and less than the range of the length below it.
pub parse_stop_waiting_frame-write :
    (f : StopWaitingFrame) (rest : List ℕ)
    → IsLength f.packet_number_len
    → 0 < f.packet_number
    → f.least_unacked ≤ f.packet_number
    → f.packet_number - f.least_unacked < 2 ^ (f.packet_number_len * 8)
    → let (bytes, e) = write_stop_waiting_frame f in
      (e ≡ none)
      × (stop_waiting_frame_min_length f ≡ ok (length bytes))
      × (parse_stop_waiting_frame f.packet_number f.packet_number_len (bytes ++ rest)
          ≡ ok (
            record { least_unacked = f.least_unacked; packet_number_len = 0; packet_number = 0 },
            rest,
          ))
unfolding stop_waiting_frame_min_length parse_stop_waiting_frame read_byte
parse_stop_waiting_frame-write f rest len pos le small =
    let (bytes, (w, l, r)) = write_stop_waiting_frame-starts f len pos le small in
    let z : (f.packet_number_len == 0) ≡ false = positive f.packet_number_len len in
    let g : ltb f.packet_number (f.packet_number - f.least_unacked) ≡ false = ground arith in
    let m : f.packet_number - (f.packet_number - f.least_unacked) ≡ f.least_unacked = omega arith in
    rw w (refl, rw (z, l) refl, rw (r rest, g, m) refl)
  where
    positive : (n : ℕ) → IsLength n → (n == 0) ≡ false
    positive n h = ground arith
