-- ===== src/Protocol/PacketNumber.antt =====
-- protocol/packet_number.go: how a packet number is shortened for the wire, and how the receiver
-- infers the full number. A packet number is a uint64.
pub mod Inference
use plus_quic_go.Base.{ℕ, ◌+◌, ◌-◌, ◌*◌, ◌/◌, ◌^◌, ltb, if◌then◌else◌}
use plus_quic_go.Base.Words.{add64, sub64}

-- The lengths of a packet number in bytes.
abbrev pub packet_number_len1 : ℕ
packet_number_len1 = 1

abbrev pub packet_number_len2 : ℕ
packet_number_len2 = 2

abbrev pub packet_number_len4 : ℕ
packet_number_len4 = 4

abbrev pub packet_number_len6 : ℕ
packet_number_len6 = 6

unfoldable pub delta : ℕ → ℕ → ℕ
delta a b = if ltb a b then b - a else a - b

unfoldable pub closest_to : ℕ → ℕ → ℕ → ℕ
unfolding delta
closest_to target a b = if ltb (delta target a) (delta target b) then a else b

-- `lastPacketNumber & ^(epochDelta - 1)` clears the low bits, and so is a multiple of `epochDelta`.
abbrev epoch_of : ℕ → ℕ → ℕ
epoch_of epoch_delta last = last / epoch_delta * epoch_delta

abbrev infer_from : ℕ → ℕ → ℕ → ℕ
infer_from epoch_delta last wire =
    let epoch = epoch_of epoch_delta last in
    closest_to (add64 last 1) (add64 epoch wire) (
      closest_to (add64 last 1) (add64 (sub64 epoch epoch_delta) wire)
        (add64 (add64 epoch epoch_delta) wire))

-- InferPacketNumber. The lengths in use are at most 6, so that the shift stays in range.
unfoldable pub infer_packet_number : ℕ → ℕ → ℕ → ℕ
unfolding closest_to
infer_packet_number len last wire = infer_from (2 ^ (len * 8)) last wire

-- GetPacketNumberLengthForPublicHeader
unfoldable pub get_packet_number_length_for_public_header : ℕ → ℕ → ℕ
get_packet_number_length_for_public_header packet_number least_unacked =
    if ltb (sub64 packet_number least_unacked) (2 * 2 ^ (packet_number_len2 * 8 - 2))
    then packet_number_len2
    else if ltb (sub64 packet_number least_unacked) (2 * 2 ^ (packet_number_len4 * 8 - 2))
    then packet_number_len4
    else packet_number_len6

-- GetPacketNumberLength
unfoldable pub get_packet_number_length : ℕ → ℕ
get_packet_number_length packet_number =
    if ltb packet_number (2 ^ (packet_number_len1 * 8))
    then packet_number_len1
    else if ltb packet_number (2 ^ (packet_number_len2 * 8))
    then packet_number_len2
    else if ltb packet_number (2 ^ (packet_number_len4 * 8))
    then packet_number_len4
    else packet_number_len6
