-- ===== src/Tests/PacketNumbers.antt =====
-- Packet numbers on the wire (protocol/packet_number.go).
use plus_quic_go.Base.{◌%◌, ◌^◌, ◌*◌, ◌≡◌, refl, inl, inr, arith}
use plus_quic_go.Protocol.PacketNumber.{infer_packet_number}
use plus_quic_go.Protocol.PacketNumber.Inference.{infer_packet_number-truncate}

infers_next_epoch : infer_packet_number 1 0xff 0x02 ≡ 0x102
unfolding infer_packet_number
infers_next_epoch = refl

infers_previous_epoch : infer_packet_number 1 0x100 0xfe ≡ 0xfe
unfolding infer_packet_number
infers_previous_epoch = refl

infer_packet_number-truncate_example : infer_packet_number 2 70000 (70010 % 2 ^ (2 * 8)) ≡ 70010
infer_packet_number-truncate_example =
    infer_packet_number-truncate 2 70000 70010 (inr (inl refl)) (omega arith) (omega arith)
      (omega arith)
