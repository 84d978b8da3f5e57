-- ===== src/Packets/PublicHeader/RoundTrip.antt =====
-- public_header.go: what one side writes the other side reads, with the packet number shortened.
use plus_quic_go.Base.{◌*◌, ◌%◌, ◌^◌, List}
use plus_quic_go.Packets.PublicHeader.{PublicHeader}

-- A packet number as its low bytes.
abbrev pub shortened : PublicHeader → PublicHeader
shortened h = record h { packet_number = h.packet_number % 2 ^ (h.packet_number_len * 8) }
