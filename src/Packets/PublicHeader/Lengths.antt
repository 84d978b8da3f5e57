-- ===== src/Packets/PublicHeader/Lengths.antt =====
-- public_header.go: GetLength is what Write appends.
use plus_quic_go.Base.{
  ℕ, ◌+◌, ◌≡◌, refl, ◌⊎◌, ◌&&◌, Bool, true, false, none, List, [], ◌++◌, if◌then◌else◌, length,
  length-append, ok, arith,
}
use plus_quic_go.Protocol.Version.{version_number_to_tag}
use plus_quic_go.Streams.Map.{Perspective, server, client}
use plus_quic_go.Wire.{write_byte, write_uint16, write_uint32, write_uint48, write_uint64}
use plus_quic_go.Packets.PublicHeader.{
  PublicHeader, is_client, is_packet_number_len, write_packet_number, write_head,
  write_public_header, get_length,
}

length-write_packet_number :
    (len p : ℕ) → is_packet_number_len len ≡ true → length (write_packet_number len p) ≡ len
unfolding write_packet_number write_byte write_uint16 write_uint32 write_uint48
length-write_packet_number len p h = ground arith

length-choice :
    (b : Bool) (xs ys : List ℕ)
    → length (if b then xs else ys) ≡ (if b then length xs else length ys)
length-choice true xs ys = refl
length-choice false xs ys = refl

length-write_head :
    (h : PublicHeader) (pers : Perspective)
    → length (write_head h pers)
      ≡ 1
        + (if h.truncate_connection_id then 0 else 8)
        + (if h.version_flag && is_client pers then 4 else 0)
        + length h.diversification_nonce
unfolding write_uint32 write_uint64
length-write_head h pers =
    let id = if h.truncate_connection_id then [] else write_uint64 h.connection_id in
    let version =
      if h.version_flag && is_client pers
      then write_uint32 (version_number_to_tag h.version_number)
      else [] in
    omega (
      arith,
      length-append id (version ++ h.diversification_nonce),
      length-append version h.diversification_nonce,
      length-choice h.truncate_connection_id [] (write_uint64 h.connection_id),
      length-choice (h.version_flag && is_client pers)
          (write_uint32 (version_number_to_tag h.version_number)) [],
    )

-- Where GetLength gives a length, for a header without a nonce or with one of 32 bytes, Write
-- succeeds and appends as many bytes.
length-write_public_header :
    (h : PublicHeader) (pers : Perspective) (n : ℕ)
    → (length h.diversification_nonce ≡ 0) ⊎ (length h.diversification_nonce ≡ 32)
    → get_length h pers ≡ ok n
    → ((write_public_header h pers).1 ≡ none) × (length (write_public_header h pers).0 ≡ n)
unfolding write_public_header get_length
length-write_public_header h server n d e = ground (
  arith,
  length-write_head h server,
  length-write_packet_number h.packet_number_len h.packet_number,
  length-append (write_head h server) (write_packet_number h.packet_number_len h.packet_number),
)
length-write_public_header h client n d e = ground (
  arith,
  length-write_head h client,
  length-write_packet_number h.packet_number_len h.packet_number,
  length-append (write_head h client) (write_packet_number h.packet_number_len h.packet_number),
)
