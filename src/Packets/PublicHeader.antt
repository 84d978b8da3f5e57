-- ===== src/Packets/PublicHeader.antt =====
-- public_header.go: the header in front of every packet. Its packet number is shortened to 1, 2, 4 or 6
-- bytes.
pub mod Lengths
pub mod Parts
pub mod RoundTrip
use plus_quic_go.Base.{
  ℕ, zero, suc, ◌+◌, ◌-◌, ◌*◌, ◌/◌, ◌%◌, ◌^◌, ◌&&◌, ◌||◌, Bool, true, false, not, Option, none,
  some, List, [], ◌∷◌, ◌++◌, ltb, ◌==◌, if◌then◌else◌, length, take, drop, Result, ok, err, ◌>>=◌,
  ◌>>◌, fail_if,
}
use plus_quic_go.Protocol.PacketNumber.{
  packet_number_len1, packet_number_len2, packet_number_len4, packet_number_len6,
}
use plus_quic_go.Protocol.Version.{version_number_to_tag, version_tag_to_number}
use plus_quic_go.Streams.Map.{Perspective, server, client}
use plus_quic_go.Wire.{
  Error, Parsed, read_byte, read_uint_n, read_uint32, read_uint64, write_byte, write_uint16,
  write_uint32, write_uint48, write_uint64,
}

pub record PublicHeader : Type 0 where
  pub raw : List ℕ
  pub connection_id : ℕ
  pub version_flag : Bool
  pub reset_flag : Bool
  pub truncate_connection_id : Bool
  pub packet_number_len : ℕ
  pub packet_number : ℕ
  pub version_number : ℕ
  pub supported_versions : List ℕ
  pub diversification_nonce : List ℕ

abbrev pub is_server : Perspective → Bool
is_server server = true
is_server client = false

abbrev pub is_client : Perspective → Bool
is_client server = false
is_client client = true

-- hasPacketNumber, of the two flags
abbrev pub has_packet_number : Bool → Bool → Perspective → Bool
has_packet_number reset version packet_sent_by =
    if reset then false else (if version && is_server packet_sent_by then false else true)

abbrev pub is_packet_number_len : ℕ → Bool
is_packet_number_len len =
    len == packet_number_len1
    || len == packet_number_len2
    || len == packet_number_len4
    || len == packet_number_len6

-- The bits of the length of the packet number, where one is written.
abbrev pub len_bits : ℕ → ℕ
len_bits len =
    if len == packet_number_len1
    then 0
    else if len == packet_number_len2
    then 16
    else if len == packet_number_len4
    then 32
    else if len == packet_number_len6
    then 48
    else 0

abbrev pub public_flag_byte : PublicHeader → Perspective → ℕ
public_flag_byte h pers =
    (if h.version_flag then 1 else 0)
    + (if h.reset_flag then 2 else 0)
    + (if ltb 0 (length h.diversification_nonce) then 4 else 0)
    + (if h.truncate_connection_id then 0 else 8)
    + (if has_packet_number h.reset_flag h.version_flag pers
        then len_bits h.packet_number_len
        else 0)

unfoldable pub write_packet_number : ℕ → ℕ → List ℕ
write_packet_number len p =
    if len == packet_number_len1
    then write_byte p
    else if len == packet_number_len2
    then write_uint16 (p % 2 ^ 16)
    else if len == packet_number_len4
    then write_uint32 (p % 2 ^ 32)
    else write_uint48 p

-- The bytes in front of the packet number.
abbrev pub write_head : PublicHeader → Perspective → List ℕ
write_head h pers =
    public_flag_byte h pers
    ∷ ((if h.truncate_connection_id then [] else write_uint64 h.connection_id)
        ++ ((if h.version_flag && is_client pers
              then write_uint32 (version_number_to_tag h.version_number)
              else [])
            ++ h.diversification_nonce))

-- What Write appends, and the error that it returns.
unfoldable pub write_public_header : PublicHeader → Perspective → List ℕ × Option Error
write_public_header h pers =
    if h.version_flag && h.reset_flag
    then ([], some Error.reset_and_version_flag_set)
    else if ltb 0 (length h.diversification_nonce) && not (length h.diversification_nonce == 32)
    then ([], some Error.invalid_nonce_length)
    else if not (has_packet_number h.reset_flag h.version_flag pers)
    then (write_head h pers, none)
    else if not (is_packet_number_len h.packet_number_len)
    then (write_head h pers, some Error.packet_number_len_not_set)
    else (write_head h pers ++ write_packet_number h.packet_number_len h.packet_number, none)

-- `switch publicFlagByte & 0x30`
abbrev pub parse_len : ℕ → ℕ
parse_len flags =
    if flags / 16 % 4 == 3
    then packet_number_len6
    else if flags / 16 % 4 == 2
    then packet_number_len4
    else if flags / 16 % 4 == 1
    then packet_number_len2
    else packet_number_len1

unfoldable pub parse_connection_id : Bool → List ℕ → Parsed ℕ
parse_connection_id truncated bs =
    if truncated
    then ok (0, bs)
    else (read_uint64 bs >>= λ (id, bs).
        fail_if (id == 0) Error.invalid_connection_id >> ok (id, bs))

abbrev pub zeros : ℕ → List ℕ
zeros zero = []
zeros (suc n) = 0 ∷ zeros n

-- One Read into 32 bytes: it fails on an empty reader only, and what it does not fill stays 0.
unfoldable pub read_nonce : List ℕ → Parsed (List ℕ)
read_nonce [] = err Error.eof
read_nonce (b ∷ bs) = ok (take 32 (b ∷ bs) ++ zeros (32 - length (b ∷ bs)), drop 32 (b ∷ bs))

-- The versions of a version negotiation packet: the loop ends at the first error of reading.
unfoldable pub read_versions : List ℕ → List ℕ
read_versions (a ∷ b ∷ c ∷ d ∷ bs) =
    version_tag_to_number (a + b * 2 ^ 8 + c * 2 ^ 16 + d * 2 ^ 24) ∷ read_versions bs
read_versions bs = []

-- The block on versions: the version of a client, or those of a server.
unfoldable pub parse_versions : Bool → Perspective → List ℕ → Parsed (ℕ × List ℕ)
parse_versions false packet_sent_by bs = ok ((0, []), bs)
parse_versions true client bs =
    read_uint32 bs >>= λ (tag, bs). ok ((version_tag_to_number tag, []), bs)
parse_versions true server bs =
    if length bs % 4 == 0
    then ok ((0, read_versions bs), [])
    else err Error.invalid_version_negotiation_packet

unfoldable pub parse_public_header : Perspective → List ℕ → Parsed PublicHeader
parse_public_header packet_sent_by bs = read_byte bs >>= λ (flags, bs).
    let version = flags % 2 == 1 in
    let reset = flags / 2 % 2 == 1 in
    let nonce = flags / 4 % 2 == 1 in
    let truncated = flags / 8 % 2 == 0 in
    let numbered = has_packet_number reset version packet_sent_by in
    let len = if numbered then parse_len flags else 0 in
    fail_if (truncated && is_client packet_sent_by) Error.received_truncated_connection_id
    >> (parse_connection_id truncated bs >>= λ (id, bs).
        (if is_server packet_sent_by && nonce && (not version && not reset)
          then read_nonce bs
          else ok ([], bs))
        >>= λ (n, bs).
            parse_versions (not reset && version) packet_sent_by bs >>= λ ((number, versions), bs).
            (if numbered then read_uint_n len bs else ok (0, bs)) >>= λ (p, bs). ok (
              record {
                raw = [];
                connection_id = id;
                version_flag = version;
                reset_flag = reset;
                truncate_connection_id = truncated;
                packet_number_len = len;
                packet_number = p;
                version_number = number;
                supported_versions = versions;
                diversification_nonce = n;
              },
              bs,
            ))

-- GetLength
unfoldable pub get_length : PublicHeader → Perspective → Result Error ℕ
get_length h pers =
    let numbered = has_packet_number h.reset_flag h.version_flag pers in
    if h.version_flag && h.reset_flag
    then err Error.reset_and_version_flag_set
    else if h.version_flag && is_server pers
    then err Error.get_length_not_for_version_negotiation
    else if numbered && not (is_packet_number_len h.packet_number_len)
    then err Error.packet_number_len_not_set
    else ok (
        1
        + (if numbered then h.packet_number_len else 0)
        + (if h.truncate_connection_id then 0 else 8)
        + (if h.version_flag then 4 else 0)
        + length h.diversification_nonce)
