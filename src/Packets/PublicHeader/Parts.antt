-- ===== src/Packets/PublicHeader/Parts.antt =====
-- public_header.go: the parts of the header, and how each of them is read.
use plus_quic_go.Base.{
  ℕ, ◌+◌, ◌-◌, ◌*◌, ◌/◌, ◌%◌, ◌^◌, ◌<◌, ◌≡◌, refl, sym, ap, ◌⊎◌, inl, inr, ◌&&◌, Bool, true, false,
  not, none, List, [], ◌∷◌, ◌++◌, ltb, ◌==◌, if◌then◌else◌, length, length-append, take, drop,
  take-append_length, drop-append_length, ok, arith,
}
use mathlib.Core.List.{append-nil}
use plus_quic_go.Protocol.PacketNumber.Inference.{IsLength}
use plus_quic_go.Protocol.Version.{version_number_to_tag, version_tag_to_number-tag}
use plus_quic_go.Streams.Map.{Perspective, server, client}
use plus_quic_go.Wire.{
  read_uint_n, read_bytes_from, write_byte, write_uint32, write_uint48, write_uint64,
}
use plus_quic_go.Wire.RoundTrip.{
  read_uint_n-uint16, read_uint_n-uint32, read_uint32-write_uint32, read_uint64-write_uint64,
}
use plus_quic_go.Packets.PublicHeader.{
  PublicHeader, is_server, is_client, has_packet_number, is_packet_number_len, len_bits,
  public_flag_byte, write_packet_number, write_head, write_public_header, parse_len,
  parse_connection_id, read_nonce, zeros, parse_versions,
}

-- The headers of regular packets, other than version negotiation: what the peer relies on.
pub record IsRegular (h : PublicHeader) (pers : Perspective) : Type 0 where
  pub no_negotiation : (h.version_flag ≡ false) ⊎ ((h.reset_flag ≡ false) × (is_client pers ≡ true))
  pub identified :
      ((h.truncate_connection_id ≡ true) × (is_server pers ≡ true) × (h.connection_id ≡ 0))
      ⊎ ((h.truncate_connection_id ≡ false) × (0 < h.connection_id) × (h.connection_id < 2 ^ 64))
  pub nonce :
      (h.diversification_nonce ≡ [])
      ⊎ ((length h.diversification_nonce ≡ 32)
          × (is_server pers ≡ true)
          × (h.version_flag ≡ false)
          × (h.reset_flag ≡ false))
  pub version :
      ((h.version_flag ≡ true) × (h.version_number < 1000))
      ⊎ ((h.version_flag ≡ false) × (h.version_number ≡ 0))
  pub numbered :
      ((h.reset_flag ≡ false) × IsLength h.packet_number_len)
      ⊎ ((h.reset_flag ≡ true) × (h.packet_number_len ≡ 0) × (h.packet_number ≡ 0))
  pub not_received : (h.raw ≡ []) × (h.supported_versions ≡ [])

-- The packet number is read as its low bytes.
read-write_packet_number :
    (len p : ℕ) (rest : List ℕ)
    → IsLength len
    → read_uint_n len (write_packet_number len p ++ rest) ≡ ok (p % 2 ^ (len * 8), rest)
unfolding write_packet_number write_byte write_uint48 read_uint_n read_bytes_from
read-write_packet_number len p rest h = elim h [
  | inl e ↦ rw e (ap (λ x. ok (x, rest)) (omega arith))
  | inr (inl e) ↦ rw e (read_uint_n-uint16 (p % 2 ^ 16) rest (omega arith))
  | inr (inr (inl e)) ↦ rw e (read_uint_n-uint32 (p % 2 ^ 32) rest (omega arith))
  | inr (inr (inr e)) ↦ rw e (ap (λ x. ok (x, rest)) (omega arith))
]

-- The fields of the first byte.
abbrev FlagFields : (t : ℕ) (version reset nonce truncated numbered : Bool) (len : ℕ) → Type 0
FlagFields t version reset nonce truncated numbered len =
    ((t % 2 == 1) ≡ version)
    × ((t / 2 % 2 == 1) ≡ reset)
    × ((t / 4 % 2 == 1) ≡ nonce)
    × ((t / 8 % 2 == 0) ≡ truncated)
    × ((if numbered then parse_len t else 0) ≡ (if numbered then len else 0))

flag_fields :
    (version reset nonce truncated numbered : Bool) (len : ℕ)
    → IsLength len ⊎ (numbered ≡ false)
    → FlagFields
        ((if version then 1 else 0)
          + (if reset then 2 else 0)
          + (if nonce then 4 else 0)
          + (if truncated then 0 else 8)
          + (if numbered then len_bits len else 0))
        version
        reset
        nonce
        truncated
        numbered
        len
flag_fields version reset nonce truncated numbered len h = ground arith

pub sides :
    (pers : Perspective)
    → ((is_server pers ≡ true) × (is_client pers ≡ false))
      ⊎ ((is_server pers ≡ false) × (is_client pers ≡ true))
sides server = inl (refl, refl)
sides client = inr (refl, refl)

abbrev numbered_of : PublicHeader → Perspective → Bool
numbered_of h pers = has_packet_number h.reset_flag h.version_flag pers

-- The parts of the header, as they stand in the packet.
abbrev pub id_part : PublicHeader → List ℕ
id_part h = if h.truncate_connection_id then [] else write_uint64 h.connection_id

abbrev pub version_part : PublicHeader → Perspective → List ℕ
version_part h pers =
    if h.version_flag && is_client pers
    then write_uint32 (version_number_to_tag h.version_number)
    else []

abbrev pub number_part : PublicHeader → Perspective → List ℕ
number_part h pers =
    if numbered_of h pers then write_packet_number h.packet_number_len h.packet_number else []

tag-lt : (v : ℕ) → version_number_to_tag v < 2 ^ 32
unfolding version_number_to_tag
tag-lt v = omega arith

filled :
    (n : ℕ) (d rest : List ℕ)
    → length d ≡ n
    → (take n (d ++ rest) ++ zeros (n - length (d ++ rest)) ≡ d) × (drop n (d ++ rest) ≡ rest)
filled n d rest l =
    let z : n - length (d ++ rest) ≡ 0 = omega (arith, length-append d rest) in
    rw (z, sym l, take-append_length d rest, drop-append_length d rest, append-nil) (refl, refl)

read_nonce-append : (n rest : List ℕ) → length n ≡ 32 → read_nonce (n ++ rest) ≡ ok (n, rest)
unfolding read_nonce
read_nonce-append [] rest l = absurd (omega arith)
read_nonce-append (b ∷ bs) rest l = let (t, d) = filled 32 (b ∷ bs) rest l in λ i. ok (t i, d i)

no_nonce : (a c : Bool) → (a && false && c) ≡ false
no_nonce true c = refl
no_nonce false c = refl

no_version : (a : Bool) → (a && false) ≡ false
no_version true = refl
no_version false = refl

parse_versions-client :
    (pers : Perspective) (n : ℕ) (rest : List ℕ)
    → is_client pers ≡ true
    → n < 1000
    → parse_versions true pers (write_uint32 (version_number_to_tag n) ++ rest) ≡ ok ((n, []), rest)
unfolding parse_versions
parse_versions-client server n rest c small = absurd (ground arith)
parse_versions-client client n rest c small =
    rw
      (
        read_uint32-write_uint32 (version_number_to_tag n) rest (tag-lt n),
        version_tag_to_number-tag n small,
      )
      refl

module _ (h : PublicHeader) (pers : Perspective) (v : IsRegular h pers) (rest : List ℕ) where
  -- Either a packet number follows, with its length, or there is none.
  numbered_cases :
      ((numbered_of h pers ≡ true) × IsLength h.packet_number_len)
      ⊎ ((numbered_of h pers ≡ false) × (h.packet_number_len ≡ 0) × (h.packet_number ≡ 0))
  numbered_cases = ground (arith, v.numbered, v.no_negotiation, sides pers)

  pub parse_id_part :
      parse_connection_id h.truncate_connection_id (id_part h ++ rest) ≡ ok (h.connection_id, rest)
  unfolding parse_connection_id
  parse_id_part = elim v.identified [
    | inl (t, s, z) ↦ rw (t, z) refl
    | inr (t, pos, small) ↦
        let e : (h.connection_id == 0) ≡ false = ground arith in
        rw (t, read_uint64-write_uint64 h.connection_id rest small, e) refl
  ]

  pub parse_nonce_part :
      let version = version_part h pers in
      (if is_server pers
          && ltb 0 (length h.diversification_nonce)
          && (not h.version_flag && not h.reset_flag)
        then read_nonce (version ++ (h.diversification_nonce ++ rest))
        else ok ([], version ++ (h.diversification_nonce ++ rest)))
      ≡ ok (h.diversification_nonce, version ++ rest)
  parse_nonce_part = elim v.nonce [
    | inl e ↦ rw (e, no_nonce (is_server pers) (not h.version_flag && not h.reset_flag)) refl
    | inr (l, s, f, r) ↦ rw (l, s, f, r) (read_nonce-append h.diversification_nonce rest l)
  ]

  pub parse_version_part :
      parse_versions (not h.reset_flag && h.version_flag) pers (version_part h pers ++ rest)
      ≡ ok ((h.version_number, h.supported_versions), rest)
  unfolding parse_versions
  parse_version_part = elim v.version [
    | inl (f, small) ↦
        let (r, c) = negotiated f in
        rw (f, r, c, v.not_received.1) (parse_versions-client pers h.version_number rest c small)
    | inr (f, z) ↦ rw (f, z, v.not_received.1, no_version (not h.reset_flag)) refl
  ]
    where
      negotiated : h.version_flag ≡ true → (h.reset_flag ≡ false) × (is_client pers ≡ true)
      negotiated f = ground (arith, v.no_negotiation)

  pub parse_number_part :
      (if numbered_of h pers
        then read_uint_n
            (if numbered_of h pers then h.packet_number_len else 0)
            (number_part h pers ++ rest)
        else ok (0, number_part h pers ++ rest))
      ≡ ok (h.packet_number % 2 ^ (h.packet_number_len * 8), rest)
  parse_number_part = elim numbered_cases [
    | inl (n, len) ↦ rw n (read-write_packet_number h.packet_number_len h.packet_number rest len)
    | inr (n, z, p) ↦ rw (n, z, p) refl
  ]

  pub write_public_header-parts :
      write_public_header h pers ≡ (write_head h pers ++ number_part h pers, none)
  unfolding write_public_header
  write_public_header-parts =
      let a : (h.version_flag && h.reset_flag) ≡ false = ground (arith, v.no_negotiation) in
      let b : (ltb 0 (length h.diversification_nonce) && not (length h.diversification_nonce == 32))
          ≡ false =
        nonce_fits h.diversification_nonce (nonce_length h.diversification_nonce v.nonce) in
      elim numbered_cases [
        | inl (n, len) ↦
            let c : is_packet_number_len h.packet_number_len ≡ true = ground arith in
            rw (a, b, n, c) refl
        | inr (n, z, p) ↦ rw (a, b, n, append-nil) refl
      ]
    where
      nonce_fits :
          (d : List ℕ)
          → (length d ≡ 0) ⊎ (length d ≡ 32)
          → (ltb 0 (length d) && not (length d == 32)) ≡ false
      nonce_fits d e = ground arith

      nonce_length :
          (d : List ℕ)
          → (d ≡ [])
            ⊎ ((length d ≡ 32)
                × (is_server pers ≡ true)
                × (h.version_flag ≡ false)
                × (h.reset_flag ≡ false))
          → (length d ≡ 0) ⊎ (length d ≡ 32)
      nonce_length [] e = inl refl
      nonce_length (x ∷ d) e = ground arith

  pub number_len : (if numbered_of h pers then h.packet_number_len else 0) ≡ h.packet_number_len
  number_len = elim numbered_cases [ inl (n, len) ↦ rw n refl | inr (n, z, p) ↦ rw (n, z) refl ]

  pub flags :
      FlagFields
        (public_flag_byte h pers)
        h.version_flag
        h.reset_flag
        (ltb 0 (length h.diversification_nonce))
        h.truncate_connection_id
        (numbered_of h pers)
        h.packet_number_len
  flags =
      flag_fields h.version_flag h.reset_flag (ltb 0 (length h.diversification_nonce))
        h.truncate_connection_id (numbered_of h pers) h.packet_number_len
        (elim numbered_cases [ inl (n, len) ↦ inl len | inr (n, z, p) ↦ inr n ])
