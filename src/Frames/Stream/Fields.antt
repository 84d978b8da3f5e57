-- ===== src/Frames/Stream/Fields.antt =====
-- frames/stream_frame.go: the fields of the type byte, the stream id and the offset are read back.
use plus_quic_go.Base.{
  ℕ, ◌+◌, ◌-◌, ◌*◌, ◌/◌, ◌%◌, ◌^◌, ◌<◌, ◌≤◌, ◌≡◌, refl, ◌⊎◌, inl, inr, List, [], ◌++◌, Bool, true,
  false, Result, ok, arith, length, ltb, ◌==◌, if◌then◌else◌,
}
use plus_quic_go.Wire.{
  Error, read_uint_n, read_bytes_from, write_byte, write_uint16, write_uint24, write_uint32,
  write_uint40, write_uint48, write_uint56, write_uint64,
}
use plus_quic_go.Wire.RoundTrip.{
  read_uint_n-byte, read_uint_n-uint24, read_uint_n-uint32, read_uint_n-uint40,
  read_uint_n-converted16, read_uint_n-converted24, read_uint_n-converted32, read_uint_n-uint48,
  read_uint_n-uint56, read_uint_n-uint64,
}
use plus_quic_go.Frames.Stream.{
  StreamFrame, offset_len_of, calculate_stream_id_length, get_offset_length, write_stream_id,
  write_offset, stream_type_byte,
}

-- The bytes `w` are a number of `len` bytes that reads as `i`.
abbrev Encodes : ℕ → ℕ → Result Error (List ℕ) → Type 0
Encodes len i w =
    (bytes : List ℕ) × (w ≡ ok bytes)
    × (length bytes ≡ len)
    × ((rest : List ℕ) → read_uint_n len (bytes ++ rest) ≡ ok (i, rest))

stream_id_cases :
    (id : ℕ)
    → id < 2 ^ 32
    → ((calculate_stream_id_length id ≡ 1) × (id < 2 ^ 8))
      ⊎ ((calculate_stream_id_length id ≡ 2) × (id < 2 ^ 16))
      ⊎ ((calculate_stream_id_length id ≡ 3) × (id < 2 ^ 24))
      ⊎ (calculate_stream_id_length id ≡ 4)
unfolding calculate_stream_id_length
stream_id_cases id h = ground arith

pub write_stream_id-Encodes :
    (id : ℕ)
    → id < 2 ^ 32
    → Encodes
        (calculate_stream_id_length id)
        id
        (write_stream_id (calculate_stream_id_length id) id)
unfolding write_stream_id write_uint16 write_byte write_uint24 write_uint32
write_stream_id-Encodes id h = elim (stream_id_cases id h) [
  | inl (e, l) ↦ rw e (write_byte id, refl, refl, λ rest. read_uint_n-byte id rest l)
  | inr (inl (e, l)) ↦
      rw e (write_uint16 (id % 2 ^ 16), refl, refl, λ rest. read_uint_n-converted16 id rest l)
  | inr (inr (inl (e, l))) ↦
      rw e (write_uint24 id, refl, refl, λ rest. read_uint_n-uint24 id rest l)
  | inr (inr (inr e)) ↦ rw e (write_uint32 id, refl, refl, λ rest. read_uint_n-uint32 id rest h)
]

-- The lengths that an offset has on the wire.
abbrev OffsetCases : ℕ → Type 0
OffsetCases off =
    ((get_offset_length off ≡ 0) × (off ≡ 0))
    ⊎ ((get_offset_length off ≡ 2) × (off < 2 ^ 16))
    ⊎ ((get_offset_length off ≡ 3) × (off < 2 ^ 24))
    ⊎ ((get_offset_length off ≡ 4) × (off < 2 ^ 32))
    ⊎ ((get_offset_length off ≡ 5) × (off < 2 ^ 40))
    ⊎ ((get_offset_length off ≡ 6) × (off < 2 ^ 48))
    ⊎ ((get_offset_length off ≡ 7) × (off < 2 ^ 56))
    ⊎ (get_offset_length off ≡ 8)

offset_cases : (off : ℕ) → OffsetCases off
unfolding get_offset_length
offset_cases off = ground arith

pub write_offset-Encodes :
    (off : ℕ)
    → off < 2 ^ 64
    → Encodes (get_offset_length off) off (write_offset (get_offset_length off) off)
unfolding write_offset write_uint16 write_uint24 write_uint32 write_uint40 write_uint48 write_uint56
    write_uint64 read_uint_n read_bytes_from
write_offset-Encodes off h = elim (offset_cases off) [
  | inl (e, z) ↦ rw (e, z) ([], refl, refl, λ rest. refl)
  | inr (inl (e, l)) ↦
      rw e (write_uint16 (off % 2 ^ 16), refl, refl, λ rest. read_uint_n-converted16 off rest l)
  | inr (inr (inl (e, l))) ↦
      rw e (write_uint24 (off % 2 ^ 32), refl, refl, λ rest. read_uint_n-converted24 off rest l)
  | inr (inr (inr (inl (e, l)))) ↦
      rw e (write_uint32 (off % 2 ^ 32), refl, refl, λ rest. read_uint_n-converted32 off rest l)
  | inr (inr (inr (inr (inl (e, l))))) ↦
      rw e (write_uint40 off, refl, refl, λ rest. read_uint_n-uint40 off rest l)
  | inr (inr (inr (inr (inr (inl (e, l)))))) ↦
      rw e (write_uint48 off, refl, refl, λ rest. read_uint_n-uint48 off rest l)
  | inr (inr (inr (inr (inr (inr (inl (e, l))))))) ↦
      rw e (write_uint56 off, refl, refl, λ rest. read_uint_n-uint56 off rest l)
  | inr (inr (inr (inr (inr (inr (inr e)))))) ↦
      rw e (write_uint64 off, refl, refl, λ rest. read_uint_n-uint64 off rest h)
]

-- The fields of the type byte, for any lengths of offset and stream id.
abbrev TypeFields : (t : ℕ) (fin present : Bool) (offset_len id_len : ℕ) → Type 0
TypeFields t fin present offset_len id_len =
    ((t / 64 % 2 == 1) ≡ fin)
    × ((t / 32 % 2 == 1) ≡ present)
    × (t % 4 + 1 ≡ id_len)
    × (offset_len_of t ≡ offset_len)

type_fields :
    (fin present : Bool) (offset_len id_len : ℕ)
    → (offset_len ≡ 0) ⊎ (2 ≤ offset_len)
    → offset_len ≤ 8
    → 1 ≤ id_len
    → id_len ≤ 4
    → TypeFields
        (128
          + (if fin then 64 else 0)
          + (if present then 32 else 0)
          + (if ltb 0 offset_len then (offset_len - 1) * 4 else 0)
          + (id_len - 1))
        fin
        present
        offset_len
        id_len
type_fields true true o i c h k l = (ground arith, ground arith, ground arith, ground arith)
type_fields true false o i c h k l = (ground arith, ground arith, ground arith, ground arith)
type_fields false true o i c h k l = (ground arith, ground arith, ground arith, ground arith)
type_fields false false o i c h k l = (ground arith, ground arith, ground arith, ground arith)

pub offset_length_bounds :
    (off : ℕ)
    → ((get_offset_length off ≡ 0) ⊎ (2 ≤ get_offset_length off)) × (get_offset_length off ≤ 8)
unfolding get_offset_length
offset_length_bounds off = ground arith

pub stream_id_length_bounds :
    (id : ℕ) → (1 ≤ calculate_stream_id_length id) × (calculate_stream_id_length id ≤ 4)
unfolding calculate_stream_id_length
stream_id_length_bounds id = ground arith

pub stream_type_byte-TypeFields :
    (f : StreamFrame)
    → TypeFields
        (stream_type_byte f)
        f.fin_bit
        f.data_len_present
        (get_offset_length f.offset)
        (calculate_stream_id_length f.stream_id)
stream_type_byte-TypeFields f =
    let (o, o8) = offset_length_bounds f.offset in
    let (i1, i4) = stream_id_length_bounds f.stream_id in
    type_fields f.fin_bit f.data_len_present _ _ o o8 i1 i4
