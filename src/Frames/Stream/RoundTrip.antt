-- ===== src/Frames/Stream/RoundTrip.antt =====
-- What the writer of STREAM frames writes is read back, and takes MinLength and the data.
use plus_quic_go.Base.{
  ℕ, suc, ◌+◌, ◌%◌, ◌^◌, ◌<◌, ◌≤◌, ◌≡◌, refl, ap, ◌⊎◌, inl, inr, List, [], ◌∷◌, ◌++◌, Bool, true,
  false, not, ◌&&◌, none, some, ok, arith, length, length-append, ltb, ◌==◌, if◌then◌else◌,
  take-append_length, drop-append_length,
}
use plus_quic_go.Base.Words.{add64}
use mathlib.Core.List.{append_assoc}
use plus_quic_go.Wire.{Error, read_byte, read_uint_n, read_uint16, write_uint16}
use plus_quic_go.Wire.RoundTrip.{read_uint16-write_uint16}
use plus_quic_go.Frames.Stream.{
  StreamFrame, data_len, read_data, parse_stream_frame, calculate_stream_id_length,
  get_offset_length, write_stream_id, write_offset, stream_type_byte, write_stream_frame,
  stream_frame_min_length,
}
use plus_quic_go.Frames.Stream.Fields.{
  write_stream_id-Encodes, write_offset-Encodes, offset_length_bounds, stream_id_length_bounds,
  stream_type_byte-TypeFields,
}

-- The length of the data as it stands in the frame.
abbrev length_field : StreamFrame → List ℕ
length_field f = if f.data_len_present then write_uint16 (length f.payload % 2 ^ 16) else []

write_stream_frame-bytes :
    (f : StreamFrame) (sid off : List ℕ)
    → (f.fin_bit ≡ true) ⊎ (0 < length f.payload)
    → write_stream_id (calculate_stream_id_length f.stream_id) f.stream_id ≡ ok sid
    → write_offset (get_offset_length f.offset) f.offset ≡ ok off
    → write_stream_frame f
      ≡ (stream_type_byte f ∷ (sid ++ (off ++ (length_field f ++ f.payload))), none)
unfolding write_stream_frame
write_stream_frame-bytes f sid off s a b =
    let e : (length f.payload == 0 && not f.fin_bit) ≡ false = ground arith in rw (e, a, b)

-- A frame and the bytes behind it, where its end can be told.
abbrev pub IsDelimited : StreamFrame → List ℕ → Type 0
IsDelimited f rest =
    ((f.data_len_present ≡ true) × (length f.payload ≤ 1350))
    ⊎ ((f.data_len_present ≡ false) × (rest ≡ []) × (length f.payload < 2 ^ 16))

read_data-append : (d rest : List ℕ) → read_data (length d) (d ++ rest) ≡ ok (d, rest)
unfolding read_data
read_data-append [] rest = refl
read_data-append (x ∷ d) rest =
    let e : ltb (length (x ∷ (d ++ rest))) (suc (length d)) ≡ false =
      ground (arith, length-append d rest) in
    let z : (suc (length d) == 0) ≡ false = ground arith in
    rw (z, e, take-append_length d rest, drop-append_length d rest)

-- The length field, the data and the bytes behind are read as the data and the bytes behind.
module _ (f : StreamFrame) (rest : List ℕ) (d : IsDelimited f rest) where
  read_length :
      let more = if f.data_len_present then f.payload ++ rest else f.payload in
      (len : ℕ) × ((if f.data_len_present
          then read_uint16 (length_field f ++ (f.payload ++ rest))
          else ok (0, length_field f ++ (f.payload ++ rest)))
        ≡ ok (len, f.payload ++ rest))
      × (ltb (1350 % 2 ^ 16) len ≡ false)
      × (read_data
            (if f.data_len_present then len else length (f.payload ++ rest) % 2 ^ 16)
            (f.payload ++ rest)
          ≡ ok (f.payload, rest))
  read_length = elim d [
    | inl (p, l) ↦
        let e : length f.payload % 2 ^ 16 ≡ length f.payload = omega arith in
        (
          length f.payload,
          rw (p, e, read_uint16-write_uint16 (length f.payload) (f.payload ++ rest) (omega arith)),
          ground arith,
          rw (p, read_data-append f.payload rest),
        )
    | inr (p, z, l) ↦
        let e : length (f.payload ++ rest) % 2 ^ 16 ≡ length f.payload =
          omega (arith, length-append f.payload rest, ap length z) in
        (0, rw p, refl, rw (p, e) (read_data-append f.payload rest))
  ]

  parse-bytes :
      (sid off : List ℕ)
      → f.offset + length f.payload < 2 ^ 64
      → (f.fin_bit ≡ true) ⊎ (0 < length f.payload)
      → ((more : List ℕ)
          → read_uint_n (calculate_stream_id_length f.stream_id) (sid ++ more)
            ≡ ok (f.stream_id, more))
      → ((more : List ℕ)
          → read_uint_n (get_offset_length f.offset) (off ++ more) ≡ ok (f.offset, more))
      → parse_stream_frame
          (stream_type_byte f ∷ (sid ++ (off ++ (length_field f ++ (f.payload ++ rest)))))
        ≡ ok (f, rest)
  unfolding parse_stream_frame read_byte
  parse-bytes sid off small s a b =
      let (e1, e2, e3, e4) = stream_type_byte-TypeFields f in
      let (len, e5, e6, e7) = read_length in
      let e8 : ltb (add64 f.offset (length f.payload)) f.offset ≡ false = ground arith in
      let e9 : (not f.fin_bit && length f.payload == 0) ≡ false = ground arith in
      rw (e1, e2, e3, e4, a, b, e5, e6, e7, e8, e9)

append4 : (a b c d rest : List ℕ) → (a ++ (b ++ (c ++ d))) ++ rest ≡ a ++ (b ++ (c ++ (d ++ rest)))
append4 a b c d rest = simp append_assoc

length-field : (f : StreamFrame) → length (length_field f) ≡ (if f.data_len_present then 2 else 0)
unfolding write_uint16
length-field f = helper f.data_len_present
  where
    helper :
        (b : Bool)
        → length (if b then write_uint16 (length f.payload % 2 ^ 16) else []) ≡ (if b then 2 else 0)
    helper true = refl
    helper false = refl

-- What Write appends starts with a byte that marks a STREAM frame.
pub write_stream_frame-starts :
    (f : StreamFrame)
    → f.stream_id < 2 ^ 32
    → f.offset < 2 ^ 64
    → (f.fin_bit ≡ true) ⊎ (0 < length f.payload)
    → (t : ℕ) × (others : List ℕ) × (write_stream_frame f ≡ (t ∷ others, none))
      × (128 ≤ t)
      × (t < 256)
write_stream_frame-starts f small bounded s =
    let (sid, e1, l1, r1) = write_stream_id-Encodes f.stream_id small in
    let (off, e2, l2, r2) = write_offset-Encodes f.offset bounded in
    let (o, o8) = offset_length_bounds f.offset in
    let (i1, i4) = stream_id_length_bounds f.stream_id in
    (stream_type_byte f, _, write_stream_frame-bytes f sid off s e1 e2, ground arith, ground arith)

-- A STREAM frame that Write accepts is read back by ParseStreamFrame, and nothing behind it is
-- touched: its stream id is below 2^32, its data ends below the offset 2^64, and its end can be told,
-- either by a length field, for at most 1350 bytes of data, or by the end of the packet, for fewer than
-- 2^16 bytes of data with nothing behind them.
pub parse_stream_frame-write :
    (f : StreamFrame) (rest : List ℕ)
    → f.stream_id < 2 ^ 32
    → f.offset + length f.payload < 2 ^ 64
    → (f.fin_bit ≡ true) ⊎ (0 < length f.payload)
    → IsDelimited f rest
    → ((write_stream_frame f).1 ≡ none)
      × (parse_stream_frame ((write_stream_frame f).0 ++ rest) ≡ ok (f, rest))
parse_stream_frame-write f rest small bounded s d =
    let (sid, e1, l1, r1) = write_stream_id-Encodes f.stream_id small in
    let (off, e2, l2, r2) = write_offset-Encodes f.offset (omega arith) in
    let w = write_stream_frame-bytes f sid off s e1 e2 in
    rw w (
      refl,
      rw (append4 sid off (length_field f) f.payload rest)
          (parse-bytes f rest d sid off bounded s r1 r2),
    )

-- What Write of a STREAM frame appends is MinLength and the data long, where Write returns no error;
-- it returns one exactly for a frame without data and without FIN. Ids are below 2^32 and offsets
-- below 2^64.
pub length-write_stream_frame :
    (f : StreamFrame)
    → f.stream_id < 2 ^ 32
    → f.offset < 2 ^ 64
    → ((f.fin_bit ≡ false)
        × (length f.payload ≡ 0)
        × (write_stream_frame f ≡ ([], some Error.empty_frame_without_fin)))
      ⊎ (((write_stream_frame f).1 ≡ none)
          × (length ((write_stream_frame f).0) ≡ stream_frame_min_length f + data_len f))
unfolding stream_frame_min_length write_stream_frame write_uint16
length-write_stream_frame f small bounded = elim (empty_or_not f) [
  | inl (b, l) ↦ inl (b, l, empty f b l)
  | inr s ↦
      let (sid, e1, l1, r1) = write_stream_id-Encodes f.stream_id small in
      let (off, e2, l2, r2) = write_offset-Encodes f.offset bounded in
      let w = write_stream_frame-bytes f sid off s e1 e2 in
      inr (
        rw w (
          refl,
          omega (
            arith,
            l1,
            l2,
            length-field f,
            length-append sid (off ++ (length_field f ++ f.payload)),
            length-append off (length_field f ++ f.payload),
            length-append (length_field f) f.payload,
          ),
        ))
]
  where
    empty_or_not :
        (f : StreamFrame)
        → ((f.fin_bit ≡ false) × (length f.payload ≡ 0))
          ⊎ ((f.fin_bit ≡ true) ⊎ (0 < length f.payload))
    empty_or_not f = ground arith

    empty :
        (f : StreamFrame)
        → f.fin_bit ≡ false
        → length f.payload ≡ 0
        → write_stream_frame f ≡ ([], some Error.empty_frame_without_fin)
    empty f b l = rw (b, l)
