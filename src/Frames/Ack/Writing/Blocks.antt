-- ===== src/Frames/Ack/Writing/Blocks.antt =====
-- frames/ack_frame.go: the blocks that the writer makes of a range are read back as the range.
use plus_quic_go.Base.{
  ℕ, zero, suc, ◌+◌, ◌-◌, ◌*◌, ◌%◌, ◌^◌, ◌≤◌, ◌<◌, ◌≡◌, refl, sym, ap, ◌∙◌, ◌⊎◌, inl, inr, List,
  ◌∷◌, ◌++◌, Bool, true, false, ltb, ◌==◌, ok, arith,
}
use mathlib.Core.List.{append_assoc}
use plus_quic_go.Base.Words.{add64, sub64}
use plus_quic_go.Protocol.PacketNumber.Inference.{IsLength}
use plus_quic_go.Wire.{read_byte, read_uint_n, write_byte}
use plus_quic_go.Wire.RoundTrip.{
  read_uint_n-byte, read_uint_n-converted16, read_uint_n-converted32, read_uint_n-uint48,
}
use plus_quic_go.Frames.Ack.{AckRange}
use plus_quic_go.Frames.Ack.Parsing.{AckBlocks, add_ack_block, read_ack_blocks}
use plus_quic_go.Frames.Ack.Writing.{
  gap_between, range_length, blocks_of_gap, write_by_length, write_long_gap, write_range,
}

pub read_uint_n-write_by_length :
    (len i : ℕ) (rest : List ℕ)
    → IsLength len
    → i < 2 ^ (len * 8)
    → read_uint_n len (write_by_length len i ++ rest) ≡ ok (i, rest)
unfolding write_by_length
read_uint_n-write_by_length len i rest h small = elim h [
  | inl e ↦ rw e (read_uint_n-byte i rest (rw e at small))
  | inr (inl e) ↦ rw e (read_uint_n-converted16 i rest (rw e at small))
  | inr (inr (inl e)) ↦ rw e (read_uint_n-converted32 i rest (rw e at small))
  | inr (inr (inr e)) ↦ rw e (read_uint_n-uint48 i rest (rw e at small))
]

-- A range below another one, with a packet missing between them.
pub record IsBelow (above r : AckRange) : Type 0 where
  pub ordered : r.first_packet_number ≤ r.last_packet_number
  pub apart : r.last_packet_number + 1 < above.first_packet_number
  pub small : above.first_packet_number < 2 ^ 48

-- The state of the parser at a range.
abbrev pub at_range : AckRange → List AckRange → Bool → Bool → AckBlocks
at_range r earlier long complete = record {
  current = r;
  earlier = earlier;
  in_long_block = long;
  last_range_complete = complete;
}

append3 : (a b c rest : List ℕ) → (a ++ (b ++ c)) ++ rest ≡ a ++ (b ++ (c ++ rest))
append3 a b c rest = simp append_assoc

-- The last block of a gap.
last_block :
    (gap x : ℕ) (r : AckRange) (earlier : List AckRange) (c : Bool)
    → gap + r.last_packet_number ≡ x
    → r.first_packet_number ≤ r.last_packet_number
    → x < 2 ^ 48
    → add_ack_block gap
        (range_length r)
        (at_range (record { first_packet_number = x + 1; last_packet_number = x }) earlier true c)
      ≡ at_range r earlier false true
unfolding add_ack_block
last_block gap x r earlier c e o s =
    let e1 : sub64 (x + 1) (add64 gap (range_length r)) ≡ r.first_packet_number = omega arith in
    let e2 : sub64 x gap ≡ r.last_packet_number = omega arith in
    let e3 : ltb 0 (range_length r) ≡ true = ground arith in
    let e4 : (range_length r == 0) ≡ false = ground arith in rw (e1, e2, e3, e4) refl

-- A block within a gap.
inner_block :
    (x : ℕ) (earlier : List AckRange) (c : Bool)
    → 255 ≤ x
    → x < 2 ^ 48
    → add_ack_block 255 0
        (at_range (record { first_packet_number = x + 1; last_packet_number = x }) earlier true c)
      ≡ at_range
          (record { first_packet_number = x - 255 + 1; last_packet_number = x - 255 })
          earlier
          true
          c
unfolding add_ack_block
inner_block x earlier c l s =
    let e1 : sub64 (x + 1) (add64 255 0) ≡ x - 255 + 1 = omega arith in
    let e2 : sub64 x 255 ≡ x - 255 = omega arith in rw (e1, e2) refl

-- The only block of a gap.
single_block :
    (gap : ℕ) (above r : AckRange) (earlier : List AckRange) (c : Bool)
    → gap + r.last_packet_number + 1 ≡ above.first_packet_number
    → r.first_packet_number ≤ r.last_packet_number
    → above.first_packet_number < 2 ^ 48
    → add_ack_block gap (range_length r) (at_range above earlier false c)
      ≡ at_range r (above ∷ earlier) false true
unfolding add_ack_block
single_block gap above r earlier c e o s =
    let e2 : sub64 (sub64 above.first_packet_number gap) 1 ≡ r.last_packet_number = omega arith in
    let e1 : add64 (sub64 r.last_packet_number (range_length r)) 1 ≡ r.first_packet_number =
      omega arith in
    let e3 : ltb 0 (range_length r) ≡ true = ground arith in
    let e4 : (range_length r == 0) ≡ false = ground arith in rw (e2, e1, e3, e4) refl

-- The first block of a gap of several.
first_block :
    (above : AckRange) (earlier : List AckRange) (c : Bool)
    → 256 ≤ above.first_packet_number
    → above.first_packet_number < 2 ^ 48
    → add_ack_block 255 0 (at_range above earlier false c)
      ≡ at_range
          (record {
            first_packet_number = above.first_packet_number - 256 + 1;
            last_packet_number = above.first_packet_number - 256;
          })
          (above ∷ earlier)
          true
          false
unfolding add_ack_block
first_block above earlier c l s =
    let e2 : sub64 (sub64 above.first_packet_number 255) 1 ≡ above.first_packet_number - 256 =
      omega arith in
    let e1 : add64 (sub64 (above.first_packet_number - 256) 0) 1
        ≡ above.first_packet_number - 256 + 1 =
      omega arith in
    rw (e2, e1) refl

gap_exact :
    (above r : AckRange)
    → IsBelow above r
    → gap_between above r + r.last_packet_number + 1 ≡ above.first_packet_number
gap_exact above r v = omega (arith, v.apart, v.small)

pub gap_bounds :
    (above r : AckRange)
    → IsBelow above r
    → (0 < gap_between above r) × (gap_between above r < 2 ^ 48)
gap_bounds above r v = (omega (arith, v.apart, v.small), omega (arith, v.apart, v.small))

small_or_large : (gap : ℕ) → (gap < 256) ⊎ (256 ≤ gap)
small_or_large gap = ground arith

-- One block, or a number of them, the last of which is not of length 0.
gap_cases :
    (gap : ℕ)
    → (0 < gap) × (gap < 2 ^ 48)
    → ((gap < 256) × (blocks_of_gap gap ≡ 1) × ((blocks_of_gap gap == 1) ≡ true))
      ⊎ ((n : ℕ) × (blocks_of_gap gap ≡ suc (suc n))
          × ((blocks_of_gap gap == 1) ≡ false)
          × (1 + sub64 gap 1 % 255 + 255 * n + 255 ≡ gap))
unfolding blocks_of_gap
gap_cases gap (pos, small) = elim (small_or_large gap) [
  | inl s ↦ inl (s, ground arith, ground arith)
  | inr l ↦ inr (blocks_of_gap gap - 2, ground arith, ground arith, ground arith)
]

module _ (dl : ℕ) (is_length : IsLength dl) where
  -- One block is read off.
  read_block :
      (gap len k : ℕ) (b : AckBlocks) (more : List ℕ)
      → gap < 256
      → len < 2 ^ (dl * 8)
      → read_ack_blocks dl (suc k) b (write_byte gap ++ (write_by_length dl len ++ more))
        ≡ read_ack_blocks dl k (add_ack_block gap len b) more
  unfolding read_ack_blocks read_byte write_byte
  read_block gap len k b more g l =
      let e : gap % 256 ≡ gap = omega arith in
      rw (e, read_uint_n-write_by_length dl len more is_length l)

  zero-lt : 0 < 2 ^ (dl * 8)
  zero-lt = elim is_length [
    | inl e ↦ rw e (omega arith)
    | inr (inl e) ↦ rw e (omega arith)
    | inr (inr (inl e)) ↦ rw e (omega arith)
    | inr (inr (inr e)) ↦ rw e (omega arith)
  ]

  -- A gap of several blocks, from within: the range at hand is empty, with its end at `x`.
  read_long_gap :
      (gap n k x : ℕ) (r : AckRange) (earlier : List AckRange) (c : Bool) (more : List ℕ)
      → 1 + sub64 gap 1 % 255 + 255 * n + r.last_packet_number ≡ x
      → r.first_packet_number ≤ r.last_packet_number
      → x < 2 ^ 48
      → range_length r < 2 ^ (dl * 8)
      → read_ack_blocks dl
          (suc n + k)
          (at_range (record { first_packet_number = x + 1; last_packet_number = x }) earlier true c)
          (write_long_gap dl gap (range_length r) (suc n) ++ more)
        ≡ read_ack_blocks dl k (at_range r earlier false true) more
  unfolding write_long_gap
  read_long_gap gap zero k x r earlier c more e o s l =
      let n1 : 1 + k ≡ suc k = omega arith in
      let g = 1 + sub64 gap 1 % 255 in
      let b =
        at_range (record { first_packet_number = x + 1; last_packet_number = x }) earlier true c in
      rw (n1, append_assoc (write_byte g) (write_by_length dl (range_length r)) more)
        (read_block g (range_length r) k b more (omega arith) l
          ∙ ap (λ t. read_ack_blocks dl k t more) (last_block g x r earlier c (omega arith) o s))
  read_long_gap gap (suc n) k x r earlier c more e o s l =
      let n1 : suc (suc n) + k ≡ suc (suc n + k) = omega arith in
      let b =
        at_range (record { first_packet_number = x + 1; last_packet_number = x }) earlier true c in
      let tail = write_long_gap dl gap (range_length r) (suc n) in
      rw (n1, append3 (write_byte 255) (write_by_length dl 0) tail more)
        (read_block 255 0 (suc n + k) b (tail ++ more) (omega arith) zero-lt
          ∙ (ap (λ t. read_ack_blocks dl (suc n + k) t (tail ++ more))
                (inner_block x earlier c (omega arith) s)
              ∙ read_long_gap gap n k (x - 255) r earlier c more (omega arith) o (omega arith) l))

  long_gap_append :
      (gap n : ℕ) (r : AckRange) (more : List ℕ)
      → let tail = write_long_gap dl gap (range_length r) (suc n) in
        write_byte 255 ++ (write_by_length dl 0 ++ (tail ++ more))
        ≡ write_long_gap dl gap (range_length r) (suc (suc n)) ++ more
  unfolding write_long_gap
  long_gap_append gap n r more = sym (
      append3 (write_byte 255) (write_by_length dl 0)
        (write_long_gap dl gap (range_length r) (suc n)) more)

  -- The blocks of a range are read as the range.
  pub read_range :
      (above r : AckRange) (k : ℕ) (earlier : List AckRange) (c : Bool) (more : List ℕ)
      → IsBelow above r
      → range_length r < 2 ^ (dl * 8)
      → read_ack_blocks dl
          (blocks_of_gap (gap_between above r) + k)
          (at_range above earlier false c)
          (write_range dl above r ++ more)
        ≡ read_ack_blocks dl k (at_range r (above ∷ earlier) false true) more
  unfolding write_range
  read_range above r k earlier c more v l =
      let gap = gap_between above r in
      elim (gap_cases gap (gap_bounds above r v)) [
        | inl (small, e, b) ↦
            let n1 : 1 + k ≡ suc k = omega arith in
            rw (b, e, n1, append_assoc (write_byte gap) (write_by_length dl (range_length r)) more)
              (read_block gap (range_length r) k (at_range above earlier false c) more small l
                ∙ ap (λ t. read_ack_blocks dl k t more)
                    (single_block gap above r earlier c (gap_exact above r v) v.ordered v.small))
        | inr (n, e, b, t) ↦
            let n1 : suc (suc n) + k ≡ suc (suc n + k) = omega arith in
            let tail = write_long_gap dl gap (range_length r) (suc n) in
            let exact = gap_exact above r v in
            rw (b, e, n1)
              (sym (
                  ap (read_ack_blocks dl (suc (suc n + k)) (at_range above earlier false c))
                    (long_gap_append gap n r more))
                ∙ (read_block 255 0 (suc n + k) (at_range above earlier false c) (tail ++ more)
                      (omega arith) zero-lt
                    ∙ (ap (λ t. read_ack_blocks dl (suc n + k) t (tail ++ more))
                          (first_block above earlier c (omega arith) v.small)
                        ∙ read_long_gap gap n k (above.first_packet_number - 256) r
                            (above ∷ earlier) false more (omega arith) v.ordered (omega arith) l)))
      ]
