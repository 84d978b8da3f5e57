-- ===== src/Frames/Ack/Writing/Together.antt =====
-- frames/ack_frame.go: the loops over all ranges, of the writer and of the parser.
use plus_quic_go.Base.{
  ℕ, ◌+◌, ◌-◌, ◌*◌, ◌^◌, ◌≤◌, ◌<◌, ◌≡◌, ◌≢◌, refl, sym, ◌∙◌, ◌⊎◌, inl, inr, List, [], ◌∷◌, ◌++◌,
  Bool, true, false, ltb, leb, Bool-cases, reverse_onto, ok, arith,
}
use mathlib.Core.List.{append_assoc, append-nil}
use plus_quic_go.Base.Words.{add64}
use plus_quic_go.Protocol.PacketNumber.Inference.{IsLength}
use plus_quic_go.Frames.Ack.{AckRange}
use plus_quic_go.Frames.Ack.Parsing.{
  AckBlocks, read_ack_blocks, complete_ranges, lowest_of_last, parse_missing_ranges,
}
use plus_quic_go.Frames.Ack.Writing.{
  gap_between, range_length, blocks_of_gap, count_writable, write_range, write_ranges, last_range,
}
use plus_quic_go.Frames.Ack.Writing.Ranges.{Descends, total_blocks, LengthsBelow}
use plus_quic_go.Frames.Ack.Writing.Blocks.{at_range, read_range, gap_bounds}

abbrev pub all_bytes : ℕ → AckRange → List AckRange → List ℕ
all_bytes dl above [] = []
all_bytes dl above (r ∷ rs) = write_range dl above r ++ all_bytes dl r rs

pub count_writable-all :
    (above : AckRange) (rs : List AckRange) (n : ℕ)
    → n + total_blocks above rs < 255
    → count_writable above rs n ≡ n + total_blocks above rs
unfolding count_writable
count_writable-all above [] n h = omega arith
count_writable-all above (r ∷ rs) n h =
    let b = blocks_of_gap (gap_between above r) in
    let e : ltb (n + b) 255 ≡ true = ground arith in
    rw e (omega (arith, count_writable-all r rs (n + b) (omega arith)))

pub blocks_positive : (gap : ℕ) → 0 < gap → 0 < blocks_of_gap gap
unfolding blocks_of_gap
blocks_positive gap h = ground arith

-- No blocks, no ranges.
all_bytes-none :
    (dl : ℕ) (above : AckRange) (rs : List AckRange)
    → Descends above rs
    → total_blocks above rs ≡ 0
    → all_bytes dl above rs ≡ []
all_bytes-none dl above [] d e = refl
all_bytes-none dl above (r ∷ rs) d e =
    absurd (omega (arith, blocks_positive (gap_between above r) (gap_bounds above r d.0).0))

pub write_ranges-all :
    (dl num : ℕ) (above : AckRange) (rs : List AckRange) (written : ℕ)
    → Descends above rs
    → written + total_blocks above rs ≡ num
    → write_ranges dl num above rs written ≡ (all_bytes dl above rs, num)
unfolding write_ranges
write_ranges-all dl num above [] written d e =
    let same : written ≡ num = omega arith in rw same refl
write_ranges-all dl num above (r ∷ rs) written d e =
    let b = blocks_of_gap (gap_between above r) in
    let rest = write_ranges-all dl num r rs (written + b) d.1 (omega arith) in
    elim (Bool-cases (leb num (written + b))) [
      | inl l ↦
          let last = all_bytes-none dl r rs d.1 (ground arith) in
          let count : written + b ≡ num = ground arith in rw (l, last, append-nil, count) refl
      | inr l ↦ rw (rest, l) refl
    ]

kept :
    (above : AckRange) (earlier : List AckRange) (c : Bool)
    → let none_left : List AckRange = [] in
      (none_left ≢ []) ⊎ (c ≡ true)
      → complete_ranges (at_range above earlier false c) ≡ above ∷ earlier
unfolding complete_ranges
kept above earlier c (inl h) = absurd (h refl)
kept above earlier c (inr e) = rw e refl

module _ (dl : ℕ) (is_length : IsLength dl) where
  read_all :
      (above : AckRange) (rs : List AckRange) (earlier : List AckRange) (c : Bool) (more : List ℕ)
      → Descends above rs
      → LengthsBelow (2 ^ (dl * 8)) rs
      → (b : AckBlocks) × (read_ack_blocks dl
            (total_blocks above rs)
            (at_range above earlier false c)
            (all_bytes dl above rs ++ more)
          ≡ ok (b, more))
        × ((rs ≢ []) ⊎ (c ≡ true) → complete_ranges b ≡ reverse_onto rs (above ∷ earlier))
  unfolding read_ack_blocks complete_ranges
  read_all above [] earlier c more d l =
      (at_range above earlier false c, refl, λ h. kept above earlier c h)
  read_all above (r ∷ rs) earlier c more d l =
      let (b, e, f) = read_all r rs (above ∷ earlier) true more d.1 l.1 in
      (
        b,
        rw (append_assoc (write_range dl above r) (all_bytes dl r rs) more) (
            read_range dl is_length above r (total_blocks r rs) earlier c
              (all_bytes dl r rs ++ more) d.0 l.0
            ∙ e),
        λ h. f (inr refl),
      )

reverse-reverse :
    (xs acc ys : List AckRange)
    → reverse_onto (reverse_onto xs acc) ys ≡ reverse_onto acc (xs ++ ys)
reverse-reverse [] acc ys = refl
reverse-reverse (x ∷ xs) acc ys = reverse-reverse xs (x ∷ acc) ys

lowest_of_last-reverse :
    (r : AckRange) (rs acc : List AckRange)
    → lowest_of_last (reverse_onto rs (r ∷ acc)) ≡ ok (last_range r rs).first_packet_number
unfolding lowest_of_last last_range
lowest_of_last-reverse r [] acc = refl
lowest_of_last-reverse r (s ∷ rs) acc = lowest_of_last-reverse s rs (r ∷ acc)

-- The ranges behind the first block.
pub parse_ranges :
    (dl : ℕ) (is_length : IsLength dl) (largest lowest : ℕ) (r s : AckRange) (rs : List AckRange)
    (rest : List ℕ)
    → r.last_packet_number ≡ largest
    → largest < 2 ^ 48
    → r.first_packet_number ≤ r.last_packet_number
    → Descends r (s ∷ rs)
    → lowest ≡ (last_range s rs).first_packet_number
    → LengthsBelow (2 ^ (dl * 8)) (s ∷ rs)
    → parse_missing_ranges dl
        (total_blocks r (s ∷ rs))
        largest
        (range_length r)
        (all_bytes dl r (s ∷ rs) ++ (0 ∷ rest))
      ≡ ok ((r ∷ s ∷ rs, lowest), 0 ∷ rest)
unfolding parse_missing_ranges
parse_ranges dl is_length largest lowest r s rs rest top small ordered d bottom l =
    let (b, e, c) = read_all dl is_length r (s ∷ rs) [] false (0 ∷ rest) d l in
    let e1 : add64 (largest - range_length r) 1 ≡ r.first_packet_number =
      omega (arith, d.0.apart) in
    let complete = c (inl (λ p. ground arith)) in
    rw
      (
        e1,
        sym top,
        e,
        complete,
        lowest_of_last-reverse s rs (r ∷ []),
        bottom,
        reverse-reverse (s ∷ rs) (r ∷ []) [],
        append-nil,
      )
      refl
