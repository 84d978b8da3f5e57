-- ===== src/Frames/Ack/Parsing/Checked.antt =====
-- frames/ack_frame.go: ParseAckFrame does not panic, and what it returns passes its checks.
use plus_quic_go.Base.{
  ℕ, zero, suc, ◌+◌, ◌-◌, ◌/◌, ◌%◌, ◌≤◌, ◌<◌, ◌≡◌, ◌≢◌, refl, sym, ◌⊎◌, inl, inr, List, [], ◌∷◌,
  Bool, true, false, not, ◌&&◌, ltb, ◌==◌, if◌then◌else◌, Bool-cases, length, reverse_onto, ok, err,
  ◌>>=◌, arith,
}
use plus_quic_go.Wire.{Error, Parsed, read_byte, read_uint_n, read_uint16, read_uint32}
use plus_quic_go.Wire.Float16.{read_ufloat16}
use plus_quic_go.Wire.Errors.{
  bind-ok, Ensures, bind-Ensures, check-Ensures, checks-Ensures, InRange, bind-InRange, ok-InRange,
  check-InRange, checks-InRange, if-InRange, read_byte-InRange, byte-InRange, read_uint_n-InRange,
  read_uint16-InRange, read_uint32-InRange, read_ufloat16-InRange,
}
use plus_quic_go.Frames.Ack.{AckRange, AckFrame, validate_ack_ranges}
use plus_quic_go.Frames.Ack.Parsing.{
  AckBlocks, add_ack_block, read_ack_blocks, complete_ranges, lowest_of_last, number_len,
  parse_missing_ranges, skip_timestamps, parse_timestamps, finish_ack_frame, parse_ack_frame,
}

-- A block that does not follow a long gap starts a range behind the others.
add_ack_block-earlier :
    (gap len : ℕ) (b : AckBlocks)
    → (b.in_long_block ≡ false) ⊎ (0 < length b.earlier)
    → 0 < length (add_ack_block gap len b).earlier
unfolding add_ack_block
add_ack_block-earlier gap len b h = elim (Bool-cases b.in_long_block) [
  | inl e ↦ rw e (ground arith)
  | inr e ↦ rw e (omega arith)
]

read_ack_blocks-earlier :
    (delta_len n : ℕ) (b : AckBlocks) (bs : List ℕ) (c : AckBlocks) (rest : List ℕ)
    → ((0 < n) × (b.in_long_block ≡ false)) ⊎ (0 < length b.earlier)
    → read_ack_blocks delta_len n b bs ≡ ok (c, rest)
    → 0 < length c.earlier
unfolding read_ack_blocks
read_ack_blocks-earlier delta_len zero b bs c rest h e = ground arith
read_ack_blocks-earlier delta_len (suc n) b bs c rest h e =
    let ((gap, bs1), e1, f1) = bind-ok (read_byte bs) _ (c, rest) e in
    let ((len, bs2), e2, f2) = bind-ok (read_uint_n delta_len bs1) _ (c, rest) f1 in
    read_ack_blocks-earlier delta_len n (add_ack_block gap len b) bs2 c rest
      (inr (add_ack_block-earlier gap len b (ground arith))) f2

read_ack_blocks-InRange :
    (delta_len n : ℕ) (b : AckBlocks) (bs : List ℕ) → InRange (read_ack_blocks delta_len n b bs)
unfolding read_ack_blocks
read_ack_blocks-InRange delta_len zero b bs = λ e. ground arith
read_ack_blocks-InRange delta_len (suc n) b bs = byte-InRange bs _ λ gap bs.
    bind-InRange (read_uint_n delta_len bs) _ (read_uint_n-InRange delta_len bs)
      λ len bs e. read_ack_blocks-InRange delta_len n (add_ack_block gap len b) bs

skip_timestamps-InRange : (n : ℕ) (bs : List ℕ) → InRange (skip_timestamps n bs)
unfolding skip_timestamps
skip_timestamps-InRange zero bs = λ e. ground arith
skip_timestamps-InRange (suc n) bs = byte-InRange bs _ λ delta bs.
    bind-InRange (read_uint16 bs) _ (read_uint16-InRange bs)
      λ time bs e. skip_timestamps-InRange n bs

parse_timestamps-InRange : (bs : List ℕ) → InRange (parse_timestamps bs)
unfolding parse_timestamps
parse_timestamps-InRange bs = byte-InRange bs _ λ num bs.
    if-InRange (ltb 0 num) _ _
      (λ t. byte-InRange bs _ λ delta bs.
        bind-InRange (read_uint32 bs) _ (read_uint32-InRange bs)
          λ time bs e. skip_timestamps-InRange (num - 1) bs)
      (λ f. ok-InRange _)

complete_ranges-cons :
    (b : AckBlocks)
    → 0 < length b.earlier
    → (r : AckRange) × (rs : List AckRange) × (complete_ranges b ≡ r ∷ rs)
unfolding complete_ranges
complete_ranges-cons b h = elim (Bool-cases b.last_range_complete) [
  | inl e ↦ (b.current, b.earlier, rw e refl)
  | inr e ↦ let (r, rs, p) = cons b.earlier h in (r, rs, rw e p)
]
  where
    cons :
        (xs : List AckRange) → 0 < length xs → (r : AckRange) × (rs : List AckRange) × (xs ≡ r ∷ rs)
    cons [] k = absurd (omega arith)
    cons (x ∷ xs) k = (x, xs, refl)

parse_missing_ranges-InRange :
    (delta_len n largest len : ℕ) (bs : List ℕ)
    → 0 < n
    → InRange (parse_missing_ranges delta_len n largest len bs)
unfolding parse_missing_ranges lowest_of_last
parse_missing_ranges-InRange delta_len n largest len bs pos =
    bind-InRange (read_ack_blocks delta_len n _ bs) _ (read_ack_blocks-InRange delta_len n _ bs)
      λ b rest e.
        let (r, rs, p) =
          complete_ranges-cons b
            (read_ack_blocks-earlier delta_len n _ bs b rest (inl (pos, refl)) e) in
        rw p (ok-InRange _)

finish_ack_frame-InRange : (f : AckFrame) (bs : List ℕ) → InRange (finish_ack_frame f bs)
unfolding finish_ack_frame
finish_ack_frame-InRange f bs =
    check-InRange (not (validate_ack_ranges f)) Error.invalid_ack_ranges _ (λ p. ground arith)
      λ valid.
        bind-InRange (parse_timestamps bs) _ (parse_timestamps-InRange bs)
          λ u bs e. ok-InRange (f, bs)

-- ParseAckFrame never reaches for an element of an empty slice, on any input.
pub parse_ack_frame-InRange : (bs : List ℕ) → parse_ack_frame bs ≢ err Error.index_out_of_range
unfolding parse_ack_frame
parse_ack_frame-InRange bs = byte-InRange bs _ λ t bs.
    bind-InRange (read_uint_n (number_len (t / 4 % 4)) bs) _ (read_uint_n-InRange _ bs)
      λ largest bs e1. bind-InRange (read_ufloat16 bs) _ (read_ufloat16-InRange bs) λ delay bs e2.
        bind-InRange (if t / 32 % 2 == 1 then read_byte bs else ok (0, bs)) _
          (if-InRange (t / 32 % 2 == 1) _ _ (λ b. read_byte-InRange bs) (λ b. ok-InRange _))
          λ num bs e3.
            check-InRange (t / 32 % 2 == 1 && num == 0) Error.invalid_ack_ranges _
              (λ p. ground arith)
              λ some.
                bind-InRange (read_uint_n (number_len (t % 4)) bs) _ (read_uint_n-InRange _ bs)
                  λ len bs e4.
                    checks-InRange (ltb 0 largest && ltb len 1) (ltb largest len)
                      Error.invalid_first_ack_range Error.invalid_ack_ranges _ (λ p. ground arith)
                      (λ p. ground arith)
                      (bind-InRange
                        (if t / 32 % 2 == 1
                          then parse_missing_ranges (number_len (t % 4)) num largest len bs
                          else ok (([], if largest == 0 then 0 else largest + 1 - len), bs))
                        _
                        (if-InRange (t / 32 % 2 == 1) _ _
                          (λ b.
                            parse_missing_ranges-InRange (number_len (t % 4)) num largest len bs
                              (ground arith))
                          (λ b. ok-InRange _))
                        λ (ranges, lowest) bs e5. finish_ack_frame-InRange _ bs)

-- What the parser has checked of a frame.
abbrev IsChecked : AckFrame → Type 0
IsChecked f =
    (validate_ack_ranges f ≡ true)
    × ((f.ack_ranges ≡ [])
        → (f.lowest_acked ≤ f.largest_acked) × ((f.largest_acked ≡ 0) ⊎ (0 < f.lowest_acked)))

finish_ack_frame-IsChecked :
    (f : AckFrame) (bs : List ℕ)
    → ((f.ack_ranges ≡ [])
        → (f.lowest_acked ≤ f.largest_acked) × ((f.largest_acked ≡ 0) ⊎ (0 < f.lowest_acked)))
    → Ensures IsChecked (finish_ack_frame f bs)
unfolding finish_ack_frame
finish_ack_frame-IsChecked f bs h =
    check-Ensures IsChecked (not (validate_ack_ranges f)) Error.invalid_ack_ranges _ λ valid.
      bind-Ensures IsChecked (parse_timestamps bs) _
        λ u rest e g rest' p. let same : f ≡ g = ground arith in rw (sym same) (ground arith, h)

-- Missing ranges leave a range.
parse_missing_ranges-some :
    (delta_len n largest len : ℕ) (bs : List ℕ)
    → Ensures
        (λ (p : List AckRange × ℕ). p.0 ≢ [])
        (parse_missing_ranges delta_len n largest len bs)
unfolding parse_missing_ranges lowest_of_last
parse_missing_ranges-some delta_len n largest len bs =
    bind-Ensures _ (read_ack_blocks delta_len n _ bs) _
      λ b rest e. lowest_some (complete_ranges b) rest
  where
    reverse_onto-some :
        (rs : List AckRange) (r : AckRange) (acc : List AckRange) → reverse_onto rs (r ∷ acc) ≢ []
    reverse_onto-some [] r acc = λ e. ground arith
    reverse_onto-some (s ∷ rs) r acc = reverse_onto-some rs s (r ∷ acc)

    lowest_some :
        (ranges : List AckRange) (rest : List ℕ)
        → let p : Parsed (List AckRange × ℕ) =
            lowest_of_last ranges >>= λ lowest. ok ((reverse_onto ranges [], lowest), rest) in
          Ensures (λ (p : List AckRange × ℕ). p.0 ≢ []) p
    lowest_some [] rest a rest' e = absurd (ground arith)
    lowest_some (r ∷ rs) rest a rest' e =
        let same : reverse_onto rs (r ∷ []) ≡ a.0 = ground arith in
        rw (sym same) (reverse_onto-some rs r [])

parse_ack_frame-IsChecked :
    (bs : List ℕ) (f : AckFrame) (rest : List ℕ) → parse_ack_frame bs ≡ ok (f, rest) → IsChecked f
unfolding parse_ack_frame
parse_ack_frame-IsChecked bs f rest e =
    (bind-Ensures IsChecked (read_byte bs) _ λ (t : ℕ) bs e0.
        bind-Ensures IsChecked (read_uint_n (number_len (t / 4 % 4)) bs) _ λ largest bs e1.
          bind-Ensures IsChecked (read_ufloat16 bs) _ λ delay bs e2.
            bind-Ensures IsChecked (if t / 32 % 2 == 1 then read_byte bs else ok (0, bs)) _
              λ num bs e3.
                check-Ensures IsChecked (t / 32 % 2 == 1 && num == 0) Error.invalid_ack_ranges _
                  λ some.
                    bind-Ensures IsChecked (read_uint_n (number_len (t % 4)) bs) _ λ len bs e4.
                      checks-Ensures IsChecked (ltb 0 largest && ltb len 1) (ltb largest len)
                        Error.invalid_first_ack_range Error.invalid_ack_ranges _
                        λ c d.
                          bind-Ensures IsChecked
                            (if t / 32 % 2 == 1
                              then parse_missing_ranges (number_len (t % 4)) num largest len bs
                              else ok (([], if largest == 0 then 0 else largest + 1 - len), bs))
                            _
                            λ (ranges, lowest) bs' e5. finish_ack_frame-IsChecked _ bs' (
                              ranges_checked (t / 32 % 2 == 1) (number_len (t % 4)) num largest len
                                bs ranges lowest bs' c d e5))
      f rest e
  where
    ranges_checked :
        (missing : Bool) (delta_len num largest len : ℕ) (bs : List ℕ) (ranges : List AckRange)
        (lowest : ℕ) (bs' : List ℕ)
        → (ltb 0 largest && ltb len 1) ≡ false
        → ltb largest len ≡ false
        → (if missing
            then parse_missing_ranges delta_len num largest len bs
            else ok (([], if largest == 0 then 0 else largest + 1 - len), bs))
          ≡ ok ((ranges, lowest), bs')
        → ranges ≡ []
        → (lowest ≤ largest) × ((largest ≡ 0) ⊎ (0 < lowest))
    ranges_checked true delta_len num largest len bs ranges lowest bs' c d e z =
        absurd (parse_missing_ranges-some delta_len num largest len bs (ranges, lowest) bs' e z)
    ranges_checked false delta_len num largest len bs ranges lowest bs' c d e z = ground arith

-- A frame that ParseAckFrame returns passes the check of its ranges, and where it has none its
-- LowestAcked is at most its LargestAcked, and above 0 unless LargestAcked is 0.
pub parse_ack_frame-checked :
    (bs : List ℕ) (f : AckFrame) (rest : List ℕ)
    → parse_ack_frame bs ≡ ok (f, rest)
    → (validate_ack_ranges f ≡ true)
      × ((0 < length f.ack_ranges)
          ⊎ ((f.lowest_acked ≤ f.largest_acked) × ((f.largest_acked ≡ 0) ⊎ (0 < f.lowest_acked))))
parse_ack_frame-checked bs f rest e =
    let (valid, bounds) = parse_ack_frame-IsChecked bs f rest e in
    (valid, with_ranges f.ack_ranges bounds)
  where
    with_ranges : {B : Type 0} (rs : List AckRange) → (rs ≡ [] → B) → (0 < length rs) ⊎ B
    with_ranges [] h = inr (h refl)
    with_ranges (r ∷ rs) h = inl (omega arith)
