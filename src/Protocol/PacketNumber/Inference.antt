-- ===== src/Protocol/PacketNumber/Inference.antt =====
-- protocol/packet_number.go: the receiver recovers the number that the sender shortened.
use plus_quic_go.Base.{ℕ, ◌+◌, ◌*◌, ◌/◌, ◌%◌, ◌^◌, ◌≤◌, ◌<◌, ◌≡◌, ◌⊎◌, inl, inr, ap, ◌∙◌, arith}
use native.Mathlib.Nat.{mul-le-mul_right, div-add-mod', mod-lt}
use plus_quic_go.Base.Words.{add64, sub64}
use plus_quic_go.Protocol.PacketNumber.{
  closest_to, infer_from, infer_packet_number, get_packet_number_length,
}

-- The lengths that a packet number has on the wire.
abbrev pub IsLength : ℕ → Type 0
IsLength len = (len ≡ 1) ⊎ (len ≡ 2) ⊎ (len ≡ 4) ⊎ (len ≡ 6)

-- `x` lies within `half` of `t`, or it does not.
abbrev Near : ℕ → ℕ → ℕ → Type 0
Near t half x = (x < t + half) × (t < x + half)

abbrev Far : ℕ → ℕ → ℕ → Type 0
Far t half x = (t + half ≤ x) ⊎ (x + half ≤ t)

closest_to_left : (t half a b : ℕ) → Near t half a → Far t half b → closest_to t a b ≡ a
unfolding closest_to
closest_to_left t half a b n f = ground arith

closest_to_right : (t half a b : ℕ) → Far t half a → Near t half b → closest_to t a b ≡ b
unfolding closest_to
closest_to_right t half a b f n = ground arith

closest_to-Far : (t half a b : ℕ) → Far t half a → Far t half b → Far t half (closest_to t a b)
unfolding closest_to
closest_to-Far t half a b f g = ground arith

-- Two multiples of `d` that are less than two periods apart.
multiple_gap : (a b d : ℕ) → a + 2 ≤ b → a * d + d + d ≤ b * d
multiple_gap a b d h = omega (arith, mul-le-mul_right d h)

near_multiples :
    (a b d : ℕ)
    → b * d < a * d + d + d
    → a * d < b * d + d + d
    → (b * d ≡ a * d) ⊎ (b * d ≡ a * d + d) ⊎ (a * d ≡ b * d + d)
near_multiples a b d h k = elim (split a b) [
  | inl c ↦ inl (ap (λ (t : ℕ). t * d) c)
  | inr (inl c) ↦ inr (inl (omega (arith, ap (λ (t : ℕ). t * d) c)))
  | inr (inr (inl c)) ↦ inr (inr (omega (arith, ap (λ (t : ℕ). t * d) c)))
  | inr (inr (inr (inl c))) ↦ absurd (omega (arith, multiple_gap a b d c))
  | inr (inr (inr (inr c))) ↦ absurd (omega (arith, multiple_gap b a d c))
]
  where
    split : (a b : ℕ) → (b ≡ a) ⊎ (b ≡ a + 1) ⊎ (a ≡ b + 1) ⊎ (a + 2 ≤ b) ⊎ (b + 2 ≤ a)
    split a b = grind arith

module _ (t half x y z : ℕ) where
  choose_first : Near t half x → Far t half y → Far t half z → closest_to t x (closest_to t y z) ≡ x
  choose_first n f g = closest_to_left t half x _ n (closest_to-Far t half y z f g)

  choose_second :
      Far t half x → Near t half y → Far t half z → closest_to t x (closest_to t y z) ≡ y
  choose_second f n g =
      let e = closest_to_left t half y z n g in rw e (closest_to_right t half x y f n)

  choose_third : Far t half x → Far t half y → Near t half z → closest_to t x (closest_to t y z) ≡ z
  choose_third f g n =
      let e = closest_to_right t half y z g n in rw e (closest_to_right t half x z f n)

-- The three candidates, from the epoch `e` of the last number and the epoch `f` of the packet.
candidates :
    (e f d half last w : ℕ)
    → d ≡ half + half
    → last < 2 ^ 63
    → d ≤ 2 ^ 48
    → w < d
    → e ≤ last
    → last < e + d
    → Near (last + 1) half (f + w)
    → (f ≡ e) ⊎ (f ≡ e + d) ⊎ (e ≡ f + d)
    → closest_to
        (add64 last 1)
        (add64 e w)
        (closest_to (add64 last 1) (add64 (sub64 e d) w) (add64 (add64 e d) w))
      ≡ f + w
candidates e f d half last w h0 h1 h2 h3 h4 h5 n (inl c) =
    choose_first (add64 last 1) half (add64 e w) (add64 (sub64 e d) w) (add64 (add64 e d) w)
      (omega arith) (omega arith) (omega arith)
    ∙ omega arith
candidates e f d half last w h0 h1 h2 h3 h4 h5 n (inr (inl c)) =
    choose_third (add64 last 1) half (add64 e w) (add64 (sub64 e d) w) (add64 (add64 e d) w)
      (omega arith) (omega arith) (omega arith)
    ∙ omega arith
candidates e f d half last w h0 h1 h2 h3 h4 h5 n (inr (inr c)) =
    choose_second (add64 last 1) half (add64 e w) (add64 (sub64 e d) w) (add64 (add64 e d) w)
      (omega arith) (omega arith) (omega arith)
    ∙ omega arith

infer_from_lem :
    (d half last pn : ℕ)
    → d ≡ half + half
    → 0 < half
    → d ≤ 2 ^ 48
    → last < 2 ^ 63
    → Near (last + 1) half pn
    → infer_from d last (pn % d) ≡ pn
infer_from_lem d half last pn e pos small fits n =
    candidates (last / d * d) (pn / d * d) d half last (pn % d) e fits small low
      (omega (arith, div-add-mod' last d)) (omega (arith, low', div-add-mod' last d))
      (omega (arith, div-add-mod' pn d))
      (near_multiples (last / d) (pn / d) d
        (omega (arith, low, low', div-add-mod' pn d, div-add-mod' last d))
        (omega (arith, low, low', div-add-mod' pn d, div-add-mod' last d)))
    ∙ div-add-mod' pn d
  where
    low : pn % d < d
    low = mod-lt pn (omega arith)

    low' : last % d < d
    low' = mod-lt last (omega arith)

length_range :
    (len : ℕ)
    → IsLength len
    → (2 ^ (len * 8) ≡ 2 ^ (len * 8) / 2 + 2 ^ (len * 8) / 2)
      × (0 < 2 ^ (len * 8) / 2)
      × (2 ^ (len * 8) ≤ 2 ^ 48)
length_range len (inl c) = rw c (omega arith)
length_range len (inr (inl c)) = rw c (omega arith)
length_range len (inr (inr (inl c))) = rw c (omega arith)
length_range len (inr (inr (inr c))) = rw c (omega arith)

-- A packet number that is shortened to `len` bytes is recovered by `infer_packet_number` whenever
-- it lies less than half of the range of `len` bytes away from the number that is expected next,
-- for the four lengths that the wire format has and a last number below 2^63.
pub infer_packet_number-truncate :
    (len last pn : ℕ)
    → IsLength len
    → last < 2 ^ 63
    → pn < last + 1 + 2 ^ (len * 8) / 2
    → last + 1 < pn + 2 ^ (len * 8) / 2
    → infer_packet_number len last (pn % 2 ^ (len * 8)) ≡ pn
unfolding infer_packet_number
infer_packet_number-truncate len last pn h fits above below =
    let (even, pos, small) = length_range len h in
    infer_from_lem (2 ^ (len * 8)) (2 ^ (len * 8) / 2) last pn even pos small fits (above, below)

-- `get_packet_number_length` gives, for a packet number below 2^48, a length of the wire format that
-- holds it, and no length of the wire format that holds it is shorter.
get_packet_number_length_minimal :
    (pn len : ℕ)
    → pn < 2 ^ 48
    → IsLength len
    → pn < 2 ^ (len * 8)
    → IsLength (get_packet_number_length pn)
      × (pn < 2 ^ (get_packet_number_length pn * 8))
      × (get_packet_number_length pn ≤ len)
unfolding get_packet_number_length
get_packet_number_length_minimal pn len h l f = (ground arith, ground arith, ground arith)
