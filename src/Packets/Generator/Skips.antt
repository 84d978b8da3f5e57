-- ===== src/Packets/Generator/Skips.antt =====
-- packet_number_generator.go: which packet numbers are skipped.
use plus_quic_go.Base.{
  ℕ, ◌+◌, ◌^◌, ◌<◌, ◌≡◌, refl, ◌⊎◌, List, [], ◌∷◌, Option, none, some, length, suc, zero, arith,
}
use plus_quic_go.Packets.Generator.{
  PacketNumberGenerator, new_packet_number_generator, generate_new_skip, pop,
}

-- Runs of Pop, with the random numbers that they would draw.
unfoldable pub pops : List (Option ℕ) → PacketNumberGenerator → List ℕ × PacketNumberGenerator
pops [] g = ([], g)
pops (r ∷ rs) g = let (pn, g') = pop r g in let (pns, g'') = pops rs g' in (pn ∷ pns, g'')

abbrev pub counting : ℕ → ℕ → List ℕ
counting n zero = []
counting n (suc k) = n ∷ counting (n + 1) k

-- While the numbers stay below 2^62: Pop gives the number that was announced, and the next number is
-- one more, or two more where that one was chosen to be skipped; and then the Pop after it does not
-- skip, whether or not a new number to skip could be drawn.
pub pop_never_skips_twice :
    (r r' : Option ℕ) (g : PacketNumberGenerator)
    → g.next < 2 ^ 62
    → let (pn, g') = pop r g in
      (pn ≡ g.next)
      × ((g'.next ≡ pn + 1)
          ⊎ ((g'.next ≡ pn + 2) × (g.next_to_skip ≡ pn + 1) × ((pop r' g').1.next ≡ g'.next + 1)))
unfolding pop generate_new_skip
pop_never_skips_twice r r' g h = (refl, go r r')
  where
    go :
        (r r' : Option ℕ)
        → let (pn, g') = pop r g in
          ((g'.next ≡ pn + 1)
            ⊎ ((g'.next ≡ pn + 2) × (g.next_to_skip ≡ pn + 1) × ((pop r' g').1.next ≡ g'.next + 1)))
    go none none = ground arith
    go none (some m) = ground arith
    go (some n) none = ground arith
    go (some n) (some m) = ground arith

pops-counting :
    (rs : List (Option ℕ)) (g : PacketNumberGenerator)
    → g.next_to_skip ≡ 0
    → 0 < g.next
    → g.next + length rs < 2 ^ 64
    → (pops rs g).0 ≡ counting g.next (length rs)
unfolding pops pop
pops-counting [] g e p h = refl
pops-counting (r ∷ rs) g e p h =
    let g' = (pop r g).1 in
    ground (arith, pops-counting rs g' (ground arith) (ground arith) (ground arith))

-- A new generator never skips a packet number, whatever the random numbers are: its first 2^64 - 2
-- numbers are 1, 2, 3 and so on.
pub new_packet_number_generator-never_skips :
    (period : ℕ) (rs : List (Option ℕ))
    → 1 + length rs < 2 ^ 64
    → (pops rs (new_packet_number_generator period)).0 ≡ counting 1 (length rs)
unfolding new_packet_number_generator
new_packet_number_generator-never_skips period rs h =
    pops-counting rs (new_packet_number_generator period) refl (omega arith) h
