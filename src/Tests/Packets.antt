-- ===== src/Tests/Packets.antt =====
-- The numbering of packets.
use plus_quic_go.Base.{◌+◌, ◌≡◌, refl, ◌⊎◌, [], ◌∷◌, none, some, arith}
use plus_quic_go.Packets.Generator.{PacketNumberGenerator, new_packet_number_generator, pop}
use plus_quic_go.Packets.Generator.Skips.{
  pops, pop_never_skips_twice, new_packet_number_generator-never_skips,
}

-- A generator that is about to skip the packet number 42.
abbrev before_skip : PacketNumberGenerator
before_skip = record { average_period = 500; next = 41; next_to_skip = 42 }

skips_42 :
    (pop (some 32767) before_skip).1
    ≡ record { average_period = 500; next = 43; next_to_skip = 544 }
unfolding pop
skips_42 = refl

pop_never_skips_twice_example :
    let (pn, g') = pop (some 32767) before_skip in
    (pn ≡ 41)
    × ((g'.next ≡ pn + 1)
        ⊎ ((g'.next ≡ pn + 2) × (42 ≡ pn + 1) × ((pop none g').1.next ≡ g'.next + 1)))
pop_never_skips_twice_example = pop_never_skips_twice (some 32767) none before_skip (omega arith)

new_packet_number_generator-never_skips_example :
    (pops (some 7 ∷ none ∷ some 65535 ∷ []) (new_packet_number_generator 500)).0 ≡ 1 ∷ 2 ∷ 3 ∷ []
new_packet_number_generator-never_skips_example =
    new_packet_number_generator-never_skips 500 (some 7 ∷ none ∷ some 65535 ∷ []) (omega arith)
