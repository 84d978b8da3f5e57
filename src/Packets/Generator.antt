-- ===== src/Packets/Generator.antt =====
-- packet_number_generator.go: the numbers of the packets that are sent. A random number is an
-- argument: `none` where rand.Read fails, and else the value of the two bytes.
pub mod Skips
use plus_quic_go.Base.{ℕ, ◌+◌, ◌/◌, Option, none, some, ◌==◌, if◌then◌else◌}
use plus_quic_go.Base.Words.{add64, sub64, mul64}

pub record PacketNumberGenerator : Type 0 where
  pub average_period : ℕ
  pub next : ℕ
  pub next_to_skip : ℕ

-- newPacketNumberGenerator
unfoldable pub new_packet_number_generator : ℕ → PacketNumberGenerator
new_packet_number_generator average_period = record {
  average_period = average_period;
  next = 1;
  next_to_skip = 0;
}

-- Peek
unfoldable pub peek : PacketNumberGenerator → ℕ
peek g = g.next

-- generateNewSkip; `math.MaxUint16 / 2` is 32767.
unfoldable pub generate_new_skip : Option ℕ → PacketNumberGenerator → PacketNumberGenerator
generate_new_skip none g = g
generate_new_skip (some num) g = record g {
  next_to_skip = add64 (add64 g.next 2) (mul64 num (sub64 g.average_period 1) / 32767);
}

-- Pop
unfoldable pub pop : Option ℕ → PacketNumberGenerator → ℕ × PacketNumberGenerator
unfolding generate_new_skip
pop random g =
    let g' = record g { next = add64 g.next 1 } in
    (
      g.next,
      if g'.next == g'.next_to_skip
          then generate_new_skip random (record g' { next = add64 g'.next 1 })
          else g',
    )
