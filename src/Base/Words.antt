-- ===== src/Base/Words.antt =====
-- uint64, uint32, uint16 and byte: a word is a number below the modulus, and each operation that can
-- leave the range writes its wrap-around out.
use Prim.Native.Nat.{ℕ, ◌+◌, ◌-◌, ◌*◌, ◌%◌, ◌^◌, ◌<◌}

abbrev pub IsU64 : ℕ → Type 0
IsU64 a = a < 2 ^ 64

abbrev pub IsU32 : ℕ → Type 0
IsU32 a = a < 2 ^ 32

abbrev pub IsByte : ℕ → Type 0
IsByte a = a < 256

abbrev pub add64 : ℕ → ℕ → ℕ
add64 a b = (a + b) % 2 ^ 64

-- `-` on ℕ stops at 0, so the modulus comes first.
abbrev pub sub64 : ℕ → ℕ → ℕ
sub64 a b = (a + 2 ^ 64 - b) % 2 ^ 64

abbrev pub mul64 : ℕ → ℕ → ℕ
mul64 a b = a * b % 2 ^ 64

abbrev pub add32 : ℕ → ℕ → ℕ
add32 a b = (a + b) % 2 ^ 32

abbrev pub sub32 : ℕ → ℕ → ℕ
sub32 a b = (a + 2 ^ 32 - b) % 2 ^ 32
