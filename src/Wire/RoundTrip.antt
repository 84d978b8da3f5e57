-- ===== src/Wire/RoundTrip.antt =====
-- What is written with utils/utils.go is read back: the integers of each width.
use plus_quic_go.Base.{ℕ, ◌^◌, ◌<◌, ◌≡◌, ap, List, ◌++◌, ok, arith, ◌%◌}
use plus_quic_go.Wire.{
  read_byte, read_bytes_from, read_uint_n, read_uint16, read_uint32, read_uint64, write_byte,
  write_uint16, write_uint24, write_uint32, write_uint40, write_uint48, write_uint56, write_uint64,
}

module _ (i : ℕ) (rest : List ℕ) where
  pub read_uint_n-byte : i < 2 ^ 8 → read_uint_n 1 (write_byte i ++ rest) ≡ ok (i, rest)
  unfolding read_uint_n read_bytes_from write_byte
  read_uint_n-byte h = ap (λ x. ok (x, rest)) (omega arith)

  pub read_uint_n-uint16 : i < 2 ^ 16 → read_uint_n 2 (write_uint16 i ++ rest) ≡ ok (i, rest)
  unfolding read_uint_n read_bytes_from write_uint16
  read_uint_n-uint16 h = ap (λ x. ok (x, rest)) (omega arith)

  pub read_uint_n-uint24 : i < 2 ^ 24 → read_uint_n 3 (write_uint24 i ++ rest) ≡ ok (i, rest)
  unfolding read_uint_n read_bytes_from write_uint24
  read_uint_n-uint24 h = ap (λ x. ok (x, rest)) (omega arith)

  pub read_uint_n-uint32 : i < 2 ^ 32 → read_uint_n 4 (write_uint32 i ++ rest) ≡ ok (i, rest)
  unfolding read_uint_n read_bytes_from write_uint32
  read_uint_n-uint32 h = ap (λ x. ok (x, rest)) (omega arith)

  pub read_uint_n-uint40 : i < 2 ^ 40 → read_uint_n 5 (write_uint40 i ++ rest) ≡ ok (i, rest)
  unfolding read_uint_n read_bytes_from write_uint40
  read_uint_n-uint40 h = ap (λ x. ok (x, rest)) (omega arith)

  pub read_uint_n-uint48 : i < 2 ^ 48 → read_uint_n 6 (write_uint48 i ++ rest) ≡ ok (i, rest)
  unfolding read_uint_n read_bytes_from write_uint48
  read_uint_n-uint48 h = ap (λ x. ok (x, rest)) (omega arith)

  pub read_uint_n-uint56 : i < 2 ^ 56 → read_uint_n 7 (write_uint56 i ++ rest) ≡ ok (i, rest)
  unfolding read_uint_n read_bytes_from write_uint56
  read_uint_n-uint56 h = ap (λ x. ok (x, rest)) (omega arith)

  pub read_uint_n-uint64 : i < 2 ^ 64 → read_uint_n 8 (write_uint64 i ++ rest) ≡ ok (i, rest)
  unfolding read_uint_n read_bytes_from write_uint64
  read_uint_n-uint64 h = ap (λ x. ok (x, rest)) (omega arith)

  pub read_uint16-write_uint16 : i < 2 ^ 16 → read_uint16 (write_uint16 i ++ rest) ≡ ok (i, rest)
  unfolding read_uint16 read_byte write_uint16
  read_uint16-write_uint16 h = ap (λ x. ok (x, rest)) (omega arith)

  pub read_uint32-write_uint32 : i < 2 ^ 32 → read_uint32 (write_uint32 i ++ rest) ≡ ok (i, rest)
  unfolding read_uint32 read_byte write_uint32
  read_uint32-write_uint32 h = ap (λ x. ok (x, rest)) (omega arith)

  pub read_uint64-write_uint64 : i < 2 ^ 64 → read_uint64 (write_uint64 i ++ rest) ≡ ok (i, rest)
  unfolding read_uint64 read_byte write_uint64
  read_uint64-write_uint64 h = ap (λ x. ok (x, rest)) (omega arith)

-- Where Go converts the number to the width that it writes, nothing is lost.
module _ (i : ℕ) (rest : List ℕ) where
  pub read_uint_n-converted16 :
      i < 2 ^ 16 → read_uint_n 2 (write_uint16 (i % 2 ^ 16) ++ rest) ≡ ok (i, rest)
  read_uint_n-converted16 h =
      let e : i % 2 ^ 16 ≡ i = omega arith in rw e (read_uint_n-uint16 i rest h)

  pub read_uint_n-converted24 :
      i < 2 ^ 24 → read_uint_n 3 (write_uint24 (i % 2 ^ 32) ++ rest) ≡ ok (i, rest)
  read_uint_n-converted24 h =
      let e : i % 2 ^ 32 ≡ i = omega arith in rw e (read_uint_n-uint24 i rest h)

  pub read_uint_n-converted32 :
      i < 2 ^ 32 → read_uint_n 4 (write_uint32 (i % 2 ^ 32) ++ rest) ≡ ok (i, rest)
  read_uint_n-converted32 h =
      let e : i % 2 ^ 32 ≡ i = omega arith in rw e (read_uint_n-uint32 i rest h)

  pub read_uint16-converted :
      i < 2 ^ 16 → read_uint16 (write_uint16 (i % 2 ^ 16) ++ rest) ≡ ok (i, rest)
  read_uint16-converted h =
      let e : i % 2 ^ 16 ≡ i = omega arith in rw e (read_uint16-write_uint16 i rest h)

  pub read_uint32-converted :
      i < 2 ^ 32 → read_uint32 (write_uint32 (i % 2 ^ 32) ++ rest) ≡ ok (i, rest)
  read_uint32-converted h =
      let e : i % 2 ^ 32 ≡ i = omega arith in rw e (read_uint32-write_uint32 i rest h)

  pub read_uint64-converted :
      i < 2 ^ 64 → read_uint64 (write_uint64 (i % 2 ^ 64) ++ rest) ≡ ok (i, rest)
  read_uint64-converted h =
      let e : i % 2 ^ 64 ≡ i = omega arith in rw e (read_uint64-write_uint64 i rest h)
