-- ===== src/Wire/Float16.antt =====
-- utils/float16.go: the 16 bit floating point numbers of the ACK delay, with 5 bits of exponent and 11
-- bits of mantissa. They stand for numbers up to 0x3FFC0000000.
use plus_quic_go.Base.{ℕ, ◌+◌, ◌-◌, ◌*◌, ◌/◌, ◌%◌, ◌^◌, List, ltb, leb, if◌then◌else◌, ok, ◌>>=◌}
use plus_quic_go.Wire.{Parsed, read_uint16, write_uint16}

abbrev pub mantissa_bits : ℕ
mantissa_bits = 11

abbrev pub mantissa_effective_bits : ℕ
mantissa_effective_bits = mantissa_bits + 1

abbrev pub max_exponent : ℕ
max_exponent = 2 ^ 5 - 2

abbrev pub max_value : ℕ
max_value = (2 ^ mantissa_effective_bits - 1) * 2 ^ max_exponent

-- What ReadUfloat16 makes of the 16 bits that it read.
unfoldable pub decode_ufloat16 : ℕ → ℕ
decode_ufloat16 val =
    if ltb val (2 ^ mantissa_effective_bits)
    then val
    else (let exponent = val / 2 ^ mantissa_bits - 1 in
        (val - exponent * 2 ^ mantissa_bits) * 2 ^ exponent)

-- ReadUfloat16
unfoldable pub read_ufloat16 : List ℕ → Parsed ℕ
read_ufloat16 bs = read_uint16 bs >>= λ (val, bs). ok (decode_ufloat16 val, bs)

-- A round of the binary search: the exponent so far and the value shifted by it.
unfoldable pub shift_if_above : ℕ → ℕ × ℕ → ℕ × ℕ
shift_if_above offset (exponent, value) =
    if leb (2 ^ (mantissa_bits + offset)) value
    then (exponent + offset, value / 2 ^ offset)
    else (exponent, value)

-- The 16 bits that WriteUfloat16 writes.
unfoldable pub encode_ufloat16 : ℕ → ℕ
encode_ufloat16 value =
    if ltb value (2 ^ mantissa_effective_bits)
    then value % 2 ^ 16
    else if leb max_value value
    then 2 ^ 16 - 1
    else (let (exponent, shifted) =
          shift_if_above 1 (
            shift_if_above 2
              (shift_if_above 4 (shift_if_above 8 (shift_if_above 16 (0, value))))) in
        (shifted % 2 ^ 16 + exponent * 2 ^ mantissa_bits % 2 ^ 16) % 2 ^ 16)

-- WriteUfloat16
unfoldable pub write_ufloat16 : ℕ → List ℕ
write_ufloat16 value = write_uint16 (encode_ufloat16 value)
