-- ===== src/Wire/Progress.antt =====
-- A parser built of reads leaves no more bytes than it was given.
use plus_quic_go.Base.{
  ℕ, zero, suc, ◌+◌, ◌*◌, ◌^◌, ◌≤◌, ◌≡◌, refl, List, [], ◌∷◌, Bool, true, false, ltb, if◌then◌else◌,
  length, take, drop, length-drop, ok, err, ◌>>=◌, ◌>>◌, fail_if, arith,
}
use plus_quic_go.Wire.{
  Error, Parsed, read_byte, read_bytes_from, read_uint_n, read_uint16, read_uint32, read_uint64,
  read_full,
}
use plus_quic_go.Wire.Float16.{read_ufloat16}

-- What a parser gives when it was handed `n` bytes, of which it takes at least `k`.
abbrev pub Takes : {A : Type 0} → ℕ → ℕ → Parsed A → Type 0
Takes {A} k n r = (a : A) (rest : List ℕ) → r ≡ ok (a, rest) → length rest + k ≤ n

pub ok-Takes : {A : Type 0} (a : A) (rest : List ℕ) → Takes 0 (length rest) (ok (a, rest))
ok-Takes a rest b rest' e = ground arith

pub err-Takes : {A : Type 0} (k n : ℕ) (e : Error) → let r : Parsed A = err e in Takes k n r
err-Takes k n e b rest p = ground arith

pub bind-Takes :
    {A B : Type 0} (k n : ℕ) (m : Parsed A) (f : A × List ℕ → Parsed B)
    → Takes k n m
    → ((a : A) (rest : List ℕ) → Takes 0 (length rest) (f (a, rest)))
    → Takes k n (m >>= f)
bind-Takes k n (ok (a, rest)) f h g b rest' e = omega (arith, h a rest refl, g a rest b rest' e)
bind-Takes k n (err x) f h g b rest' e = ground arith

pub check-Takes :
    {A : Type 0} (k n : ℕ) (b : Bool) (e : Error) (r : Parsed A)
    → Takes k n r
    → Takes k n (fail_if b e >> r)
check-Takes k n true e r h b rest p = ground arith
check-Takes k n false e r h b rest p = h b rest p

pub checks-Takes :
    {A : Type 0} (k n : ℕ) (b c : Bool) (e e' : Error) (r : Parsed A)
    → Takes k n r
    → Takes k n (fail_if b e >> fail_if c e' >> r)
checks-Takes k n true c e e' r h b rest p = ground arith
checks-Takes k n false true e e' r h b rest p = ground arith
checks-Takes k n false false e e' r h b rest p = h b rest p

pub if-Takes :
    {A : Type 0} (k n : ℕ) (b : Bool) (r s : Parsed A)
    → Takes k n r
    → Takes k n s
    → Takes k n (if b then r else s)
if-Takes k n true r s h g = h
if-Takes k n false r s h g = g

pub read_byte-Takes : (bs : List ℕ) → Takes 1 (length bs) (read_byte bs)
unfolding read_byte
read_byte-Takes [] a rest e = ground arith
read_byte-Takes (b ∷ bs) a rest e = ground arith

pub weaken-Takes : {A : Type 0} (k n : ℕ) (r : Parsed A) → Takes k n r → Takes 0 n r
weaken-Takes k n r h a rest e = omega (arith, h a rest e)

-- One more byte, and then `f`.
pub byte-Takes :
    {A : Type 0} (bs : List ℕ) (f : ℕ × List ℕ → Parsed A)
    → ((b : ℕ) (rest : List ℕ) → Takes 0 (length rest) (f (b, rest)))
    → Takes 0 (length bs) (read_byte bs >>= f)
byte-Takes bs f h =
    weaken-Takes 1 (length bs) (read_byte bs >>= f)
      (bind-Takes 1 (length bs) (read_byte bs) f (read_byte-Takes bs) h)

read_bytes_from-Takes :
    (i left res : ℕ) (bs : List ℕ) → Takes 0 (length bs) (read_bytes_from i left res bs)
unfolding read_bytes_from
read_bytes_from-Takes i zero res bs a rest e = ok-Takes res bs a rest e
read_bytes_from-Takes i (suc left) res [] a rest e = err-Takes 0 0 Error.eof a rest e
read_bytes_from-Takes i (suc left) res (b ∷ bs) a rest e =
    omega (arith, read_bytes_from-Takes (i + 1) left (res + b * 2 ^ (i * 8)) bs a rest e)

pub read_uint_n-Takes : (len : ℕ) (bs : List ℕ) → Takes 0 (length bs) (read_uint_n len bs)
unfolding read_uint_n
read_uint_n-Takes len bs = read_bytes_from-Takes 0 len 0 bs

pub read_uint16-Takes : (bs : List ℕ) → Takes 0 (length bs) (read_uint16 bs)
unfolding read_uint16
read_uint16-Takes bs = byte-Takes bs _ λ b1 bs. byte-Takes bs _ λ b2 bs. ok-Takes _ bs

pub read_uint32-Takes : (bs : List ℕ) → Takes 0 (length bs) (read_uint32 bs)
unfolding read_uint32
read_uint32-Takes bs = byte-Takes bs _ λ b1 bs.
    byte-Takes bs _ λ b2 bs. byte-Takes bs _ λ b3 bs. byte-Takes bs _ λ b4 bs. ok-Takes _ bs

pub read_uint64-Takes : (bs : List ℕ) → Takes 0 (length bs) (read_uint64 bs)
unfolding read_uint64
read_uint64-Takes bs = byte-Takes bs _ λ b1 bs. byte-Takes bs _ λ b2 bs. byte-Takes bs _ λ b3 bs.
    byte-Takes bs _ λ b4 bs. byte-Takes bs _ λ b5 bs.
      byte-Takes bs _ λ b6 bs. byte-Takes bs _ λ b7 bs. byte-Takes bs _ λ b8 bs. ok-Takes _ bs

pub read_ufloat16-Takes : (bs : List ℕ) → Takes 0 (length bs) (read_ufloat16 bs)
unfolding read_ufloat16
read_ufloat16-Takes bs =
    bind-Takes 0 (length bs) (read_uint16 bs) _ (read_uint16-Takes bs) λ v rest. ok-Takes _ rest

pub drop-Takes :
    {A : Type 0} (n : ℕ) (bs : List ℕ) (a : A) → Takes 0 (length bs) (ok (a, drop n bs))
drop-Takes n bs a b rest e = ground (arith, length-drop n bs)

pub read_full-Takes : (n : ℕ) (bs : List ℕ) → Takes 0 (length bs) (read_full n bs)
unfolding read_full
read_full-Takes n bs =
    if-Takes 0 (length bs) (ltb (length bs) n) _ _
      (if-Takes 0 (length bs) (ltb 0 (length bs)) _ _ (err-Takes 0 _ Error.unexpected_eof)
        (err-Takes 0 _ Error.eof))
      (drop-Takes n bs (take n bs))
