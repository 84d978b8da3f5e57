-- ===== src/Wire/Errors.antt =====
-- What a chain of reads that succeeds went through, and which errors a chain cannot have.
use plus_quic_go.Base.{
  ℕ, zero, suc, ◌+◌, ◌*◌, ◌^◌, ◌≡◌, refl, ◌≢◌, List, [], ◌∷◌, Bool, true, false, ok, err, ◌>>=◌,
  ◌>>◌, fail_if, if◌then◌else◌, arith,
}
use plus_quic_go.Wire.{
  Error, Parsed, read_byte, read_bytes_from, read_uint_n, read_uint16, read_uint32,
}
use plus_quic_go.Wire.Float16.{read_ufloat16}

pub bind-ok :
    {A B : Type 0} (m : Parsed A) (f : A × List ℕ → Parsed B) (b : B × List ℕ)
    → m >>= f ≡ ok b
    → (a : A × List ℕ) × (m ≡ ok a) × (f a ≡ ok b)
bind-ok (ok a) f b e = (a, refl, e)
bind-ok (err x) f b e = absurd (ground arith)

-- A value that is returned satisfies `P`.
abbrev pub Ensures : {A : Type 0} → (A → Type 0) → Parsed A → Type 0
Ensures {A} P r = (a : A) (rest : List ℕ) → r ≡ ok (a, rest) → P a

pub bind-Ensures :
    {A B : Type 0} (P : B → Type 0) (m : Parsed A) (f : A × List ℕ → Parsed B)
    → ((a : A) (rest : List ℕ) → m ≡ ok (a, rest) → Ensures P (f (a, rest)))
    → Ensures P (m >>= f)
bind-Ensures P (ok (a, rest)) f h b rest' e = h a rest refl b rest' e
bind-Ensures P (err x) f h b rest' e = absurd (ground arith)

pub check-Ensures :
    {A : Type 0} (P : A → Type 0) (c : Bool) (e : Error) (r : Parsed A)
    → (c ≡ false → Ensures P r)
    → Ensures P (fail_if c e >> r)
check-Ensures P true e r h b rest p = absurd (ground arith)
check-Ensures P false e r h b rest p = h refl b rest p

pub checks-Ensures :
    {A : Type 0} (P : A → Type 0) (c d : Bool) (e e' : Error) (r : Parsed A)
    → (c ≡ false → d ≡ false → Ensures P r)
    → Ensures P (fail_if c e >> fail_if d e' >> r)
checks-Ensures P true d e e' r h b rest p = absurd (ground arith)
checks-Ensures P false true e e' r h b rest p = absurd (ground arith)
checks-Ensures P false false e e' r h b rest p = h refl refl b rest p

-- A result that is no run out of the range of a slice.
abbrev pub InRange : {A : Type 0} → Parsed A → Type 0
InRange {A} r = r ≢ err Error.index_out_of_range

pub bind-InRange :
    {A B : Type 0} (m : Parsed A) (f : A × List ℕ → Parsed B)
    → InRange m
    → ((a : A) (rest : List ℕ) → m ≡ ok (a, rest) → InRange (f (a, rest)))
    → InRange (m >>= f)
bind-InRange (ok (a, rest)) f h g = g a rest refl
bind-InRange (err x) f h g = λ e. h (ground arith)

pub ok-InRange : {A : Type 0} (a : A × List ℕ) → let r : Parsed A = ok a in InRange r
ok-InRange a = λ e. ground arith

pub check-InRange :
    {A : Type 0} (c : Bool) (e : Error) (r : Parsed A)
    → e ≢ Error.index_out_of_range
    → (c ≡ false → InRange r)
    → InRange (fail_if c e >> r)
check-InRange true e r n h = λ p. n (ground arith)
check-InRange false e r n h = h refl

pub checks-InRange :
    {A : Type 0} (c d : Bool) (e e' : Error) (r : Parsed A)
    → e ≢ Error.index_out_of_range
    → e' ≢ Error.index_out_of_range
    → InRange r
    → InRange (fail_if c e >> fail_if d e' >> r)
checks-InRange true d e e' r n n' h = λ p. n (ground arith)
checks-InRange false true e e' r n n' h = λ p. n' (ground arith)
checks-InRange false false e e' r n n' h = h

pub if-InRange :
    {A : Type 0} (b : Bool) (r s : Parsed A)
    → (b ≡ true → InRange r)
    → (b ≡ false → InRange s)
    → InRange (if b then r else s)
if-InRange true r s h g = h refl
if-InRange false r s h g = g refl

pub read_byte-InRange : (bs : List ℕ) → InRange (read_byte bs)
unfolding read_byte
read_byte-InRange [] = λ e. ground arith
read_byte-InRange (b ∷ bs) = λ e. ground arith

-- One more byte, and then `f`.
pub byte-InRange :
    {A : Type 0} (bs : List ℕ) (f : ℕ × List ℕ → Parsed A)
    → ((b : ℕ) (rest : List ℕ) → InRange (f (b, rest)))
    → InRange (read_byte bs >>= f)
byte-InRange bs f h = bind-InRange (read_byte bs) f (read_byte-InRange bs) λ b rest e. h b rest

read_bytes_from-InRange : (i left res : ℕ) (bs : List ℕ) → InRange (read_bytes_from i left res bs)
unfolding read_bytes_from
read_bytes_from-InRange i zero res bs = λ e. ground arith
read_bytes_from-InRange i (suc left) res [] = λ e. ground arith
read_bytes_from-InRange i (suc left) res (b ∷ bs) =
    read_bytes_from-InRange (i + 1) left (res + b * 2 ^ (i * 8)) bs

pub read_uint_n-InRange : (len : ℕ) (bs : List ℕ) → InRange (read_uint_n len bs)
unfolding read_uint_n
read_uint_n-InRange len bs = read_bytes_from-InRange 0 len 0 bs

pub read_uint16-InRange : (bs : List ℕ) → InRange (read_uint16 bs)
unfolding read_uint16
read_uint16-InRange bs = byte-InRange bs _ λ b1 bs. byte-InRange bs _ λ b2 bs. ok-InRange _

pub read_uint32-InRange : (bs : List ℕ) → InRange (read_uint32 bs)
unfolding read_uint32
read_uint32-InRange bs = byte-InRange bs _ λ b1 bs.
    byte-InRange bs _ λ b2 bs. byte-InRange bs _ λ b3 bs. byte-InRange bs _ λ b4 bs. ok-InRange _

pub read_ufloat16-InRange : (bs : List ℕ) → InRange (read_ufloat16 bs)
unfolding read_ufloat16
read_ufloat16-InRange bs =
    bind-InRange (read_uint16 bs) _ (read_uint16-InRange bs) λ v rest e. ok-InRange _
