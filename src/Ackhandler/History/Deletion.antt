-- ===== src/Ackhandler/History/Deletion.antt =====
-- ackhandler/received_packet_history.go: DeleteBelow on the intervals and on the set.
use plus_quic_go.Base.{
  ℕ, zero, suc, ◌+◌, ◌-◌, ◌≤◌, ◌≡◌, refl, ◌&&◌, ◌||◌, Bool, List, [], ◌∷◌, none, ltb, leb,
  if◌then◌else◌, reverse_onto, arith,
}
use plus_quic_go.Base.Keyed.{lookup, delete, lookup-delete}
use plus_quic_go.Ackhandler.History.{PacketInterval, delete_range, delete_front}
use plus_quic_go.Ackhandler.History.Intervals.{IsDescending, covers}

-- From the front of the list: at `low` or above, below `high`, rising, and with a packet missing
-- between any two.
abbrev pub IsAscending : ℕ → ℕ → List PacketInterval → Type 0
IsAscending low high [] = low ≤ high
IsAscending low high (r ∷ rest) =
    (low ≤ r.start) × (r.start ≤ r.end) × IsAscending (r.end + 2) high rest

IsAscending-weaken :
    (low low' high : ℕ) (rs : List PacketInterval)
    → low' ≤ low
    → IsAscending low high rs
    → IsAscending low' high rs
IsAscending-weaken low low' high [] h a = omega arith
IsAscending-weaken low low' high (r ∷ rest) h a = (omega arith, a.1, a.2)

IsDescending-weaken :
    (bound bound' : ℕ) (rs : List PacketInterval)
    → bound ≤ bound'
    → IsDescending bound rs
    → IsDescending bound' rs
IsDescending-weaken bound bound' [] h d = tt
IsDescending-weaken bound bound' (r ∷ rest) h d = (d.0, omega arith, d.2)

pub reverse_onto-IsAscending :
    (bound high : ℕ) (rs acc : List PacketInterval)
    → IsDescending bound rs
    → IsAscending bound high acc
    → IsAscending 0 high (reverse_onto rs acc)
reverse_onto-IsAscending bound high [] acc d a = IsAscending-weaken bound 0 high acc (omega arith) a
reverse_onto-IsAscending bound high (r ∷ rest) acc d a =
    reverse_onto-IsAscending r.start high rest (r ∷ acc) d.2
      (omega arith, d.0, IsAscending-weaken bound (r.end + 2) high acc (omega arith) a)

pub reverse_onto-IsDescending :
    (low high : ℕ) (rs acc : List PacketInterval)
    → IsAscending low high rs
    → IsDescending low acc
    → IsDescending high (reverse_onto rs acc)
reverse_onto-IsDescending low high [] acc a d = IsDescending-weaken low high acc a d
reverse_onto-IsDescending low high (r ∷ rest) acc a d =
    reverse_onto-IsDescending (r.end + 2) high rest (r ∷ acc) a.2
      (a.1, omega arith, IsDescending-weaken low r.start acc a.0 d)

pub covers-reverse_onto :
    (q : ℕ) (rs acc : List PacketInterval)
    → covers q (reverse_onto rs acc) ≡ covers q rs || covers q acc
covers-reverse_onto q [] acc = refl
covers-reverse_onto q (r ∷ rest) acc = ground (arith, covers-reverse_onto q rest (r ∷ acc))

covers-above :
    (q low high : ℕ) (rs : List PacketInterval)
    → IsAscending low high rs
    → covers q rs ≡ leb low q && covers q rs
covers-above q low high [] a = ground arith
covers-above q low high (r ∷ rest) a = ground (arith, covers-above q (r.end + 2) high rest)

pub delete_front-IsAscending :
    (least low high : ℕ) (rs : List PacketInterval) (m : List (ℕ × Bool))
    → IsAscending low high rs
    → IsAscending low high (delete_front least rs m).0
unfolding delete_front
delete_front-IsAscending least low high [] m a = a
delete_front-IsAscending least low high (r ∷ rest) m a = ground (
  arith,
  delete_front-IsAscending least (r.end + 2) high rest (delete_range (least - r.start) r.start m),
  delete_front-IsAscending least (r.end + 2) high rest
      (delete_range (r.end + 1 - r.start) r.start m),
  IsAscending-weaken (r.end + 2) low high
      (delete_front least rest (delete_range (r.end + 1 - r.start) r.start m)).0,
)

pub covers-delete_front :
    (q least low high : ℕ) (rs : List PacketInterval) (m : List (ℕ × Bool))
    → IsAscending low high rs
    → covers q (delete_front least rs m).0 ≡ leb least q && covers q rs
unfolding delete_front
covers-delete_front q least low high [] m a = ground arith
covers-delete_front q least low high (r ∷ rest) m a = ground (
  arith,
  covers-above q (r.end + 2) high rest,
  covers-delete_front q least (r.end + 2) high rest (delete_range (least - r.start) r.start m),
  covers-delete_front q least (r.end + 2) high rest (delete_range (r.end + 1 - r.start) r.start m),
)

lookup-delete_range :
    (q n lo : ℕ) (m : List (ℕ × Bool))
    → lookup q (delete_range n lo m) ≡ (if leb lo q && ltb q (lo + n) then none else lookup q m)
unfolding delete_range
lookup-delete_range q zero lo m = ground arith
lookup-delete_range q (suc n) lo m =
    ground (arith, lookup-delete_range q n (lo + 1) (delete lo m), lookup-delete lo q m)

pub lookup-delete_front :
    (q least low high : ℕ) (rs : List PacketInterval) (m : List (ℕ × Bool))
    → IsAscending low high rs
    → lookup q (delete_front least rs m).1
      ≡ (if ltb q least && covers q rs then none else lookup q m)
unfolding delete_front
lookup-delete_front q least low high [] m a = ground arith
lookup-delete_front q least low high (r ∷ rest) m a = ground (
  arith,
  covers-above q (r.end + 2) high rest,
  lookup-delete_range q (least - r.start) r.start m,
  lookup-delete_range q (r.end + 1 - r.start) r.start m,
  lookup-delete_front q least (r.end + 2) high rest (delete_range (least - r.start) r.start m),
  lookup-delete_front q least (r.end + 2) high rest (delete_range (r.end + 1 - r.start) r.start m),
)
