-- ===== src/Ackhandler/History/Intervals.antt =====
-- ackhandler/received_packet_history.go: the intervals stay apart and sorted, and cover what was
-- received.
use plus_quic_go.Base.{
  ℕ, ◌+◌, ◌^◌, ◌≤◌, ◌<◌, ◌≡◌, ◌&&◌, ◌||◌, Bool, false, List, [], ◌∷◌, leb, ◌==◌, arith,
}
use plus_quic_go.Ackhandler.History.{PacketInterval, merge_with_prev, insert_back}

-- From the back of the list: below `bound`, falling, and with a packet missing between any two.
abbrev pub IsDescending : ℕ → List PacketInterval → Type 0
IsDescending bound [] = Unit {0}
IsDescending bound (r ∷ rest) = (r.start ≤ r.end) × (r.end + 1 < bound) × IsDescending r.start rest

abbrev pub covers : ℕ → List PacketInterval → Bool
covers q [] = false
covers q (r ∷ rest) = (leb r.start q && leb q r.end) || covers q rest

pub insert_back-IsDescending :
    (p bound : ℕ) (rs : List PacketInterval)
    → 0 < p
    → p + 1 < bound
    → bound ≤ 2 ^ 64
    → IsDescending bound rs
    → IsDescending bound (insert_back p rs)
unfolding insert_back merge_with_prev
insert_back-IsDescending p bound [] h0 h1 h2 d = omega arith
insert_back-IsDescending p bound (r ∷ []) h0 h1 h2 d = ground arith
insert_back-IsDescending p bound (r ∷ prev ∷ rest) h0 h1 h2 d =
    ground (arith, insert_back-IsDescending p r.start (prev ∷ rest))

covers-merge_with_prev :
    (q bound : ℕ) (r : PacketInterval) (rest : List PacketInterval)
    → r.start ≤ r.end
    → bound ≤ r.start + 1
    → bound ≤ 2 ^ 64
    → IsDescending bound rest
    → covers q (merge_with_prev r rest) ≡ covers q (r ∷ rest)
unfolding merge_with_prev
covers-merge_with_prev q bound r [] h0 h1 h2 d = ground arith
covers-merge_with_prev q bound r (prev ∷ rest) h0 h1 h2 d = ground arith

pub covers-insert_back :
    (p q bound : ℕ) (rs : List PacketInterval)
    → 0 < p
    → p + 1 < bound
    → bound ≤ 2 ^ 64
    → IsDescending bound rs
    → covers q (insert_back p rs) ≡ (q == p) || covers q rs
unfolding insert_back
covers-insert_back p q bound [] h0 h1 h2 d = ground arith
covers-insert_back p q bound (r ∷ rest) h0 h1 h2 d = ground (
  arith,
  covers-merge_with_prev q r.start (record r { end = p }) rest,
  covers-merge_with_prev q r.start (record r { start = p }) rest,
  covers-insert_back p q r.start rest,
)
