-- ===== src/Streams/Map/Counts.antt =====
-- streams_map.go: the open streams, counted by the parity of their ids.
use plus_quic_go.Base.{
  ℕ, ◌+◌, ◌%◌, ◌≤◌, ◌<◌, ◌≡◌, ◌≢◌, refl, ◌⊎◌, inl, inr, List, [], ◌∷◌, none, some, ◌==◌,
  if◌then◌else◌, length, arith,
}
use plus_quic_go.Base.Keyed.{lookup, insert, delete, keys, IsDistinct, delete-absent}
use plus_quic_go.Streams.Map.{Perspective, server, client, remove_open}

-- The parity of the ids that this side opens.
abbrev pub own_parity : Perspective → ℕ
own_parity server = 0
own_parity client = 1

-- An id of this side lies below the next one to open, and one of the peer is not above the highest.
abbrev pub IsBelow : Perspective → ℕ → ℕ → ℕ → Type 0
IsBelow pers next highest id =
    ((id % 2 ≡ own_parity pers) × (id < next)) ⊎ ((id % 2 ≢ own_parity pers) × (id ≤ highest))

module _ {S : Type 0} where
  -- The number of ids whose remainder modulo 2 is `r`.
  abbrev pub count_parity : ℕ → List (ℕ × S) → ℕ
  count_parity r [] = 0
  count_parity r ((id, s) ∷ m) = (if id % 2 == r then 1 else 0) + count_parity r m

  abbrev pub AllBelow : Perspective → ℕ → ℕ → List (ℕ × S) → Type 0
  AllBelow pers next highest [] = 0 ≤ 0
  AllBelow pers next highest ((id, s) ∷ m) =
      IsBelow pers next highest id × AllBelow pers next highest m

  pub count_parity-insert :
      (r id : ℕ) (s : S) (m : List (ℕ × S))
      → lookup id m ≡ none
      → count_parity r (insert id s m) ≡ count_parity r m + (if id % 2 == r then 1 else 0)
  count_parity-insert r id s [] e = omega arith
  count_parity-insert r id s ((j, t) ∷ m) e = ground (arith, count_parity-insert r id s m)

  pub count_parity-delete :
      (r id : ℕ) (s : S) (m : List (ℕ × S))
      → lookup id m ≡ some s
      → IsDistinct m
      → count_parity r (delete id m) + (if id % 2 == r then 1 else 0) ≡ count_parity r m
  count_parity-delete r id s [] e d = absurd (ground arith)
  count_parity-delete r id s ((j, t) ∷ m) e d =
      ground (arith, count_parity-delete r id s m, delete-absent id m)

  pub AllBelow-insert :
      (pers : Perspective) (next highest id : ℕ) (s : S) (m : List (ℕ × S))
      → IsBelow pers next highest id
      → AllBelow pers next highest m
      → AllBelow pers next highest (insert id s m)
  AllBelow-insert pers next highest id s [] b a = (b, omega arith)
  AllBelow-insert pers next highest id s ((j, t) ∷ m) b a =
      ground (arith, AllBelow-insert pers next highest id s m b a.1)

  pub AllBelow-delete :
      (pers : Perspective) (next highest id : ℕ) (m : List (ℕ × S))
      → AllBelow pers next highest m
      → AllBelow pers next highest (delete id m)
  AllBelow-delete pers next highest id [] a = omega arith
  AllBelow-delete pers next highest id ((j, t) ∷ m) a =
      ground (arith, AllBelow-delete pers next highest id m a.1)

  pub AllBelow-weaken :
      (pers : Perspective) (next highest next' highest' : ℕ) (m : List (ℕ × S))
      → next ≤ next'
      → highest ≤ highest'
      → AllBelow pers next highest m
      → AllBelow pers next' highest' m
  AllBelow-weaken pers next highest next' highest' [] h k a = omega arith
  AllBelow-weaken pers next highest next' highest' ((j, t) ∷ m) h k a = (
    elim a.0 [ inl b ↦ inl (b.0, omega arith) | inr b ↦ inr (b.0, omega arith) ],
    AllBelow-weaken pers next highest next' highest' m h k a.1,
  )

  -- An id that is not below has no stream.
  pub lookup-AllBelow :
      (pers : Perspective) (next highest id : ℕ) (m : List (ℕ × S))
      → ((id % 2 ≡ own_parity pers) × (next ≤ id)) ⊎ ((id % 2 ≢ own_parity pers) × (highest < id))
      → AllBelow pers next highest m
      → lookup id m ≡ none
  lookup-AllBelow pers next highest id [] b a = refl
  lookup-AllBelow pers next highest id ((j, t) ∷ m) b a =
      ground (arith, lookup-AllBelow pers next highest id m b a.1)

  pub remove_open-keys :
      (id i index : ℕ) (s : S) (m : List (ℕ × S))
      → lookup id m ≡ some s
      → IsDistinct m
      → index ≤ i + length (keys m)
      → let (rest, index') = remove_open id i index (keys m) in
        (rest ≡ keys (delete id m)) × (index' ≤ i + length rest)
  unfolding remove_open
  remove_open-keys id i index s [] e d h = absurd (ground arith)
  remove_open-keys id i index s ((j, t) ∷ m) e d h =
      ground (arith, remove_open-keys id (i + 1) index s m, delete-absent id m)
