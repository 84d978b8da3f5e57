-- ===== src/Streams/Map/Iteration.antt =====
-- streams_map.go: Iterate and RoundRobinIterate. The callback may change the state of its caller, the
-- streams included, which is of a type `T`; that of RoundRobinIterate does not change the map, and that
-- of Iterate may remove streams.
pub mod RoundRobin
pub mod Index
use plus_quic_go.Base.{
  ℕ, zero, suc, ◌+◌, ◌%◌, Bool, true, false, List, [], ◌∷◌, Option, none, some, ◌==◌, ◌||◌, length,
  get_elem?,
}
use plus_quic_go.Base.Keyed.{lookup}
use plus_quic_go.Base.Words.{add32}
use plus_quic_go.Streams.Map.{Error, map_access, index_out_of_range, StreamsMap}

-- What a streamLambda does to the state of its caller, of type `T`, with a stream: whether to go on,
-- and an error.
abbrev pub StreamLambda : Type 0 → Type 0 → Type 0
StreamLambda S T = S → T → (Bool × Option Error) × T

-- The errors of a streamLambda that RoundRobinIterate passes on for the prioritised streams.
abbrev pub is_fatal : Option Error → Bool
is_fatal none = false
is_fatal (some map_access) = false
is_fatal (some e) = true

module _ {S T : Type 0} where
  unfoldable pub visit_found : Option S → StreamLambda S T → T → (Bool × Option Error) × T
  visit_found none fn t = ((true, some map_access), t)
  visit_found (some s) fn t = fn s t

  -- iterateFunc
  unfoldable pub iterate_func : ℕ → StreamLambda S T → StreamsMap S → T → (Bool × Option Error) × T
  unfolding visit_found
  iterate_func id fn m t = visit_found (lookup id m.streams) fn t

  -- The loop of RoundRobinIterate over the other streams, for `n` rounds from round `i`, of
  -- `num_streams`. The results are the error, the new round robin index and the caller's state.
  unfoldable pub rounds : ℕ → ℕ → ℕ → StreamLambda S T → StreamsMap S → ℕ → T → Option Error × ℕ × T
  rounds num_streams zero i fn m index t = (none, index, t)
  rounds num_streams (suc n) i fn m index t =
      elim (get_elem? (add32 i m.round_robin_index % num_streams) m.open_streams) [
        | none ↦ (some index_out_of_range, index, t)
        | some id ↦ elim ((id == 1) || (id == 3)) [
          | true ↦ rounds num_streams n (i + 1) fn m index t
          | false ↦
              let ((cont, e), t') = iterate_func id fn m t in
              elim e [
                | some x ↦ (some x, index, t')
                | none ↦ elim cont [
                  | true ↦ rounds num_streams n (i + 1) fn m (add32 index 1 % num_streams) t'
                  | false ↦ (none, add32 index 1 % num_streams, t')
                ]
              ]
        ]
      ]

  unfoldable pub with_index :
      StreamsMap S → Option Error × ℕ × T → (StreamsMap S × Option Error) × T
  with_index m (e, index, t) = ((record m { round_robin_index = index }, e), t)

  -- RoundRobinIterate, first the loop over the prioritised streams, of which `ids` are left.
  unfoldable pub prioritised :
      List ℕ → StreamLambda S T → StreamsMap S → T → (StreamsMap S × Option Error) × T
  unfolding rounds with_index
  prioritised [] fn m t =
      with_index m (rounds (length m.streams) (length m.streams) 0 fn m m.round_robin_index t)
  prioritised (id ∷ ids) fn m t =
      let ((cont, e), t') = iterate_func id fn m t in
      elim (is_fatal e) [
        | true ↦ ((m, e), t')
        | false ↦ elim cont [ true ↦ prioritised ids fn m t' | false ↦ ((m, none), t') ]
      ]

  unfoldable pub round_robin_iterate :
      StreamLambda S T → StreamsMap S → T → (StreamsMap S × Option Error) × T
  unfolding prioritised
  round_robin_iterate fn m t = prioritised (1 ∷ 3 ∷ []) fn m t

-- The callback of Iterate may remove streams, so that the map is a part of the state that it is given.
module _ {S T : Type 0} where
  -- The loop of Iterate over its copy of the open streams.
  unfoldable pub iterate_over :
      List ℕ
      → StreamLambda S (StreamsMap S × T)
      → StreamsMap S × T
      → Option Error × (StreamsMap S × T)
  iterate_over [] fn s = (none, s)
  iterate_over (id ∷ ids) fn s =
      let ((cont, e), s') = iterate_func id fn s.0 s in
      elim e [
        | some x ↦ (some x, s')
        | none ↦ elim cont [ true ↦ iterate_over ids fn s' | false ↦ (none, s') ]
      ]

  -- Iterate
  unfoldable pub iterate :
      StreamLambda S (StreamsMap S × T) → StreamsMap S × T → Option Error × (StreamsMap S × T)
  unfolding iterate_over
  iterate fn s = iterate_over s.0.open_streams fn s
