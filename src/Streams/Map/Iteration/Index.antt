-- ===== src/Streams/Map/Iteration/Index.antt =====
-- streams_map.go: RoundRobinIterate moves the round robin index, and nothing else of the map.
use plus_quic_go.Base.{
  ℕ, zero, suc, ◌+◌, ◌%◌, ◌≤◌, ◌<◌, Bool, true, false, List, [], ◌∷◌, Option, none, some, ◌==◌,
  ◌||◌, length, get_elem?, arith,
}
use native.Mathlib.Nat.{mod-lt}
use plus_quic_go.Base.Words.{add32}
use plus_quic_go.Streams.Map.{Error, StreamsMap}
use plus_quic_go.Streams.Map.Validity.{IsValid, length-keys}
use plus_quic_go.Streams.Map.Iteration.{
  StreamLambda, is_fatal, iterate_func, rounds, with_index, prioritised, round_robin_iterate,
}

below : {a b : ℕ} → a < b → a ≤ b
below h = omega arith

abbrev Within : (T : Type 0) → ℕ → Option Error × ℕ × T → Type 0
Within T bound (e, index, t) = index ≤ bound

module _ {S T : Type 0} (fn : StreamLambda S T) (m : StreamsMap S) where
  -- One round, with what the rounds behind it do.
  module _ (n bound i index : ℕ) (t : T) (h : index ≤ bound) (moved : add32 index 1 % bound ≤ bound)
      (skip : Within T bound (rounds bound n (i + 1) fn m index t))
      (go : (t' : T)
        → Within T bound (rounds bound n (i + 1) fn m (add32 index 1 % bound) t')) where
    visited :
        (r : (Bool × Option Error) × T)
        → Within T bound (elim r.0.1 [
          | some x ↦ (some x, index, r.1)
          | none ↦ elim r.0.0 [
            | true ↦ rounds bound n (i + 1) fn m (add32 index 1 % bound) r.1
            | false ↦ (none, add32 index 1 % bound, r.1)
          ]
        ])
    visited ((cont, some x), t') = h
    visited ((true, none), t') = go t'
    visited ((false, none), t') = moved

    chosen :
        (b : Bool) (id : ℕ)
        → Within T bound (elim b [
          | true ↦ rounds bound n (i + 1) fn m index t
          | false ↦
              let ((cont, e), t') = iterate_func id fn m t in
              elim e [
                | some x ↦ (some x, index, t')
                | none ↦ elim cont [
                  | true ↦ rounds bound n (i + 1) fn m (add32 index 1 % bound) t'
                  | false ↦ (none, add32 index 1 % bound, t')
                ]
              ]
        ])
    chosen true id = skip
    chosen false id = visited (iterate_func id fn m t)

    round-Within : Within T bound (rounds bound (suc n) i fn m index t)
    unfolding rounds
    round-Within = found (get_elem? (add32 i m.round_robin_index % bound) m.open_streams)
      where
        found :
            (o : Option ℕ)
            → Within T bound (elim o [
              | none ↦ (some Error.index_out_of_range, index, t)
              | some id ↦ elim ((id == 1) || (id == 3)) [
                | true ↦ rounds bound n (i + 1) fn m index t
                | false ↦
                    let ((cont, e), t') = iterate_func id fn m t in
                    elim e [
                      | some x ↦ (some x, index, t')
                      | none ↦ elim cont [
                        | true ↦ rounds bound n (i + 1) fn m (add32 index 1 % bound) t'
                        | false ↦ (none, add32 index 1 % bound, t')
                      ]
                    ]
              ]
            ])
        found none = h
        found (some id) = chosen ((id == 1) || (id == 3)) id

  rounds-Within :
      (n bound i index : ℕ) (t : T)
      → n ≤ bound
      → index ≤ bound
      → Within T bound (rounds bound n i fn m index t)
  unfolding rounds
  rounds-Within zero bound i index t l h = h
  rounds-Within (suc n) bound i index t l h =
      let moved : add32 index 1 % bound ≤ bound = below (mod-lt (add32 index 1) (omega arith)) in
      round-Within n bound i index t h moved (rounds-Within n bound (i + 1) index t (omega arith) h)
        (λ t'. rounds-Within n bound (i + 1) (add32 index 1 % bound) t' (omega arith) moved)

  module _ (v : IsValid m) where
    with_index-IsValid :
        (r : Option Error × ℕ × T)
        → Within T (length m.open_streams) r
        → IsValid (with_index m r).0.0
    unfolding with_index
    with_index-IsValid r l = record {
      listed = v.listed;
      distinct = v.distinct;
      outgoing_counted = v.outgoing_counted;
      incoming_counted = v.incoming_counted;
      below = v.below;
      next_parity = v.next_parity;
      highest_parity = v.highest_parity;
      index_le = l;
    }

    visit :
        (fatal cont : Bool) (e : Option Error) (rest : (StreamsMap S × Option Error) × T) (t : T)
        → IsValid rest.0.0
        → IsValid
            (elim fatal as (λ b. (StreamsMap S × Option Error) × T) [
              | true ↦ ((m, e), t)
              | false ↦ elim cont as (λ b. (StreamsMap S × Option Error) × T) [
                | true ↦ rest
                | false ↦ ((m, none), t)
              ]
            ]).0.0
    visit true cont e rest t k = v
    visit false true e rest t k = k
    visit false false e rest t k = v

    prioritised-IsValid : (ids : List ℕ) (t : T) → IsValid (prioritised ids fn m t).0.0
    unfolding prioritised
    prioritised-IsValid [] t =
        let e = length-keys m.open_streams m.streams v.listed in
        with_index-IsValid
          (rounds (length m.streams) (length m.streams) 0 fn m m.round_robin_index t)
          (rw e (
            rounds-Within (length m.streams) (length m.streams) 0 m.round_robin_index t
              (omega arith) (rw e at v.index_le)))
    prioritised-IsValid (id ∷ ids) t =
        let r = iterate_func id fn m t in
        visit (is_fatal r.0.1) r.0.0 r.0.1 (prioritised ids fn m r.1) r.1
          (prioritised-IsValid ids r.1)

    pub round_robin_iterate-IsValid : (t : T) → IsValid (round_robin_iterate fn m t).0.0
    unfolding round_robin_iterate
    round_robin_iterate-IsValid t = prioritised-IsValid (1 ∷ 3 ∷ []) t
