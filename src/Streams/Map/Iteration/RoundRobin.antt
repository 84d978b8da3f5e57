-- ===== src/Streams/Map/Iteration/RoundRobin.antt =====
-- streams_map.go: the order in which RoundRobinIterate serves the streams.
use plus_quic_go.Base.{
  ℕ, zero, suc, ◌+◌, ◌%◌, ◌^◌, ◌<◌, ◌≡◌, refl, Bool, true, false, List, [], ◌∷◌, Option, none, some,
  ◌==◌, ◌||◌, length, get_elem?, drop, if◌then◌else◌, get_elem?-inside, sym, ◌∙◌, arith,
}
use plus_quic_go.Base.Rotation.{
  rotated, drop-get_elem?, drop-beyond, length-rotated, get_elem?-rotated,
}
use plus_quic_go.Base.Keyed.{lookup, keys}
use plus_quic_go.Base.Words.{add32}
use plus_quic_go.Streams.Map.{Error, StreamsMap}
use plus_quic_go.Streams.Map.Validity.{IsValid, length-keys}
use plus_quic_go.Streams.Map.Iteration.{
  StreamLambda, visit_found, iterate_func, rounds, with_index, prioritised, round_robin_iterate,
}

-- The ids without those of the crypto and the header stream.
abbrev pub others : List ℕ → List ℕ
others [] = []
others (x ∷ xs) = if (x == 1) || (x == 3) then others xs else x ∷ others xs

module _ {S T : Type 0} (g : S → T → T) where
  -- A callback that does `g`, and always goes on.
  abbrev pub always : StreamLambda S T
  always s t = ((true, none), g s t)

  abbrev pub serve_one : Option S → T → T
  serve_one none t = t
  serve_one (some s) t = g s t

  -- `g` for the streams of these ids, in this order.
  abbrev pub serve : StreamsMap S → List ℕ → T → T
  serve m [] t = t
  serve m (id ∷ ids) t = serve m ids (serve_one (lookup id m.streams) t)

lookup-get_elem?-keys :
    {S : Type 0} (k id : ℕ) (m : List (ℕ × S))
    → get_elem? k (keys m) ≡ some id
    → (s : S) × (lookup id m ≡ some s)
lookup-get_elem?-keys k id [] e = absurd (ground arith)
lookup-get_elem?-keys zero id ((j, s) ∷ m) e = (s, ground arith)
lookup-get_elem?-keys (suc k) id ((j, s) ∷ m) e = pick (j == id) (lookup-get_elem?-keys k id m e)
  where
    pick :
        (b : Bool)
        → ((t : _) × (lookup id m ≡ some t))
        → (t : _) × ((if b then some s else lookup id m) ≡ some t)
    pick true f = (s, refl)
    pick false f = f

lookup-listed :
    {S : Type 0} (k id : ℕ) (ids : List ℕ) (m : List (ℕ × S))
    → ids ≡ keys m
    → get_elem? k ids ≡ some id
    → (s : S) × (lookup id m ≡ some s)
lookup-listed k id ids m e q = lookup-get_elem?-keys k id m (rw e at q)

module _ {S T : Type 0} (g : S → T → T) (m : StreamsMap S) (v : IsValid m)
    (few : length m.open_streams < 2 ^ 31) where
  -- The streams in the order in which the second loop comes to them.
  abbrev schedule : List ℕ
  schedule = rotated m.round_robin_index m.open_streams

  -- One round, for whether the stream at hand is one of the two.
  branch :
      (b : Bool) (n i index x : ℕ) (t : T) (s : S)
      → lookup x m.streams ≡ some s
      → let r = rounds (length m.open_streams) n (i + 1) (always g) m index t in
        (r.0 ≡ none) × (r.2 ≡ serve g m (others (drop (i + 1) schedule)) t)
        → let r =
            rounds
              (length m.open_streams)
              n
              (i + 1)
              (always g)
              m
              (add32 index 1 % length m.open_streams)
              (g s t) in
          (r.0 ≡ none) × (r.2 ≡ serve g m (others (drop (i + 1) schedule)) (g s t))
          → let r : Option Error × ℕ × T = elim b [
            | true ↦ rounds (length m.open_streams) n (i + 1) (always g) m index t
            | false ↦
                let ((cont, e), t') = iterate_func x (always g) m t in
                elim e [
                  | some y ↦ (some y, index, t')
                  | none ↦ elim cont [
                    | true ↦
                        rounds
                          (length m.open_streams)
                          n
                          (i + 1)
                          (always g)
                          m
                          (add32 index 1 % length m.open_streams)
                          t'
                    | false ↦ (none, add32 index 1 % length m.open_streams, t')
                  ]
                ]
          ] in
            (r.0 ≡ none)
            × (r.2
                ≡ serve g m
                    (if b
                      then others (drop (i + 1) schedule)
                      else x ∷ others (drop (i + 1) schedule))
                    t)
  unfolding iterate_func visit_found
  branch true n i index x t s f skip go = skip
  branch false n i index x t s f skip go =
      let e : serve g m (x ∷ others (drop (i + 1) schedule)) t
          ≡ serve g m (others (drop (i + 1) schedule)) (g s t) =
        rw (serve, f) refl in
      rw (f, f, f) (go.0, go.1 ∙ sym e)

  rounds-serve :
      (n i index : ℕ) (t : T)
      → i + n ≡ length m.open_streams
      → let r = rounds (length m.open_streams) n i (always g) m index t in
        (r.0 ≡ none) × (r.2 ≡ serve g m (others (drop i schedule)) t)
  unfolding rounds iterate_func visit_found
  rounds-serve zero i index t e =
      let l = length-rotated m.round_robin_index m.open_streams v.index_le in
      let d = drop-beyond i schedule (omega (arith, l)) in (refl, rw d refl)
  rounds-serve (suc n) i index t e =
      let l = length-rotated m.round_robin_index m.open_streams v.index_le in
      let (x, q) = get_elem?-inside i schedule (omega (arith, l)) in
      let a = get_elem?-rotated m.round_robin_index i m.open_streams v.index_le (omega arith) in
      let w : add32 i m.round_robin_index ≡ i + m.round_robin_index = omega (arith, v.index_le) in
      let k : get_elem? ((i + m.round_robin_index) % length m.open_streams) m.open_streams
          ≡ some x =
        sym a ∙ q in
      let f =
        lookup-listed ((i + m.round_robin_index) % length m.open_streams) x m.open_streams m.streams
          v.listed k in
      let d : drop i schedule ≡ x ∷ drop (i + 1) schedule =
        (let j : i + 1 ≡ suc i = omega arith in rw j (drop-get_elem? i x schedule q)) in
      rw (rounds, w, k, d)
        (branch ((x == 1) || (x == 3)) n i index x t f.0 f.1
          (rounds-serve n (i + 1) index t (omega arith))
          (rounds-serve n (i + 1) (add32 index 1 % length m.open_streams) (g f.0 t) (omega arith)))

  prioritised-serve :
      (t : T)
      → let ((m', e), t') = prioritised [] (always g) m t in
        (e ≡ none) × (t' ≡ serve g m (others schedule) t)
  unfolding prioritised with_index
  prioritised-serve t =
      let l : length m.streams ≡ length m.open_streams =
        sym (length-keys m.open_streams m.streams v.listed) in
      rw l (rounds-serve (length m.open_streams) 0 m.round_robin_index t (omega arith))

  prioritised-visit :
      (found : Option S) (id : ℕ) (ids : List ℕ) (t : T)
      → lookup id m.streams ≡ found
      → prioritised (id ∷ ids) (always g) m t
        ≡ prioritised ids (always g) m (serve_one g (lookup id m.streams) t)
  unfolding prioritised iterate_func visit_found
  prioritised-visit none id ids t e = rw (prioritised, e, e, e) refl
  prioritised-visit (some s) id ids t e = rw (prioritised, e, e, e) refl

  -- With a callback that always goes on, RoundRobinIterate meets no error, and serves the crypto
  -- stream, the header stream, and then every other open stream once, in the order of their opening
  -- from the round robin index on and around to it. The map is valid and has fewer than 2^31 streams.
  pub round_robin_iterate-serve :
      (t : T)
      → let ((m', e), t') = round_robin_iterate (always g) m t in
        (e ≡ none)
        × (t' ≡ serve g m (1 ∷ 3 ∷ others (rotated m.round_robin_index m.open_streams)) t)
  unfolding round_robin_iterate
  round_robin_iterate-serve t =
      let t₁ = serve_one g (lookup 1 m.streams) t in
      rw
        (
          prioritised-visit (lookup 1 m.streams) 1 (3 ∷ []) t refl,
          prioritised-visit (lookup 3 m.streams) 3 [] t₁ refl,
        )
        (prioritised-serve (serve_one g (lookup 3 m.streams) t₁))
