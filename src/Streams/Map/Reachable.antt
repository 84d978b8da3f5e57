-- ===== src/Streams/Map/Reachable.antt =====
-- streams_map.go: the calls of the map, and the states that they reach.
use plus_quic_go.Base.{
  ℕ, ◌+◌, ◌^◌, ◌≤◌, ◌<◌, ◌≡◌, refl, ◌⊎◌, inl, inr, List, [], ◌∷◌, Bool, true, false, Option, none,
  some, leb, Result, ok, err, arith,
}
use plus_quic_go.Base.Keyed.{lookup}
use plus_quic_go.Streams.Map.{
  Perspective, Error, StreamLimits, StreamFactory, StreamsMap, new_streams_map, get_or_open_stream,
  count_local, add_local, open_stream_impl, open_unless_closed, open_stream, waiting_at_limit,
  open_stream_sync, too_many_open_streams, invalid_stream_id, map_access, stream_does_not_exist,
  closed, failed, index_out_of_range, remove_found, remove_stream, accepting, accept_stream,
  close_with_error,
}
use plus_quic_go.Streams.Map.Counts.{lookup-AllBelow}
use plus_quic_go.Streams.Map.Validity.{new_streams_map-IsValid, IsValid, Holds-local, Holds-remove}
use plus_quic_go.Streams.Map.Runs.{IsFaithful, if-intro, put_stream-fresh}
use plus_quic_go.Streams.Map.Iteration.{
  StreamLambda, visit_found, iterate_func, iterate_over, iterate, round_robin_iterate,
}
use plus_quic_go.Streams.Map.Iteration.Index.{round_robin_iterate-IsValid}
use plus_quic_go.Streams.Map.Opening.{found_or_open-IsValid}

module _ {S : Type 0} (fac : StreamFactory S) (law : IsFaithful fac) where
  add_local-IsValid :
      (r : Result Error S) (m : StreamsMap S)
      → fac.create m.next_stream ≡ r
      → IsValid m
      → m.next_stream + 2 < 2 ^ 32
      → IsValid (add_local fac r m).0
  unfolding add_local count_local
  add_local-IsValid (err e) m c v small = v
  add_local-IsValid (ok s) m c v small =
      let fresh =
        lookup-AllBelow m.perspective m.next_stream m.highest_stream_opened_by_peer m.next_stream
          m.streams (inl (v.next_parity, omega arith)) v.below in
      let e = put_stream-fresh fac law m.next_stream s (count_local m) c fresh in
      rw e (
        Holds-local m.perspective m.next_stream m.highest_stream_opened_by_peer
          m.num_outgoing_streams m.num_incoming_streams m.round_robin_index s m.streams
          m.open_streams v small)

  pub open_unless_closed-IsValid :
      (closed : Option ℕ) (limits : StreamLimits) (m : StreamsMap S)
      → IsValid m
      → m.next_stream + 2 < 2 ^ 32
      → IsValid (open_unless_closed closed fac limits m).0
  unfolding open_unless_closed open_stream_impl
  open_unless_closed-IsValid (some e) limits m v small = v
  open_unless_closed-IsValid none limits m v small =
      if-intro (λ (r : StreamsMap S × Result Error S). IsValid r.0)
        (leb limits.max_outgoing m.num_outgoing_streams) _ _ (λ t. v)
        (λ t. add_local-IsValid (fac.create m.next_stream) m refl v small)

abbrev AllOk : {S : Type 0} → Result Error (StreamsMap S) → Type 0
AllOk (ok m) = IsValid m
AllOk (err e) = 0 ≤ 0

abbrev AllSome : {S : Type 0} → Option (StreamsMap S × Result Error S) → Type 0
AllSome (some (m, r)) = IsValid m
AllSome none = 0 ≤ 0

remove_found-AllOk :
    {S : Type 0} (found : Option S) (id : ℕ) (m : StreamsMap S)
    → lookup id m.streams ≡ found
    → IsValid m
    → AllOk (remove_found found id m)
unfolding remove_found
remove_found-AllOk none id m f v = omega arith
remove_found-AllOk (some s) id m f v =
    Holds-remove m.perspective m.next_stream m.highest_stream_opened_by_peer m.num_outgoing_streams
      m.num_incoming_streams m.round_robin_index id s m.streams m.open_streams v f

accepting-AllSome :
    {S : Type 0} (closed : Option ℕ) (found : Option S) (m : StreamsMap S)
    → IsValid m
    → AllSome (accepting closed found m)
unfolding accepting
accepting-AllSome (some e) found m v = v
accepting-AllSome none none m v = omega arith
accepting-AllSome none (some s) m v = v

waiting_at_limit-AllSome :
    {S : Type 0} (r : StreamsMap S × Result Error S) → IsValid r.0 → AllSome (waiting_at_limit r)
unfolding waiting_at_limit
waiting_at_limit-AllSome (m, err too_many_open_streams) v = omega arith
waiting_at_limit-AllSome (m, err invalid_stream_id) v = v
waiting_at_limit-AllSome (m, err map_access) v = v
waiting_at_limit-AllSome (m, err stream_does_not_exist) v = v
waiting_at_limit-AllSome (m, err (closed n)) v = v
waiting_at_limit-AllSome (m, err (failed n)) v = v
waiting_at_limit-AllSome (m, err index_out_of_range) v = v
waiting_at_limit-AllSome (m, ok s) v = v

-- A callback of Iterate that changes the map by RemoveStream, or not at all.
abbrev pub IsRemoving : {S T : Type 0} → StreamLambda S (StreamsMap S × T) → Type 0
IsRemoving {S} {T} fn =
    (str : S) (s : StreamsMap S × T)
    → ((fn str s).1.0 ≡ s.0) ⊎ ((id : ℕ) × (remove_stream id s.0 ≡ ok (fn str s).1.0))

module _ {S T : Type 0} (fn : StreamLambda S (StreamsMap S × T)) (law : IsRemoving fn) where
  fn-IsValid : (str : S) (s : StreamsMap S × T) → IsValid s.0 → IsValid (fn str s).1.0
  unfolding remove_stream
  fn-IsValid str s v = elim (law str s) [
    | inl e ↦ rw e v
    | inr (id, e) ↦ rw e at (remove_found-AllOk (lookup id s.0.streams) id s.0 refl v)
  ]

  -- One round, with what the rounds behind it do.
  visited-IsValid :
      (ids : List ℕ) (cont : Bool) (e : Option Error) (s' : StreamsMap S × T)
      → IsValid s'.0
      → IsValid (iterate_over ids fn s').1.0
      → IsValid
          (elim e as (λ x. Option Error × (StreamsMap S × T)) [
            | some x ↦ (some x, s')
            | none ↦ elim cont as (λ x. Option Error × (StreamsMap S × T)) [
              | true ↦ iterate_over ids fn s'
              | false ↦ (none, s')
            ]
          ]).1.0
  visited-IsValid ids cont (some x) s' v k = v
  visited-IsValid ids true none s' v k = k
  visited-IsValid ids false none s' v k = v

  visit_found-IsValid :
      (o : Option S) (s : StreamsMap S × T) → IsValid s.0 → IsValid (visit_found o fn s).1.0
  unfolding visit_found
  visit_found-IsValid none s v = v
  visit_found-IsValid (some str) s v = fn-IsValid str s v

  iterate_over-IsValid :
      (ids : List ℕ) (s : StreamsMap S × T) → IsValid s.0 → IsValid (iterate_over ids fn s).1.0
  unfolding iterate_over iterate_func
  iterate_over-IsValid [] s v = v
  iterate_over-IsValid (id ∷ ids) s v =
      let r = iterate_func id fn s.0 s in
      let k = visit_found-IsValid (lookup id s.0.streams) s v in
      visited-IsValid ids r.0.0 r.0.1 r.1 k (iterate_over-IsValid ids r.1 k)

-- The calls that change the map, with limits that may change between them, failing calls included. Ids
-- are below 2^32 - 2. The callback of RoundRobinIterate, and the state that it changes, are any.
-- The callback of Iterate
-- changes the map by RemoveStream only.
pub data Step {S : Type 0} (fac : StreamFactory S) (m : StreamsMap S) : StreamsMap S → Type 1 where
  gets_or_opens :
      (limits : StreamLimits) (id : ℕ) {m' : StreamsMap S}
      → m.highest_stream_opened_by_peer + 2 < 2 ^ 32
      → m' ≡ (get_or_open_stream fac limits id m).0
      → Step fac m m'
  opens :
      (limits : StreamLimits) {m' : StreamsMap S}
      → m.next_stream + 2 < 2 ^ 32
      → m' ≡ (open_stream fac limits m).0
      → Step fac m m'
  opens_sync :
      (limits : StreamLimits) (r : Result Error S) {m' : StreamsMap S}
      → m.next_stream + 2 < 2 ^ 32
      → open_stream_sync fac limits m ≡ some (m', r)
      → Step fac m m'
  removes : (id : ℕ) {m' : StreamsMap S} → remove_stream id m ≡ ok m' → Step fac m m'
  accepts :
      (r : Result Error S) {m' : StreamsMap S} → accept_stream m ≡ some (m', r) → Step fac m m'
  iterates :
      {T : Type 0} (fn : StreamLambda S T) (t : T) {m' : StreamsMap S}
      → m' ≡ (round_robin_iterate fn m t).0.0
      → Step fac m m'
  visits :
      {T : Type 0} (fn : StreamLambda S (StreamsMap S × T)) (t : T) {m' : StreamsMap S}
      → IsRemoving fn
      → m' ≡ (iterate fn (m, t)).1.0
      → Step fac m m'
  closes : (e : ℕ) {m' : StreamsMap S} → m' ≡ close_with_error e m → Step fac m m'

pub data Reach {S : Type 0} (fac : StreamFactory S) (m : StreamsMap S) : StreamsMap S → Type 1 where
  here : Reach fac m m
  next : {m' m'' : StreamsMap S} → Reach fac m m' → Step fac m' m'' → Reach fac m m''

module _ {S : Type 0} (fac : StreamFactory S) (law : IsFaithful fac) where
  Step-IsValid : {m m' : StreamsMap S} → Step fac m m' → IsValid m → IsValid m'
  unfolding get_or_open_stream open_stream open_stream_sync iterate remove_stream accept_stream
      close_with_error
  Step-IsValid {m} (gets_or_opens limits id small e) v =
      rw e (found_or_open-IsValid fac law (lookup id m.streams) limits id m small v)
  Step-IsValid {m} (opens limits small e) v =
      rw e (open_unless_closed-IsValid fac law m.close_err limits m v small)
  Step-IsValid {m} (opens_sync limits r small e) v = rw e at (
      waiting_at_limit-AllSome (open_stream fac limits m)
        (open_unless_closed-IsValid fac law m.close_err limits m v small))
  Step-IsValid {m} (removes id e) v = rw e at (remove_found-AllOk (lookup id m.streams) id m refl v)
  Step-IsValid {m} (accepts r e) v =
      rw e at (accepting-AllSome m.close_err (lookup m.next_stream_to_accept m.streams) m v)
  Step-IsValid {m} (iterates fn t e) v = rw e (round_robin_iterate-IsValid fn m v t)
  Step-IsValid {m} (visits fn t only e) v =
      rw e (iterate_over-IsValid fn only m.open_streams (m, t) v)
  Step-IsValid {m} (closes n e) v = rw e v

  -- In every state that a new map reaches, whichever calls fail: the slice of open streams lists the
  -- keys of the map, each once; the counters are the numbers of even and of odd ids, as uint32; the
  -- ids of this side have its parity and lie below `next_stream`, and those of the peer have the
  -- other and reach at most up to `highest_stream_opened_by_peer`; the round robin index lies within
  -- the slice. The calls include RoundRobinIterate, with any callback, and Iterate, with one that changes
  -- the map by RemoveStream only. The session's newStream gives each stream its id, and ids stay below
  -- 2^32 - 2.
  pub Reach-IsValid :
      (pers : Perspective) {m : StreamsMap S} → Reach fac (new_streams_map pers) m → IsValid m
  Reach-IsValid pers here = new_streams_map-IsValid pers
  Reach-IsValid pers (next r t) = Step-IsValid t (Reach-IsValid pers r)
