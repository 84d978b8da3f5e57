-- ===== src/Streams/Map/Limits.antt =====
-- streams_map.go: the limits on the numbers of streams, of the server and of the client.
use plus_quic_go.Base.{
  ℕ, zero, suc, ◌+◌, ◌*◌, ◌%◌, ◌^◌, ◌≤◌, ◌<◌, ◌≡◌, ◌∙◌, refl, Option, none, some, leb,
  if◌then◌else◌, ◌++◌, [], ◌∷◌, Result, ok, err, arith, inl, ◌==◌, false,
}
use plus_quic_go.Base.Keyed.{insert}
use plus_quic_go.Streams.Map.{
  server, client, Error, StreamLimits, StreamFactory, StreamsMap, count_local, add_local,
  open_stream_impl, open_unless_closed, open_stream,
}
use plus_quic_go.Streams.Map.Counts.{count_parity, count_parity-insert, lookup-AllBelow}
use plus_quic_go.Streams.Map.Validity.{IsValid}
use plus_quic_go.Streams.Map.Runs.{if-intro, IsFaithful, put_stream-fresh}
use plus_quic_go.Streams.Map.Reachable.{open_unless_closed-IsValid}

-- What an OpenStream that makes a stream leaves behind.
record IsOpening {S : Type 0} (m m' : StreamsMap S) : Type 0 where
  pub valid : IsValid m'
  pub perspective : m'.perspective ≡ m.perspective
  pub close_err : m'.close_err ≡ m.close_err
  pub next : m'.next_stream ≡ m.next_stream + 2
  pub outgoing : m'.num_outgoing_streams ≡ (count_local m).num_outgoing_streams
  pub counted :
      (r : ℕ)
      → count_parity r m'.streams
        ≡ count_parity r m.streams + (if m.next_stream % 2 == r then 1 else 0)

-- `n` calls of OpenStream.
unfoldable pub open_times :
    {S : Type 0} → StreamFactory S → StreamLimits → ℕ → StreamsMap S → StreamsMap S
open_times fac limits zero m = m
open_times fac limits (suc n) m = open_times fac limits n (open_stream fac limits m).0

module _ {S : Type 0} (fac : StreamFactory S) (law : IsFaithful fac) where
  abbrev added : S → StreamsMap S → StreamsMap S
  added s m = record (count_local m) {
    streams = insert m.next_stream s m.streams;
    open_streams = m.open_streams ++ m.next_stream ∷ [];
  }

  open_unless_closed-added :
      (closed : Option ℕ) (limits : StreamLimits) (m : StreamsMap S) (s : S)
      → IsValid m
      → closed ≡ none
      → m.num_outgoing_streams < limits.max_outgoing
      → fac.create m.next_stream ≡ ok s
      → open_unless_closed closed fac limits m ≡ (added s m, ok s)
  unfolding open_unless_closed open_stream_impl add_local count_local
  open_unless_closed-added (some e) limits m s v live below c = absurd (ground arith)
  open_unless_closed-added none limits m s v live below c =
      let fresh =
        lookup-AllBelow m.perspective m.next_stream m.highest_stream_opened_by_peer m.next_stream
          m.streams (inl (v.next_parity, omega arith)) v.below in
      let e = put_stream-fresh fac law m.next_stream s (count_local m) c fresh in
      let f : leb limits.max_outgoing m.num_outgoing_streams ≡ false = ground arith in
      rw (f, c, e) refl

  open_stream-IsOpening :
      (limits : StreamLimits) (m : StreamsMap S) (s : S)
      → IsValid m
      → m.next_stream + 2 < 2 ^ 32
      → m.close_err ≡ none
      → m.num_outgoing_streams < limits.max_outgoing
      → fac.create m.next_stream ≡ ok s
      → IsOpening m (open_stream fac limits m).0
  unfolding count_local open_stream
  open_stream-IsOpening limits m s v small live below c =
      let fresh =
        lookup-AllBelow m.perspective m.next_stream m.highest_stream_opened_by_peer m.next_stream
          m.streams (inl (v.next_parity, omega arith)) v.below in
      let e = open_unless_closed-added m.close_err limits m s v live below c in
      record {
        valid = open_unless_closed-IsValid fac law m.close_err limits m v small;
        perspective = rw e refl;
        close_err = rw e refl;
        next = rw e (omega arith);
        outgoing = rw e refl;
        counted = λ r. rw e (count_parity-insert r m.next_stream s m.streams fresh);
      }

  -- The limit does not bind a client: its own streams, the odd ones, count as incoming, while
  -- `open_stream` compares the number of the even ones with the limit. So a client that is below the
  -- limit once opens as many streams as it asks for, and the counter stays where it is. The map is
  -- valid and not closed, the ids stay below 2^32, and newStream makes a stream for every id.
  pub open_times-unlimited :
      (limits : StreamLimits) (n : ℕ) (m : StreamsMap S)
      → ((id : ℕ) → (s : S) × (fac.create id ≡ ok s))
      → IsValid m
      → m.perspective ≡ client
      → m.close_err ≡ none
      → m.num_outgoing_streams < limits.max_outgoing
      → m.next_stream + 2 * n < 2 ^ 32
      → (count_parity 1 (open_times fac limits n m).streams ≡ count_parity 1 m.streams + n)
        × ((open_times fac limits n m).num_outgoing_streams ≡ m.num_outgoing_streams)
  unfolding open_times count_local
  open_times-unlimited limits zero m total v side live below small = (omega arith, refl)
  open_times-unlimited limits (suc n) m total v side live below small =
      let (s, c) = total m.next_stream in
      let o = open_stream-IsOpening limits m s v (omega arith) live below c in
      let same : (open_stream fac limits m).0.num_outgoing_streams ≡ m.num_outgoing_streams =
        o.outgoing ∙ (rw side refl) in
      let parity : m.next_stream % 2 ≡ 1 = rw side at v.next_parity in
      let grew : count_parity 1 (open_stream fac limits m).0.streams
          ≡ count_parity 1 m.streams + 1 =
        rw parity at (o.counted 1) in
      let rest =
        open_times-unlimited limits n (open_stream fac limits m).0 total o.valid
          (o.perspective ∙ side) (o.close_err ∙ live) (rw same below) (omega (arith, o.next)) in
      (omega (arith, rest.0, grew), rest.1 ∙ same)

  -- What the limit means for a server, where a stream was made.
  abbrev IsLimited : StreamLimits → StreamsMap S → StreamsMap S × Result Error S → Type 0
  IsLimited limits m (m', ok s) =
      (count_parity 0 m'.streams ≤ limits.max_outgoing)
      × (count_parity 0 m'.streams ≡ count_parity 0 m.streams + 1)
      × (count_parity 1 m'.streams ≡ count_parity 1 m.streams)
  IsLimited limits m (m', err e) = 0 ≤ 0

  add_local-IsLimited :
      (r : Result Error S) (limits : StreamLimits) (m : StreamsMap S)
      → fac.create m.next_stream ≡ r
      → IsValid m
      → m.perspective ≡ server
      → count_parity 0 m.streams < 2 ^ 32
      → m.num_outgoing_streams < limits.max_outgoing
      → IsLimited limits m (add_local fac r m)
  unfolding add_local count_local
  add_local-IsLimited (err e) limits m c v side few below = omega arith
  add_local-IsLimited (ok s) limits m c v side few below =
      let fresh =
        lookup-AllBelow m.perspective m.next_stream m.highest_stream_opened_by_peer m.next_stream
          m.streams (inl (v.next_parity, omega arith)) v.below in
      let e = put_stream-fresh fac law m.next_stream s (count_local m) c fresh in
      let parity : m.next_stream % 2 ≡ 0 = rw side at v.next_parity in
      let c0 = count_parity-insert 0 m.next_stream s m.streams fresh in
      let c1 = count_parity-insert 1 m.next_stream s m.streams fresh in
      rw e (ground (arith, v.outgoing_counted), ground arith, ground arith)

  open_unless_closed-IsLimited :
      (closed : Option ℕ) (limits : StreamLimits) (m : StreamsMap S)
      → IsValid m
      → m.perspective ≡ server
      → count_parity 0 m.streams < 2 ^ 32
      → IsLimited limits m (open_unless_closed closed fac limits m)
  unfolding open_unless_closed open_stream_impl
  open_unless_closed-IsLimited (some e) limits m v side few = omega arith
  open_unless_closed-IsLimited none limits m v side few =
      if-intro (IsLimited limits m) (leb limits.max_outgoing m.num_outgoing_streams)
        (m, err Error.too_many_open_streams) (add_local fac (fac.create m.next_stream) m)
        (λ t. omega arith)
        (λ t.
          add_local-IsLimited (fac.create m.next_stream) limits m refl v side few (ground arith))

  -- The limit binds a server: after an OpenStream that makes a stream there are at most
  -- `max_outgoing` open streams of its own, one more than before, and as many of the peer's as
  -- before. The map is valid, and fewer than 2^32 streams of the server are open.
  pub open_stream-limited :
      (limits : StreamLimits) (m m' : StreamsMap S) (s : S)
      → IsValid m
      → m.perspective ≡ server
      → count_parity 0 m.streams < 2 ^ 32
      → open_stream fac limits m ≡ (m', ok s)
      → (count_parity 0 m'.streams ≤ limits.max_outgoing)
        × (count_parity 0 m'.streams ≡ count_parity 0 m.streams + 1)
        × (count_parity 1 m'.streams ≡ count_parity 1 m.streams)
  unfolding open_stream
  open_stream-limited limits m m' s v side few e =
      let a : IsLimited limits m (m', ok s) =
        rw e at (open_unless_closed-IsLimited m.close_err limits m v side few) in
      a
