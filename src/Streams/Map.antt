-- ===== src/Streams/Map.antt =====
-- streams_map.go: which streams exist, who may open the next one, and in which order they are asked
-- for data. Every exported method holds the mutex, so that each call is one step; a method that
-- waits on a condition gives `none` where it would wait, without a change. Stream ids and counters
-- are uint32. The map of the streams is an association list in the order of insertion.
pub mod Counts
pub mod Validity
pub mod Runs
pub mod Opening
pub mod Reachable
pub mod Limits
pub mod Iteration
use plus_quic_go.Base.{
  ℕ, zero, suc, ◌+◌, ◌-◌, ◌*◌, ◌/◌, ◌%◌, Bool, true, false, List, [], ◌∷◌, ◌++◌, Option, none, some,
  ltb, leb, ◌==◌, ◌&&◌, not, if◌then◌else◌, Result, ok, err,
}
use plus_quic_go.Base.Keyed.{lookup, insert, delete}
use plus_quic_go.Base.Words.{add32, sub32}
use plus_quic_go.Protocol.Parameters.{max_new_stream_id_delta}

pub data Perspective : Type 0 where
  server client : Perspective

-- `closed n` is the error number n that CloseWithError was given, and `failed n` one of a callback.
-- The panic of a slice index is an error of its own.
pub data Error : Type 0 where
  too_many_open_streams : Error
  invalid_stream_id : Error
  map_access : Error
  stream_does_not_exist : Error
  closed failed : ℕ → Error
  index_out_of_range : Error

-- What connectionParameters.GetMaxIncomingStreams and GetMaxOutgoingStreams answer.
pub record StreamLimits : Type 0 where
  pub max_incoming : ℕ
  pub max_outgoing : ℕ

-- The session's newStream: `create` makes a stream or fails, and `id_of` is stream.StreamID.
pub record StreamFactory (S : Type 0) : Type 0 where
  pub create : ℕ → Result Error S
  pub id_of : S → ℕ

pub record StreamsMap (S : Type 0) : Type 0 where
  pub perspective : Perspective
  pub streams : List (ℕ × S)
  pub open_streams : List ℕ
  pub round_robin_index : ℕ
  pub next_stream : ℕ
  pub highest_stream_opened_by_peer : ℕ
  pub close_err : Option ℕ
  pub next_stream_to_accept : ℕ
  pub num_outgoing_streams : ℕ
  pub num_incoming_streams : ℕ

abbrev pub is_server : Perspective → Bool
is_server server = true
is_server client = false

-- The id of the stream that the peer is to open next, from the highest id that it has opened.
unfoldable pub next_remote : Perspective → ℕ → ℕ
next_remote pers highest = if is_server pers && (add32 highest 2 == 2) then 1 else add32 highest 2

module _ {S : Type 0} where
  -- newStreamsMap
  unfoldable pub new_streams_map : Perspective → StreamsMap S
  new_streams_map pers = record {
    perspective = pers;
    streams = [];
    open_streams = [];
    round_robin_index = 0;
    next_stream = if is_server pers then 2 else 1;
    highest_stream_opened_by_peer = 0;
    close_err = none;
    next_stream_to_accept = if is_server pers then 1 else 2;
    num_outgoing_streams = 0;
    num_incoming_streams = 0;
  }

  unfoldable pub put_missing : Option S → ℕ → S → StreamsMap S → StreamsMap S
  put_missing (some old) id s m = m
  put_missing none id s m = record m {
    streams = insert id s m.streams;
    open_streams = m.open_streams ++ id ∷ [];
  }

  -- putStream; its callers ignore the error about an id that exists.
  unfoldable pub put_stream : StreamFactory S → S → StreamsMap S → StreamsMap S
  unfolding put_missing
  put_stream fac s m = put_missing (lookup (fac.id_of s) m.streams) (fac.id_of s) s m

  -- One more stream that the peer has opened, with the highest id so far.
  unfoldable pub count_remote : ℕ → StreamsMap S → StreamsMap S
  count_remote id m = record m {
    num_incoming_streams =
        if is_server m.perspective then add32 m.num_incoming_streams 1 else m.num_incoming_streams;
    num_outgoing_streams =
        if is_server m.perspective then m.num_outgoing_streams else add32 m.num_outgoing_streams 1;
    highest_stream_opened_by_peer =
        if ltb m.highest_stream_opened_by_peer id then id else m.highest_stream_opened_by_peer;
  }

  unfoldable pub add_remote :
      StreamFactory S → Result Error S → ℕ → StreamsMap S → StreamsMap S × Option Error
  unfolding put_stream count_remote
  add_remote fac (err e) id m = (m, some e)
  add_remote fac (ok s) id m = (put_stream fac s (count_remote id m), none)

  -- openRemoteStream, whose stream the caller does not use.
  unfoldable pub open_remote_stream :
      StreamFactory S → StreamLimits → ℕ → StreamsMap S → StreamsMap S × Option Error
  unfolding add_remote
  open_remote_stream fac limits id m =
      if leb limits.max_incoming m.num_incoming_streams
      then (m, some too_many_open_streams)
      else if ltb (add32 id max_new_stream_id_delta) m.highest_stream_opened_by_peer
      then (m, some invalid_stream_id)
      else add_remote fac (fac.create id) id m

  -- `for ; sid <= id; sid += 2`, for `n` rounds, left at the first error.
  unfoldable pub open_remote_streams :
      StreamFactory S → StreamLimits → ℕ → ℕ → StreamsMap S → StreamsMap S × Option Error
  open_remote_streams fac limits zero sid m = (m, none)
  open_remote_streams fac limits (suc n) sid m =
      let (m', e) = open_remote_stream fac limits sid m in
      elim e [ some x ↦ (m', some x) | none ↦ open_remote_streams fac limits n (sid + 2) m' ]

  unfoldable pub answer_opened :
      ℕ → StreamsMap S × Option Error → StreamsMap S × Result Error (Option S)
  answer_opened id (m, some e) = (m, err e)
  answer_opened id (m, none) = (m, ok (lookup id m.streams))

  -- The part of GetOrOpenStream for an id that is not in the map. The number of rounds is exact for
  -- an id below 2^32 - 2, where the loop's sid does not wrap around.
  unfoldable pub open_up_to :
      StreamFactory S → StreamLimits → ℕ → StreamsMap S → StreamsMap S × Result Error (Option S)
  unfolding answer_opened
  open_up_to fac limits id m =
      if leb id m.highest_stream_opened_by_peer
      then (m, ok none)
      else if is_server m.perspective && (id % 2 == 0)
      then (m, err invalid_stream_id)
      else if not (is_server m.perspective) && (id % 2 == 1)
      then (m, err invalid_stream_id)
      else (let sid = next_remote m.perspective m.highest_stream_opened_by_peer in
          answer_opened id (open_remote_streams fac limits ((id + 2 - sid) / 2) sid m))

  unfoldable pub found_or_open :
      Option S
      → StreamFactory S
      → StreamLimits
      → ℕ
      → StreamsMap S
      → StreamsMap S × Result Error (Option S)
  unfolding open_up_to
  found_or_open (some s) fac limits id m = (m, ok (some s))
  found_or_open none fac limits id m = open_up_to fac limits id m

  -- GetOrOpenStream; the answer `ok none` is the nil stream of an id that is closed.
  unfoldable pub get_or_open_stream :
      StreamFactory S → StreamLimits → ℕ → StreamsMap S → StreamsMap S × Result Error (Option S)
  unfolding found_or_open
  get_or_open_stream fac limits id m = found_or_open (lookup id m.streams) fac limits id m

  unfoldable pub count_local : StreamsMap S → StreamsMap S
  count_local m = record m {
    num_outgoing_streams =
        if is_server m.perspective then add32 m.num_outgoing_streams 1 else m.num_outgoing_streams;
    num_incoming_streams =
        if is_server m.perspective then m.num_incoming_streams else add32 m.num_incoming_streams 1;
    next_stream = add32 m.next_stream 2;
  }

  unfoldable pub add_local :
      StreamFactory S → Result Error S → StreamsMap S → StreamsMap S × Result Error S
  unfolding put_stream count_local
  add_local fac (err e) m = (m, err e)
  add_local fac (ok s) m = (put_stream fac s (count_local m), ok s)

  -- openStreamImpl
  unfoldable pub open_stream_impl :
      StreamFactory S → StreamLimits → StreamsMap S → StreamsMap S × Result Error S
  unfolding add_local
  open_stream_impl fac limits m =
      if leb limits.max_outgoing m.num_outgoing_streams
      then (m, err too_many_open_streams)
      else add_local fac (fac.create m.next_stream) m

  unfoldable pub open_unless_closed :
      Option ℕ → StreamFactory S → StreamLimits → StreamsMap S → StreamsMap S × Result Error S
  unfolding open_stream_impl
  open_unless_closed (some e) fac limits m = (m, err (closed e))
  open_unless_closed none fac limits m = open_stream_impl fac limits m

  -- OpenStream
  unfoldable pub open_stream :
      StreamFactory S → StreamLimits → StreamsMap S → StreamsMap S × Result Error S
  unfolding open_unless_closed
  open_stream fac limits m = open_unless_closed m.close_err fac limits m

  unfoldable pub waiting_at_limit :
      StreamsMap S × Result Error S → Option (StreamsMap S × Result Error S)
  waiting_at_limit (m, err too_many_open_streams) = none
  waiting_at_limit r = some r

  -- OpenStreamSync
  unfoldable pub open_stream_sync :
      StreamFactory S → StreamLimits → StreamsMap S → Option (StreamsMap S × Result Error S)
  unfolding waiting_at_limit
  open_stream_sync fac limits m = waiting_at_limit (open_stream fac limits m)

  unfoldable pub accepting :
      Option ℕ → Option S → StreamsMap S → Option (StreamsMap S × Result Error S)
  accepting (some e) found m = some (m, err (closed e))
  accepting none none m = none
  accepting none (some s) m =
      some (record m { next_stream_to_accept = add32 m.next_stream_to_accept 2 }, ok s)

  -- AcceptStream
  unfoldable pub accept_stream : StreamsMap S → Option (StreamsMap S × Result Error S)
  unfolding accepting
  accept_stream m = accepting m.close_err (lookup m.next_stream_to_accept m.streams) m

  -- CloseWithError
  unfoldable pub close_with_error : ℕ → StreamsMap S → StreamsMap S
  close_with_error e m = record m { close_err = some e }

-- The loop of RemoveStream over the open streams, from index `i`: the slice without the first entry
-- of the id, and the round robin index, one less where that entry lay before it.
unfoldable pub remove_open : ℕ → ℕ → ℕ → List ℕ → List ℕ × ℕ
remove_open id i index [] = ([], index)
remove_open id i index (s ∷ ss) =
    let (rest, index') = remove_open id (i + 1) index ss in
    if s == id then (ss, if ltb i index then index - 1 else index) else (s ∷ rest, index')

module _ {S : Type 0} where
  unfoldable pub remove_found : Option S → ℕ → StreamsMap S → Result Error (StreamsMap S)
  unfolding remove_open
  remove_found none id m = err stream_does_not_exist
  remove_found (some s) id m =
      let (open_streams, index) = remove_open id 0 m.round_robin_index m.open_streams in
      ok (record m {
        num_outgoing_streams =
            if id % 2 == 0 then sub32 m.num_outgoing_streams 1 else m.num_outgoing_streams;
        num_incoming_streams =
            if id % 2 == 0 then m.num_incoming_streams else sub32 m.num_incoming_streams 1;
        open_streams = open_streams;
        round_robin_index = index;
        streams = delete id m.streams;
      })

  -- RemoveStream
  unfoldable pub remove_stream : ℕ → StreamsMap S → Result Error (StreamsMap S)
  unfolding remove_found
  remove_stream id m = remove_found (lookup id m.streams) id m
