-- ===== src/Session.antt =====
-- session.go: the removal of finished streams.
pub mod Collection
use plus_quic_go.Base.{ℕ, Bool, true, false, Option, none, some, Result, ok, err, if◌then◌else◌}
use plus_quic_go.Streams.Map.{Error, StreamsMap, remove_stream}
use plus_quic_go.Streams.Map.Iteration.{StreamLambda, iterate}
use plus_quic_go.Flowcontrol.Manager
use plus_quic_go.Flowcontrol.Manager.{FlowControlManager}

module _ {S : Type 0} where
  -- The answer of the callback, from that of RemoveStream.
  unfoldable pub forget :
      Result Error (StreamsMap S)
      → ℕ
      → StreamsMap S × FlowControlManager
      → (Bool × Option Error) × (StreamsMap S × FlowControlManager)
  forget (err e) id s = ((false, some e), s)
  forget (ok m) id s = ((true, none), (m, Manager.remove_stream id s.1))

-- What the session asks of a stream: str.finished() and str.StreamID().
module _ {S : Type 0} (finished : S → Bool) (id_of : S → ℕ) where
  -- The callback of garbageCollectStreams.
  unfoldable pub collect : StreamLambda S (StreamsMap S × FlowControlManager)
  unfolding forget
  collect str s =
      if finished str
      then forget (remove_stream (id_of str) s.0) (id_of str) s
      else ((true, none), s)

  -- garbageCollectStreams, with the error that it ignores.
  unfoldable pub garbage_collect_streams :
      StreamsMap S × FlowControlManager → Option Error × (StreamsMap S × FlowControlManager)
  unfolding collect
  garbage_collect_streams s = iterate collect s
