-- ===== src/Session/Collection.antt =====
-- session.go: the removal of finished streams is a call of the streams map.
use plus_quic_go.Base.{
  ℕ, ◌≡◌, refl, ◌⊎◌, inl, inr, Bool, true, false, Option, none, Result, ok, err, if◌then◌else◌,
}
use plus_quic_go.Streams.Map.{Error, StreamsMap, StreamFactory, remove_stream}
use plus_quic_go.Streams.Map.Reachable.{IsRemoving, Step, visits}
use plus_quic_go.Flowcontrol.Manager.{FlowControlManager}
use plus_quic_go.Session.{forget, collect, garbage_collect_streams}

module _ {S : Type 0} where
  forget-removes :
      (r : Result Error (StreamsMap S)) (id : ℕ) (s : StreamsMap S × FlowControlManager)
      → remove_stream id s.0 ≡ r
      → ((forget r id s).1.0 ≡ s.0) ⊎ ((i : ℕ) × (remove_stream i s.0 ≡ ok (forget r id s).1.0))
  unfolding forget
  forget-removes (err e) id s h = inl refl
  forget-removes (ok m) id s h = inr (id, h)

module _ {S : Type 0} (finished : S → Bool) (id_of : S → ℕ) where
  collect-IsRemoving : IsRemoving (collect finished id_of)
  unfolding collect
  collect-IsRemoving str s = branch (finished str)
    where
      branch :
          (b : Bool)
          → let r : (Bool × Option Error) × (StreamsMap S × FlowControlManager) =
              if b
              then forget (remove_stream (id_of str) s.0) (id_of str) s
              else ((true, none), s) in
            (r.1.0 ≡ s.0) ⊎ ((id : ℕ) × (remove_stream id s.0 ≡ ok r.1.0))
      branch true = forget-removes (remove_stream (id_of str) s.0) (id_of str) s refl
      branch false = inl refl

  pub garbage_collect_streams-Step :
      (fac : StreamFactory S) (m : StreamsMap S) (f : FlowControlManager)
      → Step fac m (garbage_collect_streams finished id_of (m, f)).1.0
  unfolding garbage_collect_streams
  garbage_collect_streams-Step fac m f = visits (collect finished id_of) f collect-IsRemoving refl
