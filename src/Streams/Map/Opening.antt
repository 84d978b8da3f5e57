-- ===== src/Streams/Map/Opening.antt =====
-- streams_map.go: GetOrOpenStream opens every stream up to the one that it is asked for.
use plus_quic_go.Base.{
  ℕ, ◌+◌, ◌-◌, ◌*◌, ◌/◌, ◌%◌, ◌^◌, ◌≤◌, ◌<◌, ◌≡◌, ◌≢◌, refl, ◌⊎◌, inl, inr, Option, none, some, leb,
  ◌==◌, ◌&&◌, not, if◌then◌else◌, Result, ok, err, arith,
}
use plus_quic_go.Base.Keyed.{lookup}
use plus_quic_go.Streams.Map.{
  Perspective, server, client, is_server, Error, StreamLimits, StreamFactory, StreamsMap,
  open_remote_streams, next_remote, answer_opened, open_up_to, found_or_open, get_or_open_stream,
}
use plus_quic_go.Streams.Map.Counts.{own_parity}
use plus_quic_go.Streams.Map.Validity.{IsValid}
use plus_quic_go.Streams.Map.Runs.{
  IsFaithful, next_remote-parity, Found, IsRun, if-intro, open_remote_streams-IsRun,
}

next_remote-least :
    (pers : Perspective) (highest k : ℕ)
    → (highest ≡ 0) ⊎ (highest % 2 ≢ own_parity pers)
    → highest + 2 < 2 ^ 32
    → k % 2 ≢ own_parity pers
    → highest < k
    → next_remote pers highest ≤ k
unfolding next_remote
next_remote-least server highest k v small p h = ground arith
next_remote-least client highest k v small p h = ground arith

same_parity :
    (pers : Perspective) (a b : ℕ)
    → a % 2 ≢ own_parity pers
    → b % 2 ≢ own_parity pers
    → a ≤ b
    → a + 2 * ((b - a) / 2) ≡ b
same_parity server a b p q h = ground arith
same_parity client a b p q h = ground arith

-- What GetOrOpenStream leads to, for a map of which `m` was the state before.
pub record IsAnswer {S : Type 0} (id : ℕ) (m : StreamsMap S)
    (r : StreamsMap S × Result Error (Option S)) : Type 0 where
  pub valid : IsValid r.0
  pub kept : (j : ℕ) → Found j m → Found j r.0
  pub opened :
      (answer : Option S)
      → r.1 ≡ ok answer
      → (k : ℕ) → m.highest_stream_opened_by_peer < k
      → k ≤ id
      → k % 2 ≢ own_parity m.perspective
      → Found k r.0

IsAnswer-failed :
    {S : Type 0} (id : ℕ) (m : StreamsMap S) (e : Error) → IsValid m → IsAnswer id m (m, err e)
IsAnswer-failed id m e v = record {
  valid = v;
  kept = λ j f. f;
  opened = λ a t. absurd (ground arith);
}

module _ {S : Type 0} (fac : StreamFactory S) (law : IsFaithful fac) where
  answer_opened-IsAnswer :
      (id n sid : ℕ) (m : StreamsMap S) (r : StreamsMap S × Option Error)
      → IsRun n sid m r
      → ((k : ℕ) → m.highest_stream_opened_by_peer < k → k % 2 ≢ own_parity m.perspective → sid ≤ k)
      → sid % 2 ≢ own_parity m.perspective
      → n ≡ (id + 2 - sid) / 2
      → IsAnswer id m (answer_opened id r)
  unfolding answer_opened
  answer_opened-IsAnswer id n sid m (m', some e) run least p c = record {
    valid = run.valid;
    kept = run.kept;
    opened = λ a t. absurd (ground arith);
  }
  answer_opened-IsAnswer id n sid m (m', none) run least p c = record {
    valid = run.valid;
    kept = run.kept;
    opened = λ a t k above below q.
        let l = least k above q in
        let e = same_parity m.perspective sid k p q l in
        let f = run.opened refl ((k - sid) / 2) (omega (arith, c, l)) in rw e at f;
  }

  -- The last two branches of `open_up_to`.
  abbrev opened : StreamLimits → ℕ → StreamsMap S → StreamsMap S × Result Error (Option S)
  opened limits id m =
      let sid = next_remote m.perspective m.highest_stream_opened_by_peer in
      answer_opened id (open_remote_streams fac limits ((id + 2 - sid) / 2) sid m)

  abbrev refused_or_opened :
      StreamLimits → ℕ → StreamsMap S → StreamsMap S × Result Error (Option S)
  refused_or_opened limits id m =
      if not (is_server m.perspective) && (id % 2 == 1)
      then (m, err Error.invalid_stream_id)
      else opened limits id m

  open_up_to-IsAnswer :
      (limits : StreamLimits) (id : ℕ) (m : StreamsMap S)
      → m.highest_stream_opened_by_peer + 2 < 2 ^ 32
      → IsValid m
      → IsAnswer id m (open_up_to fac limits id m)
  unfolding open_up_to
  open_up_to-IsAnswer limits id m small v =
      let sid = next_remote m.perspective m.highest_stream_opened_by_peer in
      let (p, above) =
        next_remote-parity m.perspective m.highest_stream_opened_by_peer v.highest_parity small in
      let failed : (e : Error) → IsAnswer id m (m, err e) = λ e. IsAnswer-failed id m e v in
      if-intro (IsAnswer id m) (leb id m.highest_stream_opened_by_peer) (m, ok none) _
        (λ t. record { valid = v; kept = λ j f. f; opened = λ a u k h l. absurd (ground arith) })
        (λ t.
          if-intro (IsAnswer id m) (is_server m.perspective && (id % 2 == 0))
            (m, err Error.invalid_stream_id) (refused_or_opened limits id m)
            (λ u. failed Error.invalid_stream_id)
            (λ u.
              if-intro (IsAnswer id m) (not (is_server m.perspective) && (id % 2 == 1))
                (m, err Error.invalid_stream_id) (opened limits id m)
                (λ w. failed Error.invalid_stream_id)
                (λ w.
                  answer_opened-IsAnswer id ((id + 2 - sid) / 2) sid m _
                    (open_remote_streams-IsRun fac law limits ((id + 2 - sid) / 2) sid m v p above)
                    (λ k h q.
                      next_remote-least m.perspective m.highest_stream_opened_by_peer k
                        v.highest_parity small q h)
                    p refl)))

  pub found_or_open-IsValid :
      (found : Option S) (limits : StreamLimits) (id : ℕ) (m : StreamsMap S)
      → m.highest_stream_opened_by_peer + 2 < 2 ^ 32
      → IsValid m
      → IsValid (found_or_open found fac limits id m).0
  unfolding found_or_open
  found_or_open-IsValid (some s) limits id m small v = v
  found_or_open-IsValid none limits id m small v = (open_up_to-IsAnswer limits id m small v).valid

  -- When GetOrOpenStream succeeds for an id that was not in the map, every id of the peer's parity
  -- above the highest one so far, up to that id, has a stream, and every stream that was there
  -- before still has. The map was valid, its highest id is below 2^32 - 2, and the session's
  -- newStream gives each stream its id.
  pub get_or_open_stream_opens :
      (limits : StreamLimits) (id k : ℕ) (m m' : StreamsMap S) (answer : Option S)
      → IsValid m
      → m.highest_stream_opened_by_peer + 2 < 2 ^ 32
      → lookup id m.streams ≡ none
      → get_or_open_stream fac limits id m ≡ (m', ok answer)
      → (Found k m
          ⊎ ((m.highest_stream_opened_by_peer < k) × (k ≤ id) × (k % 2 ≢ own_parity m.perspective)))
      → Found k m'
  unfolding get_or_open_stream found_or_open
  get_or_open_stream_opens limits id k m m' answer v small fresh e c =
      let e' : open_up_to fac limits id m ≡ (m', ok answer) = rw fresh at e in
      let a : IsAnswer id m (m', ok answer) = rw e' at (open_up_to-IsAnswer limits id m small v) in
      elim c [ inl f ↦ a.kept k f | inr (h, l, p) ↦ a.opened answer refl k h l p ]
