-- ===== src/Streams/Map/Runs.antt =====
-- streams_map.go: the loop that opens the streams of the peer. What the map relies on of the
-- session's newStream is that a stream it makes for an id has that id.
use plus_quic_go.Base.{
  ℕ, zero, suc, ◌+◌, ◌*◌, ◌%◌, ◌^◌, ◌<◌, ◌≡◌, ◌≢◌, ◌∙◌, refl, ◌⊎◌, inr, Bool, true, false, [], ◌∷◌,
  ◌++◌, Option, none, some, ltb, leb, if◌then◌else◌, Result, ok, err, arith,
}
use plus_quic_go.Base.Words.{add32}
use plus_quic_go.Base.Keyed.{lookup, insert, lookup-insert}
use plus_quic_go.Streams.Map.{
  Perspective, server, client, Error, StreamLimits, StreamFactory, StreamsMap, put_missing,
  put_stream, count_remote, add_remote, open_remote_stream, open_remote_streams, next_remote,
}
use plus_quic_go.Protocol.Parameters.{max_new_stream_id_delta}
use plus_quic_go.Streams.Map.Counts.{own_parity, lookup-AllBelow}
use plus_quic_go.Streams.Map.Validity.{IsValid, Holds-remote}

abbrev pub IsFaithful : {S : Type 0} → StreamFactory S → Type 0
IsFaithful {S} fac = (id : ℕ) (s : S) → fac.create id ≡ ok s → fac.id_of s ≡ id

-- The peer's next id has the peer's parity and lies above its highest one.
pub next_remote-parity :
    (pers : Perspective) (highest : ℕ)
    → (highest ≡ 0) ⊎ (highest % 2 ≢ own_parity pers)
    → highest + 2 < 2 ^ 32
    → (next_remote pers highest % 2 ≢ own_parity pers) × (highest < next_remote pers highest)
unfolding next_remote
next_remote-parity server highest v small = ground arith
next_remote-parity client highest v small = ground arith

-- A stream of a map.
abbrev pub Found : {S : Type 0} → ℕ → StreamsMap S → Type 0
Found {S} id m = (s : S) × (lookup id m.streams ≡ some s)

-- What a run of openRemoteStream for `n` ids from `sid` on leads to.
pub record IsRun {S : Type 0} (n sid : ℕ) (m : StreamsMap S) (r : StreamsMap S × Option Error)
    : Type 0 where
  pub valid : IsValid r.0
  pub perspective : r.0.perspective ≡ m.perspective
  pub kept : (j : ℕ) → Found j m → Found j r.0
  pub opened : r.1 ≡ none → (k : ℕ) → k < n → Found (sid + 2 * k) r.0

IsRun-failed :
    {S : Type 0} (n sid : ℕ) (m : StreamsMap S) (e : Error) → IsValid m → IsRun n sid m (m, some e)
IsRun-failed n sid m e v = record {
  valid = v;
  perspective = refl;
  kept = λ j f. f;
  opened = λ t. absurd (ground arith);
}

-- A first id that was opened, and the run of the others.
IsRun-cons :
    {S : Type 0} (n sid : ℕ) (m m' : StreamsMap S) (r : StreamsMap S × Option Error)
    → IsRun 1 sid m (m', none)
    → IsRun n (sid + 2) m' r
    → IsRun (suc n) sid m r
IsRun-cons {S} n sid m m' r first rest = record {
  valid = rest.valid;
  perspective = rest.perspective ∙ first.perspective;
  kept = λ j f. rest.kept j (first.kept j f);
  opened = go;
}
  where
    go : r.1 ≡ none → (k : ℕ) → k < suc n → Found (sid + 2 * k) r.0
    go t zero l = rest.kept (sid + 2 * 0) (first.opened refl 0 (omega arith))
    go t (suc k) l =
        let e : sid + 2 * suc k ≡ sid + 2 + 2 * k = omega arith in
        rw e (rest.opened t k (omega arith))

pub if-intro :
    {A : Type 0} (P : A → Type 0) (b : Bool) (x y : A)
    → (b ≡ true → P x)
    → (b ≡ false → P y)
    → P (if b then x else y)
if-intro P true x y p q = p refl
if-intro P false x y p q = q refl

module _ {S : Type 0} (fac : StreamFactory S) (law : IsFaithful fac) where
  pub put_stream-fresh :
      (id : ℕ) (s : S) (m : StreamsMap S)
      → fac.create id ≡ ok s
      → lookup id m.streams ≡ none
      → put_stream fac s m
        ≡ record m { streams = insert id s m.streams; open_streams = m.open_streams ++ id ∷ [] }
  unfolding put_stream put_missing
  put_stream-fresh id s m c fresh = rw (law id s c, fresh) refl

  add_remote-IsValid :
      (r : Result Error S) (id : ℕ) (m : StreamsMap S)
      → fac.create id ≡ r
      → IsValid m
      → id % 2 ≢ own_parity m.perspective
      → m.highest_stream_opened_by_peer < id
      → IsValid (add_remote fac r id m).0
  unfolding add_remote count_remote
  add_remote-IsValid (err e) id m c v p h = v
  add_remote-IsValid (ok s) id m c v p h =
      let fresh =
        lookup-AllBelow m.perspective m.next_stream m.highest_stream_opened_by_peer id m.streams
          (inr (p, h)) v.below in
      let e = put_stream-fresh id s (count_remote id m) c fresh in
      let g : (if ltb m.highest_stream_opened_by_peer id
            then id
            else m.highest_stream_opened_by_peer)
          ≡ id =
        ground arith in
      rw (e, g)
        (Holds-remote m.perspective m.next_stream m.highest_stream_opened_by_peer
          m.num_outgoing_streams m.num_incoming_streams m.round_robin_index id s m.streams
          m.open_streams v p h)

  -- A single call, which on success leaves the id as the highest one.
  abbrev IsCall : ℕ → StreamsMap S → StreamsMap S × Option Error → Type 0
  IsCall id m r = IsRun 1 id m r × (r.1 ≡ none → r.0.highest_stream_opened_by_peer ≡ id)

  add_remote-IsCall :
      (r : Result Error S) (id : ℕ) (m : StreamsMap S)
      → fac.create id ≡ r
      → IsValid m
      → id % 2 ≢ own_parity m.perspective
      → m.highest_stream_opened_by_peer < id
      → IsCall id m (add_remote fac r id m)
  unfolding add_remote count_remote
  add_remote-IsCall (err e) id m c v p h = (IsRun-failed 1 id m e v, λ t. absurd (ground arith))
  add_remote-IsCall (ok s) id m c v p h =
      let fresh =
        lookup-AllBelow m.perspective m.next_stream m.highest_stream_opened_by_peer id m.streams
          (inr (p, h)) v.below in
      let e = put_stream-fresh id s (count_remote id m) c fresh in
      (
        record {
          valid = add_remote-IsValid (ok s) id m c v p h;
          perspective = rw e refl;
          kept = λ j f. rw e (f.0, ground (arith, lookup-insert id j s m.streams, f.1));
          opened = λ t k l. rw e (s, ground (arith, lookup-insert id (id + 2 * k) s m.streams));
        },
        λ t. rw e (ground arith),
      )

  open_remote_stream-IsCall :
      (limits : StreamLimits) (id : ℕ) (m : StreamsMap S)
      → IsValid m
      → id % 2 ≢ own_parity m.perspective
      → m.highest_stream_opened_by_peer < id
      → IsCall id m (open_remote_stream fac limits id m)
  unfolding open_remote_stream
  open_remote_stream-IsCall limits id m v p h =
      let failed : (e : Error) → IsCall id m (m, some e) =
        λ e. (IsRun-failed 1 id m e v, λ t. absurd (ground arith)) in
      if-intro (IsCall id m) (leb limits.max_incoming m.num_incoming_streams) _ _
        (λ b. failed Error.too_many_open_streams)
        (λ b.
          if-intro (IsCall id m)
            (ltb (add32 id max_new_stream_id_delta) m.highest_stream_opened_by_peer) _ _
            (λ c. failed Error.invalid_stream_id)
            (λ c. add_remote-IsCall (fac.create id) id m refl v p h))

  pub open_remote_streams-IsRun :
      (limits : StreamLimits) (n sid : ℕ) (m : StreamsMap S)
      → IsValid m
      → sid % 2 ≢ own_parity m.perspective
      → m.highest_stream_opened_by_peer < sid
      → IsRun n sid m (open_remote_streams fac limits n sid m)
  unfolding open_remote_streams
  open_remote_streams-IsRun limits zero sid m v p h = record {
    valid = v;
    perspective = refl;
    kept = λ j f. f;
    opened = λ t k l. absurd (omega arith);
  }
  open_remote_streams-IsRun limits (suc n) sid m v p h =
      let (m', e) = open_remote_stream fac limits sid m in
      go m' e (open_remote_stream-IsCall limits sid m v p h)
        (λ g. open_remote_streams-IsRun limits n (sid + 2) g)
    where
      go :
          (m' : StreamsMap S) (e : Option Error)
          → IsCall sid m (m', e)
          → ((g : StreamsMap S)
              → IsValid g
              → (sid + 2) % 2 ≢ own_parity g.perspective
              → g.highest_stream_opened_by_peer < sid + 2
              → IsRun n (sid + 2) g (open_remote_streams fac limits n (sid + 2) g))
          → IsRun (suc n) sid m (elim e [
            | some x ↦ (m', some x)
            | none ↦ open_remote_streams fac limits n (sid + 2) m'
          ])
      go m' (some x) (r, high) ih = record {
        valid = r.valid;
        perspective = r.perspective;
        kept = r.kept;
        opened = λ t. absurd (ground arith);
      }
      go m' none (r, high) ih =
          let top = high refl in
          IsRun-cons n sid m m' _ r
            (ih m' r.valid (rw r.perspective (λ q. p (omega (arith, q)))) (omega (arith, top)))
