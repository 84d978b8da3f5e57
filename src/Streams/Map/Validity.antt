-- ===== src/Streams/Map/Validity.antt =====
-- streams_map.go: the map, the slice of open streams and the counters agree, whatever is opened or
-- removed.
use plus_quic_go.Base.{
  ℕ, ◌+◌, ◌%◌, ◌^◌, ◌≤◌, ◌<◌, ◌≡◌, ◌≢◌, refl, ◌⊎◌, inl, inr, List, [], ◌∷◌, ◌++◌, some, ◌==◌,
  if◌then◌else◌, length, length-append, arith,
}
use plus_quic_go.Base.Words.{add32, sub32}
use plus_quic_go.Base.Keyed.{
  lookup, insert, delete, keys, IsDistinct, keys-insert, IsDistinct-insert, IsDistinct-delete,
}
use plus_quic_go.Streams.Map.{
  Perspective, server, client, is_server, StreamsMap, new_streams_map, remove_open,
}
use plus_quic_go.Streams.Map.Counts.{
  own_parity, AllBelow, count_parity, count_parity-insert, count_parity-delete, AllBelow-insert,
  AllBelow-delete, AllBelow-weaken, lookup-AllBelow, remove_open-keys,
}

pub record Holds {S : Type 0} (pers : Perspective) (next highest outgoing incoming index : ℕ)
    (streams : List (ℕ × S)) (open_streams : List ℕ) : Type 0 where
  pub listed : open_streams ≡ keys streams
  pub distinct : IsDistinct streams
  pub outgoing_counted : outgoing ≡ count_parity 0 streams % 2 ^ 32
  pub incoming_counted : incoming ≡ count_parity 1 streams % 2 ^ 32
  pub below : AllBelow pers next highest streams
  pub next_parity : next % 2 ≡ own_parity pers
  pub highest_parity : (highest ≡ 0) ⊎ (highest % 2 ≢ own_parity pers)
  pub index_le : index ≤ length open_streams

-- The slice lists the keys of the map, in which every id stands once; the counters are the numbers
-- of even and of odd ids as uint32; ids of this side lie below `next_stream` and those of the peer
-- reach up to `highest_stream_opened_by_peer`, with the parities of the two sides; and the round
-- robin index lies within the slice.
abbrev pub IsValid : {S : Type 0} → StreamsMap S → Type 0
IsValid m =
    Holds m.perspective m.next_stream m.highest_stream_opened_by_peer m.num_outgoing_streams
      m.num_incoming_streams m.round_robin_index m.streams m.open_streams

module _ {S : Type 0} where
  pub length-keys : (ids : List ℕ) (ss : List (ℕ × S)) → ids ≡ keys ss → length ids ≡ length ss
  length-keys ids [] e = rw e refl
  length-keys ids ((j, s) ∷ ss) e = rw e (omega (arith, length-keys (keys ss) ss refl))

  pub new_streams_map-IsValid : (pers : Perspective) → IsValid (new_streams_map {S = S} pers)
  unfolding new_streams_map
  new_streams_map-IsValid server = record {
    listed = refl;
    distinct = tt;
    outgoing_counted = refl;
    incoming_counted = refl;
    below = omega arith;
    next_parity = refl;
    highest_parity = inl refl;
    index_le = omega arith;
  }
  new_streams_map-IsValid client = record {
    listed = refl;
    distinct = tt;
    outgoing_counted = refl;
    incoming_counted = refl;
    below = omega arith;
    next_parity = refl;
    highest_parity = inl refl;
    index_le = omega arith;
  }

  pub Holds-remote :
      (pers : Perspective) (next highest outgoing incoming index id : ℕ) (s : S)
      (streams : List (ℕ × S)) (open_streams : List ℕ)
      → Holds pers next highest outgoing incoming index streams open_streams
      → id % 2 ≢ own_parity pers
      → highest < id
      → Holds pers next id
          (if is_server pers then outgoing else add32 outgoing 1)
          (if is_server pers then add32 incoming 1 else incoming)
          index
          (insert id s streams)
          (open_streams ++ id ∷ [])
  Holds-remote pers next highest outgoing incoming index id s streams open_streams v h k =
      let fresh = lookup-AllBelow pers next highest id streams (inr (h, k)) v.below in
      let c0 = count_parity-insert 0 id s streams fresh in
      let c1 = count_parity-insert 1 id s streams fresh in
      record {
        listed = rw (v.listed, keys-insert id s streams fresh) refl;
        distinct = IsDistinct-insert id s streams fresh v.distinct;
        outgoing_counted =
            elim pers
                as (λ p.
                  id % 2 ≢ own_parity p
                  → (if is_server p then outgoing else add32 outgoing 1)
                    ≡ count_parity 0 (insert id s streams) % 2 ^ 32) [
                      | server ↦ λ h. ground (arith, c0, v.outgoing_counted)
                      | client ↦ λ h. ground (arith, c0, v.outgoing_counted)
                    ]
              h;
        incoming_counted =
            elim pers
                as (λ p.
                  id % 2 ≢ own_parity p
                  → (if is_server p then add32 incoming 1 else incoming)
                    ≡ count_parity 1 (insert id s streams) % 2 ^ 32) [
                      | server ↦ λ h. ground (arith, c1, v.incoming_counted)
                      | client ↦ λ h. ground (arith, c1, v.incoming_counted)
                    ]
              h;
        below =
            AllBelow-insert pers next id id s streams (inr (h, omega arith)) (
              AllBelow-weaken pers next highest next id streams (omega arith) (omega arith)
                v.below);
        next_parity = v.next_parity;
        highest_parity = inr h;
        index_le = omega (arith, length-append open_streams (id ∷ []), v.index_le);
      }

  pub Holds-local :
      (pers : Perspective) (next highest outgoing incoming index : ℕ) (s : S)
      (streams : List (ℕ × S)) (open_streams : List ℕ)
      → Holds pers next highest outgoing incoming index streams open_streams
      → next + 2 < 2 ^ 32
      → Holds pers
          (add32 next 2)
          highest
          (if is_server pers then add32 outgoing 1 else outgoing)
          (if is_server pers then incoming else add32 incoming 1)
          index
          (insert next s streams)
          (open_streams ++ next ∷ [])
  Holds-local pers next highest outgoing incoming index s streams open_streams v small =
      let fresh =
        lookup-AllBelow pers next highest next streams (inl (v.next_parity, omega arith)) v.below in
      let c0 = count_parity-insert 0 next s streams fresh in
      let c1 = count_parity-insert 1 next s streams fresh in
      record {
        listed = rw (v.listed, keys-insert next s streams fresh) refl;
        distinct = IsDistinct-insert next s streams fresh v.distinct;
        outgoing_counted =
            elim pers
                as (λ p.
                  next % 2 ≡ own_parity p
                  → (if is_server p then add32 outgoing 1 else outgoing)
                    ≡ count_parity 0 (insert next s streams) % 2 ^ 32) [
                      | server ↦ λ h. ground (arith, c0, v.outgoing_counted)
                      | client ↦ λ h. ground (arith, c0, v.outgoing_counted)
                    ]
              v.next_parity;
        incoming_counted =
            elim pers
                as (λ p.
                  next % 2 ≡ own_parity p
                  → (if is_server p then incoming else add32 incoming 1)
                    ≡ count_parity 1 (insert next s streams) % 2 ^ 32) [
                      | server ↦ λ h. ground (arith, c1, v.incoming_counted)
                      | client ↦ λ h. ground (arith, c1, v.incoming_counted)
                    ]
              v.next_parity;
        below =
            AllBelow-insert pers (add32 next 2) highest next s streams
              (inl (v.next_parity, omega arith))
              (AllBelow-weaken pers next highest (add32 next 2) highest streams (omega arith)
                (omega arith) v.below);
        next_parity = omega (arith, v.next_parity);
        highest_parity = v.highest_parity;
        index_le = omega (arith, length-append open_streams (next ∷ []), v.index_le);
      }

  pub Holds-remove :
      (pers : Perspective) (next highest outgoing incoming index id : ℕ) (s : S)
      (streams : List (ℕ × S)) (open_streams : List ℕ)
      → Holds pers next highest outgoing incoming index streams open_streams
      → lookup id streams ≡ some s
      → Holds pers next highest
          (if id % 2 == 0 then sub32 outgoing 1 else outgoing)
          (if id % 2 == 0 then incoming else sub32 incoming 1)
          (remove_open id 0 index open_streams).1
          (delete id streams)
          (remove_open id 0 index open_streams).0
  Holds-remove pers next highest outgoing incoming index id s streams open_streams v e =
      let c0 = count_parity-delete 0 id s streams e v.distinct in
      let c1 = count_parity-delete 1 id s streams e v.distinct in
      let at_most : index ≤ length (keys streams) = rw v.listed at v.index_le in
      let (rest, le) = remove_open-keys id 0 index s streams e v.distinct (omega arith) in
      record {
        listed = rw v.listed rest;
        distinct = IsDistinct-delete id streams v.distinct;
        outgoing_counted = ground (arith, c0, v.outgoing_counted);
        incoming_counted = ground (arith, c1, v.incoming_counted);
        below = AllBelow-delete pers next highest id streams v.below;
        next_parity = v.next_parity;
        highest_parity = v.highest_parity;
        index_le = rw v.listed (omega (arith, le));
      }
