-- ===== src/Ackhandler/Sent/Bytes.antt =====
-- ackhandler/sent_packet_handler.go: the history of sent packets as a list; selections from it.
use plus_quic_go.Base.{
  ℕ, suc, ◌+◌, ◌^◌, ◌≤◌, ◌<◌, ◌≡◌, refl, true, false, List, [], ◌∷◌, ◌++◌, Option, none, some, ltb,
  ◌==◌, if◌then◌else◌, length, Result, ok, err, arith,
}
use plus_quic_go.Frames.Ack.{AckRange, AckFrame}
use plus_quic_go.Ackhandler.Sent.{Packet, Error, remove_packet}
use plus_quic_go.Ackhandler.Sent.Loss.{lost_packets}
use plus_quic_go.Ackhandler.Sent.Acks.{
  Containment, contained, not_contained, beyond_range, add_contained, contained_in, advance,
  newly_acked, determine_newly_acked_packets,
}
use plus_quic_go.Ackhandler.Sent.Newly.{acked_of, IsRising}

module _ {F : Type 0} where
  abbrev pub sum_lengths : List (Packet F) → ℕ
  sum_lengths [] = 0
  sum_lengths (p ∷ ps) = p.length_bytes + sum_lengths ps

  -- The packet with this number.
  abbrev pub find_packet : ℕ → List (Packet F) → Option (Packet F)
  find_packet pn [] = none
  find_packet pn (p ∷ ps) = if p.packet_number == pn then some p else find_packet pn ps

  -- Packet numbers are at most `high`, and lengths are words.
  abbrev pub IsUpTo : ℕ → List (Packet F) → Type 0
  IsUpTo high [] = Unit {0}
  IsUpTo high (p ∷ ps) = (p.packet_number ≤ high) × (p.length_bytes < 2 ^ 64) × IsUpTo high ps

  -- Packets with rising numbers above `low`, each of which stands in `ps`.
  abbrev pub IsSelection : ℕ → List (Packet F) → List (Packet F) → Type 0
  IsSelection low [] ps = Unit {0}
  IsSelection low (q ∷ qs) ps =
      (low < q.packet_number)
      × (find_packet q.packet_number ps ≡ some q)
      × IsSelection q.packet_number qs ps

module _ {F : Type 0} where
  pub sum_lengths-append :
      (ps qs : List (Packet F)) → sum_lengths (ps ++ qs) ≡ sum_lengths ps + sum_lengths qs
  sum_lengths-append [] qs = omega arith
  sum_lengths-append (p ∷ ps) qs = omega (arith, sum_lengths-append ps qs)

  pub find-remove_packet :
      (q pn : ℕ) (ps : List (Packet F))
      → pn < q
      → find_packet q (remove_packet pn ps) ≡ find_packet q ps
  unfolding remove_packet
  find-remove_packet q pn [] h = refl
  find-remove_packet q pn (p ∷ ps) h = ground (arith, find-remove_packet q pn ps h)

  pub sum_lengths-remove_packet :
      (pn : ℕ) (ps : List (Packet F)) (p : Packet F)
      → find_packet pn ps ≡ some p
      → (sum_lengths ps ≡ p.length_bytes + sum_lengths (remove_packet pn ps))
        × (length ps ≡ suc (length (remove_packet pn ps)))
  unfolding remove_packet
  sum_lengths-remove_packet pn [] p e = absurd (ground arith)
  sum_lengths-remove_packet pn (q ∷ ps) p e = ground (arith, sum_lengths-remove_packet pn ps p)

  IsRising-weaken :
      (low low' : ℕ) (ps : List (Packet F)) → low' ≤ low → IsRising low ps → IsRising low' ps
  IsRising-weaken low low' [] h r = tt
  IsRising-weaken low low' (p ∷ ps) h r = (omega arith, r.1)

  pub remove_packet-IsRising :
      (low pn : ℕ) (ps : List (Packet F)) → IsRising low ps → IsRising low (remove_packet pn ps)
  unfolding remove_packet
  remove_packet-IsRising low pn [] r = tt
  remove_packet-IsRising low pn (p ∷ ps) r = ground (
    arith,
    IsRising-weaken p.packet_number low ps,
    remove_packet-IsRising p.packet_number pn ps r.1,
  )

  pub remove_packet-IsUpTo :
      (high pn : ℕ) (ps : List (Packet F)) → IsUpTo high ps → IsUpTo high (remove_packet pn ps)
  unfolding remove_packet
  remove_packet-IsUpTo high pn [] u = tt
  remove_packet-IsUpTo high pn (p ∷ ps) u = ground (arith, remove_packet-IsUpTo high pn ps u.2)

  pub find-IsUpTo :
      (high pn : ℕ) (ps : List (Packet F)) (p : Packet F)
      → IsUpTo high ps
      → find_packet pn ps ≡ some p
      → p.length_bytes < 2 ^ 64
  find-IsUpTo high pn [] p u e = absurd (ground arith)
  find-IsUpTo high pn (q ∷ ps) p u e = ground (arith, find-IsUpTo high pn ps p u.2)

  -- A selection stays one when a packet with a lower number is removed.
  pub IsSelection-remove_packet :
      (low pn : ℕ) (qs ps : List (Packet F))
      → pn ≤ low
      → IsSelection low qs ps
      → IsSelection low qs (remove_packet pn ps)
  IsSelection-remove_packet low pn [] ps h s = tt
  IsSelection-remove_packet low pn (q ∷ qs) ps h s = (
    s.0,
    rw (find-remove_packet q.packet_number pn ps (omega arith)) s.1,
    IsSelection-remove_packet q.packet_number pn qs ps (omega arith) s.2,
  )

  -- And when a packet with a lower number stands in front.
  IsSelection-cons :
      (low : ℕ) (p : Packet F) (qs ps : List (Packet F))
      → p.packet_number ≤ low
      → IsSelection low qs ps
      → IsSelection low qs (p ∷ ps)
  IsSelection-cons low p [] ps h s = tt
  IsSelection-cons low p (q ∷ qs) ps h s =
      (s.0, ground (arith, s), IsSelection-cons q.packet_number p qs ps (omega arith) s.2)

  IsSelection-weaken :
      (low low' : ℕ) (qs ps : List (Packet F))
      → low' ≤ low
      → IsSelection low qs ps
      → IsSelection low' qs ps
  IsSelection-weaken low low' [] ps h s = tt
  IsSelection-weaken low low' (q ∷ qs) ps h s = (omega arith, s.1, s.2)

  found_head : (p : Packet F) (ps : List (Packet F)) → find_packet p.packet_number (p ∷ ps) ≡ some p
  found_head p ps = ground arith

  pub acked_of-IsSelection :
      (f : AckFrame) (low : ℕ) (ps : List (Packet F))
      → IsRising low ps
      → IsSelection low (acked_of f ps) ps
  unfolding acked_of
  acked_of-IsSelection f low [] r = tt
  acked_of-IsSelection f low (p ∷ ps) r =
      let rest =
        IsSelection-cons p.packet_number p (acked_of f ps) ps (omega arith)
          (acked_of-IsSelection f p.packet_number ps r.1) in
      ground (
        arith,
        rest,
        found_head p ps,
        IsSelection-weaken p.packet_number low (acked_of f ps) (p ∷ ps),
      )

  pub lost_packets-IsSelection :
      (largest delay now low : ℕ) (ps : List (Packet F))
      → IsRising low ps
      → IsSelection low (lost_packets largest delay now ps) ps
  unfolding lost_packets
  lost_packets-IsSelection largest delay now low [] r = tt
  lost_packets-IsSelection largest delay now low (p ∷ ps) r =
      let lost = lost_packets largest delay now ps in
      let rest =
        IsSelection-cons p.packet_number p lost ps (omega arith)
          (lost_packets-IsSelection largest delay now p.packet_number ps r.1) in
      ground (arith, rest, found_head p ps, IsSelection-weaken p.packet_number low lost (p ∷ ps))

  -- Where a result is a list of packets, it is a selection.
  abbrev pub OkSelection : ℕ → List (Packet F) → Result Error (List (Packet F)) → Type 0
  OkSelection low ps (ok qs) = IsSelection low qs ps
  OkSelection low ps (err e) = Unit {0}

  OkSelection-cons :
      (low : ℕ) (p : Packet F) (ps : List (Packet F)) (r : Result Error (List (Packet F)))
      → low < p.packet_number
      → OkSelection p.packet_number ps r
      → OkSelection low (p ∷ ps) r
  OkSelection-cons low p ps (err e) h s = tt
  OkSelection-cons low p ps (ok qs) h s =
      IsSelection-weaken p.packet_number low qs (p ∷ ps) (omega arith)
        (IsSelection-cons p.packet_number p qs ps (omega arith) s)

  add_contained-OkSelection :
      (low : ℕ) (k : Containment) (p : Packet F) (ps : List (Packet F))
      (r : Result Error (List (Packet F)))
      → low < p.packet_number
      → OkSelection p.packet_number ps r
      → OkSelection low (p ∷ ps) (add_contained k p r)
  unfolding add_contained
  add_contained-OkSelection low beyond_range p ps r h s = tt
  add_contained-OkSelection low not_contained p ps r h s = OkSelection-cons low p ps r h s
  add_contained-OkSelection low contained p ps (err e) h s = tt
  add_contained-OkSelection low contained p ps (ok qs) h s =
      (h, found_head p ps, IsSelection-cons p.packet_number p qs ps (omega arith) s)

  newly_acked-OkSelection :
      (lowest largest low : ℕ) (rs : List AckRange) (ps : List (Packet F))
      → IsRising low ps
      → OkSelection low ps (newly_acked lowest largest rs ps)
  unfolding newly_acked
  newly_acked-OkSelection lowest largest low rs [] w = tt
  newly_acked-OkSelection lowest largest low rs (p ∷ ps) w =
      elim (ltb p.packet_number lowest)
        as (λ b. OkSelection low (p ∷ ps) (elim b [
          | true ↦ skip
          | false ↦ elim (ltb largest p.packet_number) [ true ↦ ok [] | false ↦ take_in ]
        ])) [
          | true ↦
              OkSelection-cons low p ps _ w.0
                (newly_acked-OkSelection lowest largest p.packet_number rs ps w.1)
          | false ↦
              elim (ltb largest p.packet_number)
                as (λ b. OkSelection low (p ∷ ps) (elim b [ true ↦ ok [] | false ↦ take_in ])) [
                  | true ↦ tt
                  | false ↦ add_contained-OkSelection low _ p ps _ w.0 (
                      newly_acked-OkSelection lowest largest p.packet_number
                        (advance p.packet_number rs) ps w.1)
                ]
        ]
    where
      skip : Result Error (List (Packet F))
      skip = newly_acked lowest largest rs ps

      take_in : Result Error (List (Packet F))
      take_in =
          add_contained (contained_in p.packet_number (advance p.packet_number rs)) p
            (newly_acked lowest largest (advance p.packet_number rs) ps)

  -- For any frame, what it acks is a selection from the history.
  pub determine_newly_acked_packets-OkSelection :
      (f : AckFrame) (ps : List (Packet F))
      → IsRising 0 ps
      → OkSelection 0 ps (determine_newly_acked_packets f ps)
  unfolding determine_newly_acked_packets
  determine_newly_acked_packets-OkSelection f ps w =
      newly_acked-OkSelection f.lowest_acked f.largest_acked 0 _ ps w
