-- ===== src/Packets/Framer/Events.antt =====
-- stream_framer.go: what the queue of frames to send again holds, told as bytes of streams and ends
-- of streams, without the frames that carry them.
use plus_quic_go.Base.{
  ℕ, zero, suc, ◌+◌, ◌-◌, ◌^◌, ◌<◌, ◌≤◌, ◌≡◌, refl, ap, inl, inr, List, [], ◌∷◌, ◌++◌, Bool, false,
  arith, length, take, drop, if◌then◌else◌, All,
}
use mathlib.Core.List.{append_assoc, append-nil}
use plus_quic_go.Base.Words.{add64}
use plus_quic_go.Frames.Stream.{StreamFrame, stream_frame_min_length}
use plus_quic_go.Packets.Framer.{
  StreamFramer, present, pop_frames, maybe_pop_frames_for_retransmission,
  add_frame_for_retransmission,
}
use plus_quic_go.Packets.Framer.Retransmissions.{IsSendable, front, pop_frames_cases}

-- A byte of a stream at an offset, or the end of a stream at an offset.
pub data Event : Type 0 where
  byte_at : ℕ → ℕ → ℕ → Event
  end_at : ℕ → ℕ → Event

abbrev pub events_from : ℕ → ℕ → List ℕ → Bool → List Event
events_from sid off [] fin = if fin then end_at sid off ∷ [] else []
events_from sid off (b ∷ bs) fin = byte_at sid off b ∷ events_from sid (add64 off 1) bs fin

abbrev pub frame_events : StreamFrame → List Event
frame_events f = events_from f.stream_id f.offset f.payload f.fin_bit

abbrev pub events : List StreamFrame → List Event
events [] = []
events (f ∷ fs) = frame_events f ++ events fs

events-append : (fs gs : List StreamFrame) → events (fs ++ gs) ≡ events fs ++ events gs
events-append [] gs = refl
events-append (f ∷ fs) gs = rw (events-append fs gs) (simp append_assoc)

events_from-split :
    (sid off : ℕ) (bs : List ℕ) (fin : Bool) (n : ℕ)
    → n ≤ length bs
    → off < 2 ^ 64
    → events_from sid off (take n bs) false ++ events_from sid (add64 off n) (drop n bs) fin
      ≡ events_from sid off bs fin
events_from-split sid off bs fin zero l b =
    let e : add64 off 0 ≡ off = omega arith in ap (λ o. events_from sid o bs fin) e
events_from-split sid off [] fin (suc n) l b = elim l [ ]
events_from-split sid off (x ∷ bs) fin (suc n) l b =
    let e : add64 off (suc n) ≡ add64 (add64 off 1) n = omega arith in
    rw e (
      ap (λ es. byte_at sid off x ∷ es)
        (events_from-split sid (add64 off 1) bs fin n (omega arith) (omega arith)))

join : (xs ys zs ws : List Event) → xs ++ ys ≡ ws → (xs ++ []) ++ (ys ++ zs) ≡ ws ++ zs
join xs ys zs ws e =
    let assoc : (xs ++ []) ++ (ys ++ zs) ≡ (xs ++ ys) ++ zs = simp (append_assoc, append-nil) in
    rw (assoc, e)

put_before : (xs ys zs ws : List Event) → ys ++ zs ≡ ws → (xs ++ ys) ++ zs ≡ xs ++ ws
put_before xs ys zs ws e =
    let assoc : (xs ++ ys) ++ zs ≡ xs ++ (ys ++ zs) = simp append_assoc in rw (assoc, e)

module _ (m : ℕ) (small : m + 16 ≤ 2 ^ 64) where
  pop_frames-events :
      (c : ℕ) (fs : List StreamFrame)
      → c ≤ m
      → All IsSendable fs
      → events ((pop_frames m c fs).res) ++ events ((pop_frames m c fs).queue) ≡ events fs
  unfolding pop_frames
  pop_frames-events c [] l s = refl
  pop_frames-events c (f ∷ fs) l ((id, bounded, some_data), s) =
      elim (pop_frames_cases m c f fs small l) [
        | inl (over, e) ↦ rw e refl
        | inr (inl (under, less, e)) ↦
            let n = m - (c + stream_frame_min_length (present f)) in
            let split =
              events_from-split f.stream_id f.offset f.payload f.fin_bit n (omega arith)
                (omega arith) in
            rw e (join (frame_events (front f n)) _ _ _ split)
        | inr (inr (fits, e)) ↦
            let next = c + stream_frame_min_length (present f) + length f.payload in
            rw e (put_before (frame_events (present f)) _ _ _ (pop_frames-events next fs fits s))
      ]

-- Popping takes the front of what is queued to be sent again and leaves the rest, byte for byte and
-- with the ends of the streams, also where a frame is split, and AddFrameForRetransmission puts what a
-- frame carries behind it. The queued frames are ones that Write accepts, each ending below the offset
-- 2^64, and the room is at most 2^64 - 16 bytes.
pub maybe_pop_frames_for_retransmission-events :
    (max_len : ℕ) (s : StreamFramer) (added : StreamFrame)
    → max_len + 16 ≤ 2 ^ 64
    → All IsSendable s.retransmission_queue
    → let (res, current_len, s') = maybe_pop_frames_for_retransmission max_len s in
      (events res ++ events s'.retransmission_queue ≡ events s.retransmission_queue)
      × (events (add_frame_for_retransmission added s').retransmission_queue
          ≡ events s'.retransmission_queue ++ frame_events added)
unfolding maybe_pop_frames_for_retransmission add_frame_for_retransmission
maybe_pop_frames_for_retransmission-events m s added small q =
    let p = pop_frames m 0 s.retransmission_queue in
    (
      pop_frames-events m small 0 s.retransmission_queue (omega arith) q,
      rw (events-append p.queue (added ∷ []), append-nil (frame_events added)),
    )
