-- ===== src/Packets/Framer/Retransmissions.antt =====
-- stream_framer.go: the STREAM frames that are sent again fit the room that is left in the packet.
use plus_quic_go.Base.{
  ℕ, ◌+◌, ◌-◌, ◌^◌, ◌<◌, ◌≤◌, ◌≡◌, refl, ap, ◌⊎◌, inl, inr, List, [], ◌∷◌, ◌++◌, true, false, none,
  some, arith, length, take, drop, length-drop, length-take_le, leb, All, length-append,
}
use plus_quic_go.Base.Words.{add64, sub64}
use plus_quic_go.Frames.Stream.{StreamFrame, data_len, stream_frame_min_length, write_stream_frame}
use plus_quic_go.Frames.Stream.Fields.{offset_length_bounds, stream_id_length_bounds}
use plus_quic_go.Frames.Stream.RoundTrip.{length-write_stream_frame}
use plus_quic_go.Packets.Framer.{
  StreamFramer, maybe_split_off_frame, present, cons_popped, pop_frames,
  maybe_pop_frames_for_retransmission,
}

-- What Write accepts and the offsets of a stream allow.
abbrev pub IsSendable : StreamFrame → Type 0
IsSendable f =
    (f.stream_id < 2 ^ 32)
    × (f.offset + length f.payload < 2 ^ 64)
    × ((f.fin_bit ≡ true) ⊎ (0 < length f.payload))

-- The part of a frame in front of the byte `n`, and the part from there.
abbrev pub front : StreamFrame → ℕ → StreamFrame
front f n = record {
  stream_id = f.stream_id;
  fin_bit = false;
  data_len_present = true;
  offset = f.offset;
  payload = take n f.payload;
}

abbrev pub back : StreamFrame → ℕ → StreamFrame
back f n = record {
  stream_id = f.stream_id;
  fin_bit = f.fin_bit;
  data_len_present = true;
  offset = add64 f.offset n;
  payload = drop n f.payload;
}

min_length_bounds : (f : StreamFrame) → stream_frame_min_length f ≤ 15
unfolding stream_frame_min_length
min_length_bounds f =
    ground (arith, offset_length_bounds f.offset, stream_id_length_bounds f.stream_id)

room : (m h d : ℕ) → (m ≤ h) ⊎ ((h < m) × (m - h < d)) ⊎ ((h < m) × (d ≤ m - h))
room m h d = ground arith

split-cut :
    (f : StreamFrame) (n : ℕ)
    → n < length f.payload
    → maybe_split_off_frame (present f) n ≡ (some (front f n), back f n)
unfolding maybe_split_off_frame
split-cut f n l = let t : leb (length f.payload) n ≡ false = ground arith in rw t

split-whole :
    (f : StreamFrame) (n : ℕ)
    → length f.payload ≤ n
    → maybe_split_off_frame (present f) n ≡ (none, present f)
unfolding maybe_split_off_frame
split-whole f n l = let t : leb (length f.payload) n ≡ true = ground arith in rw t

-- The three ways that the loop goes on from the first frame of the queue.
pub pop_frames_cases :
    (m c : ℕ) (f : StreamFrame) (fs : List StreamFrame)
    → m + 16 ≤ 2 ^ 64
    → c ≤ m
    → let h = c + stream_frame_min_length (present f) in
      ((m ≤ h)
        × (pop_frames m c (f ∷ fs) ≡ record { res = []; current_len = c; queue = present f ∷ fs }))
      ⊎ ((h < m)
          × (m - h < length f.payload)
          × (pop_frames m c (f ∷ fs) ≡ record {
            res = front f (m - h) ∷ [];
            current_len = m;
            queue = back f (m - h) ∷ fs;
          }))
      ⊎ ((h + length f.payload ≤ m)
          × (pop_frames m c (f ∷ fs)
              ≡ cons_popped (present f) (pop_frames m (h + length f.payload) fs)))
unfolding pop_frames
pop_frames_cases m c f fs small l =
    let len = stream_frame_min_length (present f) in
    let h = c + len in
    let b = min_length_bounds (present f) in
    let e : add64 c len ≡ h = omega arith in
    let d : h < m → sub64 m (add64 c len) ≡ m - h = λ under. omega arith in
    elim (room m h (length f.payload)) [
      | inl over ↦ let t : leb m (add64 c len) ≡ true = ground arith in inl (over, rw t)
      | inr (inl (under, less)) ↦
          let t : leb m (add64 c len) ≡ false = ground arith in
          let sp : maybe_split_off_frame (present f) (sub64 m (add64 c len))
              ≡ (some (front f (m - h)), back f (m - h)) =
            rw (d under) (split-cut f (m - h) less) in
          let k : add64 (add64 c len) (length (take (m - h) f.payload)) ≡ m =
            omega (arith, length-take_le (m - h) f.payload (omega arith)) in
          inr (inl (under, less, rw (sp, ap (λ x. x.1) sp, t, k)))
      | inr (inr (under, fits)) ↦
          let t : leb m (add64 c len) ≡ false = ground arith in
          let k : add64 (add64 c len) (length f.payload) ≡ h + length f.payload = omega arith in
          inr (inr (omega arith, rw (d under, split-whole f (m - h) fits, t, k)))
    ]

min_length-front :
    (f : StreamFrame) (n : ℕ)
    → stream_frame_min_length (front f n) ≡ stream_frame_min_length (present f)
unfolding stream_frame_min_length
min_length-front f n = refl

-- What Write appends for the frames, one after the other.
abbrev pub written : List StreamFrame → List ℕ
written [] = []
written (f ∷ fs) = (write_stream_frame f).0 ++ written fs

abbrev pub IsWritten : StreamFrame → Type 0
IsWritten f = (write_stream_frame f).1 ≡ none

IsSendable-IsWritten :
    (f : StreamFrame)
    → IsSendable f
    → IsWritten f × (length ((write_stream_frame f).0) ≡ stream_frame_min_length f + data_len f)
IsSendable-IsWritten f (id, bounded, s) = elim (length-write_stream_frame f id (omega arith)) [
  | inl (b, l, e) ↦ ground arith
  | inr w ↦ w
]

-- The frames `fs` are written without an error, and fill the room from `c` to `n`, within `m`.
abbrev pub Fits : ℕ → ℕ → List StreamFrame → ℕ → Type 0
Fits m c fs n = All IsWritten fs × (c + length (written fs) ≡ n) × (n ≤ m)

module _ (m : ℕ) (small : m + 16 ≤ 2 ^ 64) where
  pop_frames-Fits :
      (c : ℕ) (fs : List StreamFrame)
      → c ≤ m
      → All IsSendable fs
      → Fits m c ((pop_frames m c fs).res) ((pop_frames m c fs).current_len)
        × All IsSendable ((pop_frames m c fs).queue)
  unfolding pop_frames
  pop_frames-Fits c [] l s = ((tt, omega arith, l), tt)
  pop_frames-Fits c (f ∷ fs) l ((id, bounded, some_data), s) =
      elim (pop_frames_cases m c f fs small l) [
        | inl (over, e) ↦ rw e ((tt, omega arith, l), ((id, bounded, some_data), s))
        | inr (inl (under, less, e)) ↦
            let n = m - (c + stream_frame_min_length (present f)) in
            let taken = length-take_le n f.payload (omega arith) in
            let same = min_length-front f n in
            let left = length-drop n f.payload in
            let (w, b) = IsSendable-IsWritten (front f n) (id, omega arith, inr (omega arith)) in
            rw e (
              (
                (w, tt),
                omega (arith, taken, same, length-append ((write_stream_frame (front f n)).0) []),
                omega arith,
              ),
              ((id, omega arith, inr (omega arith)), s),
            )
        | inr (inr (fits, e)) ↦
            let (w, b) = IsSendable-IsWritten (present f) (id, bounded, some_data) in
            let rest =
              pop_frames m (c + stream_frame_min_length (present f) + length f.payload) fs in
            let ((ws, t, r), q) =
              pop_frames-Fits (c + stream_frame_min_length (present f) + length f.payload) fs fits
                s in
            rw e (
              (
                (w, ws),
                omega
                    (arith, length-append ((write_stream_frame (present f)).0) (written rest.res)),
                r,
              ),
              q,
            )
      ]

  pop_frames-full :
      (c : ℕ) (fs : List StreamFrame)
      → c ≤ m
      → ((pop_frames m c fs).queue ≡ [])
        ⊎ ((f : StreamFrame) × (left : List StreamFrame) × ((pop_frames m c fs).queue ≡ f ∷ left)
            × (m ≤ (pop_frames m c fs).current_len + stream_frame_min_length f))
  unfolding pop_frames
  pop_frames-full c [] l = inl refl
  pop_frames-full c (f ∷ fs) l = elim (pop_frames_cases m c f fs small l) [
    | inl (over, e) ↦ inr (present f, fs, ap (λ p. p.queue) e, rw e over)
    | inr (inl (under, less, e)) ↦
        let n = m - (c + stream_frame_min_length (present f)) in
        inr (back f n, fs, ap (λ p. p.queue) e, rw e (omega arith))
    | inr (inr (fits, e)) ↦
        rw e (pop_frames-full (c + stream_frame_min_length (present f) + length f.payload) fs fits)
  ]

-- For a queue of frames that Write accepts, each of them ending below the offset 2^64, and room for
-- at most 2^64 - 16 bytes, the frames that maybePopFramesForRetransmission gives are written without
-- an error, and take as many bytes as it says, which is no more than the room. The queue that is left
-- is again one of frames that Write accepts, and it is empty, or the room has no byte for data behind
-- the header of its first frame.
pub maybe_pop_frames_for_retransmission_fills :
    (max_len : ℕ) (s : StreamFramer)
    → max_len + 16 ≤ 2 ^ 64
    → All IsSendable s.retransmission_queue
    → let (res, current_len, s') = maybe_pop_frames_for_retransmission max_len s in
      Fits max_len 0 res current_len
      × All IsSendable s'.retransmission_queue
      × ((s'.retransmission_queue ≡ [])
          ⊎ ((f : StreamFrame) × (left : List StreamFrame) × (s'.retransmission_queue ≡ f ∷ left)
              × (max_len ≤ current_len + stream_frame_min_length f)))
unfolding maybe_pop_frames_for_retransmission
maybe_pop_frames_for_retransmission_fills m s small q =
    let queue = s.retransmission_queue in
    let (fits, left) = pop_frames-Fits m small 0 queue (omega arith) q in
    (fits, left, pop_frames-full m small 0 queue (omega arith))
