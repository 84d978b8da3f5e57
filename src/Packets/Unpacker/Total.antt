-- ===== src/Packets/Unpacker/Total.antt =====
-- packet_unpacker.go: the loop over the frames ends on every packet, as every frame takes a byte.
use plus_quic_go.Base.{
  ℕ, zero, suc, ◌≤◌, ◌<◌, ◌≡◌, ◌≢◌, ◌⊎◌, inl, inr, refl, List, [], ◌∷◌, Bool, true, false, Option,
  none, some, ◌==◌, if◌then◌else◌, Bool-cases, length, Result, ok, err, arith,
}
use plus_quic_go.Wire.{Error, Parsed}
use plus_quic_go.Wire.Progress.{Takes}
use plus_quic_go.Frames.Stream.{StreamFrame}
use plus_quic_go.Frames.Progress.{
  parse_stream_frame-Takes, parse_ack_frame-Takes, parse_rst_stream_frame-Takes,
  parse_connection_close_frame-Takes, parse_goaway_frame-Takes, parse_window_update_frame-Takes,
  parse_blocked_frame-Takes, parse_stop_waiting_frame-Takes, parse_ping_frame-Takes,
  parse_plus_feedback_frame-Takes,
}
use plus_quic_go.Packets.Unpacker.{
  Frame, UnpackError, PacketInfo, wrap, check_encryption, parse_frame, cons_frame, read_frames,
  finish, Aead, UnpackedPacket, unpack_opened, unpack,
}

-- A frame that is read from `n` bytes leaves fewer.
abbrev Shrinks : ℕ → Result UnpackError (Frame × List ℕ) → Type 0
Shrinks n r = (f : Frame) (rest : List ℕ) → r ≡ ok (f, rest) → length rest < n

err-Shrinks : (n : ℕ) (e : UnpackError) → Shrinks n (err e)
err-Shrinks n e f rest p = ground arith

wrap-Shrinks :
    {A : Type 0} (n : ℕ) (on_error : Error → UnpackError) (frame : A → Frame) (r : Parsed A)
    → Takes 1 n r
    → Shrinks n (wrap on_error frame r)
wrap-Shrinks n on_error frame (ok (a, rest)) h f rest' e = ground (arith, h a rest refl)
wrap-Shrinks n on_error frame (err x) h f rest' e = ground arith

check-Shrinks :
    (n level : ℕ) (r : Parsed StreamFrame) → Takes 1 n r → Shrinks n (check_encryption level r)
check-Shrinks n level (ok (a, rest)) h f rest' e = ground (arith, h a rest refl)
check-Shrinks n level (err x) h f rest' e = ground arith

if-Shrinks :
    (n : ℕ) (b : Bool) (r s : Result UnpackError (Frame × List ℕ))
    → Shrinks n r
    → Shrinks n s
    → Shrinks n (if b then r else s)
if-Shrinks n true r s h g = h
if-Shrinks n false r s h g = g

parse_frame-Shrinks :
    (level : ℕ) (hdr : PacketInfo) (t : ℕ) (bs : List ℕ)
    → Shrinks (length bs) (parse_frame level hdr t bs)
unfolding parse_frame
parse_frame-Shrinks level hdr t bs =
    let n = length bs in
    if-Shrinks n _ _ _ (check-Shrinks n level _ (parse_stream_frame-Takes bs)) (
      if-Shrinks n _ _ _ (wrap-Shrinks n _ _ _ (parse_ack_frame-Takes bs)) (
        if-Shrinks n _ _ _ (err-Shrinks n _) (
          if-Shrinks n _ _ _ (wrap-Shrinks n _ _ _ (parse_rst_stream_frame-Takes bs)) (
            if-Shrinks n _ _ _ (wrap-Shrinks n _ _ _ (parse_connection_close_frame-Takes bs)) (
              if-Shrinks n _ _ _ (wrap-Shrinks n _ _ _ (parse_goaway_frame-Takes bs)) (
                if-Shrinks n _ _ _ (wrap-Shrinks n _ _ _ (parse_window_update_frame-Takes bs)) (
                  if-Shrinks n _ _ _ (wrap-Shrinks n _ _ _ (parse_blocked_frame-Takes bs)) (
                    if-Shrinks n _ _ _
                      (wrap-Shrinks n _ _ _
                        (parse_stop_waiting_frame-Takes hdr.packet_number hdr.packet_number_len bs))
                      (if-Shrinks n _ _ _ (wrap-Shrinks n _ _ _ (parse_ping_frame-Takes bs)) (
                        if-Shrinks n _ _ _
                          (wrap-Shrinks n _ _ _ (parse_plus_feedback_frame-Takes bs))
                          (err-Shrinks n _)))))))))))

cons_frame-some :
    (f : Frame) (r : Option (Result UnpackError (List Frame))) → r ≢ none → cons_frame f r ≢ none
cons_frame-some f none h = λ e. h refl
cons_frame-some f (some (ok fs)) h = λ e. ground arith
cons_frame-some f (some (err x)) h = λ e. ground arith

read_frames-some :
    (fuel level : ℕ) (hdr : PacketInfo) (bs : List ℕ)
    → length bs ≤ fuel
    → read_frames fuel level hdr bs ≢ none
unfolding read_frames
read_frames-some fuel level hdr [] h = λ e. ground arith
read_frames-some zero level hdr (b ∷ bs) h = absurd (omega arith)
read_frames-some (suc fuel) level hdr (b ∷ bs) h = elim (Bool-cases (b == 0)) [
  | inl e ↦ rw e (read_frames-some fuel level hdr bs (omega arith))
  | inr e ↦ rw e (elim (cases (parse_frame level hdr b (b ∷ bs))) [
    | inl (x, p) ↦ rw p (λ q. ground arith)
    | inr (f, rest, p) ↦ rw p (
        cons_frame-some f _ (
          read_frames-some fuel level hdr rest
            (omega (arith, parse_frame-Shrinks level hdr b (b ∷ bs) f rest p))))
  ])
]
  where
    cases :
        (r : Result UnpackError (Frame × List ℕ))
        → ((x : UnpackError) × (r ≡ err x)) ⊎ ((f : Frame) × (rest : List ℕ) × (r ≡ ok (f, rest)))
    cases (ok (f, rest)) = inr (f, rest, refl)
    cases (err x) = inl (x, refl)

-- Unpack always ends with a packet or an error: as many rounds as there are bytes are enough for the
-- loop over the frames, whatever the AEAD answers.
pub unpack-ends :
    (aead : Aead) (header : List ℕ) (hdr : PacketInfo) (payload : List ℕ)
    → (r : Result UnpackError UnpackedPacket) × (unpack aead header hdr payload ≡ some r)
unfolding unpack
unpack-ends aead header hdr payload = opened (aead payload hdr.packet_number header)
  where
    finished :
        (level : ℕ) (r : Option (Result UnpackError (List Frame)))
        → r ≢ none
        → (p : Result UnpackError UnpackedPacket) × (finish level r ≡ some p)
    finished level none h = absurd (h refl)
    finished level (some (ok fs)) h = (_, refl)
    finished level (some (err e)) h = (_, refl)

    opened :
        (o : Option (List ℕ × ℕ))
        → (r : Result UnpackError UnpackedPacket) × (unpack_opened hdr o ≡ some r)
    opened none = (_, refl)
    opened (some ([], level)) = (_, refl)
    opened (some (b ∷ bs, level)) =
        finished level (read_frames (length (b ∷ bs)) level hdr (b ∷ bs))
          (read_frames-some (length (b ∷ bs)) level hdr (b ∷ bs) (omega arith))
