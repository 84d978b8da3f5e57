-- ===== src/Packets/Unpacker/RoundTrip.antt =====
-- packet_unpacker.go: the frames that a packet was written with are what Unpack reads.
use plus_quic_go.Base.{
  ℕ, zero, suc, ◌≤◌, ◌≡◌, refl, ap, List, [], ◌∷◌, ◌++◌, false, Option, none, some, ◌==◌, map,
  length, length-append, ok, arith,
}
use plus_quic_go.Wire.{Error}
use plus_quic_go.Packets.Unpacker.{
  Frame, PacketInfo, parse_frame, read_frames, Aead, unpack_opened, unpack,
}
use plus_quic_go.Packets.Frames.{write_frame}
use plus_quic_go.Packets.Unpacker.Travels.{IsSendable, received, travels}

-- The bytes of frames in a row.
abbrev pub payload_of : ℕ → List Frame → List ℕ
payload_of now [] = []
payload_of now (f ∷ fs) = (write_frame now f).0 ++ payload_of now fs

abbrev AllSendable : ℕ → ℕ → PacketInfo → List Frame → Type 0
AllSendable now level hdr [] = Unit
AllSendable now level hdr (f ∷ fs) =
    IsSendable level hdr f (payload_of now fs) × AllSendable now level hdr fs

read_frames-all :
    (now level : ℕ) (hdr : PacketInfo) (fs : List Frame) (fuel : ℕ)
    → AllSendable now level hdr fs
    → length (payload_of now fs) ≤ fuel
    → read_frames fuel level hdr (payload_of now fs) ≡ some (ok (map (received now) fs))
unfolding read_frames
read_frames-all now level hdr [] fuel s h = refl
read_frames-all now level hdr (f ∷ fs) fuel s h =
    let w = travels now level hdr f (payload_of now fs) s.0 in
    let rest = payload_of now fs in
    step fuel w.type_byte w.others rest w.starts w.no_padding w.reads h
      (λ n le. read_frames-all now level hdr fs n s.1 le)
  where
    step :
        (fuel t : ℕ) (others rest : List ℕ)
        → write_frame now f ≡ (t ∷ others, none)
        → (t == 0) ≡ false
        → parse_frame level hdr t (t ∷ (others ++ rest)) ≡ ok (received now f, rest)
        → length ((write_frame now f).0 ++ rest) ≤ fuel
        → ((n : ℕ)
            → length rest ≤ n
            → read_frames n level hdr rest ≡ some (ok (map (received now) fs)))
        → read_frames fuel level hdr ((write_frame now f).0 ++ rest)
          ≡ some (ok (received now f ∷ map (received now) fs))
    step zero t others rest w z p h ih = absurd (omega (arith, rw w at h))
    step (suc n) t others rest w z p h ih =
        let l : suc (length (others ++ rest)) ≤ suc n = rw w at h in
        rw (w, z, p, ih n (omega (arith, l, length-append others rest))) refl

-- A packet that was written with frames that can be sent, and that the AEAD opens, is unpacked into
-- these frames in the same order, ACK delays as they were written and StopWaiting frames with their
-- LeastUnacked. Each frame is within the ranges of its fields, a STREAM frame without a length stands
-- last, and data on streams other than 1 is encrypted.
pub unpack-written :
    (aead : Aead) (header sealed : List ℕ) (now level : ℕ) (hdr : PacketInfo) (f : Frame)
    (fs : List Frame)
    → aead sealed hdr.packet_number header ≡ some (payload_of now (f ∷ fs), level)
    → AllSendable now level hdr (f ∷ fs)
    → unpack aead header hdr sealed
      ≡ some (ok (record { encryption_level = level; frames = map (received now) (f ∷ fs) }))
unfolding unpack
unpack-written aead header sealed now level hdr f fs opens s =
    let w = travels now level hdr f (payload_of now fs) s.0 in
    let reads =
      read_frames-all now level hdr (f ∷ fs) (length (payload_of now (f ∷ fs))) s (omega arith) in
    rw opens (
      opened (payload_of now (f ∷ fs)) w.type_byte (w.others ++ payload_of now fs) (start w.starts)
        reads)
  where
    start :
        {t : ℕ} {others : List ℕ}
        → write_frame now f ≡ (t ∷ others, none)
        → payload_of now (f ∷ fs) ≡ t ∷ (others ++ payload_of now fs)
    start w = ap (λ (p : List ℕ × Option Error). p.0 ++ payload_of now fs) w

    opened :
        (payload : List ℕ) (t : ℕ) (others : List ℕ)
        → payload ≡ t ∷ others
        → read_frames (length payload) level hdr payload ≡ some (ok (map (received now) (f ∷ fs)))
        → unpack_opened hdr (some (payload, level))
          ≡ some (ok (record { encryption_level = level; frames = map (received now) (f ∷ fs) }))
    opened payload t others e r = rw e (rw (rw e at r) refl)
