-- ===== src/Tests/Framer.antt =====
-- Frames that are sent again.
use plus_quic_go.Base.{
  ◌+◌, ◌≤◌, ◌≡◌, refl, ◌⊎◌, inl, inr, true, false, List, [], ◌∷◌, ◌++◌, some, arith, All,
}
use plus_quic_go.Frames.Stream.{StreamFrame, stream_frame_min_length}
use plus_quic_go.Packets.Framer.{
  StreamFramer, add_frame_for_retransmission, maybe_pop_frames_for_retransmission, pop_frames,
  pop_blocked_frame, maybe_split_off_frame,
}
use plus_quic_go.Packets.Framer.Retransmissions.{
  IsSendable, Fits, maybe_pop_frames_for_retransmission_fills,
}
use plus_quic_go.Packets.Framer.Events.{
  events, frame_events, maybe_pop_frames_for_retransmission-events,
}

-- Four bytes of stream 5 at the offset 0.
abbrev first_lost : StreamFrame
first_lost = record {
  stream_id = 5;
  fin_bit = false;
  data_len_present = false;
  offset = 0;
  payload = 1 ∷ 2 ∷ 3 ∷ 4 ∷ [];
}

-- The last three bytes of stream 7, at the offset 10.
abbrev second_lost : StreamFrame
second_lost = record {
  stream_id = 7;
  fin_bit = true;
  data_len_present = false;
  offset = 10;
  payload = 8 ∷ 9 ∷ 10 ∷ [];
}

abbrev two_lost : StreamFramer
two_lost = record {
  retransmission_queue = first_lost ∷ second_lost ∷ [];
  blocked_frame_queue = record { stream_id = 3 } ∷ [];
}

two_lost-IsSendable : All IsSendable two_lost.retransmission_queue
two_lost-IsSendable =
    ((omega arith, omega arith, inr (omega arith)), ((omega arith, omega arith, inl refl), tt))

-- The first frame takes 8 bytes, and 7 are left of 15: 6 for the header, and 1 for a byte of data.
split_at_fifteen :
    let (res, current_len, s) = maybe_pop_frames_for_retransmission 15 two_lost in
    (current_len ≡ 15)
    × (res
        ≡ record {
          stream_id = 5;
          fin_bit = false;
          data_len_present = true;
          offset = 0;
          payload = 1 ∷ 2 ∷ 3 ∷ 4 ∷ [];
        }
          ∷ record {
            stream_id = 7;
            fin_bit = false;
            data_len_present = true;
            offset = 10;
            payload = 8 ∷ [];
          }
          ∷ [])
    × (s.retransmission_queue
        ≡ record {
          stream_id = 7;
          fin_bit = true;
          data_len_present = true;
          offset = 11;
          payload = 9 ∷ 10 ∷ [];
        }
          ∷ [])
unfolding maybe_pop_frames_for_retransmission pop_frames maybe_split_off_frame
    stream_frame_min_length
split_at_fifteen = (refl, refl, refl)

pops_blocked : (pop_blocked_frame two_lost).0 ≡ some (record { stream_id = 3 })
unfolding pop_blocked_frame
pops_blocked = refl

maybe_pop_frames_for_retransmission_fills_example :
    let (res, current_len, s') = maybe_pop_frames_for_retransmission 15 two_lost in
    Fits 15 0 res current_len
    × All IsSendable s'.retransmission_queue
    × ((s'.retransmission_queue ≡ [])
        ⊎ ((f : StreamFrame) × (left : List StreamFrame) × (s'.retransmission_queue ≡ f ∷ left)
            × (15 ≤ current_len + stream_frame_min_length f)))
maybe_pop_frames_for_retransmission_fills_example =
    maybe_pop_frames_for_retransmission_fills 15 two_lost (omega arith) two_lost-IsSendable

maybe_pop_frames_for_retransmission-events_example :
    let (res, current_len, s') = maybe_pop_frames_for_retransmission 15 two_lost in
    (events res ++ events s'.retransmission_queue ≡ events two_lost.retransmission_queue)
    × (events (add_frame_for_retransmission first_lost s').retransmission_queue
        ≡ events s'.retransmission_queue ++ frame_events first_lost)
maybe_pop_frames_for_retransmission-events_example =
    maybe_pop_frames_for_retransmission-events 15 two_lost first_lost (omega arith)
      two_lost-IsSendable
