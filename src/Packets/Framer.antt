-- ===== src/Packets/Framer.antt =====
-- stream_framer.go: the queue of STREAM frames to send again, and the queue of BLOCKED frames.
pub mod Retransmissions
pub mod Events
use plus_quic_go.Base.{
  ℕ, ◌+◌, ◌^◌, Option, none, some, List, [], ◌∷◌, ◌++◌, Bool, true, false, ltb, leb, if◌then◌else◌,
  take, drop, length,
}
use plus_quic_go.Base.Words.{add64, sub64}
use plus_quic_go.Frames.Stream.{StreamFrame, data_len, stream_frame_min_length}
use plus_quic_go.Frames.Control.{BlockedFrame}

-- The framer without the streams map and the flow control manager that it points to.
pub record StreamFramer : Type 0 where
  pub retransmission_queue : List StreamFrame
  pub blocked_frame_queue : List BlockedFrame

abbrev pub new_stream_framer : StreamFramer
new_stream_framer = record { retransmission_queue = []; blocked_frame_queue = [] }

unfoldable pub add_frame_for_retransmission : StreamFrame → StreamFramer → StreamFramer
add_frame_for_retransmission f s = record {
  retransmission_queue = s.retransmission_queue ++ (f ∷ []);
  blocked_frame_queue = s.blocked_frame_queue;
}

unfoldable pub pop_blocked_frame : StreamFramer → Option BlockedFrame × StreamFramer
pop_blocked_frame s = elim s.blocked_frame_queue [
  | [] ↦ (none, s)
  | f ∷ fs ↦
      (some f, record { retransmission_queue = s.retransmission_queue; blocked_frame_queue = fs })
]

abbrev pub has_frames_for_retransmission : StreamFramer → Bool
has_frames_for_retransmission s = ltb 0 (length s.retransmission_queue)

-- The frame that is split off, and the frame as it is left.
unfoldable pub maybe_split_off_frame : StreamFrame → ℕ → Option StreamFrame × StreamFrame
maybe_split_off_frame frame n = if leb (data_len frame) n then (none, frame) else (
  some record {
    stream_id = frame.stream_id;
    fin_bit = false;
    data_len_present = frame.data_len_present;
    offset = frame.offset;
    payload = take n frame.payload;
  },
  record {
    stream_id = frame.stream_id;
    fin_bit = frame.fin_bit;
    data_len_present = frame.data_len_present;
    offset = add64 frame.offset n;
    payload = drop n frame.payload;
  },
)

-- The frames that were taken, their length, and the frames that stay in the queue.
pub record Popped : Type 0 where
  pub res : List StreamFrame
  pub current_len : ℕ
  pub queue : List StreamFrame

-- DataLenPresent is set on the frame in the queue, so it stays set where the frame is not taken.
abbrev pub present : StreamFrame → StreamFrame
present f = record {
  stream_id = f.stream_id;
  fin_bit = f.fin_bit;
  data_len_present = true;
  offset = f.offset;
  payload = f.payload;
}

abbrev pub cons_popped : StreamFrame → Popped → Popped
cons_popped f p = record { res = f ∷ p.res; current_len = p.current_len; queue = p.queue }

-- The loop over the queue, at the length `current_len`.
unfoldable pub pop_frames : ℕ → ℕ → List StreamFrame → Popped
pop_frames max_len current_len [] = record { res = []; current_len = current_len; queue = [] }
pop_frames max_len current_len (first ∷ queue) =
    let frame = present first in
    let with_header = add64 current_len (stream_frame_min_length frame) in
    let (split_frame, kept) = maybe_split_off_frame frame (sub64 max_len with_header) in
    let rest = pop_frames max_len (add64 with_header (data_len frame)) queue in
    if leb max_len with_header
    then record { res = []; current_len = current_len; queue = frame ∷ queue }
    else elim split_frame [
      | some split ↦ record {
        res = split ∷ [];
        current_len = add64 with_header (data_len split);
        queue = kept ∷ queue;
      }
      | none ↦ cons_popped frame rest
    ]

-- maybePopFramesForRetransmission: the frames, their length and the framer.
unfoldable pub maybe_pop_frames_for_retransmission :
    ℕ → StreamFramer → List StreamFrame × ℕ × StreamFramer
maybe_pop_frames_for_retransmission max_len s =
    let p = pop_frames max_len 0 s.retransmission_queue in
    (
      p.res,
      p.current_len,
      record { retransmission_queue = p.queue; blocked_frame_queue = s.blocked_frame_queue },
    )
