-- ===== src/Flowcontrol/Controller/Windows.antt =====
-- flowcontrol/flow_controller.go: the windows of one controller.
use plus_quic_go.Base.{
  ℕ, ◌+◌, ◌-◌, ◌/◌, ◌^◌, ◌≤◌, ◌<◌, ◌≡◌, ◌⊎◌, true, false, Option, none, some, if◌then◌else◌, refl,
  List, [], ◌∷◌, ltb, ◌==◌, inl, inr, Bool-cases, ok, err, arith,
}
use plus_quic_go.Flowcontrol.Controller.{
  ConnectionParameters, FlowController, get_send_window, add_bytes_sent, update_send_window,
  send_window_size, update_highest_received, received_smaller_byte_offset, adjusted_increment,
  maybe_update_window,
}

-- The receiving half of a controller: what was read was received, what was received lies in the
-- window, and the increment stays within its maximum. Offsets stay below 2^62.
record IsReceiving (c : FlowController) : Type 0 where
  pub read_le : c.bytes_read ≤ c.highest_received
  pub received_le : c.highest_received ≤ c.receive_window
  pub increment_le : c.receive_window_increment ≤ c.max_receive_window_increment
  pub window_small : c.receive_window < 2 ^ 62
  pub max_small : c.max_receive_window_increment < 2 ^ 61

adjusted_increment_bounds :
    (last : Option ℕ) (rtt now increment max_increment : ℕ)
    → increment ≤ max_increment
    → max_increment < 2 ^ 61
    → (increment ≤ adjusted_increment last rtt now increment max_increment)
      × (adjusted_increment last rtt now increment max_increment ≤ max_increment)
unfolding adjusted_increment
adjusted_increment_bounds none rtt now increment max_increment h k = omega arith
adjusted_increment_bounds (some t) rtt now increment max_increment h k = ground arith

-- For a controller in which what was read was received, what was received lies in the window, and
-- the increment stays within its maximum: a window update moves the window forward, and grants the
-- peer exactly one increment beyond what was read, no less than the former one and at most the
-- maximum; without an update nothing changes and at least half an increment of the window is left.
maybe_update_window_advances :
    (rtt now : ℕ) (c : FlowController)
    → IsReceiving c
    → let (u, c') = maybe_update_window rtt now c in
      ((u.necessary ≡ true)
        × (c.receive_window < c'.receive_window)
        × (c'.receive_window ≡ c.bytes_read + c'.receive_window_increment)
        × (u.offset ≡ c'.receive_window)
        × (c.receive_window_increment ≤ c'.receive_window_increment)
        × (c'.receive_window_increment ≤ c.max_receive_window_increment))
      ⊎ ((u.necessary ≡ false)
          × (c' ≡ c)
          × (c.receive_window_increment / 2 ≤ c.receive_window - c.bytes_read))
unfolding maybe_update_window
maybe_update_window_advances rtt now c v = ground (
  arith,
  adjusted_increment_bounds c.last_window_update_time rtt now c.receive_window_increment
      c.max_receive_window_increment,
)

-- A WindowUpdate for `offset` never takes the effective send window back, and leaves it at
-- `offset` when it reports a change and as it was when not, provided that the window was set by an
-- earlier WindowUpdate or the offset is not below the negotiated parameter that stands in for it.
update_send_window_advances :
    (offset : ℕ) (p : ConnectionParameters) (c : FlowController)
    → (0 < c.send_window) ⊎ (get_send_window p c ≤ offset)
    → let (updated, c') = update_send_window offset c in
      (get_send_window p c ≤ get_send_window p c')
      × (offset ≤ get_send_window p c')
      × (c'.bytes_sent ≡ c.bytes_sent)
      × (get_send_window p c' ≡ (if updated then offset else get_send_window p c))
unfolding update_send_window get_send_window
update_send_window_advances offset p c h = (ground arith, ground arith, ground arith, ground arith)

-- The WindowUpdates of these offsets, one after the other.
abbrev pub update_all : List ℕ → FlowController → FlowController
update_all [] c = c
update_all (offset ∷ offsets) c = update_all offsets (update_send_window offset c).1

abbrev pub largest : ℕ → List ℕ → ℕ
largest n [] = n
largest n (x ∷ xs) = largest (if ltb n x then x else n) xs

update_all-send_window :
    (offsets : List ℕ) (c : FlowController)
    → update_all offsets c ≡ record c { send_window = largest c.send_window offsets }
unfolding update_send_window
update_all-send_window [] c = refl
update_all-send_window (offset ∷ offsets) c = elim (Bool-cases (ltb c.send_window offset)) [
  | inl above ↦ rw above (update_all-send_window offsets (record c { send_window = offset }))
  | inr below ↦ rw below (update_all-send_window offsets c)
]

-- After any sequence of WindowUpdates, in whichever order they come, the effective send window is the
-- largest of their offsets and of the offset set before, also where that is below the negotiated
-- parameter; the parameter is in force only as long as no offset was above 0. What may still be sent
-- is the part of this window beyond the bytes sent before, and nothing where it has fallen below them.
pub update_all-largest :
    (offsets : List ℕ) (p : ConnectionParameters) (c : FlowController)
    → let offset = largest c.send_window offsets in
      let parameter = if c.stream_id == 0 then p.send_connection_window else p.send_stream_window in
      let window = if offset == 0 then parameter else offset in
      (get_send_window p (update_all offsets c) ≡ window)
      × (send_window_size p (update_all offsets c) ≡ window - c.bytes_sent)
unfolding get_send_window send_window_size
update_all-largest offsets p c = rw (update_all-send_window offsets c) (refl, ground arith)

-- Sending `n` bytes within the window takes `n` from the window, and the sent bytes stay within it,
-- when they did before and the window is below 2^64.
send_window_size-add_bytes_sent :
    (n : ℕ) (p : ConnectionParameters) (c : FlowController)
    → get_send_window p c < 2 ^ 64
    → n ≤ send_window_size p c
    → c.bytes_sent ≤ get_send_window p c
    → (send_window_size p (add_bytes_sent n c) + n ≡ send_window_size p c)
      × ((add_bytes_sent n c).bytes_sent ≤ get_send_window p (add_bytes_sent n c))
unfolding send_window_size get_send_window add_bytes_sent
send_window_size-add_bytes_sent n p c h k l = (ground arith, ground arith)

-- `update_highest_received` gives the increase of the highest offset, and fails exactly when the
-- offset lies below it.
pub update_highest_received_cases :
    (offset : ℕ) (c : FlowController)
    → ((offset < c.highest_received)
        × (update_highest_received offset c ≡ err received_smaller_byte_offset))
      ⊎ ((c.highest_received ≤ offset)
          × (update_highest_received offset c
              ≡ ok (offset - c.highest_received, record c { highest_received = offset })))
unfolding update_highest_received
update_highest_received_cases offset c = ground arith
