-- ===== src/Flowcontrol/Manager/Accounting.antt =====
-- flowcontrol/flow_control_manager.go: what the streams receive and send is accounted for at the
-- connection, and stays within both windows.
use plus_quic_go.Base.{
  ℕ, ◌+◌, ◌-◌, ◌^◌, ◌≤◌, ◌<◌, ◌≡◌, ◌∙◌, refl, inl, inr, Bool, true, false, List, [], ◌∷◌, none,
  some, ltb, if◌then◌else◌, ok, arith,
}
use plus_quic_go.Base.Keyed.{lookup, insert, lookup-insert}
use plus_quic_go.Flowcontrol.Controller.{
  ConnectionParameters, FlowController, get_send_window, add_bytes_sent, send_window_size,
  increment_highest_received, check_flow_control_violation,
}
use plus_quic_go.Flowcontrol.Controller.Windows.{update_highest_received_cases}
use plus_quic_go.Flowcontrol.Manager.{
  FlowControlManager, stream_data_after_termination, account_received, reset_with, reset_found,
  reset_stream, update_found, update_highest_received, change_both, add_bytes_sent_to,
  window_of_found, smaller_window, send_window_size_of,
}

-- The highest offsets of the streams that contribute to the connection, summed up.
abbrev pub share : FlowController → ℕ
share c = if c.contributes_to_connection then c.highest_received else 0

abbrev pub contributed : List (ℕ × FlowController) → ℕ
contributed [] = 0
contributed ((id, c) ∷ cs) = share c + contributed cs

contributed-insert :
    (id : ℕ) (c c' : FlowController) (m : List (ℕ × FlowController))
    → lookup id m ≡ some c
    → contributed (insert id c' m) + share c ≡ contributed m + share c'
contributed-insert id c c' [] e = absurd (ground arith)
contributed-insert id c c' ((j, d) ∷ m) e = ground (arith, contributed-insert id c c' m)

-- What an accepted offset of a known stream leads to.
pub record IsAccounted (id offset : ℕ) (f f' : FlowControlManager) (c c' : FlowController)
    : Type 0 where
  pub found : lookup id f'.stream_flow_controller ≡ some c'
  pub highest :
      c'.highest_received ≡ (if ltb c.highest_received offset then offset else c.highest_received)
  pub in_stream_window : c'.highest_received ≤ c.receive_window
  pub at_connection :
      f'.conn_flow_controller.highest_received + contributed f.stream_flow_controller
      ≡ f.conn_flow_controller.highest_received + contributed f'.stream_flow_controller
  pub in_connection_window :
      (if c.contributes_to_connection then f'.conn_flow_controller.highest_received else 0)
      ≤ f.conn_flow_controller.receive_window

account_received_ok :
    (id increment : ℕ) (c c' : FlowController) (f f' : FlowControlManager)
    → lookup id f.stream_flow_controller ≡ some c
    → c'.highest_received ≡ c.highest_received + increment
    → c'.contributes_to_connection ≡ c.contributes_to_connection
    → c'.receive_window ≡ c.receive_window
    → f.conn_flow_controller.highest_received + increment < 2 ^ 64
    → account_received id increment c' f ≡ (f', none)
    → (lookup id f'.stream_flow_controller ≡ some c')
      × (c'.highest_received ≤ c.receive_window)
      × (f'.conn_flow_controller.highest_received + contributed f.stream_flow_controller
          ≡ f.conn_flow_controller.highest_received + contributed f'.stream_flow_controller)
      × ((if c.contributes_to_connection then f'.conn_flow_controller.highest_received else 0)
          ≤ f.conn_flow_controller.receive_window)
unfolding account_received check_flow_control_violation increment_highest_received
account_received_ok id increment c c' f f' l h k w small e =
    let i = contributed-insert id c c' f.stream_flow_controller l in
    let j = lookup-insert id id c' f.stream_flow_controller in
    (ground (arith, j), ground arith, ground (arith, i), ground arith)

update_found-IsAccounted :
    (id offset : ℕ) (c : FlowController) (f f' : FlowControlManager)
    → lookup id f.stream_flow_controller ≡ some c
    → f.conn_flow_controller.highest_received < 2 ^ 63
    → offset < 2 ^ 63
    → update_found (some c) id offset f ≡ (f', none)
    → (c' : FlowController) × IsAccounted id offset f f' c c'
unfolding update_found
update_found-IsAccounted id offset c f f' l small off e =
    elim (update_highest_received_cases offset c) [
      | inl (lt, r) ↦
          let e' : account_received id 0 c f ≡ (f', none) = rw r at e in
          let a = account_received_ok id 0 c c f f' l (omega arith) refl refl (omega arith) e' in
          (
            c,
            record {
              found = a.0;
              highest = ground arith;
              in_stream_window = a.1;
              at_connection = a.2;
              in_connection_window = a.3;
            },
          )
      | inr (le, r) ↦
          let c' = record c { highest_received = offset } in
          let e' : account_received id (offset - c.highest_received) c' f ≡ (f', none) =
            rw r at e in
          let a =
            account_received_ok id (offset - c.highest_received) c c' f f' l (omega arith) refl refl
              (omega arith) e' in
          (
            c',
            record {
              found = a.0;
              highest = ground arith;
              in_stream_window = a.1;
              at_connection = a.2;
              in_connection_window = a.3;
            },
          )
    ]

-- When `update_highest_received` accepts an offset of a known stream, the stream's highest offset
-- becomes the larger of the two and lies within its receive window; the connection's highest
-- offset grows by exactly as much as the sum over the contributing streams; and for a contributing
-- stream it lies within the connection's receive window. Offsets are below 2^63.
pub update_highest_received-IsAccounted :
    (id offset : ℕ) (c : FlowController) (f f' : FlowControlManager)
    → lookup id f.stream_flow_controller ≡ some c
    → f.conn_flow_controller.highest_received < 2 ^ 63
    → offset < 2 ^ 63
    → update_highest_received id offset f ≡ (f', none)
    → (c' : FlowController) × IsAccounted id offset f f' c c'
unfolding update_highest_received
update_highest_received-IsAccounted id offset c f f' l small off e =
    update_found-IsAccounted id offset c f f' l small off (rw l at e)

reset_found-IsAccounted :
    (id offset : ℕ) (c : FlowController) (f f' : FlowControlManager)
    → lookup id f.stream_flow_controller ≡ some c
    → f.conn_flow_controller.highest_received < 2 ^ 63
    → offset < 2 ^ 63
    → reset_found (some c) id offset f ≡ (f', none)
    → (c.highest_received ≤ offset) × ((c' : FlowController) × IsAccounted id offset f f' c c')
unfolding reset_found reset_with
reset_found-IsAccounted id offset c f f' l small off e =
    elim (update_highest_received_cases offset c) [
      | inl (lt, r) ↦
          let e' : (f, some stream_data_after_termination) ≡ (f', none) = rw r at e in
          absurd (ground arith)
      | inr (le, r) ↦
          let c' = record c { highest_received = offset } in
          let e' : account_received id (offset - c.highest_received) c' f ≡ (f', none) =
            rw r at e in
          let a =
            account_received_ok id (offset - c.highest_received) c c' f f' l (omega arith) refl refl
              (omega arith) e' in
          (
            le,
            (
              c',
              record {
                found = a.0;
                highest = ground arith;
                in_stream_window = a.1;
                at_connection = a.2;
                in_connection_window = a.3;
              },
            ),
          )
    ]

-- When `reset_stream` accepts the final offset of a known stream, that offset is not below the
-- stream's highest one, and it is accounted for as `update_highest_received` does. Offsets are
-- below 2^63.
pub reset_stream-IsAccounted :
    (id offset : ℕ) (c : FlowController) (f f' : FlowControlManager)
    → lookup id f.stream_flow_controller ≡ some c
    → f.conn_flow_controller.highest_received < 2 ^ 63
    → offset < 2 ^ 63
    → reset_stream id offset f ≡ (f', none)
    → (c.highest_received ≤ offset) × ((c' : FlowController) × IsAccounted id offset f f' c c')
unfolding reset_stream
reset_stream-IsAccounted id offset c f f' l small off e =
    reset_found-IsAccounted id offset c f f' l small off (rw l at e)

sent_within :
    (n w : ℕ) (p : ConnectionParameters) (c : FlowController)
    → n ≤ send_window_size p c
    → c.bytes_sent ≤ get_send_window p c
    → get_send_window p c < 2 ^ 64
    → ((add_bytes_sent n c).bytes_sent ≡ c.bytes_sent + n)
      × (c.bytes_sent + n ≤ get_send_window p c)
unfolding add_bytes_sent send_window_size
sent_within n w p c k s small = (ground arith, ground arith)

window_at_most :
    (n w : ℕ) (p : ConnectionParameters) (c : FlowController) (f : FlowControlManager)
    → window_of_found (some c) p f ≡ ok w
    → n ≤ w
    → (n ≤ send_window_size p c)
      × ((if c.contributes_to_connection then n else 0) ≤ send_window_size p f.conn_flow_controller)
unfolding window_of_found smaller_window
window_at_most n w p c f e k = (ground arith, ground arith)

connection_sent :
    (b : Bool) (n : ℕ) (c : FlowController)
    → c.bytes_sent < 2 ^ 64
    → (if b then add_bytes_sent n c else c).bytes_sent
      ≡ (add_bytes_sent (if b then n else 0) c).bytes_sent
unfolding add_bytes_sent
connection_sent true n c h = refl
connection_sent false n c h = ground arith

-- Sending `n` bytes on a known stream, at most the window that `send_window_size_of` gives,
-- succeeds and keeps the sent bytes within the stream's send window. The connection's grow by `n`
-- where the stream contributes and stay as they are otherwise, within the connection's send window.
-- Before the call both were within their windows, and windows are below 2^64.
pub add_bytes_sent_to_within :
    (id n w : ℕ) (p : ConnectionParameters) (c : FlowController) (f : FlowControlManager)
    → lookup id f.stream_flow_controller ≡ some c
    → send_window_size_of id p f ≡ ok w
    → n ≤ w
    → c.bytes_sent ≤ get_send_window p c
    → f.conn_flow_controller.bytes_sent ≤ get_send_window p f.conn_flow_controller
    → get_send_window p c < 2 ^ 64
    → get_send_window p f.conn_flow_controller < 2 ^ 64
    → let (f', e) = add_bytes_sent_to id n f in
      (e ≡ none)
      × (lookup id f'.stream_flow_controller ≡ some (add_bytes_sent n c))
      × ((add_bytes_sent n c).bytes_sent ≤ get_send_window p c)
      × (f'.conn_flow_controller.bytes_sent
          ≡ f.conn_flow_controller.bytes_sent + (if c.contributes_to_connection then n else 0))
      × (f'.conn_flow_controller.bytes_sent ≤ get_send_window p f.conn_flow_controller)
unfolding add_bytes_sent_to send_window_size_of change_both window_of_found smaller_window
add_bytes_sent_to_within id n w p c f l ew k s t small small' =
    let e : window_of_found (some c) p f ≡ ok w = rw l at ew in
    let a = window_at_most n w p c f e k in
    let b = sent_within n w p c a.0 s small in
    let m = if c.contributes_to_connection then n else 0 in
    let d = sent_within m w p f.conn_flow_controller a.1 t small' in
    let g = connection_sent c.contributes_to_connection n f.conn_flow_controller (omega arith) in
    let j = lookup-insert id id (add_bytes_sent n c) f.stream_flow_controller in
    rw l (refl, ground (arith, j), omega arith, g ∙ d.0, omega arith)
