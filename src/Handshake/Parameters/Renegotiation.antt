-- ===== src/Handshake/Parameters/Renegotiation.antt =====
-- handshake/connection_parameters_manager.go: the windows are negotiated once, and what is negotiated
-- stays within the limits.
use plus_quic_go.Base.{
  ℕ, ◌≡◌, ◌≢◌, refl, ◌⊎◌, inl, inr, Option, none, some, List, Bool, true, false, Result, ok, err,
  arith, if◌then◌else◌,
}
use plus_quic_go.Base.Keyed.{lookup}
use plus_quic_go.Streams.Map.{is_server}
use plus_quic_go.Handshake.Parameters.{
  ConnectionParametersManager, ParametersError, flow_control_renegotiation_not_supported, Changed,
  and_then, read_value, set_value, set_window, set_from_map, set_truncation, set_limits,
  set_windows, mark_negotiated, tag_tcid, tag_mspc, tag_mids, tag_icsl, tag_sfcw, tag_cfcw,
  set_truncates, set_max_streams, set_max_incoming, set_idle, set_send_stream, set_send_connection,
}

-- A property of managers that holds whether or not an error was met.
abbrev Keeps : (ConnectionParametersManager → Type 0) → Changed → Type 0
Keeps P (h, error) = P h

module _ (P : ConnectionParametersManager → Type 0) where
  and_then-Keeps :
      (x : Changed) (next : ConnectionParametersManager → Changed)
      → Keeps P x
      → ((h : ConnectionParametersManager) → P h → Keeps P (next h))
      → Keeps P (and_then x next)
  unfolding and_then
  and_then-Keeps (h, none) next k step = step h k
  and_then-Keeps (h, some e) next k step = k

  module _ (params : List (ℕ × List ℕ)) (tag : ℕ)
      (set : ℕ → ConnectionParametersManager → ConnectionParametersManager)
      (h : ConnectionParametersManager) (k : P h) where
    set_value-Keeps : ((v : ℕ) → P (set v h)) → Keeps P (set_value params tag set h)
    unfolding set_value
    set_value-Keeps s = found (lookup tag params)
      where
        read :
            (r : Result ParametersError ℕ)
            → Keeps P (elim r [ err e ↦ (h, some e) | ok v ↦ (set v h, none) ])
        read (err e) = k
        read (ok v) = s v

        found :
            (value : Option (List ℕ))
            → Keeps P (elim value [
              | none ↦ (h, none)
              | some bytes ↦ elim (read_value bytes) [
                | err e ↦ (h, some e)
                | ok v ↦ (set v h, none)
              ]
            ])
        found none = k
        found (some bytes) = read (read_value bytes)

-- The sending windows `s` and `c` are negotiated.
abbrev pub IsFrozen : ℕ → ℕ → ConnectionParametersManager → Type 0
IsFrozen s c h =
    (h.flow_control_negotiated ≡ true) × (h.send_stream_window ≡ s) × (h.send_connection_window ≡ c)

-- The windows are as they were, and there is an error where the message names one of them.
abbrev Ends : ℕ → ℕ → List (ℕ × List ℕ) → Changed → Type 0
Ends s c params (h, error) =
    IsFrozen s c h
    × ((error ≢ none) ⊎ ((lookup tag_sfcw params ≡ none) × (lookup tag_cfcw params ≡ none)))

-- The block of a window that was negotiated.
set_window_refuses :
    (params : List (ℕ × List ℕ)) (tag : ℕ)
    (set : ℕ → ConnectionParametersManager → ConnectionParametersManager)
    (h : ConnectionParametersManager)
    → h.flow_control_negotiated ≡ true
    → ((lookup tag params ≡ none) × (set_window params tag set h ≡ (h, none)))
      ⊎ (set_window params tag set h ≡ (h, some flow_control_renegotiation_not_supported))
unfolding set_window
set_window_refuses params tag set h negotiated =
    found (lookup tag params) h.flow_control_negotiated negotiated
  where
    block : Option (List ℕ) → Bool → Changed
    block value b = elim value [
      | none ↦ (h, none)
      | some bytes ↦
          if b
          then (h, some flow_control_renegotiation_not_supported)
          else set_value params tag set h
    ]

    found :
        (value : Option (List ℕ)) (b : Bool)
        → b ≡ true
        → ((value ≡ none) × (block value b ≡ (h, none)))
          ⊎ (block value b ≡ (h, some flow_control_renegotiation_not_supported))
    found none b e = inl (refl, refl)
    found (some bytes) true e = inr refl
    found (some bytes) false e = ground arith

marked :
    (s c : ℕ) (h : ConnectionParametersManager)
    → IsFrozen s c h
    → (b : Bool) → IsFrozen s c (if b then record h { flow_control_negotiated = true } else h)
marked s c h k true = (refl, k.1, k.2)
marked s c h k false = k

module _ (s c : ℕ) (params : List (ℕ × List ℕ)) where
  and_then-Ends :
      (x : Changed) (next : ConnectionParametersManager → Changed)
      → Keeps (IsFrozen s c) x
      → ((h : ConnectionParametersManager) → IsFrozen s c h → Ends s c params (next h))
      → Ends s c params (and_then x next)
  unfolding and_then
  and_then-Ends (h, none) next k step = step h k
  and_then-Ends (h, some e) next k step = (k, inl (λ q. ground arith))

  -- Where the windows are negotiated, a message that names one is refused.
  set_window-Ends :
      (tag : ℕ) (set : ℕ → ConnectionParametersManager → ConnectionParametersManager)
      (next : ConnectionParametersManager → Changed) (h : ConnectionParametersManager)
      → IsFrozen s c h
      → (lookup tag params ≡ none → Ends s c params (next h))
      → Ends s c params (and_then (set_window params tag set h) next)
  unfolding and_then
  set_window-Ends tag set next h k step = elim (set_window_refuses params tag set h k.0) [
    | inl (absent, e) ↦ rw e (step absent)
    | inr e ↦ rw e (k, inl (λ q. ground arith))
  ]

  set_windows-Ends :
      (h : ConnectionParametersManager) → IsFrozen s c h → Ends s c params (set_windows params h)
  unfolding set_windows
  set_windows-Ends h k =
      let finish : ConnectionParametersManager → Changed = λ h. (mark_negotiated params h, none) in
      set_window-Ends tag_sfcw set_send_stream
        (λ h. and_then (set_window params tag_cfcw set_send_connection h) finish) h k
        (λ no_sfcw.
          set_window-Ends tag_cfcw set_send_connection finish h k
            (λ no_cfcw. (marked s c h k _, inr (no_sfcw, no_cfcw))))

  set_truncation-Keeps :
      (h : ConnectionParametersManager)
      → IsFrozen s c h
      → Keeps (IsFrozen s c) (set_truncation params h)
  unfolding set_truncation
  set_truncation-Keeps h k = branch (is_server h.perspective)
    where
      branch :
          (b : Bool)
          → Keeps
              (IsFrozen s c)
              (if b then set_value params tag_tcid set_truncates h else (h, none))
      branch true = set_value-Keeps (IsFrozen s c) params tag_tcid set_truncates h k (λ v. k)
      branch false = k

  set_limits-Keeps :
      (h : ConnectionParametersManager)
      → IsFrozen s c h
      → Keeps (IsFrozen s c) (set_limits params h)
  unfolding set_limits
  set_limits-Keeps h k =
      let P = IsFrozen s c in
      and_then-Keeps P (set_value params tag_mspc set_max_streams h)
        (λ h.
          and_then (set_value params tag_mids set_max_incoming h)
            (set_value params tag_icsl set_idle))
        (set_value-Keeps P params tag_mspc set_max_streams h k (λ v. k))
        (λ h1 k1.
          and_then-Keeps P (set_value params tag_mids set_max_incoming h1)
            (set_value params tag_icsl set_idle)
            (set_value-Keeps P params tag_mids set_max_incoming h1 k1 (λ v. k1))
            (λ h2 k2. set_value-Keeps P params tag_icsl set_idle h2 k2 (λ v. k2)))

-- Once SetFromMap has negotiated the windows, every message that names a window is refused, and
-- whatever a message says, the sending windows stay as they are, also where it is refused for another
-- reason.
pub set_from_map_negotiates_once :
    (params : List (ℕ × List ℕ)) (h : ConnectionParametersManager)
    → h.flow_control_negotiated ≡ true
    → let (h', error) = set_from_map params h in
      (h'.flow_control_negotiated ≡ true)
      × (h'.send_stream_window ≡ h.send_stream_window)
      × (h'.send_connection_window ≡ h.send_connection_window)
      × ((error ≢ none) ⊎ ((lookup tag_sfcw params ≡ none) × (lookup tag_cfcw params ≡ none)))
unfolding set_from_map
set_from_map_negotiates_once params h negotiated =
    let s = h.send_stream_window in
    let c = h.send_connection_window in
    let (k, e) =
      and_then-Ends s c params (set_truncation params h)
        (λ h1. and_then (set_limits params h1) (set_windows params))
        (set_truncation-Keeps s c params h (negotiated, refl, refl))
        (λ h1 k1.
          and_then-Ends s c params (set_limits params h1) (set_windows params)
            (set_limits-Keeps s c params h1 k1) (set_windows-Ends s c params)) in
    (k.0, k.1, k.2, e)
