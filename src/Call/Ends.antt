-- ===== src/Call/Ends.antt =====
-- A call that is answered or ends follows an edge of the diagram.
use ntied.Common.{◌≡◌, refl, none, some, Option-cases, Bool-cases, inl, inr, sym, ◌∙◌}
use ntied.Address.{Address}
use ntied.Call.{
  ringing, connected, CallHandle, CallManager, accepted_call, connected_call, ended_call,
  rejected_call, call_rejected, call_ended, accept_packet, reject_packet, end_packet, World, notify,
  send, set_active, set_cell, get_state, set_state,
}
use ntied.Call.Handlers.{
  start_audio_for_call, is_state, offer_of, begin_accepted, accept_ringing, accept_call,
  cleanup_call, reject_call, end_call, handle_call_accepted, is_address,
}
use ntied.Call.Life.{Phase, no_call, call, phase, ◌⟶◌, stays, connects, hangs_up}
use ntied.Call.Invariant.{get_state-set_state}
use ntied.Call.Diagram.{
  phase-some, phase-none, phase-send, phase-notify, phase_is, kept, from, to, start_audio-current,
}

connected_to :
    (h : CallHandle) (m m' : CallManager) (p : Phase)
    → phase m ≡ p
    → m.current_call ≡ some h
    → m'.current_call ≡ some h
    → get_state m' h ≡ connected
    → p ⟶ phase m'
connected_to h m m' p was e e' live =
    to p (call h.call_id h.peer_address h.is_incoming connected) m'
      (phase_is h h.is_incoming connected m' e' refl live)
      (from p _ _ m was (phase-some h m e) connects)

begin_accepted-⟶ :
    (w : World) (address : Address) (h : CallHandle) (m : CallManager) (p : Phase)
    → phase m ≡ p
    → m.current_call ≡ some h
    → p ⟶ phase (begin_accepted w address h m)
unfolding begin_accepted set_state set_cell notify
begin_accepted-⟶ w address h m p was e =
    let audible = (start_audio_for_call w m).0 in
    let (current, same) = start_audio-current w h m e in
    to p _ _ (phase-notify (connected_call address) _ ∙ phase-notify (accepted_call address) _) (
      connected_to h m (set_state h connected audible) p was e current
        (get_state-set_state h connected audible))

accept_ringing-⟶ :
    (w : World) (address : Address) (h : CallHandle) (m : CallManager) (p : Phase)
    → phase m ≡ p
    → m.current_call ≡ some h
    → p ⟶ phase (accept_ringing w address h m).0
unfolding accept_ringing send
accept_ringing-⟶ w address h m p was e =
    let accept = accept_packet h.call_id in
    let offer = offer_of h.call_id m in
    let begun = phase-send h.peer_address accept m ∙ was in
    elim (Bool-cases (w.delivers h.peer_address accept)) [
      | inr f ↦ rw (f, accept_ringing) (kept p m was)
      | inl f ↦ elim (Bool-cases (w.delivers h.peer_address offer)) [
        | inr g ↦ rw (f, accept_ringing, g) (kept p (send h.peer_address accept m) begun)
        | inl g ↦
            rw (f, accept_ringing, g)
              (begin_accepted-⟶ w address h
                (send h.peer_address offer (send h.peer_address accept m)) p
                (phase-send h.peer_address offer (send h.peer_address accept m) ∙ begun) e)
      ]
    ]

pub accept_call-⟶ :
    (w : World) (address : Address) (m : CallManager) (p : Phase)
    → phase m ≡ p
    → p ⟶ phase (accept_call w address m).0
unfolding accept_call
accept_call-⟶ w address m p was = elim (Option-cases m.current_call) [
  | inl e ↦ rw (e, accept_call) (kept p m was)
  | inr (h, e) ↦ elim (Bool-cases (is_address h.peer_address address)) [
    | inr f ↦ rw (e, accept_call, f) (kept p m was)
    | inl f ↦ elim (Bool-cases (is_state (get_state m h) ringing)) [
      | inr g ↦ rw (e, accept_call, f, g) (kept p m was)
      | inl g ↦ rw (e, accept_call, f, g) (accept_ringing-⟶ w address h m p was e)
    ]
  ]
]

pub handle_call_accepted-⟶ :
    (w : World) (address : Address) (m : CallManager) (p : Phase)
    → phase m ≡ p
    → p ⟶ phase (handle_call_accepted w address m)
unfolding handle_call_accepted set_state set_cell notify
handle_call_accepted-⟶ w address m p was = elim (Option-cases m.current_call) [
  | inl e ↦ rw (e, handle_call_accepted) (kept p m was)
  | inr (h, e) ↦ elim (Bool-cases (is_address h.peer_address address)) [
    | inr f ↦ rw (e, handle_call_accepted, f) (kept p m was)
    | inl f ↦
        let m' = set_state h connected m in
        let (current, same) = start_audio-current w h m' e in
        rw (e, handle_call_accepted, f)
          (to p _ _ (phase-notify (connected_call address) (start_audio_for_call w m').0) (
            connected_to h m (start_audio_for_call w m').0 p was e current
              (same ∙ get_state-set_state h connected m)))
  ]
]

phase-set_active :
    (address : Address) (m : CallManager) → phase (set_active address none m) ≡ phase m
unfolding phase set_active get_state
phase-set_active address m = refl

-- A cleanup ends the current call, or leaves it.
pub cleanup_call-⟶ :
    (address : Address) (m : CallManager) (p : Phase)
    → phase m ≡ p
    → p ⟶ phase (cleanup_call address m)
unfolding cleanup_call
cleanup_call-⟶ address m p was = elim (Option-cases m.current_call) [
  | inl e ↦
      rw (e, cleanup_call)
        (to p p (set_active address none m) (phase-set_active address m ∙ was) stays)
  | inr (h, e) ↦ elim (Bool-cases (is_address h.peer_address address)) [
    | inl f ↦
        rw (e, cleanup_call, f)
          (to p no_call _ (phase-none _ refl) (from p _ _ m was (phase-some h m e) hangs_up))
    | inr f ↦
        rw (e, cleanup_call, f)
          (to p p (set_active address none m) (phase-set_active address m ∙ was) stays)
  ]
]

pub reject_call-⟶ :
    (w : World) (address : Address) (m : CallManager) (p : Phase)
    → phase m ≡ p
    → p ⟶ phase (reject_call w address m).0
unfolding reject_call
reject_call-⟶ w address m p was = elim (Option-cases m.current_call) [
  | inl e ↦ rw (e, reject_call) (kept p m was)
  | inr (h, e) ↦
      let reject = reject_packet h.call_id in
      let m' = send h.peer_address reject m in
      elim (Bool-cases (is_address h.peer_address address)) [
        | inr f ↦ rw (e, reject_call, f) (kept p m was)
        | inl f ↦ elim (Bool-cases (w.delivers h.peer_address reject)) [
          | inr g ↦ rw (e, reject_call, f, g) (kept p m was)
          | inl g ↦
              rw (e, reject_call, f, g)
                (to p _ _
                  (phase-notify (ended_call address call_rejected) _
                    ∙ phase-notify (rejected_call address) (cleanup_call address m'))
                  (cleanup_call-⟶ address m' p (phase-send h.peer_address reject m ∙ was)))
        ]
      ]
]

pub end_call-⟶ :
    (w : World) (address : Address) (m : CallManager) (p : Phase)
    → phase m ≡ p
    → p ⟶ phase (end_call w address m).0
unfolding end_call
end_call-⟶ w address m p was = elim (Option-cases m.current_call) [
  | inl e ↦ rw (e, end_call) (kept p m was)
  | inr (h, e) ↦
      let bye = end_packet h.call_id in
      let m' = send h.peer_address bye m in
      elim (Bool-cases (is_address h.peer_address address)) [
        | inr f ↦ rw (e, end_call, f) (kept p m was)
        | inl f ↦ elim (Bool-cases (w.delivers h.peer_address bye)) [
          | inr g ↦
              rw (e, end_call, f, g)
                (to p _ _ (phase-notify (ended_call address call_ended) (cleanup_call address m))
                  (cleanup_call-⟶ address m p was))
          | inl g ↦
              rw (e, end_call, f, g)
                (to p _ _ (phase-notify (ended_call address call_ended) (cleanup_call address m'))
                  (cleanup_call-⟶ address m' p (phase-send h.peer_address bye m ∙ was)))
        ]
      ]
]

-- What leaves the current call and its state.
pub same_call-⟶ :
    (m m' : CallManager) (p : Phase)
    → phase m ≡ p
    → m'.current_call ≡ m.current_call
    → ((h : CallHandle) → m.current_call ≡ some h → get_state m' h ≡ get_state m h)
    → p ⟶ phase m'
same_call-⟶ m m' p was current state = elim (Option-cases m.current_call) [
  | inl e ↦ to p p m' (phase-none m' (current ∙ e) ∙ sym (phase-none m e) ∙ was) stays
  | inr (h, e) ↦
      to p p m'
        (phase_is h h.is_incoming (get_state m h) m' (current ∙ e) refl (state h e)
          ∙ sym (phase-some h m e)
          ∙ was)
        stays
]
