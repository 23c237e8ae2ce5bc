-- ===== src/Call/Answers.antt =====
-- Calls that are answered, accepted, rejected and ended keep the manager's invariant.
use ntied.Common.{◌≡◌, none, some, Option-cases, Bool-cases, inl, inr, subst, sym}
use ntied.Address.{Address}
use ntied.Codec.{adpcm}
use ntied.Call.{
  call_rejected, call_ended, ended_call, rejected_call, ringing, connected, CallHandle, CallManager,
  connected_call, accept_packet, reject_packet, end_packet, World, Outcome, notify, send, set_cell,
  get_state, set_state,
}
use ntied.Call.Handlers.{
  start_audio_for_call, is_state, offer_of, accept_ringing, accept_call, reject_call, end_call,
  handle_call_accepted, is_address,
}
use ntied.Call.Entry.{
  send-Inv, notify-Inv, create_audio_state-Inv, start_audio_current, begin_accepted-Inv,
}
use ntied.Call.Invariant.{IsCurrent, Inv, get_state-set_state, cleanup_call-Inv}

accept_ringing-Inv :
    (w : World) (address : Address) (h : CallHandle) (m : CallManager)
    → m.current_call ≡ some h
    → Inv m
    → Inv (accept_ringing w address h m).0
unfolding accept_ringing send
accept_ringing-Inv w address h m e v =
    let accept = accept_packet h.call_id in
    let offer = offer_of h.call_id m in
    let begun = send-Inv h.peer_address accept m v in
    elim (Bool-cases (w.delivers h.peer_address accept)) [
      | inr f ↦ rw (f, accept_ringing) v
      | inl f ↦ elim (Bool-cases (w.delivers h.peer_address offer)) [
        | inr g ↦ rw (f, accept_ringing, g) begun
        | inl g ↦
            rw (f, accept_ringing, g)
              (begin_accepted-Inv w address h
                (send h.peer_address offer (send h.peer_address accept m)) e
                (send-Inv h.peer_address offer _ begun))
      ]
    ]

pub accept_call-Inv :
    (w : World) (address : Address) (m : CallManager) → Inv m → Inv (accept_call w address m).0
unfolding accept_call
accept_call-Inv w address m v = elim (Option-cases m.current_call) [
  | inl e ↦ rw (e, accept_call) v
  | inr (h, e) ↦ elim (Bool-cases (is_address h.peer_address address)) [
    | inr f ↦ rw (e, accept_call, f) v
    | inl f ↦ elim (Bool-cases (is_state (get_state m h) ringing)) [
      | inr g ↦ rw (e, accept_call, f, g) v
      | inl g ↦ rw (e, accept_call, f, g) (accept_ringing-Inv w address h m e v)
    ]
  ]
]

pub reject_call-Inv :
    (w : World) (address : Address) (m : CallManager) → Inv m → Inv (reject_call w address m).0
unfolding reject_call
reject_call-Inv w address m v = elim (Option-cases m.current_call) [
  | inl e ↦ rw (e, reject_call) v
  | inr (h, e) ↦ elim (Bool-cases (is_address h.peer_address address)) [
    | inr f ↦ rw (e, reject_call, f) v
    | inl f ↦ elim (Bool-cases (w.delivers h.peer_address (reject_packet h.call_id))) [
      | inr g ↦ rw (e, reject_call, f, g) v
      | inl g ↦
          rw (e, reject_call, f, g)
            (notify-Inv (ended_call address call_rejected) _ (
              notify-Inv (rejected_call address) _ (
                cleanup_call-Inv address _
                  (send-Inv h.peer_address (reject_packet h.call_id) m v))))
    ]
  ]
]

pub end_call-Inv :
    (w : World) (address : Address) (m : CallManager) → Inv m → Inv (end_call w address m).0
unfolding end_call
end_call-Inv w address m v = elim (Option-cases m.current_call) [
  | inl e ↦ rw (e, end_call) v
  | inr (h, e) ↦ elim (Bool-cases (is_address h.peer_address address)) [
    | inr f ↦ rw (e, end_call, f) v
    | inl f ↦ elim (Bool-cases (w.delivers h.peer_address (end_packet h.call_id))) [
      | inr g ↦
          rw (e, end_call, f, g)
            (notify-Inv (ended_call address call_ended) _ (cleanup_call-Inv address m v))
      | inl g ↦
          rw (e, end_call, f, g)
            (notify-Inv (ended_call address call_ended) _
              (cleanup_call-Inv address _ (send-Inv h.peer_address (end_packet h.call_id) m v)))
    ]
  ]
]

-- Connected first, then audio.
accepted_audio-Inv :
    (w : World) (h : CallHandle) (m : CallManager)
    → m.current_call ≡ some h
    → Inv m
    → Inv (start_audio_for_call w (set_state h connected m)).0
unfolding set_state set_cell notify
accepted_audio-Inv w h m e (keyed, now) =
    let (active, live, owns, silent) = subst (IsCurrent m) e now in
    subst (λ (r : Outcome Unit). Inv r.0)
      (sym (start_audio_current w h (set_state h connected m) e))
      (create_audio_state-Inv w h adpcm none none (set_state h connected m) e keyed active
        (get_state-set_state h connected m) owns)

pub handle_call_accepted-Inv :
    (w : World) (address : Address) (m : CallManager)
    → Inv m
    → Inv (handle_call_accepted w address m)
unfolding handle_call_accepted
handle_call_accepted-Inv w address m v = elim (Option-cases m.current_call) [
  | inl e ↦ rw (e, handle_call_accepted) v
  | inr (h, e) ↦ elim (Bool-cases (is_address h.peer_address address)) [
    | inr f ↦ rw (e, handle_call_accepted, f) v
    | inl f ↦
        rw (e, handle_call_accepted, f)
          (notify-Inv (connected_call address) _ (accepted_audio-Inv w h m e v))
  ]
]
