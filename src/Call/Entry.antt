-- ===== src/Call/Entry.antt =====
-- Calls that start and calls that are accepted keep the manager's invariant.
use ntied.Common.{
  ℕ, ◌≡◌, ◌≢◌, refl, Bool, true, false, Option, none, some, Option-cases, Bool-cases, inl, inr, err,
  arith, subst, sym, ap, ◌∙◌,
}
use ntied.Address.{Address}
use ntied.Codec.{CodecType, adpcm}
use ntied.Call.{
  no_current_call, CallState, calling, ringing, connected, ended, CallHandle, CallManager, Notice,
  outgoing_call, incoming_call, accepted_call, connected_call, CallPacket, start_packet,
  reject_packet, World, Outcome, CallState-discrete, notify, send, set_active, set_cell, new_handle,
  get_state, set_state,
}
use ntied.Call.Handlers.{
  create_audio_state, start_audio_for_call, store_call, announce_call, start_call, ring, is_in_call,
  is_live, is_state, offer_of, reject_incoming_call, handle_incoming_call, begin_accepted,
}
use ntied.Call.Invariant.{
  AreKeyed, OwnsAudio, IsCurrent, Inv, store_call-Inv, set_state-Inv, create_audio_state-OwnsAudio,
}

-- A connected call, whatever its audio is.
pub connected-Inv :
    (h : CallHandle) (m : CallManager)
    → m.current_call ≡ some h
    → AreKeyed m
    → m.active_calls h.peer_address ≡ some h
    → get_state m h ≡ connected
    → OwnsAudio m h
    → Inv m
connected-Inv h m e keyed active live owns = (
  keyed,
  subst (IsCurrent m) (sym e)
      (active, subst (λ s. s ≢ ended) (sym live) (λ q. cc), owns, λ other. absurd (other live)),
)

-- What the invariant does not read.
pub send-Inv :
    (address : Address) (packet : CallPacket) (m : CallManager)
    → Inv m
    → Inv (send address packet m)
unfolding send get_state
send-Inv address packet m v = v

pub notify-Inv : (n : Notice) (m : CallManager) → Inv m → Inv (notify n m)
unfolding notify get_state
notify-Inv n m v = v

-- A state for a current call without audio.
enter-Inv :
    (h : CallHandle) (s : CallState) (m : CallManager)
    → m.current_call ≡ some h
    → m.audio_state ≡ none
    → s ≢ ended
    → Inv m
    → Inv (set_state h s m)
enter-Inv h s m e silent live (keyed, now) =
    let (active, was_live, owns, quiet) = subst (IsCurrent m) e now in
    set_state-Inv h s m e live (λ other. silent) keyed active owns

announce_call-Inv :
    (w : World) (h : CallHandle) (m : CallManager)
    → m.current_call ≡ some h
    → m.audio_state ≡ none
    → Inv m
    → Inv (announce_call w h m).0
unfolding announce_call send
announce_call-Inv w h m e silent v =
    let start = start_packet h.call_id in
    let offer = offer_of h.call_id m in
    let begun = send-Inv h.peer_address start m v in
    elim (Bool-cases (w.delivers h.peer_address start)) [
      | inr f ↦ rw (f, announce_call) v
      | inl f ↦ elim (Bool-cases (w.delivers h.peer_address offer)) [
        | inr g ↦ rw (f, announce_call, g) begun
        | inl g ↦
            rw (f, announce_call, g)
              (notify-Inv (outgoing_call h.peer_address) _ (
                enter-Inv h calling (send h.peer_address offer (send h.peer_address start m)) e
                  silent (λ q. cc) (send-Inv h.peer_address offer _ begun)))
      ]
    ]

store_call_current :
    (call_id : ℕ) (address : Address) (is_incoming : Bool) (m : CallManager)
    → let (m', h) = store_call call_id address is_incoming m in
      (m'.current_call ≡ some h) × (m'.audio_state ≡ m.audio_state)
unfolding store_call new_handle set_active set_cell
store_call_current call_id address is_incoming m = (refl, refl)

pub start_call-Inv :
    (w : World) (call_id : ℕ) (address : Address) (m : CallManager)
    → Inv m
    → Inv (start_call w call_id address m).0
unfolding start_call
start_call-Inv w call_id address m (keyed, now) = elim (Option-cases m.current_call) [
  | inr (h, e) ↦ rw (e, start_call) (keyed, now)
  | inl e ↦
      let (m', h) = store_call call_id address false m in
      let silent = subst (IsCurrent m) e now in
      let (current, audio) = store_call_current call_id address false m in
      elim (Bool-cases (w.is_connected address)) [
        | inr f ↦ rw (e, start_call, f) (keyed, now)
        | inl f ↦
            rw (e, start_call, f)
              (announce_call-Inv w h m' current (audio ∙ silent)
                (store_call-Inv call_id address false m keyed silent))
      ]
]

ring-Inv :
    (w : World) (call_id : ℕ) (address : Address) (m : CallManager)
    → m.audio_state ≡ none
    → Inv m
    → Inv (ring w address call_id m).0
unfolding ring
ring-Inv w call_id address m silent v =
    let (m', h) = store_call call_id address true m in
    let (current, audio) = store_call_current call_id address true m in
    elim (Bool-cases (w.is_connected address)) [
      | inr f ↦ rw (f, ring) v
      | inl f ↦
          rw (f, ring)
            (notify-Inv (incoming_call address) _ (
              enter-Inv h ringing m' current (audio ∙ silent) (λ q. cc)
                (store_call-Inv call_id address true m v.0 silent)))
    ]

connected_live :
    (h : CallHandle) (m : CallManager)
    → m.current_call ≡ some h
    → get_state m h ≡ connected
    → is_in_call m ≡ true
unfolding is_in_call is_live is_state CallState-discrete
connected_live h m e q = rw (e, is_in_call, q) refl

-- Where there is no live call there is no audio.
not_in_call_silent : (m : CallManager) → Inv m → is_in_call m ≡ false → m.audio_state ≡ none
not_in_call_silent m (keyed, now) h = elim (Option-cases m.current_call) [
  | inl e ↦ subst (IsCurrent m) e now
  | inr (g, e) ↦
      let (active, live, owns, silent) = subst (IsCurrent m) e now in
      silent (λ q. absurd (ground (arith, sym (connected_live g m e q) ∙ h)))
]

reject_incoming_call-Inv :
    (w : World) (address : Address) (call_id : ℕ) (m : CallManager)
    → Inv m
    → Inv (reject_incoming_call w address call_id m).0
unfolding reject_incoming_call
reject_incoming_call-Inv w address call_id m v =
    elim (Bool-cases (w.delivers address (reject_packet call_id))) [
      | inl e ↦ rw (e, reject_incoming_call) (send-Inv address (reject_packet call_id) m v)
      | inr e ↦ rw (e, reject_incoming_call) v
    ]

pub handle_incoming_call-Inv :
    (w : World) (address : Address) (call_id : ℕ) (m : CallManager)
    → Inv m
    → Inv (handle_incoming_call w address call_id m).0
unfolding handle_incoming_call
handle_incoming_call-Inv w address call_id m v = elim (Bool-cases (is_in_call m)) [
  | inl e ↦ rw (e, handle_incoming_call) (reject_incoming_call-Inv w address call_id m v)
  | inr e ↦ rw (e, handle_incoming_call) (ring-Inv w call_id address m (not_in_call_silent m v e) v)
]

-- Making audio changes nothing else.
pub create_audio_state_only :
    (w : World) (h : CallHandle) (codec : CodecType) (input output : Option ℕ) (m : CallManager)
    → (create_audio_state w h codec input output m).0
      ≡ record m { audio_state = (create_audio_state w h codec input output m).0.audio_state }
unfolding create_audio_state
create_audio_state_only w h codec input output m = elim (Bool-cases (w.opens input output)) [
  | inl e ↦ rw (e, create_audio_state) refl
  | inr e ↦ rw (e, create_audio_state) refl
]

-- Audio made for a connected call.
pub create_audio_state-Inv :
    (w : World) (h : CallHandle) (codec : CodecType) (input output : Option ℕ) (m : CallManager)
    → m.current_call ≡ some h
    → AreKeyed m
    → m.active_calls h.peer_address ≡ some h
    → get_state m h ≡ connected
    → OwnsAudio m h
    → Inv (create_audio_state w h codec input output m).0
unfolding get_state
create_audio_state-Inv w h codec input output m e keyed active live owns =
    let only = create_audio_state_only w h codec input output m in
    let audio = (create_audio_state w h codec input output m).0.audio_state in
    subst Inv (sym only) (
      connected-Inv h (record m { audio_state = audio }) e keyed active live
        (create_audio_state-OwnsAudio w h codec input output m owns))

pub start_audio_current :
    (w : World) (h : CallHandle) (m : CallManager)
    → m.current_call ≡ some h
    → start_audio_for_call w m ≡ create_audio_state w h adpcm none none m
unfolding start_audio_for_call
start_audio_current w h m e =
    ap
      (λ (c : Option CallHandle). elim c as (λ x. Outcome Unit) [
        | none ↦ (m, err no_current_call)
        | some g ↦ create_audio_state w g adpcm none none m
      ])
      e

pub begin_accepted-Inv :
    (w : World) (address : Address) (h : CallHandle) (m : CallManager)
    → m.current_call ≡ some h
    → Inv m
    → Inv (begin_accepted w address h m)
unfolding begin_accepted
begin_accepted-Inv w address h m e (keyed, now) =
    let (active, live, owns, silent) = subst (IsCurrent m) e now in
    let audio = (create_audio_state w h adpcm none none m).0.audio_state in
    let connects =
      set_state-Inv h connected (record m { audio_state = audio }) e (λ q. cc)
        (λ other. absurd (other refl)) keyed active
        (create_audio_state-OwnsAudio w h adpcm none none m owns) in
    notify-Inv (connected_call address) _ (
      notify-Inv (accepted_call address) _ (
        subst (λ x. Inv (set_state h connected x))
          (sym (
            ap (λ (r : Outcome Unit). r.0) (start_audio_current w h m e)
            ∙ create_audio_state_only w h adpcm none none m))
          connects))
