-- ===== src/Call/Refinement.antt =====
-- Every step of the manager follows an edge of the diagram of calls.
use ntied.Common.{
  ℕ, ◌≡◌, refl, false, List, ◌∷◌, Option, none, some, Option-cases, Bool-cases, inl, inr, sym, ap,
  ◌∙◌, not,
}
use ntied.Address.{Address}
use ntied.Codec.{adpcm, create_answer, adpcm_params}
use ntied.Call.{
  Cell, AudioState, CallManager, CallPacket, CodecOfferPacket, AudioDataPacket, VideoDataPacket,
  new_manager, ended_call, rejected_call, call_rejected, remote_ended_call, video_frame_received,
  start_packet, accept_packet, reject_packet, end_packet, audio_data, video_data, codec_offer,
  codec_answer, World, send, set_cell, get_state, toggle,
}
use ntied.Call.Handlers.{
  cleanup_call, handle_call_rejected, handle_call_ended, answer_offer, handle_codec_offer,
  is_address, is_for, decode_audio, handle_audio_data, handle_video_frame, process_call_packet,
}
use ntied.Call.Devices.{replace_audio, toggle_mute, switch_input_device, switch_output_device}
use ntied.Call.Life.{
  run, Event, starts, accepts, rejects, ends, receives, toggles, switches_input, switches_output,
  step, Phase, phase, ◌⟶◌, stays,
}
use ntied.Call.Invariant.{Inv}
use ntied.Call.Diagram.{
  phase-some, phase-send, phase-notify, phase_is, kept, to, start_call-⟶, handle_incoming_call-⟶,
}
use ntied.Call.Ends.{
  accept_call-⟶, handle_call_accepted-⟶, cleanup_call-⟶, reject_call-⟶, end_call-⟶, same_call-⟶,
}
use ntied.Call.Reachable.{run-new_manager}
use ntied.Call.Entry.{create_audio_state_only}
use mathlib.Core.Logic.{if_pos}
use native.Mathlib.Decide.{ℕ_discrete}

handle_codec_offer-⟶ :
    (w : World) (address : Address) (offer : CodecOfferPacket) (m : CallManager) (p : Phase)
    → phase m ≡ p
    → p ⟶ phase (handle_codec_offer w address offer m).0
unfolding handle_codec_offer answer_offer create_answer
handle_codec_offer-⟶ w address offer m p was = elim (Option-cases m.current_call) [
  | inl e ↦ rw (e, handle_codec_offer) (kept p m was)
  | inr (h, e) ↦ elim (Bool-cases (is_address h.peer_address address)) [
    | inr f ↦ rw (e, handle_codec_offer, f) (kept p m was)
    | inl f ↦
        let answer = codec_answer (record {
          call_id = h.call_id;
          negotiated_codec = record { codec = adpcm; params = adpcm_params; is_offerer = false };
        }) in
        elim (Bool-cases (w.delivers h.peer_address answer)) [
          | inr g ↦ rw (e, handle_codec_offer, f, g) (kept p m was)
          | inl g ↦
              rw (e, handle_codec_offer, f, g)
                (kept p (send h.peer_address answer m) (phase-send h.peer_address answer m ∙ was))
        ]
  ]
]

decode_audio-⟶ :
    (w : World) (packet : AudioDataPacket) (m : CallManager) (p : Phase)
    → phase m ≡ p
    → p ⟶ phase (decode_audio w packet m)
unfolding decode_audio get_state
decode_audio-⟶ w packet m p was = elim (Option-cases m.audio_state) [
  | inl e ↦ rw (e, decode_audio) (kept p m was)
  | inr (audio, e) ↦
      let fed = record audio { decoder = packet ∷ audio.decoder } in
      elim (Bool-cases w.decoder_takes) [
        | inr f ↦ rw (e, decode_audio, f) (kept p m was)
        | inl f ↦
            rw (e, decode_audio, f)
              (same_call-⟶ m (record m { audio_state = some fed }) p was refl (λ h q. refl))
      ]
]

handle_audio_data-⟶ :
    (w : World) (address : Address) (packet : AudioDataPacket) (m : CallManager) (p : Phase)
    → phase m ≡ p
    → p ⟶ phase (handle_audio_data w address packet m)
unfolding handle_audio_data
handle_audio_data-⟶ w address packet m p was = elim (Option-cases m.current_call) [
  | inl e ↦ rw (e, handle_audio_data) (kept p m was)
  | inr (h, e) ↦ elim (Bool-cases (is_for address packet.call_id h)) [
    | inr f ↦ rw (e, handle_audio_data, f) (kept p m was)
    | inl f ↦ rw (e, handle_audio_data, f) (decode_audio-⟶ w packet m p was)
  ]
]

handle_video_frame-⟶ :
    (address : Address) (packet : VideoDataPacket) (m : CallManager) (p : Phase)
    → phase m ≡ p
    → p ⟶ phase (handle_video_frame address packet m)
unfolding handle_video_frame
handle_video_frame-⟶ address packet m p was = elim (Option-cases m.current_call) [
  | inl e ↦ rw (e, handle_video_frame) (kept p m was)
  | inr (h, e) ↦ elim (Bool-cases (is_for address packet.call_id h)) [
    | inr f ↦ rw (e, handle_video_frame, f) (kept p m was)
    | inl f ↦
        rw (e, handle_video_frame, f)
          (to p p _ (phase-notify (video_frame_received address packet.frame) m ∙ was) stays)
  ]
]

toggle_mute-⟶ : (m : CallManager) (p : Phase) → phase m ≡ p → p ⟶ phase (toggle_mute m).0
unfolding toggle_mute toggle set_cell get_state
toggle_mute-⟶ m p was = elim (Option-cases m.current_call) [
  | inl e ↦ rw (e, toggle_mute) (kept p m was)
  | inr (h, e) ↦
      let cell = m.cells h.ref in
      let muted = record cell { is_muted = not cell.is_muted } in
      let m' = set_cell h.ref muted m in
      rw (e, toggle_mute)
        (to p p m'
          (phase_is h h.is_incoming (get_state m h) m' e refl
              (ap (λ (c : Cell). c.state) (if_pos (ℕ_discrete h.ref h.ref) refl _ _))
            ∙ sym (phase-some h m e)
            ∙ was)
          stays)
]

replace_audio-⟶ :
    (w : World) (input output : AudioState → Option ℕ) (m : CallManager) (p : Phase)
    → phase m ≡ p
    → p ⟶ phase (replace_audio w input output m).0
unfolding replace_audio get_state
replace_audio-⟶ w input output m p was = elim (Option-cases m.current_call) [
  | inl e ↦ rw (e, replace_audio) (kept p m was)
  | inr (h, e) ↦ elim (Option-cases m.audio_state) [
    | inl f ↦ rw (e, replace_audio, f) (kept p m was)
    | inr (old, f) ↦
        let silent = record m { audio_state = none } in
        let only = create_audio_state_only w h old.codec_type (input old) (output old) silent in
        rw (e, replace_audio, f)
          (same_call-⟶ m _ p was (ap (λ (x : CallManager). x.current_call) only)
            (λ g q. ap (λ (x : CallManager). (x.cells g.ref).state) only))
  ]
]

process_call_packet-⟶ :
    (w : World) (address : Address) (packet : CallPacket) (m : CallManager) (p : Phase)
    → phase m ≡ p
    → Inv m
    → p ⟶ phase (process_call_packet w address packet m).0
unfolding process_call_packet handle_call_rejected handle_call_ended
process_call_packet-⟶ w address (start_packet id) m p was v =
    handle_incoming_call-⟶ w address id m p was v
process_call_packet-⟶ w address (accept_packet id) m p was v =
    handle_call_accepted-⟶ w address m p was
process_call_packet-⟶ w address (reject_packet id) m p was v =
    to p _ _
      (phase-notify (ended_call address call_rejected) _
        ∙ phase-notify (rejected_call address) (cleanup_call address m))
      (cleanup_call-⟶ address m p was)
process_call_packet-⟶ w address (end_packet id) m p was v =
    to p _ _ (phase-notify (ended_call address remote_ended_call) (cleanup_call address m))
      (cleanup_call-⟶ address m p was)
process_call_packet-⟶ w address (audio_data a) m p was v = handle_audio_data-⟶ w address a m p was
process_call_packet-⟶ w address (video_data a) m p was v = handle_video_frame-⟶ address a m p was
process_call_packet-⟶ w address (codec_offer a) m p was v = handle_codec_offer-⟶ w address a m p was
process_call_packet-⟶ w address (codec_answer a) m p was v = kept p m was

step_from :
    (m : CallManager) (e : World × Event) (p : Phase) → phase m ≡ p → Inv m → p ⟶ phase (step m e)
unfolding step switch_input_device switch_output_device
step_from m (w, starts call_id address) p was v = start_call-⟶ w call_id address m p was
step_from m (w, accepts address) p was v = accept_call-⟶ w address m p was
step_from m (w, rejects address) p was v = reject_call-⟶ w address m p was
step_from m (w, ends address) p was v = end_call-⟶ w address m p was
step_from m (w, receives address packet) p was v = process_call_packet-⟶ w address packet m p was v
step_from m (w, toggles) p was v = toggle_mute-⟶ m p was
step_from m (w, switches_input device) p was v = replace_audio-⟶ w _ _ m p was
step_from m (w, switches_output device) p was v = replace_audio-⟶ w _ _ m p was

-- After any run of a new manager, every further step (an operation of the user, or a packet from
-- anyone, whatever contacts and devices do) takes what is seen of the current call along an edge of
-- the diagram: it stays as it is, a call is started or its packets could not be sent, a call rings
-- where there was none or one whose packets could not be sent, the call that was there becomes
-- connected, or it is gone. So no call takes the place of one that calls, rings or is connected.
pub step-⟶ :
    (es : List (World × Event)) (e : World × Event)
    → phase (run new_manager es) ⟶ phase (step (run new_manager es) e)
step-⟶ es e = step_from (run new_manager es) e _ refl (run-new_manager es)
