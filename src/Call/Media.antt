-- ===== src/Call/Media.antt =====
-- Codec offers, audio and video packets, mute and devices keep the manager's invariant.
use ntied.Common.{
  ℕ, ◌≡◌, ◌≢◌, refl, ◌∷◌, Option, none, some, Option-cases, Bool-cases, Result-cases, inl, inr,
  arith, subst, sym, ap, ◌∙◌, not,
}
use ntied.Address.{Address}
use ntied.Codec.{create_answer}
use ntied.Call.{
  video_frame_received, connected, ended, CallHandle, Cell, AudioState, CallManager,
  CodecOfferPacket, AudioDataPacket, VideoDataPacket, codec_answer, World, CallState-discrete,
  set_cell, get_state, toggle,
}
use ntied.Call.Handlers.{
  answer_offer, handle_codec_offer, is_address, is_for, decode_audio, handle_audio_data,
  handle_video_frame,
}
use ntied.Call.Devices.{replace_audio, toggle_mute}
use ntied.Call.Entry.{connected-Inv, send-Inv, notify-Inv, create_audio_state-Inv}
use mathlib.Core.Logic.{ite, if_pos}
use native.Mathlib.Decide.{ℕ_discrete}
use ntied.Call.Invariant.{IsCurrent, Inv}

answer_offer-Inv :
    (w : World) (h : CallHandle) (offer : CodecOfferPacket) (m : CallManager)
    → Inv m
    → Inv (answer_offer w h offer m).0
unfolding answer_offer
answer_offer-Inv w h offer m v =
    elim (Result-cases (create_answer m.codec_manager offer.capabilities)) [
      | inr (x, e) ↦ rw (e, answer_offer) v
      | inl (negotiated, e) ↦
          let answer =
            codec_answer (record { call_id = h.call_id; negotiated_codec = negotiated }) in
          elim (Bool-cases (w.delivers h.peer_address answer)) [
            | inl f ↦ rw (e, answer_offer, f) (send-Inv h.peer_address answer m v)
            | inr f ↦ rw (e, answer_offer, f) v
          ]
    ]

pub handle_codec_offer-Inv :
    (w : World) (address : Address) (offer : CodecOfferPacket) (m : CallManager)
    → Inv m
    → Inv (handle_codec_offer w address offer m).0
unfolding handle_codec_offer
handle_codec_offer-Inv w address offer m v = elim (Option-cases m.current_call) [
  | inl e ↦ rw (e, handle_codec_offer) v
  | inr (h, e) ↦ elim (Bool-cases (is_address h.peer_address address)) [
    | inr f ↦ rw (e, handle_codec_offer, f) v
    | inl f ↦ rw (e, handle_codec_offer, f) (answer_offer-Inv w h offer m v)
  ]
]

-- A call with audio is connected.
audio_connected :
    (h : CallHandle) (audio : AudioState) (m : CallManager)
    → IsCurrent m (some h)
    → m.audio_state ≡ some audio
    → get_state m h ≡ connected
audio_connected h audio m (active, live, owns, silent) f =
    elim (CallState-discrete (get_state m h) connected) [
      | yes same ↦ same
      | no other ↦ absurd (ground (arith, sym (silent other) ∙ f))
    ]

-- Cells that keep the call's state.
cells-Inv :
    (h : CallHandle) (cells : ℕ → Cell) (m : CallManager)
    → m.current_call ≡ some h
    → (cells h.ref).state ≡ (m.cells h.ref).state
    → Inv m
    → Inv (record m { cells = cells })
unfolding get_state
cells-Inv h cells m e same (keyed, now) =
    let (active, live, owns, silent) = subst (IsCurrent m) e now in
    (
      keyed,
      subst (IsCurrent (record m { cells = cells })) (sym e) (
        active,
        subst (λ s. s ≢ ended) (sym same) live,
        owns,
        subst (λ s. s ≢ connected → m.audio_state ≡ none) (sym same) silent,
      ),
    )

decode_audio-Inv :
    (w : World) (h : CallHandle) (packet : AudioDataPacket) (m : CallManager)
    → m.current_call ≡ some h
    → Inv m
    → Inv (decode_audio w packet m)
unfolding decode_audio get_state
decode_audio-Inv w h packet m e (keyed, now) = elim (Option-cases m.audio_state) [
  | inl f ↦ rw (f, decode_audio) (keyed, now)
  | inr (audio, f) ↦ elim (Bool-cases w.decoder_takes) [
    | inr g ↦ rw (f, decode_audio, g) (keyed, now)
    | inl g ↦
        let (active, live, owns, silent) = subst (IsCurrent m) e now in
        let fed = record audio { decoder = packet ∷ audio.decoder } in
        rw (f, decode_audio, g)
          (connected-Inv h (record m { audio_state = some fed }) e keyed active
            (audio_connected h audio m (active, live, owns, silent) f)
            (λ other found. ground (arith, found, owns audio f)))
  ]
]

pub handle_audio_data-Inv :
    (w : World) (address : Address) (packet : AudioDataPacket) (m : CallManager)
    → Inv m
    → Inv (handle_audio_data w address packet m)
unfolding handle_audio_data
handle_audio_data-Inv w address packet m v = elim (Option-cases m.current_call) [
  | inl e ↦ rw (e, handle_audio_data) v
  | inr (h, e) ↦ elim (Bool-cases (is_for address packet.call_id h)) [
    | inr f ↦ rw (e, handle_audio_data, f) v
    | inl f ↦ rw (e, handle_audio_data, f) (decode_audio-Inv w h packet m e v)
  ]
]

pub handle_video_frame-Inv :
    (address : Address) (packet : VideoDataPacket) (m : CallManager)
    → Inv m
    → Inv (handle_video_frame address packet m)
unfolding handle_video_frame
handle_video_frame-Inv address packet m v = elim (Option-cases m.current_call) [
  | inl e ↦ rw (e, handle_video_frame) v
  | inr (h, e) ↦ elim (Bool-cases (is_for address packet.call_id h)) [
    | inr f ↦ rw (e, handle_video_frame, f) v
    | inl f ↦
        rw (e, handle_video_frame, f) (notify-Inv (video_frame_received address packet.frame) m v)
  ]
]

pub toggle_mute-Inv : (m : CallManager) → Inv m → Inv (toggle_mute m).0
unfolding toggle_mute toggle set_cell get_state
toggle_mute-Inv m (keyed, now) = elim (Option-cases m.current_call) [
  | inl e ↦ rw (e, toggle_mute) (keyed, now)
  | inr (h, e) ↦
      let cell = m.cells h.ref in
      let muted = record cell { is_muted = not cell.is_muted } in
      rw (e, toggle_mute)
        (cells-Inv h (λ r. ite (ℕ_discrete h.ref r) muted (m.cells r)) m e
          (ap (λ (c : Cell). c.state) (if_pos (ℕ_discrete h.ref h.ref) refl _ _)) (keyed, now))
]

pub replace_audio-Inv :
    (w : World) (input output : AudioState → Option ℕ) (m : CallManager)
    → Inv m
    → Inv (replace_audio w input output m).0
unfolding replace_audio get_state
replace_audio-Inv w input output m (keyed, now) = elim (Option-cases m.current_call) [
  | inl e ↦ rw (e, replace_audio) (keyed, now)
  | inr (h, e) ↦ elim (Option-cases m.audio_state) [
    | inl f ↦ rw (e, replace_audio, f) (keyed, now)
    | inr (old, f) ↦
        let (active, live, owns, silent) = subst (IsCurrent m) e now in
        rw (e, replace_audio, f)
          (create_audio_state-Inv w h old.codec_type (input old) (output old)
            (record m { audio_state = none }) e keyed active
            (audio_connected h old m (active, live, owns, silent) f)
            (λ audio found. absurd (ground (arith, found))))
  ]
]
