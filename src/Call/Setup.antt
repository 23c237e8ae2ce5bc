-- ===== src/Call/Setup.antt =====
-- Two managers set up a call with each other.
use ntied.Common.{ℕ, ◌≡◌, refl, Bool, true, false, [], ◌∷◌, none, some, ap}
use ntied.Address.{Address, Address-discrete}
use ntied.Codec.{adpcm, create_answer, adpcm_params}
use ntied.Call.{
  CallState, calling, ringing, connected, CallState-discrete, CallHandle, Cell, AudioState,
  CallManager, CallPacket, CodecOfferPacket, start_packet, accept_packet, codec_offer, codec_answer,
  World, notify, send, set_active, set_cell, new_handle, get_state, set_state,
}
use ntied.Call.Handlers.{
  create_audio_state, store_call, announce_call, start_call, ring, is_in_call, is_state, offer_of,
  handle_incoming_call, begin_accepted, accept_ringing, accept_call, handle_call_accepted,
  answer_offer, handle_codec_offer, is_address, process_call_packet,
}
use ntied.Call.Entry.{start_audio_current}
use mathlib.Core.Logic.{if_pos}
use native.Mathlib.Decide.{ℕ_discrete}

-- Both sides can reach each other, and their devices open.
abbrev pub IsUp : World → Type 0
IsUp w =
    ((address : Address) → w.is_connected address ≡ true)
    × ((address : Address) (packet : CallPacket) → w.delivers address packet ≡ true)
    × (w.opens none none ≡ true)

-- The current call and its state.
abbrev pub At : CallState → CallHandle → CallManager → Type 0
At s h m = (m.current_call ≡ some h) × (get_state m h ≡ s)

abbrev pub HasAudio : CallHandle → CallManager → Type 0
HasAudio h m = (audio : AudioState) × (m.audio_state ≡ some audio) × (audio.call_id ≡ h.call_id)

-- The handle that the manager makes next.
abbrev pub next_handle : ℕ → Address → Bool → CallManager → CallHandle
next_handle id peer is_incoming m = record {
  call_id = id;
  peer_address = peer;
  is_incoming = is_incoming;
  ref = m.next_ref;
}

unfoldable pub answer_to : ℕ → CallPacket
answer_to id = codec_answer (record {
  call_id = id;
  negotiated_codec = record { codec = adpcm; params = adpcm_params; is_offerer = false };
})

begun_audio : CallHandle → AudioState
begun_audio h = record {
  call_id = h.call_id;
  ref = h.ref;
  codec_type = adpcm;
  input_device_name = none;
  output_device_name = none;
  decoder = [];
}

pub is_address_refl : (a : Address) → is_address a a ≡ true
unfolding is_address
is_address_refl a = if_pos (Address-discrete a a) refl true false

module _ (w : World) (up : IsUp w) where
  pub start_call-At :
      (id : ℕ) (peer : Address) (m : CallManager)
      → m.current_call ≡ none
      → let m' = (start_call w id peer m).0 in
        At calling (next_handle id peer false m) m'
        × (m'.sent ≡ (peer, offer_of id m) ∷ (peer, start_packet id) ∷ m.sent)
  unfolding start_call store_call new_handle announce_call set_active set_cell set_state notify send
      offer_of get_state
  start_call-At id peer m e =
      rw (e, start_call, up.0 peer, up.1 peer (start_packet id), up.1 peer (offer_of id m))
        (
          (refl, ap (λ (c : Cell). c.state) (if_pos (ℕ_discrete m.next_ref m.next_ref) refl _ _)),
          refl,
        )

  pub ring-At :
      (id : ℕ) (peer : Address) (m : CallManager)
      → m.current_call ≡ none
      → let m' = (process_call_packet w peer (start_packet id) m).0 in
        At ringing (next_handle id peer true m) m' × (m'.sent ≡ m.sent)
  unfolding process_call_packet handle_incoming_call is_in_call ring store_call new_handle
      set_active set_cell set_state notify get_state
  ring-At id peer m e =
      rw (e, process_call_packet, handle_incoming_call, is_in_call, up.0 peer)
        (
          (refl, ap (λ (c : Cell). c.state) (if_pos (ℕ_discrete m.next_ref m.next_ref) refl _ _)),
          refl,
        )

  pub handle_codec_offer-At :
      (s : CallState) (h : CallHandle) (offer : CodecOfferPacket) (m : CallManager)
      → At s h m
      → let m' = (process_call_packet w h.peer_address (codec_offer offer) m).0 in
        At s h m'
        × (m'.sent ≡ (h.peer_address, answer_to h.call_id) ∷ m.sent)
        × (m'.audio_state ≡ m.audio_state)
  unfolding process_call_packet handle_codec_offer answer_offer create_answer answer_to send
      get_state
  handle_codec_offer-At s h offer m (e, at) =
      rw
        (
          e,
          process_call_packet,
          handle_codec_offer,
          is_address_refl h.peer_address,
          up.1 h.peer_address (answer_to h.call_id),
        )
        ((e, at), refl, refl)

  begin_accepted-At :
      (h : CallHandle) (m : CallManager)
      → m.current_call ≡ some h
      → let m' = begin_accepted w h.peer_address h m in
        At connected h m' × HasAudio h m' × (m'.sent ≡ m.sent)
  unfolding begin_accepted begun_audio create_audio_state set_state set_cell notify get_state
  begin_accepted-At h m e =
      rw (begin_accepted, start_audio_current w h m e, create_audio_state, up.2)
        (
          (e, ap (λ (c : Cell). c.state) (if_pos (ℕ_discrete h.ref h.ref) refl _ _)),
          (begun_audio h, refl, refl),
          refl,
        )

  pub accept_call-At :
      (h : CallHandle) (m : CallManager)
      → At ringing h m
      → let m' = (accept_call w h.peer_address m).0 in
        At connected h m'
        × HasAudio h m'
        × (m'.sent
            ≡ (h.peer_address, offer_of h.call_id m)
              ∷ (h.peer_address, accept_packet h.call_id)
              ∷ m.sent)
  unfolding accept_call accept_ringing is_state CallState-discrete send offer_of
  accept_call-At h m (e, at) =
      rw
        (
          e,
          accept_call,
          is_address_refl h.peer_address,
          at,
          up.1 h.peer_address (accept_packet h.call_id),
          up.1 h.peer_address (offer_of h.call_id m),
        )
        (begin_accepted-At h _ e)

  pub handle_call_accepted-At :
      (s : CallState) (h : CallHandle) (m : CallManager)
      → At s h m
      → let m' = (process_call_packet w h.peer_address (accept_packet h.call_id) m).0 in
        At connected h m' × HasAudio h m' × (m'.sent ≡ m.sent)
  unfolding process_call_packet handle_call_accepted begun_audio create_audio_state notify set_state
      set_cell get_state
  handle_call_accepted-At s h m (e, at) =
      rw
        (
          e,
          process_call_packet,
          handle_call_accepted,
          is_address_refl h.peer_address,
          start_audio_current w h (set_state h connected m) e,
          create_audio_state,
          up.2,
        )
        (
          (e, ap (λ (c : Cell). c.state) (if_pos (ℕ_discrete h.ref h.ref) refl _ _)),
          (begun_audio h, refl, refl),
          refl,
        )
