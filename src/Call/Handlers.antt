-- ===== src/Call/Handlers.antt =====
-- ntied/src/call/manager.rs: the operations on calls and the handlers of call packets. Each runs to
-- its end before the next one starts.
use ntied.Common.{
  ℕ, Bool, true, false, not, ◌&&◌, [], ◌∷◌, Option, none, some, ok, err, ◌==◌, if◌then◌else◌,
}
use ntied.Address.{Address, Address-discrete}
use ntied.Codec.{CodecType, adpcm, create_offer, create_answer}
use ntied.Call.{
  CallState, idle, calling, ringing, connected, ended, CallState-discrete, CallHandle,
  AudioDataPacket, CodecOfferPacket, VideoDataPacket, CallPacket, start_packet, accept_packet,
  reject_packet, end_packet, audio_data, video_data, codec_offer, codec_answer, call_rejected,
  call_ended, remote_ended_call, incoming_call, outgoing_call, rejected_call, accepted_call,
  connected_call, ended_call, video_frame_received, already_in_call, not_connected, no_current_call,
  other_peer, not_ringing, start_failed, offer_failed, accept_failed, reject_failed, answer_failed,
  no_device, codec_failed, CallManager, World, Outcome, notify, send, set_active, new_handle,
  get_state, set_state,
}
use mathlib.Core.Logic.{ite}

unfoldable pub is_address : Address → Address → Bool
is_address a b = ite (Address-discrete a b) true false

unfoldable pub is_state : CallState → CallState → Bool
is_state a b = ite (CallState-discrete a b) true false

-- Neither idle nor ended.
unfoldable pub is_live : CallState → Bool
is_live state = not (is_state state idle) && not (is_state state ended)

unfoldable pub offer_of : ℕ → CallManager → CallPacket
offer_of call_id m = codec_offer (record {
  call_id = call_id;
  capabilities = m.codec_manager.capabilities;
  preferred_codec = create_offer m.codec_manager;
})

-- `create_audio_state`.
unfoldable pub create_audio_state :
    World → CallHandle → CodecType → Option ℕ → Option ℕ → CallManager → Outcome Unit
create_audio_state w h codec input output m =
    if w.opens input output
    then (
      record m {
        audio_state = some (record {
          call_id = h.call_id;
          ref = h.ref;
          codec_type = codec;
          input_device_name = input;
          output_device_name = output;
          decoder = [];
        });
      },
      ok tt,
    )
    else (m, err no_device)

unfoldable pub start_audio_for_call : World → CallManager → Outcome Unit
start_audio_for_call w m = elim m.current_call [
  | none ↦ (m, err no_current_call)
  | some h ↦ create_audio_state w h adpcm none none m
]

-- The call is stored, as active and as the current one.
unfoldable pub store_call : ℕ → Address → Bool → CallManager → CallManager × CallHandle
store_call call_id address is_incoming m =
    let (m', h) = new_handle call_id address is_incoming m in
    (record (set_active address (some h) m') { current_call = some h }, h)

-- After the call was stored: the two packets, and the state.
unfoldable pub announce_call : World → CallHandle → CallManager → Outcome CallHandle
announce_call w h m =
    let start = start_packet h.call_id in
    let offer = offer_of h.call_id m in
    if not (w.delivers h.peer_address start)
    then (m, err start_failed)
    else if not (w.delivers h.peer_address offer)
    then (send h.peer_address start m, err offer_failed)
    else (
      notify (outgoing_call h.peer_address)
          (set_state h calling (send h.peer_address offer (send h.peer_address start m))),
      ok h,
    )

-- `call_id` is the new id.
unfoldable pub start_call : World → ℕ → Address → CallManager → Outcome CallHandle
start_call w call_id address m = elim m.current_call [
  | some h ↦ (m, err already_in_call)
  | none ↦
      let (m', h) = store_call call_id address false m in
      if w.is_connected address then announce_call w h m' else (m, err not_connected)
]

-- `reject_incoming_call`.
unfoldable pub reject_incoming_call : World → Address → ℕ → CallManager → Outcome Unit
reject_incoming_call w address call_id m =
    if w.delivers address (reject_packet call_id)
    then (send address (reject_packet call_id) m, ok tt)
    else (m, err reject_failed)

unfoldable pub ring : World → Address → ℕ → CallManager → Outcome Unit
ring w address call_id m =
    let (m', h) = store_call call_id address true m in
    if w.is_connected address
    then (notify (incoming_call address) (set_state h ringing m'), ok tt)
    else (m, err not_connected)

-- `is_in_call`.
unfoldable pub is_in_call : CallManager → Bool
is_in_call m = elim m.current_call [ none ↦ false | some h ↦ is_live (get_state m h) ]

unfoldable pub handle_incoming_call : World → Address → ℕ → CallManager → Outcome Unit
handle_incoming_call w address call_id m =
    if is_in_call m then reject_incoming_call w address call_id m else ring w address call_id m

-- What comes after both packets of an accepted call.
unfoldable pub begin_accepted : World → Address → CallHandle → CallManager → CallManager
begin_accepted w address h m =
    notify (connected_call address)
      (notify (accepted_call address) (set_state h connected (start_audio_for_call w m).0))

unfoldable pub accept_ringing : World → Address → CallHandle → CallManager → Outcome Unit
accept_ringing w address h m =
    let accept = accept_packet h.call_id in
    let offer = offer_of h.call_id m in
    if not (w.delivers h.peer_address accept)
    then (m, err accept_failed)
    else if not (w.delivers h.peer_address offer)
    then (send h.peer_address accept m, err offer_failed)
    else (
      begin_accepted w address h (send h.peer_address offer (send h.peer_address accept m)),
      ok tt,
    )

unfoldable pub accept_call : World → Address → CallManager → Outcome Unit
accept_call w address m = elim m.current_call [
  | none ↦ (m, err no_current_call)
  | some h ↦
      if not (is_address h.peer_address address)
      then (m, err other_peer)
      else if not (is_state (get_state m h) ringing)
      then (m, err not_ringing)
      else accept_ringing w address h m
]

-- `cleanup_call`: the state and the audio of the current call, if it is with this peer, then both
-- places where it is stored.
unfoldable pub cleanup_call : Address → CallManager → CallManager
cleanup_call address m = elim m.current_call [
  | none ↦ set_active address none m
  | some h ↦
      if is_address h.peer_address address
      then record (set_active address none (record (set_state h ended m) { audio_state = none })) {
        current_call = none;
      }
      else set_active address none m
]

unfoldable pub reject_call : World → Address → CallManager → Outcome Unit
reject_call w address m = elim m.current_call [
  | none ↦ (m, err no_current_call)
  | some h ↦
      let reject = reject_packet h.call_id in
      if not (is_address h.peer_address address)
      then (m, err other_peer)
      else if not (w.delivers h.peer_address reject)
      then (m, err reject_failed)
      else (
        notify (ended_call address call_rejected)
            (notify (rejected_call address) (cleanup_call address (send h.peer_address reject m))),
        ok tt,
      )
]

-- A packet that is not delivered is only logged.
unfoldable pub end_call : World → Address → CallManager → Outcome Unit
end_call w address m = elim m.current_call [
  | none ↦ (m, err no_current_call)
  | some h ↦
      let bye = end_packet h.call_id in
      let m' = if w.delivers h.peer_address bye then send h.peer_address bye m else m in
      if not (is_address h.peer_address address)
      then (m, err other_peer)
      else (notify (ended_call address call_ended) (cleanup_call address m'), ok tt)
]

unfoldable pub handle_call_accepted : World → Address → CallManager → CallManager
handle_call_accepted w address m = elim m.current_call [
  | none ↦ m
  | some h ↦
      if is_address h.peer_address address
      then notify (connected_call address) (start_audio_for_call w (set_state h connected m)).0
      else m
]

unfoldable pub handle_call_rejected : Address → CallManager → CallManager
handle_call_rejected address m =
    notify (ended_call address call_rejected)
      (notify (rejected_call address) (cleanup_call address m))

unfoldable pub handle_call_ended : Address → CallManager → CallManager
handle_call_ended address m = notify (ended_call address remote_ended_call) (cleanup_call address m)

unfoldable pub answer_offer : World → CallHandle → CodecOfferPacket → CallManager → Outcome Unit
answer_offer w h offer m = elim (create_answer m.codec_manager offer.capabilities) [
  | err e ↦ (m, err codec_failed)
  | ok negotiated ↦
      let answer = codec_answer (record { call_id = h.call_id; negotiated_codec = negotiated }) in
      if w.delivers h.peer_address answer
      then (send h.peer_address answer m, ok tt)
      else (m, err answer_failed)
]

unfoldable pub handle_codec_offer : World → Address → CodecOfferPacket → CallManager → Outcome Unit
handle_codec_offer w address offer m = elim m.current_call [
  | none ↦ (m, err no_current_call)
  | some h ↦ if is_address h.peer_address address then answer_offer w h offer m else (m, ok tt)
]

-- The packet is for the current call.
unfoldable pub is_for : Address → ℕ → CallHandle → Bool
is_for address call_id h = is_address h.peer_address address && (h.call_id == call_id)

unfoldable pub decode_audio : World → AudioDataPacket → CallManager → CallManager
decode_audio w packet m = elim m.audio_state [
  | none ↦ m
  | some audio ↦
      if w.decoder_takes
      then record m { audio_state = some (record audio { decoder = packet ∷ audio.decoder }) }
      else m
]

unfoldable pub handle_audio_data : World → Address → AudioDataPacket → CallManager → CallManager
handle_audio_data w address packet m = elim m.current_call [
  | none ↦ m
  | some h ↦ if is_for address packet.call_id h then decode_audio w packet m else m
]

unfoldable pub handle_video_frame : Address → VideoDataPacket → CallManager → CallManager
handle_video_frame address packet m = elim m.current_call [
  | none ↦ m
  | some h ↦
      if is_for address packet.call_id h
      then notify (video_frame_received address packet.frame) m
      else m
]

unfoldable pub process_call_packet : World → Address → CallPacket → CallManager → Outcome Unit
process_call_packet w address (start_packet id) m = handle_incoming_call w address id m
process_call_packet w address (accept_packet id) m = (handle_call_accepted w address m, ok tt)
process_call_packet w address (reject_packet id) m = (handle_call_rejected address m, ok tt)
process_call_packet w address (end_packet id) m = (handle_call_ended address m, ok tt)
process_call_packet w address (audio_data p) m = (handle_audio_data w address p m, ok tt)
process_call_packet w address (video_data p) m = (handle_video_frame address p m, ok tt)
process_call_packet w address (codec_offer p) m = handle_codec_offer w address p m
process_call_packet w address (codec_answer p) m = (m, ok tt)
