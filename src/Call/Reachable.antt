-- ===== src/Call/Reachable.antt =====
-- Every reachable state of the manager satisfies its invariant.
use ntied.Common.{refl, List, [], ◌∷◌, arith}
use ntied.Address.{Address}
use ntied.Call.{
  new_manager, call_rejected, remote_ended_call, ended_call, rejected_call, CallManager, CallPacket,
  start_packet, accept_packet, reject_packet, end_packet, audio_data, video_data, codec_offer,
  codec_answer, World,
}
use ntied.Call.Handlers.{handle_call_rejected, handle_call_ended, process_call_packet}
use ntied.Call.Devices.{switch_input_device, switch_output_device}
use ntied.Call.Life.{
  Event, starts, accepts, rejects, ends, receives, toggles, switches_input, switches_output, step,
  run,
}
use ntied.Call.Entry.{notify-Inv, start_call-Inv, handle_incoming_call-Inv}
use ntied.Call.Answers.{accept_call-Inv, reject_call-Inv, end_call-Inv, handle_call_accepted-Inv}
use ntied.Call.Media.{
  handle_codec_offer-Inv, handle_audio_data-Inv, handle_video_frame-Inv, toggle_mute-Inv,
  replace_audio-Inv,
}
use ntied.Call.Invariant.{Inv, cleanup_call-Inv}

pub process_call_packet-Inv :
    (w : World) (address : Address) (packet : CallPacket) (m : CallManager)
    → Inv m
    → Inv (process_call_packet w address packet m).0
unfolding process_call_packet handle_call_rejected handle_call_ended
process_call_packet-Inv w address (start_packet id) m v = handle_incoming_call-Inv w address id m v
process_call_packet-Inv w address (accept_packet id) m v = handle_call_accepted-Inv w address m v
process_call_packet-Inv w address (reject_packet id) m v =
    notify-Inv (ended_call address call_rejected) _
      (notify-Inv (rejected_call address) _ (cleanup_call-Inv address m v))
process_call_packet-Inv w address (end_packet id) m v =
    notify-Inv (ended_call address remote_ended_call) _ (cleanup_call-Inv address m v)
process_call_packet-Inv w address (audio_data p) m v = handle_audio_data-Inv w address p m v
process_call_packet-Inv w address (video_data p) m v = handle_video_frame-Inv address p m v
process_call_packet-Inv w address (codec_offer p) m v = handle_codec_offer-Inv w address p m v
process_call_packet-Inv w address (codec_answer p) m v = v

pub step-Inv : (m : CallManager) (e : World × Event) → Inv m → Inv (step m e)
unfolding step switch_input_device switch_output_device
step-Inv m (w, starts call_id address) v = start_call-Inv w call_id address m v
step-Inv m (w, accepts address) v = accept_call-Inv w address m v
step-Inv m (w, rejects address) v = reject_call-Inv w address m v
step-Inv m (w, ends address) v = end_call-Inv w address m v
step-Inv m (w, receives address packet) v = process_call_packet-Inv w address packet m v
step-Inv m (w, toggles) v = toggle_mute-Inv m v
step-Inv m (w, switches_input device) v = replace_audio-Inv w _ _ m v
step-Inv m (w, switches_output device) v = replace_audio-Inv w _ _ m v

run-Inv : (es : List (World × Event)) (m : CallManager) → Inv m → Inv (run m es)
unfolding run
run-Inv [] m v = v
run-Inv (e ∷ es) m v = run-Inv es (step m e) (step-Inv m e v)

-- After every sequence of operations, received packets and device changes on a new manager, whatever
-- the contacts and devices do in each: a current call is stored as active under its peer's address
-- and is not ended; there is audio only while it is connected, and it has the call's id and handle;
-- without a current call there is none; and every active call is stored under its peer's address.
pub run-new_manager : (es : List (World × Event)) → Inv (run new_manager es)
unfolding new_manager
run-new_manager es = run-Inv es new_manager ((λ address h e. absurd (ground (arith, e))), refl)
