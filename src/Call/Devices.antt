-- ===== src/Call/Devices.antt =====
-- ntied/src/call/manager.rs: mute, the devices of the current call, and the frames that the capture
-- task hands to the encoder.
use ntied.Common.{
  ℕ, Bool, List, length, replicate, Option, none, some, Result, ok, err, if◌then◌else◌,
}
use ntied.Call.{
  AudioDataPacket, CallError, no_active_call, no_audio_state, AudioState, CallManager, World,
  Outcome, toggle,
}
use ntied.Call.Handlers.{create_audio_state}

unfoldable pub is_muted : CallManager → Result CallError Bool
is_muted m = elim m.current_call [
  | none ↦ err no_active_call
  | some h ↦ ok ((m.cells h.ref).is_muted)
]

unfoldable pub toggle_mute : CallManager → Outcome Bool
toggle_mute m = elim m.current_call [
  | none ↦ (m, err no_active_call)
  | some h ↦ let (m', muted) = toggle h m in (m', ok muted)
]

unfoldable pub get_current_input_device : CallManager → Option ℕ
get_current_input_device m = elim m.audio_state [
  | none ↦ none
  | some audio ↦ audio.input_device_name
]

unfoldable pub get_current_output_device : CallManager → Option ℕ
get_current_output_device m = elim m.audio_state [
  | none ↦ none
  | some audio ↦ audio.output_device_name
]

-- The audio state is taken before the new one is made.
unfoldable pub replace_audio :
    World → (AudioState → Option ℕ) → (AudioState → Option ℕ) → CallManager → Outcome Unit
replace_audio w input output m = elim m.current_call [
  | none ↦ (m, err no_active_call)
  | some h ↦ elim m.audio_state [
    | none ↦ (m, err no_audio_state)
    | some old ↦
        create_audio_state w h old.codec_type (input old) (output old)
          (record m { audio_state = none })
  ]
]

unfoldable pub switch_input_device : World → Option ℕ → CallManager → Outcome Unit
switch_input_device w device m = replace_audio w (λ old. device) (λ old. old.output_device_name) m

unfoldable pub switch_output_device : World → Option ℕ → CallManager → Outcome Unit
switch_output_device w device m = replace_audio w (λ old. old.input_device_name) (λ old. device) m

-- The capture task: the samples of a frame, or as many zeros while the call is muted.
unfoldable pub captured : {F : Type 0} → F → AudioState → List F → CallManager → List F
captured silence audio samples m =
    if (m.cells audio.ref).is_muted then replicate (length samples) silence else samples

-- The encoder task: a packet of the encoder gets the id of the call.
unfoldable pub stamped : AudioState → AudioDataPacket → AudioDataPacket
stamped audio packet = record packet { call_id = audio.call_id }
