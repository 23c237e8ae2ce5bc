-- ===== src/Call/Life.antt =====
-- The life of the current call, as a diagram of steps.
use ntied.Common.{ℕ, Bool, true, false, List, [], ◌∷◌, Option, none, some}
use ntied.Address.{Address}
use ntied.Call.{
  CallState, idle, calling, ringing, connected, CallHandle, CallPacket, CallManager, World,
  get_state,
}
use ntied.Call.Handlers.{start_call, accept_call, reject_call, end_call, process_call_packet}
use ntied.Call.Devices.{toggle_mute, switch_input_device, switch_output_device}

-- What the user, the peers and the clock make the manager do.
pub data Event : Type 0 where
  starts : (call_id : ℕ) → Address → Event
  accepts rejects ends : Address → Event
  receives : Address → CallPacket → Event
  toggles : Event
  switches_input switches_output : Option ℕ → Event

unfoldable pub step : CallManager → World × Event → CallManager
step m (w, starts call_id address) = (start_call w call_id address m).0
step m (w, accepts address) = (accept_call w address m).0
step m (w, rejects address) = (reject_call w address m).0
step m (w, ends address) = (end_call w address m).0
step m (w, receives address packet) = (process_call_packet w address packet m).0
step m (w, toggles) = (toggle_mute m).0
step m (w, switches_input device) = (switch_input_device w device m).0
step m (w, switches_output device) = (switch_output_device w device m).0

unfoldable pub run : CallManager → List (World × Event) → CallManager
run m [] = m
run m (e ∷ es) = run (step m e) es

-- What there is to see of the current call.
pub data Phase : Type 0 where
  no_call : Phase
  call : (call_id : ℕ) → Address → (is_incoming : Bool) → CallState → Phase

abbrev pub phase_of : CallManager → CallHandle → Phase
phase_of m h = call h.call_id h.peer_address h.is_incoming (get_state m h)

unfoldable pub phase : CallManager → Phase
phase m = elim m.current_call [ none ↦ no_call | some h ↦ phase_of m h ]

infix 40 ◌⟶◌
-- One step of a call. Only where there is no call, or one whose packets could not be sent, does
-- another take its place; what connects is a call that was there.
pub data ◌⟶◌ : Phase → Phase → Type 0 where
  stays : {p : Phase} → p ⟶ p
  fails_to_start : {id : ℕ} {a : Address} → no_call ⟶ call id a false idle
  calls : {id : ℕ} {a : Address} → no_call ⟶ call id a false calling
  rings : {id : ℕ} {a : Address} → no_call ⟶ call id a true ringing
  rings_instead :
      {id other : ℕ} {a b : Address} {i : Bool} → call id a i idle ⟶ call other b true ringing
  connects :
      {id : ℕ} {a : Address} {i : Bool} {s : CallState} → call id a i s ⟶ call id a i connected
  hangs_up : {id : ℕ} {a : Address} {i : Bool} {s : CallState} → call id a i s ⟶ no_call
