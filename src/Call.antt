-- ===== src/Call.antt =====
-- ntied/src/call/handle.rs, call/listener.rs and packet/call.rs: calls, their packets, and the state
-- of the manager in ntied/src/call/manager.rs. The clones of a handle share its state through an
-- `Arc`: a handle has a reference to a cell of the manager's store.
pub mod Handlers
pub mod Devices
pub mod Polling
pub mod Invariant
pub mod Life
pub mod Entry
pub mod Answers
pub mod Media
pub mod Reachable
pub mod Diagram
pub mod Ends
pub mod Refinement
pub mod Setup
pub mod Exchange
pub mod Behaviour
use ntied.Common.{ℕ, suc, Bool, true, false, not, List, [], ◌∷◌, Option, none, some, Result}
use ntied.ByteIo.{Bytes}
use ntied.Address.{Address, Address-discrete}
use ntied.Codec.{CodecType, NegotiatedCodec, CodecCapabilities, CodecManager, new}
use mathlib.Core.Logic.{ite}
use native.Mathlib.Decide.{ℕ_discrete}

pub data CallState : Type 0 where
  idle calling ringing connected ended : CallState

unfoldable pub CallState-discrete : Discrete CallState
CallState-discrete = hlevel

pub record CallHandle : Type 0 where
  pub call_id : ℕ
  pub peer_address : Address
  pub is_incoming : Bool
  pub ref : ℕ

-- What the clones of a handle share.
pub record Cell : Type 0 where
  pub state : CallState
  pub is_muted : Bool

pub record AudioDataPacket : Type 0 where
  pub call_id : ℕ
  pub sequence : ℕ
  pub timestamp : ℕ
  pub codec : CodecType
  pub channels : ℕ
  pub data_bytes : Bytes

pub record CodecOfferPacket : Type 0 where
  pub call_id : ℕ
  pub capabilities : CodecCapabilities
  pub preferred_codec : NegotiatedCodec

pub record CodecAnswerPacket : Type 0 where
  pub call_id : ℕ
  pub negotiated_codec : NegotiatedCodec

pub record VideoDataPacket : Type 0 where
  pub call_id : ℕ
  pub timestamp : ℕ
  pub frame : Bytes

-- The packets with nothing but a call id carry it.
pub data CallPacket : Type 0 where
  start_packet accept_packet reject_packet end_packet : (call_id : ℕ) → CallPacket
  audio_data : AudioDataPacket → CallPacket
  video_data : VideoDataPacket → CallPacket
  codec_offer : CodecOfferPacket → CallPacket
  codec_answer : CodecAnswerPacket → CallPacket

-- `reason` of on_call_ended.
pub data Reason : Type 0 where
  call_rejected call_ended remote_ended_call : Reason

-- The calls of the listener.
pub data Notice : Type 0 where
  incoming_call outgoing_call rejected_call accepted_call connected_call : Address → Notice
  ended_call : Address → Reason → Notice
  state_changed : Address → CallState → Notice
  video_frame_received : Address → Bytes → Notice

pub data CallError : Type 0 where
  already_in_call not_connected no_current_call other_peer not_ringing : CallError
  start_failed offer_failed accept_failed reject_failed answer_failed : CallError
  no_active_call no_audio_state no_device codec_failed : CallError

-- `AudioState`: its devices and codec, the call id and the handle that its tasks captured, and the
-- packets that its decoder was given, the last one first.
pub record AudioState : Type 0 where
  pub call_id : ℕ
  pub ref : ℕ
  pub codec_type : CodecType
  pub input_device_name : Option ℕ
  pub output_device_name : Option ℕ
  pub decoder : List AudioDataPacket

-- `CallManager`, with the store of handles, what it sent and what it told its listener, the last
-- one first.
pub record CallManager : Type 0 where
  pub active_calls : Address → Option CallHandle
  pub current_call : Option CallHandle
  pub audio_state : Option AudioState
  pub codec_manager : CodecManager
  pub cells : ℕ → Cell
  pub next_ref : ℕ
  pub sent : List (Address × CallPacket)
  pub notices : List Notice

-- What the contacts and the devices do during one operation: which contacts are connected, which
-- packets they take, which devices open, and whether the decoder takes a packet.
pub record World : Type 0 where
  pub is_connected : Address → Bool
  pub delivers : Address → CallPacket → Bool
  pub opens : (input output : Option ℕ) → Bool
  pub decoder_takes : Bool

abbrev pub Outcome : Type 0 → Type 0
Outcome A = CallManager × Result CallError A

unfoldable pub notify : Notice → CallManager → CallManager
notify n m = record m { notices = n ∷ m.notices }

-- `send_call_packet` of the contact: what it takes is sent.
unfoldable pub send : Address → CallPacket → CallManager → CallManager
send address packet m = record m { sent = (address, packet) ∷ m.sent }

unfoldable pub set_active : Address → Option CallHandle → CallManager → CallManager
set_active address handle m = record m {
  active_calls = λ a. ite (Address-discrete address a) handle (m.active_calls a);
}

unfoldable pub set_cell : ℕ → Cell → CallManager → CallManager
set_cell ref cell m = record m { cells = λ r. ite (ℕ_discrete ref r) cell (m.cells r) }

-- `CallHandle::new`.
unfoldable pub new_handle : ℕ → Address → Bool → CallManager → CallManager × CallHandle
new_handle call_id address is_incoming m = (
  record (set_cell m.next_ref (record { state = idle; is_muted = false }) m) {
    next_ref = suc m.next_ref;
  },
  record { call_id = call_id; peer_address = address; is_incoming = is_incoming; ref = m.next_ref },
)

unfoldable pub get_state : CallManager → CallHandle → CallState
get_state m h = (m.cells h.ref).state

unfoldable pub set_state : CallHandle → CallState → CallManager → CallManager
set_state h state m =
    notify (state_changed h.peer_address state)
      (set_cell h.ref (record (m.cells h.ref) { state = state }) m)

-- `toggle_mute` of the handle, with the new setting.
unfoldable pub toggle : CallHandle → CallManager → CallManager × Bool
toggle h m =
    let cell = m.cells h.ref in
    (set_cell h.ref (record cell { is_muted = not cell.is_muted }) m, not cell.is_muted)

-- `CallManager::new`.
unfoldable pub new_manager : CallManager
new_manager = record {
  active_calls = λ address. none;
  current_call = none;
  audio_state = none;
  codec_manager = new;
  cells = λ ref. record { state = idle; is_muted = false };
  next_ref = 0;
  sent = [];
  notices = [];
}
