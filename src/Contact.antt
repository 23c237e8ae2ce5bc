-- ===== src/Contact.antt =====
-- ntied/src/contact/handle.rs, contact/listener.rs and the packets of ntied/src/packet: a contact, its
-- status and what it shares with its task. Public keys are the bytes of their encoding.
pub mod Handshake
pub mod Task
pub mod Consent
pub mod Accepted
pub mod Mutual
pub mod Sound
pub mod Reachable
pub mod Manager
use ntied.Common.{ℕ, Bool, true, false, List, [], Option, none, some}
use ntied.ByteIo.{Bytes}
use ntied.Address.{Address}
use ntied.Call.{CallPacket}

pub record ContactProfile : Type 0 where
  pub name : Bytes

pub data ContactPacket : Type 0 where
  request_contact accept_contact : ContactProfile → ContactPacket
  reject_contact : ContactPacket

pub data ChatMessageKind : Type 0 where
  text : Bytes → ChatMessageKind

pub data ChatPacket : Type 0 where
  message : (message_id log_id : ℕ) → ChatMessageKind → ChatPacket
  message_ack : (message_id log_id : ℕ) → ChatPacket
  conflict : (message_id : ℕ) → ChatPacket

pub data Packet : Type 0 where
  contact : ContactPacket → Packet
  chat : ChatPacket → Packet
  call : CallPacket → Packet

pub data ContactStatus : Type 0 where
  pending_incoming pending_outgoing : ContactStatus
  rejected_incoming rejected_outgoing accepted : ContactStatus

-- What the handle asks of a connection of the transport.
pub record Connection : Type 0 where
  pub peer_address : Address
  pub peer_public_key : Bytes

-- The calls of the listener.
pub data Notice : Type 0 where
  contact_incoming contact_accepted : Address → ContactProfile → Notice
  contact_rejected contact_connected contact_disconnected : Address → Notice

-- `HandleCommand`, without the channels for its completion.
pub data HandleCommand : Type 0 where
  accept reject : HandleCommand
  new_connection : Connection → HandleCommand
  send_chat_packet : ChatPacket → HandleCommand
  send_call_packet : CallPacket → HandleCommand

-- `ContactHandleTask` and `ContactHandleInner`: their shared cells, the two queues for received
-- packets, the number of commands that were told to be complete, and, the last one first, the packets
-- that a connection took and what the listener was told.
pub record ContactHandle : Type 0 where
  pub connection : Option Connection
  pub address : Address
  pub public_key : Option Bytes
  pub status : ContactStatus
  pub connected : Bool
  pub profile : Option ContactProfile
  pub own_profile : ContactProfile
  pub own_address : Address
  pub chat_packets : List ChatPacket
  pub call_packets : List CallPacket
  pub completed : ℕ
  pub sent : List Packet
  pub notices : List Notice

-- `MAX_PACKETS`.
abbrev pub max_packets : ℕ
max_packets = 4

unfoldable pub new_outgoing : Address → ContactProfile → Address → ContactHandle
new_outgoing address own_profile own_address = record {
  connection = none;
  address = address;
  public_key = none;
  status = pending_outgoing;
  connected = false;
  profile = none;
  own_profile = own_profile;
  own_address = own_address;
  chat_packets = [];
  call_packets = [];
  completed = 0;
  sent = [];
  notices = [];
}

unfoldable pub new_incoming : Connection → Address → ContactProfile → Address → ContactHandle
unfolding new_outgoing
new_incoming connection address own_profile own_address =
    record (new_outgoing address own_profile own_address) {
      connection = some connection;
      public_key = some connection.peer_public_key;
      status = pending_incoming;
      connected = true;
    }

unfoldable pub new_accepted :
    Address → Bytes → ContactProfile → ContactProfile → Address → ContactHandle
unfolding new_outgoing
new_accepted address public_key profile own_profile own_address =
    record (new_outgoing address own_profile own_address) {
      public_key = some public_key;
      status = accepted;
      profile = some profile;
    }
