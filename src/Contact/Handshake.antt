-- ===== src/Contact/Handshake.antt =====
-- The task of a contact in ntied/src/contact/handle.rs: what it does on each event at each of its
-- waits. Whether a connection takes the packet that is sent is an argument.
use ntied.Common.{
  Bool, true, false, [], ◌∷◌, ◌++◌, Option, none, some, length, ltb, ◌==◌, if◌then◌else◌,
}
use ntied.ByteIo.{Bytes}
use ntied.Call.{CallPacket}
use ntied.Contact.{
  ContactPacket, request_contact, accept_contact, reject_contact, ChatPacket, Packet, contact,
  ContactStatus, pending_incoming, pending_outgoing, rejected_incoming, rejected_outgoing, accepted,
  Connection, Notice, contact_connected, contact_disconnected, HandleCommand, accept, reject,
  new_connection, send_chat_packet, send_call_packet, ContactHandle, max_packets,
}

-- What a wait of the task may give: a command or the end of their channel, a packet as bincode
-- parses it, the end of the connection, a connection that was opened, and a timeout.
pub data Event : Type 0 where
  commanded : HandleCommand → Event
  receives : Option Packet → Event
  connects : Connection → Event
  closes breaks times_out : Event

-- The order of strings.
unfoldable pub less : Bytes → Bytes → Bool
less [] [] = false
less [] (y ∷ ys) = true
less (x ∷ xs) [] = false
less (x ∷ xs) (y ∷ ys) = let rest = less xs ys in if x == y then rest else ltb x y

unfoldable pub tell : Notice → ContactHandle → ContactHandle
tell notice h = record h { notices = notice ∷ h.notices }

unfoldable pub send : Bool → Packet → ContactHandle → ContactHandle
send sends packet h = record h { sent = if sends then packet ∷ h.sent else h.sent }

unfoldable pub set_connection : Connection → ContactHandle → ContactHandle
unfolding tell
set_connection c h =
    tell (contact_connected h.address)
      (record h { public_key = some c.peer_public_key; connection = some c; connected = true })

unfoldable pub close_from : Option Connection → ContactHandle → ContactHandle
unfolding tell
close_from none h = h
close_from (some c) h =
    tell (contact_disconnected h.address) (record h { connection = none; connected = false })

unfoldable pub close_connection : ContactHandle → ContactHandle
unfolding close_from
close_connection h = close_from h.connection h

-- The request at the start of `pending_outgoing_loop`, and every second in it.
unfoldable pub request : Bool → ContactHandle → ContactHandle
unfolding send close_connection
request sends h =
    if sends then send true (contact (request_contact h.own_profile)) h else close_connection h

-- `run`, from the top of its loop to the next wait. After a failed request it waits for a
-- connection, since there is none.
unfoldable pub enter_as : ContactStatus → Bool → ContactHandle → ContactHandle
unfolding request close_connection
enter_as pending_incoming sends h = h
enter_as pending_outgoing sends h = elim h.connection [ none ↦ h | some c ↦ request sends h ]
enter_as rejected_incoming sends h = close_connection h
enter_as rejected_outgoing sends h = close_connection h
enter_as accepted sends h = h

unfoldable pub enter : Bool → ContactHandle → ContactHandle
unfolding enter_as
enter sends h = enter_as h.status sends h

-- `accept_connection`; a command that is not a connection is dropped.
unfoldable pub accept_connection : Bool → Event → ContactHandle → ContactHandle
unfolding enter set_connection
accept_connection sends (commanded (new_connection c)) h = enter sends (set_connection c h)
accept_connection sends (commanded accept) h = h
accept_connection sends (commanded reject) h = h
accept_connection sends (commanded (send_chat_packet q)) h = h
accept_connection sends (commanded (send_call_packet q)) h = h
accept_connection sends (receives q) h = h
accept_connection sends (connects c) h = h
accept_connection sends closes h = h
accept_connection sends breaks h = h
accept_connection sends times_out h = h

-- `establish_connection` waits for `Transport::connect` too.
unfoldable pub establish_connection : Bool → Event → ContactHandle → ContactHandle
unfolding enter set_connection accept_connection
establish_connection sends (connects c) h = enter sends (set_connection c h)
establish_connection sends (commanded q) h = accept_connection sends (commanded q) h
establish_connection sends (receives q) h = h
establish_connection sends closes h = h
establish_connection sends breaks h = h
establish_connection sends times_out h = h

unfoldable pub take_profile : ContactPacket → ContactHandle → ContactHandle
take_profile (request_contact profile) h = record h { profile = some profile }
take_profile (accept_contact profile) h = record h { profile = some profile }
take_profile reject_contact h = h

-- The bounded queues: a packet that finds its queue full is lost.
unfoldable pub push_chat : ChatPacket → ContactHandle → ContactHandle
push_chat q h = record h {
  chat_packets =
      if ltb (length h.chat_packets) max_packets then h.chat_packets ++ q ∷ [] else h.chat_packets;
}

unfoldable pub push_call : CallPacket → ContactHandle → ContactHandle
push_call q h = record h {
  call_packets =
      if ltb (length h.call_packets) max_packets then h.call_packets ++ q ∷ [] else h.call_packets;
}

-- `recv_chat_packet` and `recv_call_packet`, when a packet waits.
unfoldable pub recv_chat_packet : ContactHandle → Option ChatPacket × ContactHandle
recv_chat_packet h = elim h.chat_packets [
  | [] ↦ (none, h)
  | q ∷ rest ↦ (some q, record h { chat_packets = rest })
]

unfoldable pub recv_call_packet : ContactHandle → Option CallPacket × ContactHandle
recv_call_packet h = elim h.call_packets [
  | [] ↦ (none, h)
  | q ∷ rest ↦ (some q, record h { call_packets = rest })
]
