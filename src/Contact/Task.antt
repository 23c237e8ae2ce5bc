-- ===== src/Contact/Task.antt =====
-- The loops of the task of a contact in ntied/src/contact/handle.rs, one for each status.
use ntied.Common.{◌+◌, Bool, List, [], ◌∷◌, Option, none, some, if◌then◌else◌}
use ntied.Address.Text.{Base64, to_string}
use ntied.Contact.{
  request_contact, accept_contact, reject_contact, contact, chat, call, ContactStatus,
  pending_incoming, pending_outgoing, rejected_incoming, rejected_outgoing, accepted, Connection,
  contact_incoming, contact_accepted, contact_rejected, accept, reject, new_connection,
  send_chat_packet, send_call_packet, ContactHandle,
}
use ntied.Contact.Handshake.{
  Event, commanded, receives, connects, closes, breaks, times_out, less, tell, send,
  close_connection, request, enter, accept_connection, establish_connection, take_profile,
  push_chat, push_call,
}

-- `return` from a loop: `run` goes on by the status.
module _ (engine : Base64) where
  -- `SetConnection` in a loop with a connection: the side with the lesser address keeps its own.
  unfoldable pub replace_connection : Connection → ContactHandle → ContactHandle
  unfolding to_string less
  replace_connection c h =
      if less (to_string engine h.own_address) (to_string engine c.peer_address)
      then h
      else record h { connection = some c }

  unfoldable pub pending_incoming_loop : Bool → Event → ContactHandle → ContactHandle
  unfolding replace_connection send enter tell take_profile close_connection
  pending_incoming_loop sends (commanded accept) h =
      enter sends (record (send sends (contact (accept_contact h.own_profile)) h) {
        status = accepted;
        completed = h.completed + 1;
      })
  pending_incoming_loop sends (commanded reject) h = enter sends (
      tell (contact_rejected h.address) (record (send sends (contact reject_contact) h) {
        status = rejected_incoming;
        completed = h.completed + 1;
      }))
  pending_incoming_loop sends (commanded (new_connection c)) h = replace_connection c h
  pending_incoming_loop sends (commanded (send_chat_packet q)) h = h
  pending_incoming_loop sends (commanded (send_call_packet q)) h = h
  pending_incoming_loop sends closes h = enter sends h
  pending_incoming_loop sends (receives (some (contact (request_contact profile)))) h =
      tell (contact_incoming h.address profile) (take_profile (request_contact profile) h)
  pending_incoming_loop sends (receives (some (contact reject_contact))) h =
      enter sends (tell (contact_rejected h.address) (record h { status = rejected_incoming }))
  pending_incoming_loop sends (receives (some (contact (accept_contact profile)))) h = h
  pending_incoming_loop sends (receives (some (chat q))) h = h
  pending_incoming_loop sends (receives (some (call q))) h = h
  pending_incoming_loop sends (receives none) h = h
  pending_incoming_loop sends breaks h = enter sends (close_connection h)
  pending_incoming_loop sends (connects c) h = h
  pending_incoming_loop sends times_out h = h

  -- The timeout is the one second between two requests.
  unfoldable pub pending_outgoing_loop : Bool → Event → ContactHandle → ContactHandle
  unfolding replace_connection send enter tell take_profile close_connection request
  pending_outgoing_loop sends (commanded reject) h =
      enter sends (record (send sends (contact reject_contact) h) {
        status = rejected_outgoing;
        completed = h.completed + 1;
      })
  pending_outgoing_loop sends (commanded (new_connection c)) h = replace_connection c h
  pending_outgoing_loop sends (commanded accept) h = h
  pending_outgoing_loop sends (commanded (send_chat_packet q)) h = h
  pending_outgoing_loop sends (commanded (send_call_packet q)) h = h
  pending_outgoing_loop sends closes h = enter sends h
  pending_outgoing_loop sends (receives (some (contact (accept_contact profile)))) h = enter sends (
      tell (contact_accepted h.address profile)
        (record (take_profile (accept_contact profile) h) { status = accepted }))
  pending_outgoing_loop sends (receives (some (contact reject_contact))) h =
      enter sends (tell (contact_rejected h.address) (record h { status = rejected_outgoing }))
  pending_outgoing_loop sends (receives (some (contact (request_contact profile)))) h = h
  pending_outgoing_loop sends (receives (some (chat q))) h = h
  pending_outgoing_loop sends (receives (some (call q))) h = h
  pending_outgoing_loop sends (receives none) h = h
  pending_outgoing_loop sends breaks h = enter sends (close_connection h)
  pending_outgoing_loop sends times_out h = request sends h
  pending_outgoing_loop sends (connects c) h = h

  -- A closed connection leaves nothing else to wait for.
  unfoldable pub rejected_incoming_loop : Bool → Event → ContactHandle → ContactHandle
  unfolding send enter
  rejected_incoming_loop sends (commanded (new_connection c)) h =
      send sends (contact reject_contact) h
  rejected_incoming_loop sends (commanded accept) h = h
  rejected_incoming_loop sends (commanded reject) h = h
  rejected_incoming_loop sends (commanded (send_chat_packet q)) h = h
  rejected_incoming_loop sends (commanded (send_call_packet q)) h = h
  rejected_incoming_loop sends closes h = enter sends h
  rejected_incoming_loop sends (receives q) h = h
  rejected_incoming_loop sends breaks h = h
  rejected_incoming_loop sends (connects c) h = h
  rejected_incoming_loop sends times_out h = h

  unfoldable pub rejected_outgoing_loop : Bool → Event → ContactHandle → ContactHandle
  unfolding enter
  rejected_outgoing_loop sends (commanded q) h = h
  rejected_outgoing_loop sends closes h = enter sends h
  rejected_outgoing_loop sends (receives q) h = h
  rejected_outgoing_loop sends breaks h = h
  rejected_outgoing_loop sends (connects c) h = h
  rejected_outgoing_loop sends times_out h = h

  unfoldable pub accepted_loop : Bool → Event → ContactHandle → ContactHandle
  unfolding replace_connection send enter take_profile close_connection push_chat push_call
  accepted_loop sends (commanded (send_chat_packet q)) h = send sends (chat q) h
  accepted_loop sends (commanded (send_call_packet q)) h = send sends (call q) h
  accepted_loop sends (commanded (new_connection c)) h = replace_connection c h
  accepted_loop sends (commanded accept) h = h
  accepted_loop sends (commanded reject) h = h
  accepted_loop sends closes h = enter sends h
  accepted_loop sends (receives (some (contact (request_contact profile)))) h =
      send sends (contact (accept_contact h.own_profile)) (take_profile (request_contact profile) h)
  accepted_loop sends (receives (some (contact (accept_contact profile)))) h =
      take_profile (accept_contact profile) h
  accepted_loop sends (receives (some (contact reject_contact))) h = h
  accepted_loop sends (receives (some (chat q))) h = push_chat q h
  accepted_loop sends (receives (some (call q))) h = push_call q h
  accepted_loop sends (receives none) h = h
  accepted_loop sends breaks h = enter sends (close_connection h)
  accepted_loop sends (connects c) h = h
  accepted_loop sends times_out h = h

  -- The wait of the task, by its status and by whether it has a connection.
  unfoldable pub wait_as :
      ContactStatus → Option Connection → Bool → Event → ContactHandle → ContactHandle
  unfolding accept_connection establish_connection pending_incoming_loop pending_outgoing_loop
      rejected_incoming_loop rejected_outgoing_loop accepted_loop
  wait_as pending_incoming none = accept_connection
  wait_as pending_incoming (some c) = pending_incoming_loop
  wait_as pending_outgoing none = establish_connection
  wait_as pending_outgoing (some c) = pending_outgoing_loop
  wait_as rejected_incoming c = rejected_incoming_loop
  wait_as rejected_outgoing c = rejected_outgoing_loop
  wait_as accepted none = establish_connection
  wait_as accepted (some c) = accepted_loop

  unfoldable pub step : ContactHandle → Bool × Event → ContactHandle
  unfolding wait_as
  step h (sends, e) = wait_as h.status h.connection sends e h

  unfoldable pub run : ContactHandle → List (Bool × Event) → ContactHandle
  unfolding step
  run h [] = h
  run h (e ∷ es) = run (step h e) es
