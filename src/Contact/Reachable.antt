-- ===== src/Contact/Reachable.antt =====
-- Every run of the task of a contact in ntied/src/contact/handle.rs, from each of its constructors.
use ntied.Common.{◌+◌, ◌≡◌, refl, ap, Bool, false, List, [], ◌∷◌, Option, none, some, arith, ◌∙◌}
use ntied.ByteIo.{Bytes}
use ntied.Address.{Address}
use ntied.Address.Text.{Base64}
use ntied.Contact.{
  ContactProfile, request_contact, accept_contact, reject_contact, contact, chat, call,
  ContactStatus, pending_incoming, pending_outgoing, rejected_incoming, rejected_outgoing, accepted,
  Connection, contact_accepted, contact_rejected, accept, reject, new_connection, send_chat_packet,
  send_call_packet, ContactHandle, new_outgoing, new_incoming, new_accepted,
}
use ntied.Contact.Handshake.{
  Event, commanded, receives, connects, closes, breaks, times_out, tell, send, accept_connection,
  establish_connection, take_profile, push_chat, push_call,
}
use ntied.Contact.Task.{
  replace_connection, pending_incoming_loop, pending_outgoing_loop, rejected_incoming_loop,
  rejected_outgoing_loop, accepted_loop, wait_as, step, run,
}
use ntied.Contact.Consent.{is_rejected}
use ntied.Contact.Sound.{
  IsSound, enter-IsSound, request-IsSound, alike, live, set_connection-IsBase, push_chat-IsBase,
  push_call-IsBase, close_connection-IsBase, replace_connection-IsBase,
}
use ntied.Contact.Consent.{replace_connection-status}

accept_connection-IsSound :
    (sends : Bool) (e : Event) (h : ContactHandle)
    → IsSound h
    → IsSound (accept_connection sends e h)
unfolding accept_connection
accept_connection-IsSound sends (commanded (new_connection c)) h s =
    enter-IsSound sends _ (set_connection-IsBase c h s.base)
accept_connection-IsSound sends (commanded accept) h s = s
accept_connection-IsSound sends (commanded reject) h s = s
accept_connection-IsSound sends (commanded (send_chat_packet q)) h s = s
accept_connection-IsSound sends (commanded (send_call_packet q)) h s = s
accept_connection-IsSound sends (receives q) h s = s
accept_connection-IsSound sends (connects c) h s = s
accept_connection-IsSound sends closes h s = s
accept_connection-IsSound sends breaks h s = s
accept_connection-IsSound sends times_out h s = s

establish_connection-IsSound :
    (sends : Bool) (e : Event) (h : ContactHandle)
    → IsSound h
    → IsSound (establish_connection sends e h)
unfolding establish_connection
establish_connection-IsSound sends (connects c) h s =
    enter-IsSound sends _ (set_connection-IsBase c h s.base)
establish_connection-IsSound sends (commanded q) h s =
    accept_connection-IsSound sends (commanded q) h s
establish_connection-IsSound sends (receives q) h s = s
establish_connection-IsSound sends closes h s = s
establish_connection-IsSound sends breaks h s = s
establish_connection-IsSound sends times_out h s = s

module _ (engine : Base64) where
  replace_connection-IsSound :
      (c d : Connection) (h : ContactHandle)
      → h.connection ≡ some d
      → is_rejected h.status ≡ false
      → IsSound h
      → IsSound (replace_connection engine c h)
  replace_connection-IsSound c d h e q s =
      live _ (ap is_rejected (replace_connection-status engine c h) ∙ q)
        (replace_connection-IsBase engine c d h e s.base)

  pending_incoming_loop-IsSound :
      (d : Connection) (sends : Bool) (e : Event) (h : ContactHandle)
      → h.status ≡ pending_incoming
      → h.connection ≡ some d
      → IsSound h
      → IsSound (pending_incoming_loop engine sends e h)
  unfolding pending_incoming_loop tell take_profile send is_rejected
  pending_incoming_loop-IsSound d sends (commanded accept) h q k s =
      enter-IsSound sends
        (record (send sends (contact (accept_contact h.own_profile)) h) {
          status = accepted;
          completed = h.completed + 1;
        })
        (alike h _ refl refl refl refl refl s.base)
  pending_incoming_loop-IsSound d sends (commanded reject) h q k s =
      enter-IsSound sends
        (tell (contact_rejected h.address) (record (send sends (contact reject_contact) h) {
          status = rejected_incoming;
          completed = h.completed + 1;
        }))
        (alike h _ refl refl refl refl refl s.base)
  pending_incoming_loop-IsSound d sends (commanded (new_connection c)) h q k s =
      replace_connection-IsSound c d h k (ap is_rejected q) s
  pending_incoming_loop-IsSound d sends (commanded (send_chat_packet _)) h q k s = s
  pending_incoming_loop-IsSound d sends (commanded (send_call_packet _)) h q k s = s
  pending_incoming_loop-IsSound d sends closes h q k s = enter-IsSound sends h s.base
  pending_incoming_loop-IsSound d sends (receives (some (contact (request_contact _)))) h q k s =
      live _ (ap is_rejected q) (alike h _ refl refl refl refl refl s.base)
  pending_incoming_loop-IsSound d sends (receives (some (contact reject_contact))) h q k s =
      enter-IsSound sends
        (tell (contact_rejected h.address) (record h { status = rejected_incoming }))
        (alike h _ refl refl refl refl refl s.base)
  pending_incoming_loop-IsSound d sends (receives (some (contact (accept_contact _)))) h q k s = s
  pending_incoming_loop-IsSound d sends (receives (some (chat _))) h q k s = s
  pending_incoming_loop-IsSound d sends (receives (some (call _))) h q k s = s
  pending_incoming_loop-IsSound d sends (receives none) h q k s = s
  pending_incoming_loop-IsSound d sends breaks h q k s =
      enter-IsSound sends _ (close_connection-IsBase h s.base)
  pending_incoming_loop-IsSound d sends (connects c) h q k s = s
  pending_incoming_loop-IsSound d sends times_out h q k s = s

  pending_outgoing_loop-IsSound :
      (d : Connection) (sends : Bool) (e : Event) (h : ContactHandle)
      → h.status ≡ pending_outgoing
      → h.connection ≡ some d
      → IsSound h
      → IsSound (pending_outgoing_loop engine sends e h)
  unfolding pending_outgoing_loop tell take_profile send is_rejected
  pending_outgoing_loop-IsSound d sends (commanded reject) h q k s =
      enter-IsSound sends
        (record (send sends (contact reject_contact) h) {
          status = rejected_outgoing;
          completed = h.completed + 1;
        })
        (alike h _ refl refl refl refl refl s.base)
  pending_outgoing_loop-IsSound d sends (commanded (new_connection c)) h q k s =
      replace_connection-IsSound c d h k (ap is_rejected q) s
  pending_outgoing_loop-IsSound d sends (commanded accept) h q k s = s
  pending_outgoing_loop-IsSound d sends (commanded (send_chat_packet _)) h q k s = s
  pending_outgoing_loop-IsSound d sends (commanded (send_call_packet _)) h q k s = s
  pending_outgoing_loop-IsSound d sends closes h q k s = enter-IsSound sends h s.base
  pending_outgoing_loop-IsSound d sends (receives (some (contact (accept_contact profile)))) h q k
        s =
      enter-IsSound sends
        (tell (contact_accepted h.address profile)
          (record (take_profile (accept_contact profile) h) { status = accepted }))
        (alike h _ refl refl refl refl refl s.base)
  pending_outgoing_loop-IsSound d sends (receives (some (contact reject_contact))) h q k s =
      enter-IsSound sends
        (tell (contact_rejected h.address) (record h { status = rejected_outgoing }))
        (alike h _ refl refl refl refl refl s.base)
  pending_outgoing_loop-IsSound d sends (receives (some (contact (request_contact _)))) h q k s = s
  pending_outgoing_loop-IsSound d sends (receives (some (chat _))) h q k s = s
  pending_outgoing_loop-IsSound d sends (receives (some (call _))) h q k s = s
  pending_outgoing_loop-IsSound d sends (receives none) h q k s = s
  pending_outgoing_loop-IsSound d sends breaks h q k s =
      enter-IsSound sends _ (close_connection-IsBase h s.base)
  pending_outgoing_loop-IsSound d sends times_out h q k s =
      request-IsSound sends h (ap is_rejected q) s.base
  pending_outgoing_loop-IsSound d sends (connects c) h q k s = s

  rejected_incoming_loop-IsSound :
      (sends : Bool) (e : Event) (h : ContactHandle)
      → IsSound h
      → IsSound (rejected_incoming_loop engine sends e h)
  unfolding rejected_incoming_loop send
  rejected_incoming_loop-IsSound sends (commanded (new_connection c)) h s = record {
    base = alike h _ refl refl refl refl refl s.base;
    apart = s.apart;
  }
  rejected_incoming_loop-IsSound sends (commanded accept) h s = s
  rejected_incoming_loop-IsSound sends (commanded reject) h s = s
  rejected_incoming_loop-IsSound sends (commanded (send_chat_packet _)) h s = s
  rejected_incoming_loop-IsSound sends (commanded (send_call_packet _)) h s = s
  rejected_incoming_loop-IsSound sends closes h s = enter-IsSound sends h s.base
  rejected_incoming_loop-IsSound sends (receives _) h s = s
  rejected_incoming_loop-IsSound sends breaks h s = s
  rejected_incoming_loop-IsSound sends (connects c) h s = s
  rejected_incoming_loop-IsSound sends times_out h s = s

  rejected_outgoing_loop-IsSound :
      (sends : Bool) (e : Event) (h : ContactHandle)
      → IsSound h
      → IsSound (rejected_outgoing_loop engine sends e h)
  unfolding rejected_outgoing_loop
  rejected_outgoing_loop-IsSound sends (commanded _) h s = s
  rejected_outgoing_loop-IsSound sends closes h s = enter-IsSound sends h s.base
  rejected_outgoing_loop-IsSound sends (receives _) h s = s
  rejected_outgoing_loop-IsSound sends breaks h s = s
  rejected_outgoing_loop-IsSound sends (connects c) h s = s
  rejected_outgoing_loop-IsSound sends times_out h s = s

  accepted_loop-IsSound :
      (d : Connection) (sends : Bool) (e : Event) (h : ContactHandle)
      → h.status ≡ accepted
      → h.connection ≡ some d
      → IsSound h
      → IsSound (accepted_loop engine sends e h)
  unfolding accepted_loop send take_profile push_chat push_call is_rejected
  accepted_loop-IsSound d sends (commanded (send_chat_packet _)) h q k s =
      live _ (ap is_rejected q) (alike h _ refl refl refl refl refl s.base)
  accepted_loop-IsSound d sends (commanded (send_call_packet _)) h q k s =
      live _ (ap is_rejected q) (alike h _ refl refl refl refl refl s.base)
  accepted_loop-IsSound d sends (commanded (new_connection c)) h q k s =
      replace_connection-IsSound c d h k (ap is_rejected q) s
  accepted_loop-IsSound d sends (commanded accept) h q k s = s
  accepted_loop-IsSound d sends (commanded reject) h q k s = s
  accepted_loop-IsSound d sends closes h q k s = enter-IsSound sends h s.base
  accepted_loop-IsSound d sends (receives (some (contact (request_contact _)))) h q k s =
      live _ (ap is_rejected q) (alike h _ refl refl refl refl refl s.base)
  accepted_loop-IsSound d sends (receives (some (contact (accept_contact _)))) h q k s =
      live _ (ap is_rejected q) (alike h _ refl refl refl refl refl s.base)
  accepted_loop-IsSound d sends (receives (some (contact reject_contact))) h q k s = s
  accepted_loop-IsSound d sends (receives (some (chat v))) h q k s =
      live _ (ap is_rejected q) (push_chat-IsBase v h s.base)
  accepted_loop-IsSound d sends (receives (some (call v))) h q k s =
      live _ (ap is_rejected q) (push_call-IsBase v h s.base)
  accepted_loop-IsSound d sends (receives none) h q k s = s
  accepted_loop-IsSound d sends breaks h q k s =
      enter-IsSound sends _ (close_connection-IsBase h s.base)
  accepted_loop-IsSound d sends (connects c) h q k s = s
  accepted_loop-IsSound d sends times_out h q k s = s

  wait_as-IsSound :
      (s : ContactStatus) (c : Option Connection) (sends : Bool) (e : Event) (h : ContactHandle)
      → h.status ≡ s
      → h.connection ≡ c
      → IsSound h
      → IsSound (wait_as engine s c sends e h)
  unfolding wait_as
  wait_as-IsSound pending_incoming none sends e h q k s = accept_connection-IsSound sends e h s
  wait_as-IsSound pending_incoming (some d) sends e h q k s =
      pending_incoming_loop-IsSound d sends e h q k s
  wait_as-IsSound pending_outgoing none sends e h q k s = establish_connection-IsSound sends e h s
  wait_as-IsSound pending_outgoing (some d) sends e h q k s =
      pending_outgoing_loop-IsSound d sends e h q k s
  wait_as-IsSound rejected_incoming c sends e h q k s = rejected_incoming_loop-IsSound sends e h s
  wait_as-IsSound rejected_outgoing c sends e h q k s = rejected_outgoing_loop-IsSound sends e h s
  wait_as-IsSound accepted none sends e h q k s = establish_connection-IsSound sends e h s
  wait_as-IsSound accepted (some d) sends e h q k s = accepted_loop-IsSound d sends e h q k s

  pub step-IsSound : (h : ContactHandle) (e : Bool × Event) → IsSound h → IsSound (step engine h e)
  unfolding step
  step-IsSound h (sends, e) s = wait_as-IsSound h.status h.connection sends e h refl refl s

-- The handles that the constructors make.
pub data IsNew : ContactHandle → Type 0 where
  asks : (to : Address) (p : ContactProfile) (own : Address) → IsNew (new_outgoing to p own)
  asked :
      (c : Connection) (from : Address) (p : ContactProfile) (own : Address)
      → IsNew (new_incoming c from p own)
  known :
      (to : Address) (key : Bytes) (profile p : ContactProfile) (own : Address)
      → IsNew (new_accepted to key profile p own)

pub IsNew-IsSound : {h : ContactHandle} → IsNew h → IsSound h
unfolding new_outgoing new_incoming new_accepted is_rejected
IsNew-IsSound (asks to p own) = record {
  base = record {
    tells = refl;
    keyed = λ e. absurd (ground arith);
    chats = omega arith;
    calls = omega arith;
  };
  apart = λ r. refl;
}
IsNew-IsSound (asked c from p own) = record {
  base = record { tells = refl; keyed = λ e. refl; chats = omega arith; calls = omega arith };
  apart = λ r. absurd (ground arith);
}
IsNew-IsSound (known to key profile p own) = record {
  base = record { tells = refl; keyed = λ e. refl; chats = omega arith; calls = omega arith };
  apart = λ r. refl;
}

module _ (engine : Base64) where
  run-IsSound :
      (es : List (Bool × Event)) (h : ContactHandle) → IsSound h → IsSound (run engine h es)
  unfolding run
  run-IsSound [] h s = s
  run-IsSound (e ∷ es) h s = run-IsSound es _ (step-IsSound engine h e s)

  -- After any run from any of the three constructors: `connected` tells whether there is a connection,
  -- a contact with a connection has its peer's key, a rejected contact has no connection, and neither
  -- queue has more than max_packets packets.
  run-IsNew : {h : ContactHandle} (es : List (Bool × Event)) → IsNew h → IsSound (run engine h es)
  run-IsNew es n = run-IsSound es _ (IsNew-IsSound n)
