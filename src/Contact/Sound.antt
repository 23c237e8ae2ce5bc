-- ===== src/Contact/Sound.antt =====
-- The connection, the status and the queues of a contact in ntied/src/contact/handle.rs, at each wait.
use ntied.Common.{
  ◌≤◌, ◌≡◌, refl, sym, ap, ◌∙◌, subst, Bool, true, false, [], ◌∷◌, Option, none, some, is_some,
  arith, length, length-append,
}
use ntied.Address.Text.{Base64}
use ntied.Call.{CallPacket}
use ntied.Contact.{
  ChatPacket, ContactStatus, pending_incoming, pending_outgoing, rejected_incoming,
  rejected_outgoing, accepted, Connection, ContactHandle, max_packets,
}
use ntied.Contact.Handshake.{
  close_from, tell, send, set_connection, close_connection, request, enter, enter_as, push_chat,
  push_call,
}
use ntied.Contact.Task.{replace_connection}
use ntied.Contact.Consent.{is_rejected}

-- `connected` tells whether there is a connection, whose peer has a known key, and the queues are
-- within their bound.
pub record IsBase (h : ContactHandle) : Type 0 where
  pub tells : h.connected ≡ is_some h.connection
  pub keyed : is_some h.connection ≡ true → is_some h.public_key ≡ true
  pub chats : length h.chat_packets ≤ max_packets
  pub calls : length h.call_packets ≤ max_packets

pub record IsSound (h : ContactHandle) : Type 0 where
  pub base : IsBase h
  pub apart : is_rejected h.status ≡ true → h.connection ≡ none

close_from-IsBase : (c : Option Connection) (h : ContactHandle) → IsBase h → IsBase (close_from c h)
unfolding close_from tell
close_from-IsBase none h b = b
close_from-IsBase (some c) h b = record {
  tells = refl;
  keyed = λ e. absurd (ground arith);
  chats = b.chats;
  calls = b.calls;
}

pub close_connection-IsBase : (h : ContactHandle) → IsBase h → IsBase (close_connection h)
unfolding close_connection
close_connection-IsBase h b = close_from-IsBase h.connection h b

close_from-connection :
    (c : Option Connection) (h : ContactHandle)
    → h.connection ≡ c
    → (close_from c h).connection ≡ none
unfolding close_from tell
close_from-connection none h e = e
close_from-connection (some c) h e = refl

close_connection-IsSound : (h : ContactHandle) → IsBase h → IsSound (close_connection h)
unfolding close_connection
close_connection-IsSound h b = record {
  base = close_connection-IsBase h b;
  apart = λ r. close_from-connection h.connection h refl;
}

-- A status that is not a rejection.
pub live : (h : ContactHandle) → is_rejected h.status ≡ false → IsBase h → IsSound h
live h q b = record { base = b; apart = λ r. absurd (ground arith) }

pub request-IsSound :
    (sends : Bool) (h : ContactHandle)
    → is_rejected h.status ≡ false
    → IsBase h
    → IsSound (request sends h)
unfolding request send
request-IsSound true h q b =
    live _ q (record { tells = b.tells; keyed = b.keyed; chats = b.chats; calls = b.calls })
request-IsSound false h q b = close_connection-IsSound h b

asked-IsSound :
    (c : Option Connection) (sends : Bool) (h : ContactHandle)
    → is_rejected h.status ≡ false
    → IsBase h
    → IsSound (elim c [ none ↦ h | some c ↦ request sends h ])
asked-IsSound none sends h q b = live h q b
asked-IsSound (some c) sends h q b = request-IsSound sends h q b

enter_as-IsSound :
    (s : ContactStatus) (sends : Bool) (h : ContactHandle)
    → h.status ≡ s
    → IsBase h
    → IsSound (enter_as s sends h)
unfolding enter_as is_rejected
enter_as-IsSound pending_incoming sends h e b = live h (ap is_rejected e) b
enter_as-IsSound pending_outgoing sends h e b =
    asked-IsSound h.connection sends h (ap is_rejected e) b
enter_as-IsSound rejected_incoming sends h e b = close_connection-IsSound h b
enter_as-IsSound rejected_outgoing sends h e b = close_connection-IsSound h b
enter_as-IsSound accepted sends h e b = live h (ap is_rejected e) b

pub enter-IsSound : (sends : Bool) (h : ContactHandle) → IsBase h → IsSound (enter sends h)
unfolding enter
enter-IsSound sends h b = enter_as-IsSound h.status sends h refl b

-- What leaves the connection, the key and the queues as they were.
pub alike :
    (h h' : ContactHandle)
    → h'.connected ≡ h.connected
    → h'.connection ≡ h.connection
    → h'.public_key ≡ h.public_key
    → h'.chat_packets ≡ h.chat_packets
    → h'.call_packets ≡ h.call_packets
    → IsBase h
    → IsBase h'
alike h h' e f g i j b = record {
  tells = e ∙ b.tells ∙ ap is_some (sym f);
  keyed = λ k. ap is_some g ∙ b.keyed (ap is_some (sym f) ∙ k);
  chats = subst (λ q. length q ≤ max_packets) (sym i) b.chats;
  calls = subst (λ q. length q ≤ max_packets) (sym j) b.calls;
}

pub set_connection-IsBase :
    (c : Connection) (h : ContactHandle) → IsBase h → IsBase (set_connection c h)
unfolding set_connection tell
set_connection-IsBase c h b = record {
  tells = refl;
  keyed = λ e. refl;
  chats = b.chats;
  calls = b.calls;
}

pub push_chat-IsBase : (q : ChatPacket) (h : ContactHandle) → IsBase h → IsBase (push_chat q h)
unfolding push_chat
push_chat-IsBase q h b = record {
  tells = b.tells;
  keyed = b.keyed;
  chats = let more = length-append h.chat_packets (q ∷ []) in let old = b.chats in ground arith;
  calls = b.calls;
}

pub push_call-IsBase : (q : CallPacket) (h : ContactHandle) → IsBase h → IsBase (push_call q h)
unfolding push_call
push_call-IsBase q h b = record {
  tells = b.tells;
  keyed = b.keyed;
  chats = b.chats;
  calls = let more = length-append h.call_packets (q ∷ []) in let old = b.calls in ground arith;
}

module _ (engine : Base64) where
  pub replace_connection-IsBase :
      (c d : Connection) (h : ContactHandle)
      → h.connection ≡ some d
      → IsBase h
      → IsBase (replace_connection engine c h)
  unfolding replace_connection
  replace_connection-IsBase c d h e b = ground (arith, b, moved)
    where
      moved : IsBase (record h { connection = some c })
      moved = record {
        tells = b.tells ∙ ap is_some e;
        keyed = λ k. b.keyed (ap is_some e);
        chats = b.chats;
        calls = b.calls;
      }
