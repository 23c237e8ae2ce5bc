-- ===== src/Contact/Consent.antt =====
-- How the status of a contact changes in ntied/src/contact/handle.rs: whose consent makes it accepted.
use ntied.Common.{
  ◌+◌, ◌≡◌, refl, ◌∙◌, Bool, true, false, ◌||◌, List, [], ◌∷◌, Option, none, some, ◌⊎◌, inl, inr,
  arith,
}
use ntied.Address.Text.{Base64}
use ntied.Contact.{
  contact_accepted, request_contact, accept_contact, reject_contact, contact, chat, call,
  ContactStatus, pending_incoming, pending_outgoing, rejected_incoming, rejected_outgoing, accepted,
  Connection, accept, reject, new_connection, send_chat_packet, send_call_packet, ContactHandle,
}
use ntied.Contact.Handshake.{
  close_from, Event, commanded, receives, connects, closes, breaks, times_out, tell, send,
  set_connection, close_connection, request, enter, enter_as, accept_connection,
  establish_connection, take_profile, push_chat, push_call,
}
use ntied.Contact.Task.{
  replace_connection, pending_incoming_loop, pending_outgoing_loop, rejected_incoming_loop,
  rejected_outgoing_loop, accepted_loop, wait_as, step,
}

unfoldable pub is_rejected : ContactStatus → Bool
is_rejected rejected_incoming = true
is_rejected rejected_outgoing = true
is_rejected pending_incoming = false
is_rejected pending_outgoing = false
is_rejected accepted = false

-- The user accepts who asked, or the peer accepts whom the user asked.
unfoldable pub consents : ContactStatus → Event → Bool
consents pending_incoming (commanded accept) = true
consents pending_outgoing (receives (some (contact (accept_contact profile)))) = true
consents s e = false

unfoldable pub has_consent : ContactStatus → List (Bool × Event) → Bool
unfolding consents
has_consent s [] = false
has_consent s ((sends, e) ∷ es) = consents s e || has_consent s es

abbrev pub Moves : ContactStatus → Event → ContactStatus → Type 0
Moves s e s' = (s' ≡ s) ⊎ ((is_rejected s' ≡ true) ⊎ ((s' ≡ accepted) × (consents s e ≡ true)))

close_from-status : (c : Option Connection) (h : ContactHandle) → (close_from c h).status ≡ h.status
unfolding close_from tell
close_from-status none h = refl
close_from-status (some c) h = refl

pub close_connection-status : (h : ContactHandle) → (close_connection h).status ≡ h.status
unfolding close_connection
close_connection-status h = close_from-status h.connection h

enter_as-status :
    (s : ContactStatus) (sends : Bool) (h : ContactHandle) → (enter_as s sends h).status ≡ h.status
unfolding enter_as request send
enter_as-status pending_incoming sends h = refl
enter_as-status pending_outgoing sends h = ground (arith, close_connection-status h)
enter_as-status rejected_incoming sends h = close_connection-status h
enter_as-status rejected_outgoing sends h = close_connection-status h
enter_as-status accepted sends h = refl

pub enter-status : (sends : Bool) (h : ContactHandle) → (enter sends h).status ≡ h.status
unfolding enter
enter-status sends h = enter_as-status h.status sends h

request-status : (sends : Bool) (h : ContactHandle) → (request sends h).status ≡ h.status
unfolding request send
request-status true h = refl
request-status false h = close_connection-status h

accept_connection-status :
    (sends : Bool) (e : Event) (h : ContactHandle) → (accept_connection sends e h).status ≡ h.status
unfolding accept_connection set_connection tell
accept_connection-status sends (commanded (new_connection c)) h = enter-status sends _
accept_connection-status sends (commanded accept) h = refl
accept_connection-status sends (commanded reject) h = refl
accept_connection-status sends (commanded (send_chat_packet q)) h = refl
accept_connection-status sends (commanded (send_call_packet q)) h = refl
accept_connection-status sends (receives q) h = refl
accept_connection-status sends (connects c) h = refl
accept_connection-status sends closes h = refl
accept_connection-status sends breaks h = refl
accept_connection-status sends times_out h = refl

establish_connection-status :
    (sends : Bool) (e : Event) (h : ContactHandle)
    → (establish_connection sends e h).status ≡ h.status
unfolding establish_connection set_connection tell
establish_connection-status sends (connects c) h = enter-status sends _
establish_connection-status sends (commanded q) h = accept_connection-status sends (commanded q) h
establish_connection-status sends (receives q) h = refl
establish_connection-status sends closes h = refl
establish_connection-status sends breaks h = refl
establish_connection-status sends times_out h = refl

abbrev rejects :
    (s : ContactStatus)
    → is_rejected s ≡ true
    → (s' : ContactStatus) → s' ≡ s
    → is_rejected s' ≡ true
rejects s r s' e = rw e r

module _ (engine : Base64) where
  pub replace_connection-status :
      (c : Connection) (h : ContactHandle) → (replace_connection engine c h).status ≡ h.status
  unfolding replace_connection
  replace_connection-status c h = ground arith

  pending_incoming_loop-Moves :
      (sends : Bool) (e : Event) (h : ContactHandle)
      → h.status ≡ pending_incoming
      → Moves pending_incoming e (pending_incoming_loop engine sends e h).status
  unfolding pending_incoming_loop tell take_profile send is_rejected consents
  pending_incoming_loop-Moves sends (commanded accept) h q = inr (
      inr (
        enter-status sends (record (send sends (contact (accept_contact h.own_profile)) h) {
          status = accepted;
          completed = h.completed + 1;
        }),
        refl,
      ))
  pending_incoming_loop-Moves sends (commanded reject) h q =
      inr (inl (rejects rejected_incoming refl _ (enter-status sends _)))
  pending_incoming_loop-Moves sends (commanded (new_connection c)) h q =
      inl (replace_connection-status c h ∙ q)
  pending_incoming_loop-Moves sends (commanded (send_chat_packet _)) h q = inl q
  pending_incoming_loop-Moves sends (commanded (send_call_packet _)) h q = inl q
  pending_incoming_loop-Moves sends closes h q = inl (enter-status sends _ ∙ q)
  pending_incoming_loop-Moves sends (receives (some (contact (request_contact _)))) h q = inl q
  pending_incoming_loop-Moves sends (receives (some (contact reject_contact))) h q =
      inr (inl (rejects rejected_incoming refl _ (enter-status sends _)))
  pending_incoming_loop-Moves sends (receives (some (contact (accept_contact _)))) h q = inl q
  pending_incoming_loop-Moves sends (receives (some (chat _))) h q = inl q
  pending_incoming_loop-Moves sends (receives (some (call _))) h q = inl q
  pending_incoming_loop-Moves sends (receives none) h q = inl q
  pending_incoming_loop-Moves sends breaks h q =
      inl (enter-status sends _ ∙ close_connection-status h ∙ q)
  pending_incoming_loop-Moves sends (connects c) h q = inl q
  pending_incoming_loop-Moves sends times_out h q = inl q

  pending_outgoing_loop-Moves :
      (sends : Bool) (e : Event) (h : ContactHandle)
      → h.status ≡ pending_outgoing
      → Moves pending_outgoing e (pending_outgoing_loop engine sends e h).status
  unfolding pending_outgoing_loop tell take_profile send is_rejected consents
  pending_outgoing_loop-Moves sends (commanded reject) h q =
      inr (inl (rejects rejected_outgoing refl _ (enter-status sends _)))
  pending_outgoing_loop-Moves sends (commanded (new_connection c)) h q =
      inl (replace_connection-status c h ∙ q)
  pending_outgoing_loop-Moves sends (commanded accept) h q = inl q
  pending_outgoing_loop-Moves sends (commanded (send_chat_packet _)) h q = inl q
  pending_outgoing_loop-Moves sends (commanded (send_call_packet _)) h q = inl q
  pending_outgoing_loop-Moves sends closes h q = inl (enter-status sends _ ∙ q)
  pending_outgoing_loop-Moves sends (receives (some (contact (accept_contact profile)))) h q = inr (
      inr (
        enter-status sends (
            tell (contact_accepted h.address profile)
              (record (take_profile (accept_contact profile) h) { status = accepted })),
        refl,
      ))
  pending_outgoing_loop-Moves sends (receives (some (contact reject_contact))) h q =
      inr (inl (rejects rejected_outgoing refl _ (enter-status sends _)))
  pending_outgoing_loop-Moves sends (receives (some (contact (request_contact _)))) h q = inl q
  pending_outgoing_loop-Moves sends (receives (some (chat _))) h q = inl q
  pending_outgoing_loop-Moves sends (receives (some (call _))) h q = inl q
  pending_outgoing_loop-Moves sends (receives none) h q = inl q
  pending_outgoing_loop-Moves sends breaks h q =
      inl (enter-status sends _ ∙ close_connection-status h ∙ q)
  pending_outgoing_loop-Moves sends times_out h q = inl (request-status sends h ∙ q)
  pending_outgoing_loop-Moves sends (connects c) h q = inl q

  rejected_incoming_loop-status :
      (sends : Bool) (e : Event) (h : ContactHandle)
      → (rejected_incoming_loop engine sends e h).status ≡ h.status
  unfolding rejected_incoming_loop send
  rejected_incoming_loop-status sends (commanded (new_connection c)) h = refl
  rejected_incoming_loop-status sends (commanded accept) h = refl
  rejected_incoming_loop-status sends (commanded reject) h = refl
  rejected_incoming_loop-status sends (commanded (send_chat_packet _)) h = refl
  rejected_incoming_loop-status sends (commanded (send_call_packet _)) h = refl
  rejected_incoming_loop-status sends closes h = enter-status sends h
  rejected_incoming_loop-status sends (receives _) h = refl
  rejected_incoming_loop-status sends breaks h = refl
  rejected_incoming_loop-status sends (connects c) h = refl
  rejected_incoming_loop-status sends times_out h = refl

  rejected_outgoing_loop-status :
      (sends : Bool) (e : Event) (h : ContactHandle)
      → (rejected_outgoing_loop engine sends e h).status ≡ h.status
  unfolding rejected_outgoing_loop
  rejected_outgoing_loop-status sends (commanded _) h = refl
  rejected_outgoing_loop-status sends closes h = enter-status sends h
  rejected_outgoing_loop-status sends (receives _) h = refl
  rejected_outgoing_loop-status sends breaks h = refl
  rejected_outgoing_loop-status sends (connects c) h = refl
  rejected_outgoing_loop-status sends times_out h = refl

  accepted_loop-status :
      (sends : Bool) (e : Event) (h : ContactHandle)
      → (accepted_loop engine sends e h).status ≡ h.status
  unfolding accepted_loop send take_profile push_chat push_call
  accepted_loop-status sends (commanded (send_chat_packet q)) h = refl
  accepted_loop-status sends (commanded (send_call_packet q)) h = refl
  accepted_loop-status sends (commanded (new_connection c)) h = replace_connection-status c h
  accepted_loop-status sends (commanded accept) h = refl
  accepted_loop-status sends (commanded reject) h = refl
  accepted_loop-status sends closes h = enter-status sends h
  accepted_loop-status sends (receives (some (contact (request_contact _)))) h = refl
  accepted_loop-status sends (receives (some (contact (accept_contact _)))) h = refl
  accepted_loop-status sends (receives (some (contact reject_contact))) h = refl
  accepted_loop-status sends (receives (some (chat q))) h = refl
  accepted_loop-status sends (receives (some (call q))) h = refl
  accepted_loop-status sends (receives none) h = refl
  accepted_loop-status sends breaks h = enter-status sends _ ∙ close_connection-status h
  accepted_loop-status sends (connects c) h = refl
  accepted_loop-status sends times_out h = refl

  wait_as-Moves :
      (s : ContactStatus) (c : Option Connection) (sends : Bool) (e : Event) (h : ContactHandle)
      → h.status ≡ s
      → Moves s e (wait_as engine s c sends e h).status
  unfolding wait_as
  wait_as-Moves pending_incoming none sends e h q = inl (accept_connection-status sends e h ∙ q)
  wait_as-Moves pending_incoming (some c) sends e h q = pending_incoming_loop-Moves sends e h q
  wait_as-Moves pending_outgoing none sends e h q = inl (establish_connection-status sends e h ∙ q)
  wait_as-Moves pending_outgoing (some c) sends e h q = pending_outgoing_loop-Moves sends e h q
  wait_as-Moves rejected_incoming c sends e h q = inl (rejected_incoming_loop-status sends e h ∙ q)
  wait_as-Moves rejected_outgoing c sends e h q = inl (rejected_outgoing_loop-status sends e h ∙ q)
  wait_as-Moves accepted none sends e h q = inl (establish_connection-status sends e h ∙ q)
  wait_as-Moves accepted (some c) sends e h q = inl (accepted_loop-status sends e h ∙ q)

  pub step-Moves :
      (sends : Bool) (e : Event) (h : ContactHandle)
      → Moves h.status e (step engine h (sends, e)).status
  unfolding step
  step-Moves sends e h = wait_as-Moves h.status h.connection sends e h refl
