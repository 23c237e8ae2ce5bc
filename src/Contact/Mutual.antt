-- ===== src/Contact/Mutual.antt =====
-- Two peers that ask each other, in ntied/src/contact/handle.rs.
use ntied.Common.{
  subst, sym, ℕ, zero, suc, ◌≡◌, refl, Bool, true, false, List, [], ◌∷◌, Option, none, some, All,
  arith,
}
use ntied.Address.{Address}
use ntied.Address.Text.{Base64}
use ntied.Contact.{
  ContactProfile, request_contact, accept_contact, reject_contact, Packet, contact, chat, call,
  ContactStatus, pending_incoming, pending_outgoing, rejected_incoming, rejected_outgoing, accepted,
  Connection, accept, reject, new_connection, send_chat_packet, send_call_packet, ContactHandle,
  new_outgoing,
}
use ntied.Contact.Handshake.{
  close_from, Event, commanded, receives, connects, closes, breaks, times_out, tell, send,
  set_connection, close_connection, request, enter, enter_as, accept_connection,
  establish_connection,
}
use ntied.Contact.Task.{replace_connection, pending_outgoing_loop, wait_as, step}

-- Anything but a rejection by the user, and packets other than a request.
unfoldable pub is_open : Event → Bool
is_open (commanded reject) = false
is_open (receives (some (contact (accept_contact profile)))) = false
is_open (receives (some (contact reject_contact))) = false
is_open (receives (some (chat q))) = false
is_open (receives (some (call q))) = false
is_open e = true

unfoldable pub is_request : Packet → Bool
is_request (contact (request_contact profile)) = true
is_request (contact (accept_contact profile)) = false
is_request (contact reject_contact) = false
is_request (chat q) = false
is_request (call q) = false

-- Still asking, and nothing but requests was sent.
abbrev pub IsAsking : ContactHandle → Type 0
IsAsking h = (h.status ≡ pending_outgoing) × All (λ q. is_request q ≡ true) h.sent

close_from-IsAsking :
    (c : Option Connection) (h : ContactHandle) → IsAsking h → IsAsking (close_from c h)
unfolding close_from tell
close_from-IsAsking none h a = a
close_from-IsAsking (some c) h a = a

close_connection-IsAsking : (h : ContactHandle) → IsAsking h → IsAsking (close_connection h)
unfolding close_connection
close_connection-IsAsking h a = close_from-IsAsking h.connection h a

request-IsAsking : (sends : Bool) (h : ContactHandle) → IsAsking h → IsAsking (request sends h)
unfolding request send is_request
request-IsAsking true h (s, all) = (s, (refl, all))
request-IsAsking false h a = close_connection-IsAsking h a

asked-IsAsking :
    (c : Option Connection) (sends : Bool) (h : ContactHandle)
    → IsAsking h
    → IsAsking (elim c [ none ↦ h | some c ↦ request sends h ])
asked-IsAsking none sends h a = a
asked-IsAsking (some c) sends h a = request-IsAsking sends h a

enter_as-IsAsking :
    (s : ContactStatus) (sends : Bool) (h : ContactHandle)
    → IsAsking h
    → IsAsking (enter_as s sends h)
unfolding enter_as
enter_as-IsAsking pending_incoming sends h a = a
enter_as-IsAsking pending_outgoing sends h a = asked-IsAsking h.connection sends h a
enter_as-IsAsking rejected_incoming sends h a = close_connection-IsAsking h a
enter_as-IsAsking rejected_outgoing sends h a = close_connection-IsAsking h a
enter_as-IsAsking accepted sends h a = a

enter-IsAsking : (sends : Bool) (h : ContactHandle) → IsAsking h → IsAsking (enter sends h)
unfolding enter
enter-IsAsking sends h a = enter_as-IsAsking h.status sends h a

set_connection-IsAsking :
    (c : Connection) (h : ContactHandle) → IsAsking h → IsAsking (set_connection c h)
unfolding set_connection tell
set_connection-IsAsking c h a = a

establish_connection-IsAsking :
    (sends : Bool) (e : Event) (h : ContactHandle)
    → IsAsking h
    → IsAsking (establish_connection sends e h)
unfolding establish_connection accept_connection
establish_connection-IsAsking sends (connects c) h a =
    enter-IsAsking sends _ (set_connection-IsAsking c h a)
establish_connection-IsAsking sends (commanded (new_connection c)) h a =
    enter-IsAsking sends _ (set_connection-IsAsking c h a)
establish_connection-IsAsking sends (commanded accept) h a = a
establish_connection-IsAsking sends (commanded reject) h a = a
establish_connection-IsAsking sends (commanded (send_chat_packet _)) h a = a
establish_connection-IsAsking sends (commanded (send_call_packet _)) h a = a
establish_connection-IsAsking sends (receives q) h a = a
establish_connection-IsAsking sends closes h a = a
establish_connection-IsAsking sends breaks h a = a
establish_connection-IsAsking sends times_out h a = a

module _ (engine : Base64) where
  replace_connection-IsAsking :
      (c : Connection) (h : ContactHandle) → IsAsking h → IsAsking (replace_connection engine c h)
  unfolding replace_connection
  replace_connection-IsAsking c h a = ground (arith, a)

  pending_outgoing_loop-IsAsking :
      (sends : Bool) (e : Event) (h : ContactHandle)
      → is_open e ≡ true
      → IsAsking h
      → IsAsking (pending_outgoing_loop engine sends e h)
  unfolding pending_outgoing_loop is_open
  pending_outgoing_loop-IsAsking sends (commanded reject) h o a = absurd (ground arith)
  pending_outgoing_loop-IsAsking sends (commanded (new_connection c)) h o a =
      replace_connection-IsAsking c h a
  pending_outgoing_loop-IsAsking sends (commanded accept) h o a = a
  pending_outgoing_loop-IsAsking sends (commanded (send_chat_packet _)) h o a = a
  pending_outgoing_loop-IsAsking sends (commanded (send_call_packet _)) h o a = a
  pending_outgoing_loop-IsAsking sends closes h o a = enter-IsAsking sends h a
  pending_outgoing_loop-IsAsking sends (receives (some (contact (accept_contact _)))) h o a =
      absurd (ground arith)
  pending_outgoing_loop-IsAsking sends (receives (some (contact reject_contact))) h o a =
      absurd (ground arith)
  pending_outgoing_loop-IsAsking sends (receives (some (contact (request_contact _)))) h o a = a
  pending_outgoing_loop-IsAsking sends (receives (some (chat _))) h o a = a
  pending_outgoing_loop-IsAsking sends (receives (some (call _))) h o a = a
  pending_outgoing_loop-IsAsking sends (receives none) h o a = a
  pending_outgoing_loop-IsAsking sends breaks h o a =
      enter-IsAsking sends _ (close_connection-IsAsking h a)
  pending_outgoing_loop-IsAsking sends times_out h o a = request-IsAsking sends h a
  pending_outgoing_loop-IsAsking sends (connects c) h o a = a

  wait_as-IsAsking :
      (c : Option Connection) (sends : Bool) (e : Event) (h : ContactHandle)
      → is_open e ≡ true
      → IsAsking h
      → IsAsking (wait_as engine pending_outgoing c sends e h)
  unfolding wait_as
  wait_as-IsAsking none sends e h o a = establish_connection-IsAsking sends e h a
  wait_as-IsAsking (some c) sends e h o a = pending_outgoing_loop-IsAsking sends e h o a

  step-IsAsking :
      (sends : Bool) (e : Event) (h : ContactHandle)
      → is_open e ≡ true
      → IsAsking h
      → IsAsking (step engine h (sends, e))
  unfolding step
  step-IsAsking sends e h o a =
      subst (λ s. IsAsking (wait_as engine s h.connection sends e h)) (sym a.0)
        (wait_as-IsAsking h.connection sends e h o a)

-- Two peers: each has events of its own, and hears any packet that the other has sent, so packets may
-- be lost, repeated and reordered.
pub record Pair : Type 0 where
  pub left : ContactHandle
  pub right : ContactHandle

pub data PairEvent : Type 0 where
  left_acts right_acts : (sends : Bool) → Event → PairEvent
  left_hears right_hears : (sends : Bool) → ℕ → PairEvent

unfoldable pub nth : ℕ → List Packet → Option Packet
nth n [] = none
nth zero (q ∷ qs) = some q
nth (suc n) (q ∷ qs) = nth n qs

-- Neither user rejects, and every packet of a contact comes from the other side.
unfoldable pub is_own : PairEvent → Bool
unfolding is_open
is_own (left_acts sends e) = is_open e
is_own (right_acts sends e) = is_open e
is_own (left_hears sends n) = true
is_own (right_hears sends n) = true

open-request : (q : Packet) → is_request q ≡ true → is_open (receives (some q)) ≡ true
unfolding is_open is_request
open-request (contact (request_contact profile)) r = refl
open-request (contact (accept_contact profile)) r = absurd (ground arith)
open-request (contact reject_contact) r = absurd (ground arith)
open-request (chat q) r = absurd (ground arith)
open-request (call q) r = absurd (ground arith)

nth-is_open :
    (n : ℕ) (qs : List Packet)
    → All (λ q. is_request q ≡ true) qs
    → is_open (receives (nth n qs)) ≡ true
unfolding nth is_open
nth-is_open n [] all = refl
nth-is_open zero (q ∷ qs) all = open-request q all.0
nth-is_open (suc n) (q ∷ qs) all = nth-is_open n qs all.1

module _ (engine : Base64) where
  unfoldable pub pair_step : Pair → PairEvent → Pair
  unfolding nth
  pair_step p (left_acts sends e) = record p { left = step engine p.left (sends, e) }
  pair_step p (right_acts sends e) = record p { right = step engine p.right (sends, e) }
  pair_step p (left_hears sends n) = record p {
    left = step engine p.left (sends, receives (nth n p.right.sent));
  }
  pair_step p (right_hears sends n) = record p {
    right = step engine p.right (sends, receives (nth n p.left.sent));
  }

  unfoldable pub pair_run : Pair → List PairEvent → Pair
  unfolding pair_step
  pair_run p [] = p
  pair_run p (e ∷ es) = pair_run (pair_step p e) es

  BothAsk : Pair → Type 0
  BothAsk p = IsAsking p.left × IsAsking p.right

  pair_step-BothAsk :
      (e : PairEvent) (p : Pair) → is_own e ≡ true → BothAsk p → BothAsk (pair_step p e)
  unfolding pair_step is_own BothAsk
  pair_step-BothAsk (left_acts sends e) p o (l, r) = (step-IsAsking engine sends e p.left o l, r)
  pair_step-BothAsk (right_acts sends e) p o (l, r) = (l, step-IsAsking engine sends e p.right o r)
  pair_step-BothAsk (left_hears sends n) p o (l, r) =
      (step-IsAsking engine sends _ p.left (nth-is_open n p.right.sent r.1) l, r)
  pair_step-BothAsk (right_hears sends n) p o (l, r) =
      (l, step-IsAsking engine sends _ p.right (nth-is_open n p.left.sent l.1) r)

  pair_run-BothAsk :
      (es : List PairEvent) (p : Pair)
      → All (λ e. is_own e ≡ true) es
      → BothAsk p
      → BothAsk (pair_run p es)
  unfolding pair_run
  pair_run-BothAsk [] p own both = both
  pair_run-BothAsk (e ∷ es) p own both =
      pair_run-BothAsk es (pair_step p e) own.1 (pair_step-BothAsk e p own.0 both)

  -- Two users who both asked for the other as a contact stay unaccepted: over any run in which
  -- neither rejects and each hears only what the other sent, in any order, with losses and repeats,
  -- both stay pending_outgoing and send nothing but requests, also if both users accept.
  pub mutual_requests :
      (es : List PairEvent) (a b : Address) (pa pb : ContactProfile)
      → All (λ e. is_own e ≡ true) es
      → let p = pair_run (record { left = new_outgoing b pa a; right = new_outgoing a pb b }) es in
        IsAsking p.left × IsAsking p.right
  unfolding BothAsk new_outgoing
  mutual_requests es a b pa pb own = pair_run-BothAsk es _ own ((refl, tt), (refl, tt))
