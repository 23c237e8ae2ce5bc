-- ===== src/Call/Exchange.antt =====
-- A call from its start to audio on both sides.
use ntied.Common.{ℕ, ◌≡◌, true, false, List, [], ◌∷◌, none, subst, sym, ap, ◌∙◌}
use ntied.Address.{Address}
use ntied.Call.{
  CallState, calling, ringing, connected, CallHandle, CallManager, CallPacket, start_packet,
  accept_packet, World, get_state,
}
use ntied.Call.Handlers.{start_call, accept_call, offer_of, process_call_packet}
use ntied.Call.Setup.{
  IsUp, At, HasAudio, next_handle, answer_to, start_call-At, ring-At, handle_codec_offer-At,
  accept_call-At, handle_call_accepted-At,
}

-- The packets of a peer, the last one first, are processed in the order in which they were sent.
unfoldable pub deliver : World → Address → List (Address × CallPacket) → CallManager → CallManager
deliver w address [] m = m
deliver w address ((to, packet) ∷ rest) m =
    (process_call_packet w address packet (deliver w address rest m)).0

unfoldable pub flush : CallManager → CallManager
flush m = record m { sent = [] }

-- The one side calls, the other accepts once it rings, and each gets what the other sent.
unfoldable pub exchange :
    World → World → ℕ → Address → Address → CallManager → CallManager → CallManager × CallManager
exchange wa wb id a b caller callee =
    let calling_side = (start_call wa id b caller).0 in
    let called_side = deliver wb a calling_side.sent callee in
    let accepting_side = (accept_call wb a called_side).0 in
    let answered_side = deliver wa b accepting_side.sent (flush calling_side) in
    (answered_side, deliver wb a answered_side.sent (flush accepting_side))

flush-At : (s : CallState) (h : CallHandle) (m : CallManager) → At s h m → At s h (flush m)
unfolding flush get_state
flush-At s h m v = v

flush-HasAudio : (h : CallHandle) (m : CallManager) → HasAudio h m → HasAudio h (flush m)
unfolding flush
flush-HasAudio h m v = v

module _ (w : World) (up : IsUp w) where
  -- The start of a call and the offer behind it.
  deliver_start :
      (id : ℕ) (a to : Address) (offer m : CallManager) (packets : List (Address × CallPacket))
      → packets ≡ (to, offer_of id offer) ∷ (to, start_packet id) ∷ []
      → m.current_call ≡ none
      → let m' = deliver w a packets m in
        At ringing (next_handle id a true m) m' × (m'.sent ≡ (a, answer_to id) ∷ m.sent)
  unfolding deliver offer_of
  deliver_start id a to offer m packets e free =
      let (rung, quiet) = ring-At w up id a m free in
      let (still, sent, audio) =
        handle_codec_offer-At w up ringing (next_handle id a true m) _ _ rung in
      subst
        (λ ps.
          At ringing (next_handle id a true m) (deliver w a ps m)
          × ((deliver w a ps m).sent ≡ (a, answer_to id) ∷ m.sent))
        (sym e) (still, sent ∙ ap (◌∷◌ (a, answer_to id)) quiet)

  -- The answer to the offer, the acceptance and the offer behind it.
  deliver_accept :
      (s : CallState) (h : CallHandle) (to : Address) (offer m : CallManager)
      → (packets : List (Address × CallPacket))
      → packets
        ≡ (to, offer_of h.call_id offer)
          ∷ (to, accept_packet h.call_id)
          ∷ (to, answer_to h.call_id)
          ∷ []
      → At s h m
      → let m' = deliver w h.peer_address packets m in
        At connected h m'
        × HasAudio h m'
        × (m'.sent ≡ (h.peer_address, answer_to h.call_id) ∷ m.sent)
  unfolding deliver offer_of answer_to process_call_packet
  deliver_accept s h to offer m packets e v =
      let (taken, (audio, some_audio, owned), quiet) = handle_call_accepted-At w up s h m v in
      let (still, sent, same) = handle_codec_offer-At w up connected h _ _ taken in
      subst
        (λ ps.
          At connected h (deliver w h.peer_address ps m)
          × HasAudio h (deliver w h.peer_address ps m)
          × ((deliver w h.peer_address ps m).sent ≡ (h.peer_address, answer_to h.call_id) ∷ m.sent))
        (sym e)
        (
          still,
          (audio, same ∙ some_audio, owned),
          sent ∙ ap (◌∷◌ (h.peer_address, answer_to h.call_id)) quiet,
        )

  -- The answer alone.
  deliver_answer :
      (a to : Address) (id : ℕ) (m : CallManager) (packets : List (Address × CallPacket))
      → packets ≡ (to, answer_to id) ∷ []
      → deliver w a packets m ≡ m
  unfolding deliver answer_to process_call_packet
  deliver_answer a to id m packets e = ap (λ ps. deliver w a ps m) e

-- If neither side has a call or packets that it did not send, both can reach each other and their
-- devices open: after the one calls the other and that one accepts, with every packet delivered in
-- order, both have the same call id and each other as the peer, are connected, and have audio for
-- that call.
pub exchange-connects :
    (wa wb : World) (id : ℕ) (a b : Address) (caller callee : CallManager)
    → IsUp wa
    → IsUp wb
    → caller.current_call ≡ none
    → callee.current_call ≡ none
    → caller.sent ≡ []
    → callee.sent ≡ []
    → let (caller', callee') = exchange wa wb id a b caller callee in
      let outgoing = next_handle id b false caller in
      let incoming = next_handle id a true callee in
      (At connected outgoing caller' × HasAudio outgoing caller')
      × (At connected incoming callee' × HasAudio incoming callee')
unfolding exchange flush
exchange-connects wa wb id a b caller callee up_a up_b free_a free_b unsent_a unsent_b =
    let outgoing = next_handle id b false caller in
    let incoming = next_handle id a true callee in
    let calling_side = (start_call wa id b caller).0 in
    let called_side = deliver wb a calling_side.sent callee in
    let accepting_side = (accept_call wb a called_side).0 in
    let (called, sent) = start_call-At wa up_a id b caller free_a in
    let (rung, answered) =
      deliver_start wb up_b id a b caller callee calling_side.sent
        (sent ∙ ap (λ ps. (b, offer_of id caller) ∷ (b, start_packet id) ∷ ps) unsent_a) free_b in
    let (taken, audio, accepted) = accept_call-At wb up_b incoming called_side rung in
    let (talks, heard, last) =
      deliver_accept wa up_a calling outgoing a called_side (flush calling_side) accepting_side.sent
        (accepted
          ∙ ap (λ ps. (a, offer_of id called_side) ∷ (a, accept_packet id) ∷ ps)
              (answered ∙ ap (◌∷◌ (a, answer_to id)) unsent_b))
        (flush-At calling outgoing calling_side called) in
    let done =
      deliver_answer wb up_b a b id (flush accepting_side)
        (deliver wa b accepting_side.sent (flush calling_side)).sent last in
    (
      (talks, heard),
      subst (λ x. At connected incoming x × HasAudio incoming x) (sym done)
          (
            flush-At connected incoming accepting_side taken,
            flush-HasAudio incoming accepting_side audio,
          ),
    )
