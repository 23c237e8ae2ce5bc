-- ===== src/Call/Behaviour.antt =====
-- What packets of another call, and packets that are lost, do to the current call.
use ntied.Common.{ℕ, ◌≡◌, refl, true, false, none, some, err, subst, sym, ap}
use ntied.Address.{Address}
use ntied.Call.{
  already_in_call, start_failed, ringing, connected, CallState-discrete, CallHandle, Cell,
  CallManager, start_packet, accept_packet, reject_packet, end_packet, World, Outcome, notify,
  set_active, set_cell, new_handle, get_state, set_state,
}
use ntied.Call.Handlers.{
  create_audio_state, store_call, announce_call, start_call, is_in_call, is_live, is_state,
  cleanup_call, handle_call_accepted, handle_call_rejected, handle_call_ended, process_call_packet,
}
use ntied.Call.Entry.{start_audio_current}
use ntied.Call.Setup.{At, HasAudio, is_address_refl}
use mathlib.Core.Logic.{if_pos}
use native.Mathlib.Decide.{ℕ_discrete}

-- A call that rings here, and any call id: an Accept packet from the caller itself, with whatever id,
-- connects it, with audio if the devices open, though nobody accepted it here.
pub unasked_accept :
    (w : World) (h : CallHandle) (id : ℕ) (m : CallManager)
    → At ringing h m
    → w.opens none none ≡ true
    → let m' = (process_call_packet w h.peer_address (accept_packet id) m).0 in
      At connected h m' × HasAudio h m'
unfolding process_call_packet handle_call_accepted create_audio_state notify set_state set_cell
    get_state
unasked_accept w h id m (e, at) opens =
    rw
      (
        e,
        process_call_packet,
        handle_call_accepted,
        is_address_refl h.peer_address,
        start_audio_current w h (set_state h connected m) e,
        create_audio_state,
        opens,
      )
      ((e, ap (λ (c : Cell). c.state) (if_pos (ℕ_discrete h.ref h.ref) refl _ _)), (_, refl, refl))

-- A current call, and any call id: a Reject or End packet from its peer, with whatever id, takes the
-- call and its audio away.
pub stale_end :
    (w : World) (h : CallHandle) (id : ℕ) (m : CallManager)
    → m.current_call ≡ some h
    → let rejected = (process_call_packet w h.peer_address (reject_packet id) m).0 in
      let over = (process_call_packet w h.peer_address (end_packet id) m).0 in
      ((rejected.current_call ≡ none) × (rejected.audio_state ≡ none))
      × ((over.current_call ≡ none) × (over.audio_state ≡ none))
unfolding process_call_packet handle_call_rejected handle_call_ended cleanup_call notify set_active
    set_state set_cell
stale_end w h id m e =
    rw
      (
        e,
        process_call_packet,
        handle_call_rejected,
        handle_call_ended,
        cleanup_call,
        is_address_refl h.peer_address,
      )
      ((refl, refl), (refl, refl))

unsent_start_outcome :
    (w : World) (id : ℕ) (peer : Address) (m : CallManager)
    → m.current_call ≡ none
    → w.is_connected peer ≡ true
    → w.delivers peer (start_packet id) ≡ false
    → start_call w id peer m ≡ ((store_call id peer false m).0, err start_failed)
unfolding start_call store_call new_handle announce_call set_cell set_active
unsent_start_outcome w id peer m free up lost = rw (free, start_call, up, lost) refl

-- If there is no current call, the peer is connected, but does not take the Start packet: start_call
-- gives an error, the manager is not in a call, and every later start_call, to anyone and whatever
-- contacts do then, gives the error that there is a call already.
pub unsent_start :
    (w w' : World) (id id' : ℕ) (peer peer' : Address) (m : CallManager)
    → m.current_call ≡ none
    → w.is_connected peer ≡ true
    → w.delivers peer (start_packet id) ≡ false
    → let (m', result) = start_call w id peer m in
      (result ≡ err start_failed)
      × (is_in_call m' ≡ false)
      × (start_call w' id' peer' m' ≡ (m', err already_in_call))
unfolding start_call store_call new_handle set_active set_cell is_in_call is_live is_state
    CallState-discrete get_state
unsent_start w w' id id' peer peer' m free up lost =
    subst
      (λ (r : Outcome CallHandle).
        (r.1 ≡ err start_failed)
        × (is_in_call r.0 ≡ false)
        × (start_call w' id' peer' r.0 ≡ (r.0, err already_in_call)))
      (sym (unsent_start_outcome w id peer m free up lost))
      (
        refl,
        ap (λ (c : Cell). is_live c.state) (if_pos (ℕ_discrete m.next_ref m.next_ref) refl _ _),
        refl,
      )
