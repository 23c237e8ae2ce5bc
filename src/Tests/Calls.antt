-- ===== src/Tests/Calls.antt =====
-- Two managers call each other, and calls go wrong.
use ntied.Common.{
  ◌≡◌, refl, ℕ, Bool, true, false, List, [], ◌∷◌, none, some, ok, err, arith, ◌≤◌, if◌then◌else◌,
}
use ntied.Address.{Address}
use ntied.Call.{
  AudioDataPacket, CallHandle, CallManager, World, new_manager, ringing, connected, start_packet,
  accept_packet, reject_packet, end_packet, audio_data, start_failed, already_in_call,
}
use ntied.Call.Handlers.{start_call, is_in_call, process_call_packet}
use ntied.Call.Life.{Event, accepts, receives, toggles, switches_input, ends, step, run, phase, ◌⟶◌}
use ntied.Call.Invariant.{Inv}
use ntied.Call.Reachable.{run-new_manager}
use ntied.Call.Refinement.{step-⟶}
use ntied.Call.Setup.{IsUp, At, HasAudio, next_handle}
use ntied.Call.Exchange.{exchange, exchange-connects}
use ntied.Call.Behaviour.{unasked_accept, unsent_start}
use ntied.Call.Polling.{
  Task, running, ended, PollEvent, turns, breaks, breaks_at, has_connected, Contact, tick, tick-run,
}
use ntied.Call.Polling
use ntied.Tests.Toy.{address_of}

abbrev all_up : World
all_up = record {
  is_connected = λ a. true;
  delivers = λ a p. true;
  opens = λ input output. true;
  decoder_takes = true;
}

-- Contacts seem connected, but take no packet.
abbrev cut_off : World
cut_off = record all_up { delivers = λ a p. false }

abbrev all_up-IsUp : IsUp all_up
all_up-IsUp = ((λ a. refl), (λ a p. refl), refl)

abbrev alice : Address
alice = address_of 1

abbrev bob : Address
bob = address_of 2

abbrev a_call : List (World × Event)
a_call =
    (all_up, receives bob (start_packet 5))
    ∷ (all_up, accepts bob)
    ∷ (all_up, toggles)
    ∷ (all_up, switches_input (some 3))
    ∷ []

run-new_manager_example : Inv (run new_manager a_call)
run-new_manager_example = run-new_manager a_call

step-⟶_example :
    phase (run new_manager a_call) ⟶ phase (step (run new_manager a_call) (cut_off, ends bob))
step-⟶_example = step-⟶ a_call (cut_off, ends bob)

exchange-connects_example :
    let (caller', callee') = exchange all_up all_up 7 alice bob new_manager new_manager in
    let outgoing = next_handle 7 bob false new_manager in
    let incoming = next_handle 7 alice true new_manager in
    (At connected outgoing caller' × HasAudio outgoing caller')
    × (At connected incoming callee' × HasAudio incoming callee')
unfolding new_manager
exchange-connects_example =
    exchange-connects all_up all_up 7 alice bob new_manager new_manager all_up-IsUp all_up-IsUp refl
      refl refl refl

-- Bob calls, and it rings.
abbrev rung : CallManager
rung = (process_call_packet all_up bob (start_packet 5) new_manager).0

abbrev from_bob : CallHandle
from_bob = record { call_id = 5; peer_address = bob; is_incoming = true; ref = 0 }

unasked_accept_example :
    let m' = (process_call_packet all_up bob (accept_packet 9) rung).0 in
    At connected from_bob m' × HasAudio from_bob m'
unfolding process_call_packet ntied.Call.Handlers.handle_incoming_call is_in_call new_manager
    ntied.Call.Handlers.ring ntied.Call.notify ntied.Call.set_state ntied.Call.set_cell
    ntied.Call.Handlers.store_call ntied.Call.new_handle ntied.Call.get_state
    ntied.Common.ℕ_discrete
unasked_accept_example = unasked_accept all_up from_bob 9 rung (refl, refl) refl

unsent_start_example :
    let (m', result) = start_call cut_off 1 bob new_manager in
    (result ≡ err start_failed)
    × (is_in_call m' ≡ false)
    × (start_call all_up 2 alice m' ≡ (m', err already_in_call))
unfolding new_manager
unsent_start_example = unsent_start cut_off all_up 1 2 bob alice new_manager refl refl refl

-- The task of Bob ends between two turns that see him connected.
abbrev both_seen : List Contact
both_seen = (alice, false) ∷ (bob, true) ∷ []

abbrev polls : List PollEvent
polls = breaks bob ∷ turns ((bob, true) ∷ []) ∷ []

tick-run_example : tick both_seen (Polling.run (turns both_seen ∷ polls) (λ a. none)) bob ≡ (
    if has_connected both_seen bob
    then some (if breaks_at bob polls then ended else running)
    else none)
unfolding has_connected ntied.Call.Handlers.is_address ntied.Address.Address-discrete
    ntied.Common.ℕ_discrete
tick-run_example = tick-run both_seen both_seen polls (λ a. none) bob refl (refl, tt)
