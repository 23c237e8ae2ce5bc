-- ===== src/Tests/Contacts.antt =====
-- Contacts that ask, accept and are lost.
use ntied.Common.{◌≡◌, refl, ◌⊎◌, Bool, true, List, [], ◌∷◌, some}
use ntied.Contact.{
  ContactHandle, ContactProfile, Connection, contact, accept_contact, accepted, accept,
  new_connection, new_outgoing,
}
use ntied.Contact.Handshake.{Event, commanded, receives, connects, breaks, times_out}
use ntied.Contact.Task.{run}
use ntied.Contact.Consent.{has_consent}
use ntied.Contact.Accepted.{run-has_consent}
use ntied.Contact.Mutual.{
  Pair, PairEvent, left_acts, right_acts, left_hears, right_hears, IsAsking, pair_run,
  mutual_requests,
}
use ntied.Contact.Manager.{
  ManagerEvent, connects_to, binds, acts, accepts, removes, fails, AllSound, new, run-new-AllSound,
}
use ntied.Contact.Manager
use ntied.Tests.Toy.{address_of, plain}

abbrev ann : ContactProfile
ann = record { name = 65 ∷ [] }

abbrev ben : ContactProfile
ben = record { name = 66 ∷ [] }

abbrev to_ben : Connection
to_ben = record { peer_address = address_of 2; peer_public_key = 7 ∷ [] }

abbrev to_ann : Connection
to_ann = record { peer_address = address_of 1; peer_public_key = 8 ∷ [] }

-- A connection, a request that gets lost, the answer, and the end of the connection.
abbrev an_answer : List (Bool × Event)
an_answer =
    (true, connects to_ben)
    ∷ (true, times_out)
    ∷ (true, receives (some (contact (accept_contact ben))))
    ∷ (true, breaks)
    ∷ []

abbrev asking : ContactHandle
asking = new_outgoing (address_of 2) ann (address_of 1)

-- Ben is asked and answers, Ann asks and is removed.
abbrev day : List ManagerEvent
day =
    connects_to (address_of 2)
    ∷ binds
    ∷ acts (address_of 2) true (connects to_ben)
    ∷ acts (address_of 2) true (receives (some (contact (accept_contact ben))))
    ∷ accepts true to_ann
    ∷ removes (address_of 1)
    ∷ fails
    ∷ []

run-new-AllSound_example : AllSound (Manager.run plain (new 9 ann (address_of 3)) day).contacts
run-new-AllSound_example = run-new-AllSound plain day 9 ann (address_of 3)

run-has_consent_example : (asking.status ≡ accepted) ⊎ (has_consent asking.status an_answer ≡ true)
unfolding run new_outgoing
run-has_consent_example = run-has_consent plain an_answer asking refl

-- Both connect, hear the other's request, and accept.
abbrev both_ask : List PairEvent
both_ask =
    left_acts true (connects to_ben)
    ∷ right_acts true (commanded (new_connection to_ann))
    ∷ left_hears true 0
    ∷ right_hears true 0
    ∷ left_acts true (commanded accept)
    ∷ right_acts true (commanded accept)
    ∷ []

abbrev both : Pair
both = record { left = asking; right = new_outgoing (address_of 1) ben (address_of 2) }

mutual_requests_example :
    IsAsking (pair_run plain both both_ask).left × IsAsking (pair_run plain both both_ask).right
unfolding ntied.Contact.Mutual.is_own
mutual_requests_example =
    mutual_requests plain both_ask (address_of 1) (address_of 2) ann ben
      (refl, (refl, (refl, (refl, (refl, (refl, tt))))))
