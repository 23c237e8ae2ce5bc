-- ===== src/Contact/Manager.antt =====
-- ntied/src/contact/manager.rs: the contacts by their addresses, and the loop that binds a transport
-- and hands on the connections it accepts. The command for a contact is handled when it is sent.
use ntied.Common.{
  ℕ, ◌≡◌, Bool, true, false, List, [], ◌∷◌, Option, none, some, some_inj, refl, Bool-cases, inl,
  inr, arith, subst, if◌then◌else◌,
}
use ntied.ByteIo.{Bytes}
use ntied.Address.{Address, Address-discrete}
use ntied.Address.Text.{Base64}
use ntied.Contact.{
  ContactProfile, Connection, new_connection, ContactHandle, new_outgoing, new_incoming,
  new_accepted,
}
use ntied.Contact.Handshake.{Event, commanded}
use ntied.Contact.Task.{step}
use ntied.Contact.Sound.{IsSound}
use ntied.Contact.Reachable.{IsNew-IsSound, asks, asked, known, step-IsSound}
use mathlib.Core.Logic.{ite}

pub data ServerNotice : Type 0 where
  server_connected server_disconnected : ServerNotice

-- The queue of incoming addresses has one place. The listener's calls have the last one first.
pub record ContactManager : Type 0 where
  pub contacts : Address → Option ContactHandle
  pub own_profile : ContactProfile
  pub own_address : Address
  pub server_addr : ℕ
  pub connected : Bool
  pub incoming : Option Address
  pub notices : List ServerNotice

unfoldable pub new : ℕ → ContactProfile → Address → ContactManager
new server_addr own_profile own_address = record {
  contacts = λ a. none;
  own_profile = own_profile;
  own_address = own_address;
  server_addr = server_addr;
  connected = false;
  incoming = none;
  notices = [];
}

unfoldable pub insert : Address → Option ContactHandle → ContactManager → ContactManager
insert address h m = record m { contacts = λ a. ite (Address-discrete address a) h (m.contacts a) }

-- `entry`: the contact that is there, or the one that it gets.
unfoldable pub entry :
    Option ContactHandle → Address → ContactHandle → ContactManager → ContactHandle × ContactManager
unfolding insert
entry (some old) address h m = (old, m)
entry none address h m = (h, insert address (some h) m)

unfoldable pub or_insert : Address → ContactHandle → ContactManager → ContactHandle × ContactManager
unfolding entry
or_insert address h m = entry (m.contacts address) address h m

unfoldable pub add_contact :
    Address → Bytes → ContactProfile → ContactManager → ContactHandle × ContactManager
unfolding or_insert new_accepted
add_contact address key profile m =
    or_insert address (new_accepted address key profile m.own_profile m.own_address) m

unfoldable pub connect_contact : Address → ContactManager → ContactHandle × ContactManager
unfolding or_insert new_outgoing
connect_contact address m = or_insert address (new_outgoing address m.own_profile m.own_address) m

unfoldable pub remove_contact : Address → ContactManager → Option ContactHandle × ContactManager
unfolding insert
remove_contact address m = (m.contacts address, insert address none m)

-- The top of `main_loop`: a bound transport is given up.
unfoldable pub restart : ContactManager → ContactManager
restart m =
    if m.connected
    then record m { connected = false; notices = server_disconnected ∷ m.notices }
    else m

unfoldable pub on_bound : ContactManager → ContactManager
on_bound m = record m { connected = true; notices = server_connected ∷ m.notices }

unfoldable pub on_accept_failed : ContactManager → ContactManager
unfolding restart
on_accept_failed m = restart (record m { notices = server_disconnected ∷ m.notices })

unfoldable pub change_server_addr : ℕ → ContactManager → ContactManager
unfolding restart
change_server_addr addr m = restart (record m { server_addr = addr })

-- `try_send` on the queue of incoming addresses.
unfoldable pub announce : Address → ContactManager → ContactManager
announce address m = record m {
  incoming = elim m.incoming [ none ↦ some address | some a ↦ some a ];
}

module _ (engine : Base64) where
  unfoldable pub act_on :
      Option ContactHandle → Address → Bool → Event → ContactManager → ContactManager
  unfolding insert step
  act_on none address sends e m = m
  act_on (some h) address sends e m = insert address (some (step engine h (sends, e))) m

  -- The task of the contact takes one event.
  unfoldable pub act : Address → Bool → Event → ContactManager → ContactManager
  unfolding act_on
  act address sends e m = act_on (m.contacts address) address sends e m

  unfoldable pub hand_on :
      Option ContactHandle → Bool → Connection → ContactManager → ContactManager
  unfolding act insert announce new_incoming
  hand_on (some h) sends c m = act c.peer_address sends (commanded (new_connection c)) m
  hand_on none sends c m =
      announce c.peer_address
        (insert c.peer_address (some (new_incoming c c.peer_address m.own_profile m.own_address)) m)

  unfoldable pub on_accepted : Bool → Connection → ContactManager → ContactManager
  unfolding hand_on
  on_accepted sends c m = hand_on (m.contacts c.peer_address) sends c m

-- What users, contacts and the transport do, and `on_incoming_address`. A transport is bound while
-- there is none, and accepts while there is one.
pub data ManagerEvent : Type 0 where
  adds : Address → Bytes → ContactProfile → ManagerEvent
  connects_to removes : Address → ManagerEvent
  acts : Address → (sends : Bool) → Event → ManagerEvent
  accepts : (sends : Bool) → Connection → ManagerEvent
  binds fails takes_incoming : ManagerEvent
  changes : ℕ → ManagerEvent

module _ (engine : Base64) where
  unfoldable pub handle : ContactManager → ManagerEvent → ContactManager
  unfolding add_contact connect_contact remove_contact act on_accepted on_bound on_accept_failed
      change_server_addr
  handle m (adds address key profile) = (add_contact address key profile m).1
  handle m (connects_to address) = (connect_contact address m).1
  handle m (removes address) = (remove_contact address m).1
  handle m (acts address sends e) = act engine address sends e m
  handle m (accepts sends c) = if m.connected then on_accepted engine sends c m else m
  handle m binds = if m.connected then m else on_bound m
  handle m fails = if m.connected then on_accept_failed m else m
  handle m takes_incoming = record m { incoming = none }
  handle m (changes addr) = change_server_addr addr m

  unfoldable pub run : ContactManager → List ManagerEvent → ContactManager
  unfolding handle
  run m [] = m
  run m (e ∷ es) = run (handle m e) es

abbrev pub AllSound : (Address → Option ContactHandle) → Type 0
AllSound contacts = (a : Address) (h : ContactHandle) → contacts a ≡ some h → IsSound h

chosen :
    {P : Type 0} (d : Dec P) (new old : Option ContactHandle) (h : ContactHandle)
    → ite d new old ≡ some h
    → (new ≡ some h → IsSound h)
    → (old ≡ some h → IsSound h)
    → IsSound h
chosen (yes p) new old h e f g = f e
chosen (no p) new old h e f g = g e

insert-AllSound :
    (address : Address) (o : Option ContactHandle) (m : ContactManager)
    → ((h : ContactHandle) → o ≡ some h → IsSound h)
    → AllSound m.contacts
    → AllSound (insert address o m).contacts
unfolding insert
insert-AllSound address o m new all a h e =
    chosen (Address-discrete address a) o (m.contacts a) h e (new h) (all a h)

put-AllSound :
    (address : Address) (h : ContactHandle) (m : ContactManager)
    → IsSound h
    → AllSound m.contacts
    → AllSound (insert address (some h) m).contacts
put-AllSound address h m s all =
    insert-AllSound address (some h) m (λ g e. subst IsSound (some_inj e) s) all

entry-AllSound :
    (o : Option ContactHandle) (address : Address) (h : ContactHandle) (m : ContactManager)
    → IsSound h
    → AllSound m.contacts
    → AllSound (entry o address h m).1.contacts
unfolding entry
entry-AllSound (some old) address h m s all = all
entry-AllSound none address h m s all = put-AllSound address h m s all

restart-AllSound : (m : ContactManager) → AllSound m.contacts → AllSound (restart m).contacts
unfolding restart
restart-AllSound m all = elim (Bool-cases m.connected) [ inl e ↦ rw e all | inr e ↦ rw e all ]

module _ (engine : Base64) where
  act_on-AllSound :
      (o : Option ContactHandle) (address : Address) (sends : Bool) (e : Event) (m : ContactManager)
      → m.contacts address ≡ o
      → AllSound m.contacts
      → AllSound (act_on engine o address sends e m).contacts
  unfolding act_on
  act_on-AllSound none address sends e m k all = all
  act_on-AllSound (some h) address sends e m k all =
      put-AllSound address _ m (step-IsSound engine h (sends, e) (all address h k)) all

  hand_on-AllSound :
      (o : Option ContactHandle) (sends : Bool) (c : Connection) (m : ContactManager)
      → AllSound m.contacts
      → AllSound (hand_on engine o sends c m).contacts
  unfolding hand_on announce act
  hand_on-AllSound (some h) sends c m all =
      act_on-AllSound (m.contacts c.peer_address) c.peer_address sends
        (commanded (new_connection c)) m refl all
  hand_on-AllSound none sends c m all =
      put-AllSound c.peer_address _ m
        (IsNew-IsSound (asked c c.peer_address m.own_profile m.own_address)) all

  either-AllSound :
      (b : Bool) (m m' : ContactManager)
      → AllSound m.contacts
      → AllSound m'.contacts
      → AllSound (if b then m else m').contacts
  either-AllSound true m m' u v = u
  either-AllSound false m m' u v = v

  handle-AllSound :
      (e : ManagerEvent) (m : ContactManager)
      → AllSound m.contacts
      → AllSound (handle engine m e).contacts
  unfolding handle add_contact connect_contact remove_contact or_insert act on_accepted on_bound
      on_accept_failed change_server_addr
  handle-AllSound (adds address key profile) m all =
      entry-AllSound (m.contacts address) address _ m
        (IsNew-IsSound (known address key profile m.own_profile m.own_address)) all
  handle-AllSound (connects_to address) m all =
      entry-AllSound (m.contacts address) address _ m
        (IsNew-IsSound (asks address m.own_profile m.own_address)) all
  handle-AllSound (removes address) m all =
      insert-AllSound address none m (λ h e. absurd (ground arith)) all
  handle-AllSound (acts address sends e) m all =
      act_on-AllSound (m.contacts address) address sends e m refl all
  handle-AllSound (accepts sends c) m all =
      either-AllSound m.connected _ m (hand_on-AllSound (m.contacts c.peer_address) sends c m all)
        all
  handle-AllSound binds m all = either-AllSound m.connected m _ all all
  handle-AllSound fails m all = either-AllSound m.connected _ m (restart-AllSound _ all) all
  handle-AllSound takes_incoming m all = all
  handle-AllSound (changes addr) m all = restart-AllSound _ all

  run-AllSound :
      (es : List ManagerEvent) (m : ContactManager)
      → AllSound m.contacts
      → AllSound (run engine m es).contacts
  unfolding run
  run-AllSound [] m all = all
  run-AllSound (e ∷ es) m all = run-AllSound es (handle engine m e) (handle-AllSound e m all)

  -- After any run of a new manager, for every contact in its map
  -- `connected` tells whether there is a connection, whose peer has a known key, a rejected contact
  -- has no connection, and neither queue has more than max_packets packets.
  pub run-new-AllSound :
      (es : List ManagerEvent) (server_addr : ℕ) (p : ContactProfile) (own : Address)
      → AllSound (run engine (new server_addr p own) es).contacts
  unfolding new
  run-new-AllSound es server_addr p own = run-AllSound es _ (λ a h e. absurd (ground arith))
