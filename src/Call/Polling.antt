-- ===== src/Call/Polling.antt =====
-- ntied/src/call/manager.rs: the polling tasks of contacts. A contact is its address and whether it
-- is connected. The map keeps the handle of a task also after the task has ended.
use ntied.Common.{
  ◌≡◌, refl, ap, Bool, true, false, ◌&&◌, ◌||◌, List, [], ◌∷◌, Option, none, some, if◌then◌else◌,
  arith,
}
use ntied.Address.{Address}
use ntied.Call.Handlers.{is_address}
use ntied.Call.Invariant.{is_address_yes}

abbrev pub Contact : Type 0
Contact = Address × Bool

-- Whether the task behind a handle still polls.
pub data Task : Type 0 where
  running ended : Task

-- `polling_tasks`.
abbrev pub Tasks : Type 0
Tasks = Address → Option Task

-- `any(|c| c.address() == address && c.is_connected())`.
unfoldable pub has_connected : List Contact → Address → Bool
has_connected [] a = false
has_connected ((b, connected) ∷ rest) a = (is_address b a && connected) || has_connected rest a

-- The tasks of contacts that are gone or disconnected are removed and aborted.
unfoldable pub stop_tasks : List Contact → Tasks → Tasks
stop_tasks contacts tasks = λ a. if has_connected contacts a then tasks a else none

unfoldable pub insert_task : Address → Tasks → Tasks
insert_task a tasks = λ b. if is_address a b then some running else tasks b

-- `contains_key` tells of the handle, not of the task.
unfoldable pub start_task : Contact → Tasks → Tasks
unfolding insert_task
start_task (a, connected) tasks =
    if connected then (elim (tasks a) [ some _ ↦ tasks | none ↦ insert_task a tasks ]) else tasks

-- The contacts in their order.
unfoldable pub start_tasks : List Contact → Tasks → Tasks
unfolding start_task
start_tasks [] tasks = tasks
start_tasks (c ∷ rest) tasks = start_tasks rest (start_task c tasks)

-- One turn of `manage_polling_tasks`.
unfoldable pub tick : List Contact → Tasks → Tasks
unfolding stop_tasks start_tasks
tick contacts tasks = start_tasks contacts (stop_tasks contacts tasks)

-- `poll_contact_packets` leaves its loop: it saw its contact disconnected, or got an error.
unfoldable pub end_task : Address → Tasks → Tasks
end_task a tasks =
    λ b. if is_address a b then (elim (tasks b) [ some _ ↦ some ended | none ↦ none ]) else tasks b

pub data PollEvent : Type 0 where
  turns : List Contact → PollEvent
  breaks : Address → PollEvent

unfoldable pub run : List PollEvent → Tasks → Tasks
unfolding tick end_task
run [] tasks = tasks
run (turns contacts ∷ es) tasks = run es (tick contacts tasks)
run (breaks a ∷ es) tasks = run es (end_task a tasks)

-- Every turn sees a connected contact at the address.
abbrev pub SeenAt : Address → List PollEvent → Type 0
SeenAt a [] = Unit
SeenAt a (turns contacts ∷ es) = (has_connected contacts a ≡ true) × SeenAt a es
SeenAt a (breaks b ∷ es) = SeenAt a es

-- Whether the task of the address has left its loop in a run.
unfoldable pub breaks_at : Address → List PollEvent → Bool
breaks_at a [] = false
breaks_at a (turns contacts ∷ es) = breaks_at a es
breaks_at a (breaks b ∷ es) = is_address b a || breaks_at a es

-- What a turn makes of one entry of the map.
unfoldable pub renewed : Bool → Option Task → Option Task
renewed false t = none
renewed true none = some running
renewed true (some t) = some t

start_task-renewed :
    (c : Contact) (tasks : Tasks) (a : Address)
    → start_task c tasks a ≡ (if is_address c.0 a && c.1 then renewed true (tasks a) else tasks a)
unfolding start_task insert_task renewed
start_task-renewed (b, connected) tasks a = ground (arith, ap tasks, is_address_yes b a)

start_tasks-renewed :
    (contacts : List Contact) (tasks : Tasks) (a : Address)
    → start_tasks contacts tasks a
      ≡ (if has_connected contacts a then renewed true (tasks a) else tasks a)
unfolding start_tasks has_connected renewed
start_tasks-renewed [] tasks a = refl
start_tasks-renewed (c ∷ rest) tasks a =
    ground (arith, start_tasks-renewed rest (start_task c tasks) a, start_task-renewed c tasks a)

-- A turn keeps the entries of addresses with a connected contact, adds the missing ones with a new
-- task, and removes all others.
tick-renewed :
    (contacts : List Contact) (tasks : Tasks) (a : Address)
    → tick contacts tasks a ≡ renewed (has_connected contacts a) (tasks a)
unfolding tick stop_tasks renewed
tick-renewed contacts tasks a =
    ground (arith, start_tasks-renewed contacts (stop_tasks contacts tasks) a)

end_task_at :
    (b a : Address) (tasks : Tasks) (t : Task)
    → tasks a ≡ some t
    → end_task b tasks a ≡ some (if is_address b a then ended else t)
unfolding end_task
end_task_at b a tasks t e = ground (arith, e)

-- As long as every turn sees a connected contact at an address that has a task, the entry stays, and
-- polls exactly if it did at the start and has not left its loop since.
run-kept :
    (es : List PollEvent) (tasks : Tasks) (a : Address) (t : Task)
    → SeenAt a es
    → tasks a ≡ some t
    → run es tasks a ≡ some (if breaks_at a es then ended else t)
unfolding run breaks_at
run-kept [] tasks a t seen e = e
run-kept (turns contacts ∷ es) tasks a t seen e = run-kept es (tick contacts tasks) a t seen.1 (
    let turned = tick-renewed contacts tasks a in
    unfold renewed in ground (arith, turned, seen.0, e))
run-kept (breaks b ∷ es) tasks a t seen e =
    let rest =
      run-kept es (end_task b tasks) a (if is_address b a then ended else t) seen
        (end_task_at b a tasks t e) in
    ground (arith, rest)

abbrev pub or_running : Option Task → Task
or_running none = running
or_running (some t) = t

-- From a turn on that sees a connected contact at an address, as long as every turn sees one: the
-- entry that was there is kept, else a new task polls, and no later turn replaces it when it has left
-- its loop. So a task that ended, for one because its contact was disconnected between two turns, is
-- never started again while the turns see the contact connected. The first turn that sees no
-- connected contact there removes the entry.
pub tick-run :
    (first last : List Contact) (es : List PollEvent) (tasks : Tasks) (a : Address)
    → has_connected first a ≡ true
    → SeenAt a es
    → tick last (run (turns first ∷ es) tasks) a ≡ (
        if has_connected last a
        then some (if breaks_at a es then ended else or_running (tasks a))
        else none)
unfolding run
tick-run first last es tasks a connected seen =
    let begun = tick-renewed first tasks a in
    let kept =
      run-kept es (tick first tasks) a (or_running (tasks a)) seen
        (unfold renewed in ground (arith, begun, connected)) in
    let turned = tick-renewed last (run es (tick first tasks)) a in
    unfold renewed in ground (arith, turned, kept)
