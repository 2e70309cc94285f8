-- ===== src/Machines.antt =====
-- CollabVmServer.hpp: the calls of VMs that the messages of a client lead to. A task looks the VM up in
-- the map and calls it; the VM runs the call on its own strand, which is a step of the VM here. `none`
-- is undefined behaviour of a VM's turn controller.
pub mod Kept
pub mod Visitors
pub mod Tests
use collab_vm_server.Base.{ℕ, Bool, List, [], ◌∷◌, ◌++◌, map, Option, none, some, ◌>>=◌}
use collab_vm_server.Base.Dict.{lookup, modify}
use collab_vm_server.Client.{
  Socket, Rules, ClientMessage, VmCall, requests_turn, ends_turn, votes, sends_input, pauses_turns,
  resumes_turns, cancels_vote, starts, stops, restarts, Task, call_connected_vm, call_vm,
  call_each_vm,
}
use collab_vm_server.Client.Handle.{on_message}
use collab_vm_server.Vm.{VmState, Now, Effect}
use collab_vm_server.Vm.Steps as Steps

-- The map of VMs, and the positions of all sockets in the queues of the VMs: a user has one position,
-- whichever VM has given it.
pub record Machines : Type 0 where
  pub vms : List (ℕ × VmState)
  pub positions : ℕ → Option ℕ

-- An effect of a VM, with the VM's number.
abbrev pub Told : Type 0
Told = List (ℕ × Effect)

-- The VMs after calls of them, what they did, and the tasks that are no calls of VMs and still to be
-- done, such as to connect, to say something in a chat and to take a new name.
pub record Served : Type 0 where
  pub machines : Machines
  pub told : Told
  pub left : List Task

-- A VM as its handler finds it.
abbrev pub with_positions : (ℕ → Option ℕ) → VmState → VmState
with_positions positions s = record s { turn = record s.turn { positions = positions } }

-- `was_running` is the result of `cancel()` of the VM's turn timer.
abbrev pub event_of : (self : ℕ) → (was_running : Bool) → VmCall → Steps.Event
event_of self was_running requests_turn = Steps.turn_requested self
event_of self was_running ends_turn = Steps.turn_ended_by self
event_of self was_running (votes voted_yes) = Steps.user_votes self voted_yes
event_of self was_running (sends_input instruction) = Steps.input self instruction
event_of self was_running pauses_turns = Steps.turns_paused was_running
event_of self was_running resumes_turns = Steps.turns_resumed
event_of self was_running cancels_vote = Steps.vote_cancelled
event_of self was_running starts = Steps.started
event_of self was_running stops = Steps.stopped
event_of self was_running restarts = Steps.restarted

-- The socket that calls, and what the VMs read of the world.
module _ (self : ℕ) (was_running : Bool) (now : Now) where
  -- A VM that does not exist is not called.
  unfoldable pub call_machine : Machines → ℕ → VmCall → Option Served
  call_machine ms vm_id call = elim (lookup vm_id ms.vms) [
    | none ↦ some (record { machines = ms; told = []; left = [] })
    | some s ↦
        elim (Steps.step (with_positions ms.positions s) now (event_of self was_running call)) [
          | none ↦ none
          | some (s', es) ↦ some (record {
            machines = record {
              vms = modify vm_id (λ _. s') ms.vms;
              positions = s'.turn.positions;
            };
            told = map (λ e. (vm_id, e)) es;
            left = [];
          })
        ]
  ]

  -- What comes after a call.
  abbrev pub and_then : Option Served → (Machines → Option Served) → Option Served
  and_then first rest = first >>= λ f. rest f.machines >>= λ r.
      some (record { machines = r.machines; told = f.told ++ r.told; left = f.left ++ r.left })

  -- The loops of `START_VMS`, `STOP_VMS` and `RESTART_VMS` return at the first VM that does not exist.
  unfoldable pub call_each_machine : Machines → List ℕ → VmCall → Option Served
  unfolding call_machine
  call_each_machine ms [] call = some (record { machines = ms; told = []; left = [] })
  call_each_machine ms (vm_id ∷ ids) call = elim (lookup vm_id ms.vms) [
    | none ↦ some (record { machines = ms; told = []; left = [] })
    | some s ↦ and_then (call_machine ms vm_id call) (λ next. call_each_machine next ids call)
  ]

  -- A task that calls VMs is done, another one is left.
  unfoldable pub perform : Socket → Machines → Task → Option Served
  unfolding call_each_machine
  perform c ms (call_connected_vm call) = call_machine ms c.connected_vm_id call
  perform c ms (call_vm vm_id call) = call_machine ms vm_id call
  perform c ms (call_each_vm ids call) = call_each_machine ms ids call
  perform c ms task = some (record { machines = ms; told = []; left = task ∷ [] })

  unfoldable pub perform_all : Socket → Machines → List Task → Option Served
  unfolding perform
  perform_all c ms [] = some (record { machines = ms; told = []; left = [] })
  perform_all c ms (t ∷ ts) = and_then (perform c ms t) (λ next. perform_all c next ts)

  -- A message of the client, with the calls of VMs that it leads to.
  unfoldable pub serve :
      Rules → Socket → Machines → (time : ℕ) → Option ClientMessage → Option Served
  unfolding perform_all
  serve rules c ms time message =
      let (c', tasks) = on_message rules c time message in perform_all c' ms tasks
