-- ===== src/Vm/Steps.antt =====
-- AdminVirtualMachine.hpp: handlers of a VM as the steps of one machine. They run on the VM's strand, one
-- after the other, in any order. Chat messages, new names, `SetVmInfo` and what is recorded are not
-- among them.
pub mod Kept
pub mod Turns
pub mod Safety
pub mod Input
pub mod Effects
pub mod Silent
pub mod Quiet
use collab_vm_server.Base.{ℕ, Bool, List, [], ◌∷◌, Option, none, some}
use collab_vm_server.User.{UserData}
use collab_vm_server.Vm.{VmState, VmSettings, Now, Effect}
use collab_vm_server.Vm.Users.{join, leave}
use collab_vm_server.Vm.Votes.{
  vote, vote_timer_handler, cooldown_timer_handler, cancel_vote, restart,
}
use collab_vm_server.Vm.Control.{
  request_turn, pause_turn_timer, resume_turn_timer, end_current_turn, turn_timer_handler,
  read_instruction, start, stop, on_start, on_stop, connect_delay_handler,
  on_guacamole_instructions, set_recording_settings,
}
use collab_vm_server.Vm.Settings.{update_settings}

pub data Event : Type 0 where
  user_joins : UserData → ℕ → Event
  user_leaves : ℕ → Event
  user_votes : ℕ → Bool → Event
  vote_timer_fires : (failed : Bool) → Event
  cooldown_fires : Event
  vote_cancelled : Event
  turn_requested : ℕ → Event
  turns_paused : (was_running : Bool) → Event
  turns_resumed : Event
  turn_ended_by : ℕ → Event
  turn_timer_fires : (failed : Bool) → (current : ℕ) → Event
  input : ℕ → ℕ → Event
  started stopped restarted : Event
  client_started client_stopped : Event
  connect_delay_fires : (failed : Bool) → Event
  settings_updated : VmSettings → Event
  instructions_received : (instructions : List ℕ) → Event
  recording_settings_changed : (is_recording : Bool) → Event

abbrev without_valid : VmState × List Effect × Bool → VmState × List Effect
without_valid (s, es, valid) = (s, es)

unfoldable pub step : VmState → Now → Event → Option (VmState × List Effect)
step s now (user_joins d user) = some (join s now d user)
step s now (user_leaves user) = leave s now user
step s now (user_votes user voted_yes) = some (vote s now user voted_yes)
step s now (vote_timer_fires failed) = some (vote_timer_handler s now failed)
step s now cooldown_fires = some (cooldown_timer_handler s now)
step s now vote_cancelled = some (s, cancel_vote)
step s now (turn_requested user) = some (request_turn s now user)
step s now (turns_paused was_running) = some (pause_turn_timer s now was_running)
step s now turns_resumed = some (resume_turn_timer s now)
step s now (turn_ended_by user) = end_current_turn s now user
step s now (turn_timer_fires failed current) = turn_timer_handler s now failed current
step s now (input user instruction) = some (s, read_instruction s user instruction)
step s now started = some (start s)
step s now stopped = some (stop s)
step s now restarted = some (s, restart s)
step s now client_started = some (on_start s)
step s now client_stopped = some (on_stop s)
step s now (connect_delay_fires failed) = some (s, connect_delay_handler s failed)
step s now (settings_updated new) = some (without_valid (update_settings s now new))
step s now (instructions_received instructions) = some (s, on_guacamole_instructions s instructions)
step s now (recording_settings_changed is_recording) =
    some (s, set_recording_settings s is_recording)

-- Handlers that run one after the other.
unfoldable pub run : VmState → List (Now × Event) → Option VmState
unfolding step
run s [] = some s
run s ((now, e) ∷ es) = elim (step s now e) [ none ↦ none | some (s', told) ↦ run s' es ]
