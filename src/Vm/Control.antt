-- ===== src/Vm/Control.antt =====
-- AdminVirtualMachine.hpp: the turns of a VM, its input, and its start and stop.
use collab_vm_server.Base.{
  ℕ, Bool, true, false, not, ◌&&◌, ◌||◌, List, [], ◌∷◌, ◌++◌, map, Option, none, some,
  if◌then◌else◌,
}
use collab_vm_server.User.{UserData}
use collab_vm_server.Turn as TurnModule
use collab_vm_server.Turn.{TurnController, is_paused}
use collab_vm_server.Vm.{
  VmState, Now, Effect, Protocol, rdp, vnc, other_protocol, execute_command, start_recording,
  stop_recording, update_vm_info, set_guacamole_arguments, start_guacamole, stop_guacamole,
  send_guacamole_state, instruction_read, instruction_recorded, instructions_queued,
  recording_settings_set, start_connect_delay_timer, cancel_connect_delay_timer, turn_effects,
  has_current_turn, is_admin_user,
}

-- The state and the effects after calls of the turn controller that end with `turn`.
unfoldable pub with_turn :
    VmState → Now → TurnController → List TurnModule.Effect → VmState × List Effect
with_turn s now turn es =
    let s' = record s { turn = turn } in (s', turn_effects s' now.turn_after es)

abbrev pub after_turn :
    VmState
    → Now
    → Option (TurnController × List TurnModule.Effect × Bool)
    → Option (VmState × List Effect)
after_turn s now none = none
after_turn s now (some (turn, es, result)) = some (with_turn s now turn es)

unfoldable pub request_turn : VmState → Now → ℕ → VmState × List Effect
unfolding with_turn
request_turn s now user =
    let (turn, es, result) = TurnModule.request_turn s.turn user now.turn_before in
    if s.settings.turns_enabled then with_turn s now turn es else (s, [])

-- `was_running` is the result of `cancel()` of the turn timer.
unfoldable pub pause_turn_timer : VmState → Now → (was_running : Bool) → VmState × List Effect
unfolding with_turn
pause_turn_timer s now was_running =
    let (turn, es) = TurnModule.pause_turn_timer s.turn was_running now.turn_before in
    if s.settings.turns_enabled then with_turn s now turn es else (s, [])

unfoldable pub resume_turn_timer : VmState → Now → VmState × List Effect
unfolding with_turn
resume_turn_timer s now =
    let (turn, es) = TurnModule.resume_turn_timer s.turn in
    if s.settings.turns_enabled then with_turn s now turn es else (s, [])

unfoldable pub end_current_turn : VmState → Now → ℕ → Option (VmState × List Effect)
unfolding with_turn
end_current_turn s now user =
    if s.settings.turns_enabled && (has_current_turn s user || is_admin_user s user)
    then after_turn s now (TurnModule.end_current_turn s.turn now.turn_before)
    else some (s, [])

-- The handler of the turn timer.
unfoldable pub turn_timer_handler :
    VmState → Now → (failed : Bool) → (current : ℕ) → Option (VmState × List Effect)
unfolding with_turn
turn_timer_handler s now failed current =
    after_turn s now (TurnModule.on_timer s.turn failed current now.turn_before)

-- An instruction is input that a user sends, as a number.
unfoldable pub read_instruction : VmState → ℕ → (instruction : ℕ) → List Effect
read_instruction s user instruction =
    if s.connected && (has_current_turn s user && not (is_paused s.turn) || is_admin_user s user)
    then instruction_read instruction ∷ instruction_recorded instruction ∷ []
    else []

abbrev command : List ℕ → List Effect
command [] = []
command (c ∷ cs) = execute_command (c ∷ cs) ∷ []

abbrev start_client : Protocol → List Effect
start_client rdp = start_guacamole rdp ∷ []
start_client vnc = start_guacamole vnc ∷ []
start_client other_protocol = []

unfoldable pub start : VmState → VmState × List Effect
start s = if s.active then (s, []) else (
  record s { active = true },
  (if s.settings.recordings_enabled then start_recording ∷ [] else [])
      ++ command s.settings.start_command
      ++ update_vm_info
        ∷ set_guacamole_arguments s.settings.guacamole_parameters
        ∷ start_client s.settings.protocol,
)

unfoldable pub stop : VmState → VmState × List Effect
stop s = if not s.active then (s, stop_recording ∷ []) else (
  record s { active = false },
  stop_recording
      ∷ (command s.settings.stop_command ++ cancel_connect_delay_timer ∷ stop_guacamole ∷ []),
)

-- The Guacamole client has connected; all users get the state of its display.
unfoldable pub on_start : VmState → VmState × List Effect
on_start s =
    if not s.active
    then (s, stop_guacamole ∷ [])
    else (record s { connected = true }, update_vm_info ∷ send_guacamole_state ∷ [])

-- The Guacamole client has stopped; an active VM connects again in a second.
unfoldable pub on_stop : VmState → VmState × List Effect
on_stop s = (
  if s.connected || not s.active then record s { connected = false } else s,
  (if s.connected || not s.active then update_vm_info ∷ [] else [])
      ++ (if not s.active then [] else start_connect_delay_timer 1 ∷ []),
)

unfoldable pub connect_delay_handler : VmState → (failed : Bool) → List Effect
connect_delay_handler s failed =
    if failed || not s.active
    then update_vm_info ∷ []
    else (if s.settings.run_start_command_after_disconnect
        then command s.settings.start_command
        else [])
      ++ start_client s.settings.protocol

abbrev pub queue_instructions : List ℕ → ℕ × UserData → Effect
queue_instructions instructions (user, d) = instructions_queued user instructions

-- Every user of the channel gets the batch, whether the VM is active or not.
unfoldable pub on_guacamole_instructions : VmState → (instructions : List ℕ) → List Effect
on_guacamole_instructions s instructions = map (queue_instructions instructions) s.channel.users

-- `is_recording` is what the recording answers after it got its settings.
unfoldable pub set_recording_settings : VmState → (is_recording : Bool) → List Effect
set_recording_settings s is_recording =
    recording_settings_set
    ∷ (if s.active && (s.settings.recordings_enabled && not is_recording)
        then start_recording ∷ []
        else [])
