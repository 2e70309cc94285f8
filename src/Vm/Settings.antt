-- ===== src/Vm/Settings.antt =====
-- AdminVirtualMachine.hpp: new settings of a VM, checked and applied.
use collab_vm_server.Base.{
  ℕ, ◌*◌, ◌^◌, Bool, true, false, not, ◌&&◌, ◌||◌, List, [], ◌∷◌, ◌++◌, ltb, if◌then◌else◌,
  same_text,
}
use collab_vm_server.User.{UserData, is_registered}
use collab_vm_server.Message.{vm_description}
use collab_vm_server.Chat.{ChatRoom}
use collab_vm_server.Turn as TurnModule
use collab_vm_server.Turn.{TurnController}
use collab_vm_server.Vote.{idle}
use collab_vm_server.Channel.{new_channel}
use collab_vm_server.Vm.{
  VmState, VmSettings, Now, Effect, close_socket, start_recording, stop_recording,
  set_guacamole_arguments, broadcast, get_vote_status, turn_effects,
}
use collab_vm_server.Vm.Votes.{cancel_vote}

-- Seconds as ticks of the steady clock.
abbrev pub seconds : ℕ → ℕ
seconds n = n * 10 ^ 9

-- A VM with its first settings.
unfoldable pub new_vm : VmSettings → ChatRoom → VmState
new_vm settings room = record {
  settings = settings;
  turn = TurnModule.set_turn_time TurnModule.initial (seconds settings.turn_time);
  vote = record { vote_state = idle; yes_vote_count = 0; no_vote_count = 0 };
  channel = new_channel room;
  active = false;
  connected = false;
}

unfoldable pub validate_settings : VmSettings → Bool
validate_settings n =
    (not n.turns_enabled || ltb 0 n.turn_time) && (not n.votes_enabled || ltb 0 n.vote_time)

abbrev pub differ : Bool → Bool → Bool
differ true b = not b
differ false b = b

-- The sockets of the users who are not registered.
unfoldable pub close_guests : List (ℕ × UserData) → List Effect
close_guests [] = []
close_guests ((user, d) ∷ users) =
    let rest = close_guests users in
    if is_registered d.user_type then rest else close_socket user ∷ rest

-- The turns by new settings.
unfoldable pub apply_turns : VmState → Now → (new : VmSettings) → VmState × List Effect
apply_turns s now new =
    let timed = TurnModule.set_turn_time s.turn (seconds new.turn_time) in
    let (cleared, es) = TurnModule.clear timed in
    let s' = record s { settings = new; turn = cleared } in
    if not new.turns_enabled && s.settings.turns_enabled
    then (s', turn_effects s' now.turn_after es)
    else (record s { settings = new; turn = timed }, [])

-- The rest of `ApplySettings`, in a state that has the new settings.
unfoldable pub apply_others : VmState → Now → (previous : VmSettings) → List Effect
unfolding close_guests
apply_others s now previous =
    let new = s.settings in
    (if differ new.votes_enabled previous.votes_enabled
      then (if not new.votes_enabled then cancel_vote else [])
        ++ broadcast s (get_vote_status s now.vote_until)
      else [])
    ++ (if same_text previous.description new.description
        then []
        else broadcast s (vm_description new.description))
    ++ (if new.disallow_guests && not previous.disallow_guests
        then close_guests s.channel.users
        else [])
    ++ (if s.active && differ new.recordings_enabled previous.recordings_enabled
        then (if new.recordings_enabled then start_recording else stop_recording) ∷ []
        else [])
    ++ set_guacamole_arguments new.guacamole_parameters ∷ []

-- `UpdateSettings` with the list that `Database::UpdateList` makes; true if it is valid.
unfoldable pub update_settings : VmState → Now → (new : VmSettings) → VmState × List Effect × Bool
unfolding apply_turns apply_others
update_settings s now new =
    let (s', es) = apply_turns s now new in
    if validate_settings new
    then (s', es ++ apply_others s' now s.settings, true)
    else (s, [], false)
