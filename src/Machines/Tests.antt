-- ===== src/Machines/Tests.antt =====
-- A map with one VM, and a client that has joined it.
use collab_vm_server.Base.{true, false, [], ◌∷◌}
use collab_vm_server.Base.Int.{pos}
use collab_vm_server.User.{guest}
use collab_vm_server.Chat.{new_room}
use collab_vm_server.Client.{Socket, new_socket}
use collab_vm_server.Vm.{VmState, VmSettings, Now, vnc}
use collab_vm_server.Turn.{empty_positions}
use collab_vm_server.Vm.Settings.{new_vm}
use collab_vm_server.Machines.{Machines}
use collab_vm_server.Machines.Kept.{Kept}

abbrev settings : VmSettings
settings = record {
  name = 118 ∷ [];
  description = [];
  turns_enabled = true;
  turn_time = 10;
  votes_enabled = true;
  vote_time = 60;
  vote_cooldown_time = 600;
  disallow_guests = false;
  disallow_guest_votes = false;
  recordings_enabled = false;
  start_command = 115 ∷ [];
  stop_command = [];
  restart_command = 114 ∷ [];
  run_start_command_after_disconnect = true;
  protocol = vnc;
  guacamole_parameters = [];
}

abbrev machine : VmState
machine = new_vm settings (new_room 4 3 guest 1)

abbrev machines : Machines
machines = record { vms = (3, machine) ∷ []; positions = empty_positions }

abbrev now : Now
now = record { turn_before = pos 0; turn_after = pos 0; vote_until = pos 0; vote_limit = 3 }

abbrev visitor : Socket
visitor = record new_socket { connected_vm_id = 3 }
