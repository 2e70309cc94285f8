-- ===== src/Machines/Visitors.antt =====
-- What the messages of clients do to the VMs.
use collab_vm_server.Base.{◌≡◌, Bool, true, false, not}
use collab_vm_server.Client.{
  VmCall, requests_turn, votes, sends_input, Task, call_vm, call_connected_vm, call_each_vm,
}
use collab_vm_server.Client.Safety.{is_admin_task}
use collab_vm_server.Vm.{VmState}
use collab_vm_server.Vm.Steps as Steps
use collab_vm_server.Machines.{Machines}
use collab_vm_server.Machines.Kept.{Kept}

-- Nothing that only an administrator may change is changed.
abbrev pub Untouched : VmState → VmState → Type 0
Untouched s s' =
    (s'.settings ≡ s.settings)
    × (s'.active ≡ s.active)
    × (s'.connected ≡ s.connected)
    × (s'.channel.chat_room ≡ s.channel.chat_room)
    × (s'.channel.admins_count ≡ s.channel.admins_count)

-- A turn request, a vote or input.
abbrev visitor_call : VmCall → Bool
visitor_call requests_turn = true
visitor_call (votes v) = true
visitor_call (sends_input i) = true
visitor_call _ = false

-- A task that is no call of a VM and that is not only for administrators.
abbrev pub is_visitor_task : Task → Bool
is_visitor_task (call_connected_vm call) = false
is_visitor_task (call_vm vm_id call) = false
is_visitor_task (call_each_vm ids call) = false
is_visitor_task task = not (is_admin_task task)
