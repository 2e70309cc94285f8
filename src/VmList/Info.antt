-- ===== src/VmList/Info.antt =====
-- AdminVirtualMachine.hpp: what a VM reports of itself to the lists.
use collab_vm_server.Base.{ℕ, not, List, [], Option, none, some, length, if◌then◌else◌}
use collab_vm_server.Channel.{get_id}
use collab_vm_server.Vm.{VmState}
use collab_vm_server.VmList.{AdminVmInfo, VmInfo, running, starting, stopped}

-- `VmInfoProducer`, when its callback is made.
pub record Produced : Type 0 where
  pub admin_vm_info : AdminVmInfo
  pub vm_info : Option VmInfo
  pub png_bytes : List ℕ

unfoldable pub set_admin_vm_info : VmState → AdminVmInfo
set_admin_vm_info s = record {
  id = get_id s.channel;
  name = s.settings.name;
  status = if s.connected then running else (if s.active then starting else stopped);
}

-- The screenshot is what the Guacamole client draws, if it can.
unfoldable pub set_vm_info : VmState → (screenshot : Option (List ℕ)) → Produced
unfolding set_admin_vm_info
set_vm_info s screenshot = record {
  admin_vm_info = set_admin_vm_info s;
  vm_info =
      if not s.active
      then none
      else some (record {
        id = get_id s.channel;
        name = s.settings.name;
        host = [];
        input = s.settings.turns_enabled;
        viewer_count = length s.channel.users;
      });
  png_bytes = if not s.active then [] else (elim screenshot [ none ↦ [] | some png ↦ png ]);
}
