-- ===== src/Vm/Steps/Input.antt =====
-- AdminVirtualMachine.hpp, `ReadInstruction`: whose input reaches a VM.
use collab_vm_server.Base.{ℕ, ◌≡◌, ◌≢◌, false, [], arith}
use collab_vm_server.Vm.{VmState, has_current_turn, is_admin_user}
use collab_vm_server.Vm.Control.{read_instruction}

-- While the input of a user who is no administrator reaches the VM, that of no other such user does.
pub input_exclusive :
    (s : VmState) (u v i j : ℕ)
    → is_admin_user s u ≡ false
    → is_admin_user s v ≡ false
    → read_instruction s u i ≢ []
    → v ≢ u
    → read_instruction s v j ≡ []
unfolding read_instruction has_current_turn
input_exclusive s u v i j nu nv accepted other = ground (arith, nu, nv, accepted)
