-- ===== src/VmList/Update.antt =====
-- CollabVmServer.hpp: the update of the infos of all VMs every ten seconds, and that of one VM. A VM
-- answers on its own strand, so other calls run between a request and its answer. The number of a
-- VM is not used again while an answer is due.
use collab_vm_server.Base.{
  ℕ, ◌+◌, ◌-◌, ◌^◌, Bool, true, false, not, ◌&&◌, List, [], ◌∷◌, ◌++◌, map, Option, none, some,
  length, ◌==◌, if◌then◌else◌, ◌>>=◌,
}
use collab_vm_server.Base.Dict.{lookup, emplace, remove, modify}
use collab_vm_server.VmList.{
  VmList, AdminVm, AdminVmInfo, VmInfo, Effect, asked_all, asked_one, vm_list, admin_vm_list,
  blank_admin_info, blank_info, send_all, list_and_thumbnails, has_admin_id,
}
use collab_vm_server.VmList.Resizable.{reset, add, remove_first, update_element, copy_elements}
use collab_vm_server.VmList.Info.{Produced}

abbrev pub set_pending : Produced → AdminVm → AdminVm
set_pending p vm = record vm {
  pending_admin_vm_info = some p.admin_vm_info;
  pending_vm_info = p.vm_info;
}

abbrev pub is_some {ℓ} : {A : Type ℓ} → Option A → Bool
is_some none = false
is_some (some a) = true

unfoldable pub update_virtual_machine_info_list : VmList → VmList × List Effect
update_virtual_machine_info_list s = if not (s.pending_vm_info_requests == 0) then (s, []) else (
  record s {
    pending_vm_info_requests = length s.admin_virtual_machines;
    pending_vm_info_updates = 0;
  },
  map (λ e. asked_all e.0) s.admin_virtual_machines,
)

-- The values that are there, in their order.
abbrev pub present {ℓ κ} : {A : Type ℓ} {B : Type κ} → (A → Option B) → List (ℕ × A) → List B
present f [] = []
present f ((k, a) ∷ m) = elim (f a) [ none ↦ present f m | some b ↦ b ∷ present f m ]

abbrev pub admin_info_of : AdminVm → Option AdminVmInfo
admin_info_of vm = vm.pending_admin_vm_info

abbrev pub info_of : AdminVm → Option VmInfo
info_of vm = vm.pending_vm_info

-- `has_vm_info` is set and the pending infos are freed.
abbrev pub published : ℕ × AdminVm → ℕ × AdminVm
published (id, vm) = (
  id,
  record {
    has_vm_info = is_some vm.pending_vm_info;
    pending_admin_vm_info = none;
    pending_vm_info = none;
  },
)

abbrev pub published_to : VmList → List Effect
published_to s =
    send_all s.vm_list_viewers (list_and_thumbnails s)
    ++ send_all s.admin_vm_list_viewers (admin_vm_list s.admin_vm_info_list ∷ [])

-- The last answer is there: the lists are made anew from the pending infos.
unfoldable pub publish : VmList → Option (VmList × List Effect)
unfolding copy_elements reset
publish s = do
  admins ←
      copy_elements (present admin_info_of s.admin_virtual_machines) 0
        (reset blank_admin_info (length s.admin_virtual_machines))
  infos ←
      copy_elements (present info_of s.admin_virtual_machines) 0
        (reset blank_info s.pending_vm_info_updates)
  let s' = record s {
    admin_virtual_machines = map published s.admin_virtual_machines;
    admin_vm_info_list = admins;
    vm_info_list = infos;
  }
  some (s', published_to s')

abbrev pub with_thumbnail : ℕ → List ℕ → List (ℕ × List ℕ) → List (ℕ × List ℕ)
with_thumbnail id [] thumbnails = thumbnails
with_thumbnail id (b ∷ bs) thumbnails = emplace id (b ∷ bs) (remove id thumbnails)

abbrev pub pred_size : ℕ → ℕ
pred_size n = if n == 0 then 2 ^ 64 - 1 else n - 1

-- An answer before the lists are published. That of a VM that is gone stays with the VM.
unfoldable pub receive : VmList → ℕ → Produced → VmList
receive s id p = record s {
  admin_virtual_machines = modify id (set_pending p) s.admin_virtual_machines;
  thumbnails = with_thumbnail id p.png_bytes s.thumbnails;
  pending_vm_info_requests = pred_size s.pending_vm_info_requests;
  pending_vm_info_updates =
      (if is_some p.vm_info then s.pending_vm_info_updates + 1 else s.pending_vm_info_updates);
}

-- The callback of the update of all VMs.
unfoldable pub answer_all : VmList → ℕ → Produced → Option (VmList × List Effect)
unfolding receive publish
answer_all s id p =
    let s' = receive s id p in
    if not (s'.pending_vm_info_requests == 0) then some (s', []) else publish s'

unfoldable pub update_virtual_machine_info : (vm_id : ℕ) → List Effect
update_virtual_machine_info vm_id = asked_one vm_id ∷ []

abbrev is_local : ℕ → VmInfo → Bool
is_local id info = info.id == id && length info.host == 0

abbrev with_info : Bool → AdminVm → AdminVm
with_info b vm = record vm { has_vm_info = b }

-- The change of the clients' list, and if there was one.
unfoldable pub change_vm_list : VmList → ℕ → AdminVm → Option VmInfo → Option (VmList × Bool)
change_vm_list s id vm none =
    if not vm.has_vm_info
    then some (s, false)
    else (elim (remove_first blank_info (is_local id) s.vm_info_list) [
      | none ↦ none
      | some list ↦ some (
        record s {
          vm_info_list = list;
          admin_virtual_machines = modify id (with_info false) s.admin_virtual_machines;
        },
        true,
      )
    ])
change_vm_list s id vm (some info) =
    elim (if vm.has_vm_info
      then update_element blank_info (is_local id) s.vm_info_list info
      else add blank_info s.vm_info_list info) [
        | none ↦ none
        | some list ↦ some (
          record s {
            vm_info_list = list;
            admin_virtual_machines = modify id (with_info true) s.admin_virtual_machines;
          },
          true,
        )
      ]

-- The callback of the update of one VM. The VM that is gone is a null pointer in the map.
unfoldable pub answer_one : VmList → ℕ → Produced → Option (VmList × List Effect)
unfolding change_vm_list
answer_one s id p = elim (lookup id s.admin_virtual_machines) [
  | none ↦ none
  | some vm ↦
      if is_some vm.pending_admin_vm_info
      then some (
        record s { admin_virtual_machines = modify id (set_pending p) s.admin_virtual_machines },
        [],
      )
      else (do
        admins ←
            update_element blank_admin_info (has_admin_id id) s.admin_vm_info_list p.admin_vm_info
        (s', changed) ← change_vm_list (record s { admin_vm_info_list = admins }) id vm p.vm_info
        some (
          s',
          send_all s'.admin_vm_list_viewers (admin_vm_list s'.admin_vm_info_list ∷ [])
              ++ (if changed
                  then send_all s'.vm_list_viewers (vm_list s'.vm_info_list ∷ [])
                  else []),
        ))
]
