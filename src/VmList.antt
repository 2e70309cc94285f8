-- ===== src/VmList.antt =====
-- CollabVmServer.hpp, `VirtualMachinesList`: the lists of VMs that clients and administrators see, with
-- AdminVirtualMachine.hpp, `SetVmInfo`, which fills in a VM's part. A message that holds a list is the
-- list. A VM's own state is elsewhere; the map of VMs has here what `AdminVm` adds to it. `none` as a
-- result is a write out of bounds or a null pointer.
pub mod Resizable
pub mod Equivalence
pub mod Info
pub mod Update
pub mod Answers
pub mod Complete
pub mod Due
pub mod Load
pub mod Loading
pub mod Tests
use collab_vm_server.Base.{
  ℕ, Bool, true, false, not, ◌&&◌, List, [], ◌∷◌, ◌++◌, map, Option, none, some, length, ◌==◌,
  if◌then◌else◌,
}
use collab_vm_server.Base.Dict.{has_key, emplace, remove}
use collab_vm_server.VmList.Resizable.{reset, add, remove_first}

pub data VmStatus : Type 0 where
  running starting stopped : VmStatus

pub record AdminVmInfo : Type 0 where
  pub id : ℕ
  pub name : List ℕ
  pub status : VmStatus

-- The settings that are copied, from the operating system to the disk space, are left out.
pub record VmInfo : Type 0 where
  pub id : ℕ
  pub name : List ℕ
  pub host : List ℕ
  pub input : Bool
  pub viewer_count : ℕ

abbrev pub blank_admin_info : AdminVmInfo
blank_admin_info = record { id = 0; name = []; status = stopped }

abbrev pub blank_info : VmInfo
blank_info = record { id = 0; name = []; host = []; input = false; viewer_count = 0 }

pub record AdminVm : Type 0 where
  pub has_vm_info : Bool
  pub pending_admin_vm_info : Option AdminVmInfo
  pub pending_vm_info : Option VmInfo

abbrev pub new_admin_vm : AdminVm
new_admin_vm = record { has_vm_info = false; pending_admin_vm_info = none; pending_vm_info = none }

pub record VmList : Type 0 where
  pub admin_virtual_machines : List (ℕ × AdminVm)
  pub admin_vm_info_list : List AdminVmInfo
  pub vm_info_list : List VmInfo
  pub vm_list_viewers : List ℕ
  pub admin_vm_list_viewers : List ℕ
  pub thumbnails : List (ℕ × List ℕ)
  pub pending_vm_info_requests : ℕ
  pub pending_vm_info_updates : ℕ

pub data ListMessage : Type 0 where
  vm_list : List VmInfo → ListMessage
  admin_vm_list : List AdminVmInfo → ListMessage
  vm_thumbnail : ℕ × List ℕ → ListMessage
  server_settings : List ℕ → ListMessage

pub data Effect : Type 0 where
  sent_to : (viewer : ℕ) → List ListMessage → Effect
  -- `SetVmInfo` of a VM, with the callback of the bulk update or that of a single VM.
  asked_all asked_one : (vm_id : ℕ) → Effect
  vm_stopped channel_cleared : (vm_id : ℕ) → Effect

-- One message, or one batch, to every viewer.
abbrev pub send_all : List ℕ → List ListMessage → List Effect
send_all viewers messages = map (λ viewer. sent_to viewer messages) viewers

abbrev pub list_and_thumbnails : VmList → List ListMessage
list_and_thumbnails s = vm_list s.vm_info_list ∷ map vm_thumbnail s.thumbnails

unfoldable pub add_vm_list_viewer : VmList → ℕ → VmList × List Effect
add_vm_list_viewer s viewer = (
  record s { vm_list_viewers = s.vm_list_viewers ++ viewer ∷ [] },
  sent_to viewer (list_and_thumbnails s) ∷ [],
)

unfoldable pub add_admin_vm_list_viewer : VmList → ℕ → VmList × List Effect
add_admin_vm_list_viewer s viewer = (
  record s { admin_vm_list_viewers = s.admin_vm_list_viewers ++ viewer ∷ [] },
  sent_to viewer (admin_vm_list s.admin_vm_info_list ∷ []) ∷ [],
)

unfoldable pub send_admin_vm_list : VmList → ℕ → List Effect
send_admin_vm_list s client = sent_to client (admin_vm_list s.admin_vm_info_list ∷ []) ∷ []

-- The first that is found is erased.
unfoldable pub erase_viewer : ℕ → List ℕ → List ℕ
erase_viewer viewer [] = []
erase_viewer viewer (v ∷ vs) = if v == viewer then vs else v ∷ erase_viewer viewer vs

unfoldable pub remove_vm_list_viewer : VmList → ℕ → VmList
unfolding erase_viewer
remove_vm_list_viewer s viewer = record s {
  vm_list_viewers = erase_viewer viewer s.vm_list_viewers;
}

unfoldable pub remove_admin_vm_list_viewer : VmList → ℕ → VmList
unfolding erase_viewer
remove_admin_vm_list_viewer s viewer = record s {
  admin_vm_list_viewers = erase_viewer viewer s.admin_vm_list_viewers;
}

unfoldable pub send_excluding : ℕ → List ListMessage → List ℕ → List Effect
send_excluding exclude messages [] = []
send_excluding exclude messages (v ∷ vs) =
    let rest = send_excluding exclude messages vs in
    if v == exclude then rest else sent_to v messages ∷ rest

-- The early return for no other viewer changes nothing.
unfoldable pub broadcast_to_viewing_admins_excluding : VmList → List ℕ → ℕ → List Effect
unfolding send_excluding
broadcast_to_viewing_admins_excluding s settings exclude = elim s.admin_vm_list_viewers [
  | [] ↦ []
  | v ∷ vs ↦
      if length vs == 0 && v == exclude
      then []
      else send_excluding exclude (server_settings settings ∷ []) (v ∷ vs)
]

-- The new VM fills the blank that is added to the list.
unfoldable pub add_admin_virtual_machine : VmList → ℕ → AdminVmInfo → Option VmList
add_admin_virtual_machine s id info = elim (add blank_admin_info s.admin_vm_info_list info) [
  | none ↦ none
  | some list ↦ some (record s {
    admin_virtual_machines = emplace id new_admin_vm s.admin_virtual_machines;
    admin_vm_info_list = list;
  })
]

abbrev pub has_admin_id : ℕ → AdminVmInfo → Bool
has_admin_id id info = info.id == id

unfoldable pub remove_admin_virtual_machine : VmList → ℕ → Option (VmList × List Effect × Bool)
remove_admin_virtual_machine s id =
    if not (has_key id s.admin_virtual_machines)
    then some (s, [], false)
    else (elim (remove_first blank_admin_info (has_admin_id id) s.admin_vm_info_list) [
      | none ↦ none
      | some list ↦ some (
        record s {
          admin_virtual_machines = remove id s.admin_virtual_machines;
          admin_vm_info_list = list;
        },
        vm_stopped id ∷ channel_cleared id ∷ [],
        true,
      )
    ])
