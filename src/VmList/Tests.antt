-- ===== src/VmList/Tests.antt =====
-- Updates of a list with two VMs.
use collab_vm_server.Base.{
  ℕ, ◌≡◌, refl, Bool, true, false, List, [], ◌∷◌, Option, none, some, ◌==◌, ◌>>=◌,
}
use mathlib.Core.List.{Permᴰ}
use collab_vm_server.VmList.{
  VmList, AdminVmInfo, VmInfo, asked_all, running, new_admin_vm, blank_info,
  add_admin_virtual_machine,
}
use collab_vm_server.VmList.Resizable.{remove_first, add}
use collab_vm_server.VmList.Equivalence.{remove_first-without}
use collab_vm_server.VmList.Info.{Produced}
use collab_vm_server.VmList.Load.{
  load, read_vm_settings, finish, create_vm, before_row, set_setting,
}
use collab_vm_server.VmList.Update.{update_virtual_machine_info_list, answer_all, answer_one}
use collab_vm_server.VmList.Answers.{answers, ids_of, admin_infos, infos}
use collab_vm_server.VmList.Complete.{complete_update}
use collab_vm_server.VmList.Due.{Reachable, empty, start, machine_added, timer_asks}

abbrev info_of_vm : ℕ → VmInfo
info_of_vm id = record { id = id; name = []; host = []; input = true; viewer_count = 0 }

abbrev status_of_vm : ℕ → AdminVmInfo
status_of_vm id = record { id = id; name = []; status = running }

-- A VM that is active, or one that is not.
abbrev report : Bool → ℕ → Produced
report true id = record {
  admin_vm_info = status_of_vm id;
  vm_info = some (info_of_vm id);
  png_bytes = [];
}
report false id = record { admin_vm_info = status_of_vm id; vm_info = none; png_bytes = [] }

abbrev two_vms : VmList
two_vms = record empty.list {
  admin_virtual_machines = (1, new_admin_vm) ∷ (2, new_admin_vm) ∷ [];
  admin_vm_info_list = status_of_vm 1 ∷ status_of_vm 2 ∷ [];
}

abbrev reports : ℕ → Produced
reports id = report (id == 2) id

complete_update_example :
    (l : VmList) × (answers (update_virtual_machine_info_list two_vms).0 reports (2 ∷ 1 ∷ [])
      ≡ some l)
    × (l.admin_vm_info_list ≡ admin_infos reports (ids_of two_vms))
    × (l.vm_info_list ≡ infos reports (ids_of two_vms))
    × (l.pending_vm_info_requests ≡ 0)
complete_update_example =
    complete_update two_vms reports 2 (1 ∷ []) refl (refl, (refl, tt)) (Permᴰ.swap refl refl)

-- VM 1 answers that it is not active, starts, and reports that before VM 2 answers: the list of the clients
-- has no room for its info.
abbrev told_and_started : Option VmList
told_and_started =
    answer_all (update_virtual_machine_info_list two_vms).0 1 (report false 1) >>= λ first.
    answer_one first.0 1 (report true 1) >>= λ second.
    answer_all second.0 2 (report true 2) >>= λ third. some third.0

late_start : told_and_started ≡ none
unfolding update_virtual_machine_info_list answer_all answer_one
late_start = refl

abbrev one_vm : VmList
one_vm = record empty.list {
  admin_virtual_machines = (1, new_admin_vm) ∷ [];
  admin_vm_info_list = status_of_vm 1 ∷ [];
}

one_added : Reachable (record empty { list = one_vm })
unfolding add_admin_virtual_machine add
one_added = machine_added 1 (status_of_vm 1) one_vm start refl

timer_asks_example : (update_virtual_machine_info_list one_vm).1 ≡ asked_all 1 ∷ []
timer_asks_example = timer_asks one_added

remove_first-without_example :
    remove_first blank_info (λ i. i.id == 1) (info_of_vm 1 ∷ info_of_vm 2 ∷ [])
    ≡ some (info_of_vm 2 ∷ [])
remove_first-without_example =
    remove_first-without blank_info (λ i. i.id == 1) (info_of_vm 1 ∷ info_of_vm 2 ∷ []) refl

-- The rows of two VMs with as many settings each are read; a second VM with more settings than the
-- first is an exception.
abbrev two_loaded : List (ℕ × List Bool)
two_loaded = (4, true ∷ true ∷ []) ∷ (7, false ∷ true ∷ []) ∷ []

loaded : load 3 ((4, true) ∷ (4, true) ∷ (7, false) ∷ (7, true) ∷ []) ≡ some two_loaded
unfolding load read_vm_settings finish create_vm before_row set_setting
loaded = refl

not_loaded : load 3 ((4, true) ∷ (7, false) ∷ (7, true) ∷ []) ≡ none
unfolding load read_vm_settings finish create_vm before_row set_setting
not_loaded = refl
