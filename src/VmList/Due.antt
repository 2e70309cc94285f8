-- ===== src/VmList/Due.antt =====
-- The counter of the answers that are due, over all runs of the list of VMs.
use collab_vm_server.Base.{
  ℕ, suc, ◌≡◌, refl, ap, ◌∙◌, Bool, List, [], ◌∷◌, ◌++◌, map, some, length, ◌==◌, if◌then◌else◌,
  arith, length-append,
}
use collab_vm_server.VmList.{
  VmList, AdminVm, AdminVmInfo, Effect, asked_all, add_vm_list_viewer, add_admin_vm_list_viewer,
  remove_vm_list_viewer, remove_admin_vm_list_viewer, add_admin_virtual_machine,
  remove_admin_virtual_machine,
}
use collab_vm_server.VmList.Info.{Produced}
use collab_vm_server.VmList.Update.{
  update_virtual_machine_info_list, answer_all, answer_one, receive, publish, change_vm_list,
}

-- A list of VMs with the numbers of the VMs whose answers to the update of all are due.
pub record World : Type 0 where
  pub list : VmList
  pub due : List ℕ

abbrev pub empty : World
empty = record {
  list = record {
    admin_virtual_machines = [];
    admin_vm_info_list = [];
    vm_info_list = [];
    vm_list_viewers = [];
    admin_vm_list_viewers = [];
    thumbnails = [];
    pending_vm_info_requests = 0;
    pending_vm_info_updates = 0;
  };
  due = [];
}

-- The VMs that effects ask for the update of all.
abbrev pub asked_in : List Effect → List ℕ
asked_in [] = []
asked_in (asked_all id ∷ es) = id ∷ asked_in es
asked_in (e ∷ es) = asked_in es

-- The worlds to which the server can come. An answer arrives for any request that is due.
pub data Reachable : World → Type 0 where
  start : Reachable empty
  timer :
      {w : World}
      → Reachable w
      → Reachable (record {
        list = (update_virtual_machine_info_list w.list).0;
        due = w.due ++ asked_in (update_virtual_machine_info_list w.list).1;
      })
  answered :
      {w : World} (before after : List ℕ) (id : ℕ) (p : Produced) (r : VmList × List Effect)
      → Reachable w
      → w.due ≡ before ++ id ∷ after
      → answer_all w.list id p ≡ some r
      → Reachable (record { list = r.0; due = before ++ after })
  answered_one :
      {w : World} (id : ℕ) (p : Produced) (r : VmList × List Effect)
      → Reachable w
      → answer_one w.list id p ≡ some r
      → Reachable (record w { list = r.0 })
  machine_added :
      {w : World} (id : ℕ) (info : AdminVmInfo) (list : VmList)
      → Reachable w
      → add_admin_virtual_machine w.list id info ≡ some list
      → Reachable (record w { list = list })
  machine_removed :
      {w : World} (id : ℕ) (r : VmList × List Effect × Bool)
      → Reachable w
      → remove_admin_virtual_machine w.list id ≡ some r
      → Reachable (record w { list = r.0 })
  viewer_added :
      {w : World} (viewer : ℕ)
      → Reachable w
      → Reachable (record w { list = (add_vm_list_viewer w.list viewer).0 })
  admin_viewer_added :
      {w : World} (viewer : ℕ)
      → Reachable w
      → Reachable (record w { list = (add_admin_vm_list_viewer w.list viewer).0 })
  viewer_removed :
      {w : World} (viewer : ℕ)
      → Reachable w
      → Reachable (record w { list = remove_vm_list_viewer w.list viewer })
  admin_viewer_removed :
      {w : World} (viewer : ℕ)
      → Reachable w
      → Reachable (record w { list = remove_admin_vm_list_viewer w.list viewer })

asked_in-map : (m : List (ℕ × AdminVm)) → length (asked_in (map (λ e. asked_all e.0) m)) ≡ length m
asked_in-map [] = refl
asked_in-map (e ∷ m) = ap suc (asked_in-map m)

publish-requests :
    (s : VmList) (r : VmList × List Effect)
    → publish s ≡ some r
    → r.0.pending_vm_info_requests ≡ s.pending_vm_info_requests
unfolding publish
publish-requests s r h = ground (arith, h)

answer_all-requests :
    (s : VmList) (id : ℕ) (p : Produced) (n : ℕ) (r : VmList × List Effect)
    → s.pending_vm_info_requests ≡ suc n
    → answer_all s id p ≡ some r
    → r.0.pending_vm_info_requests ≡ n
unfolding answer_all receive
answer_all-requests s id p n r h k = ground (arith, h, k, publish-requests (receive s id p) r)

answer_one-requests :
    (s : VmList) (id : ℕ) (p : Produced) (r : VmList × List Effect)
    → answer_one s id p ≡ some r
    → r.0.pending_vm_info_requests ≡ s.pending_vm_info_requests
unfolding answer_one change_vm_list
answer_one-requests s id p r h = ground (arith, h)

add-requests :
    (s : VmList) (id : ℕ) (info : AdminVmInfo) (l : VmList)
    → add_admin_virtual_machine s id info ≡ some l
    → l.pending_vm_info_requests ≡ s.pending_vm_info_requests
unfolding add_admin_virtual_machine
add-requests s id info l h = ground (arith, h)

remove-requests :
    (s : VmList) (id : ℕ) (r : VmList × List Effect × Bool)
    → remove_admin_virtual_machine s id ≡ some r
    → r.0.pending_vm_info_requests ≡ s.pending_vm_info_requests
unfolding remove_admin_virtual_machine
remove-requests s id r h = ground (arith, h)

timer-requests :
    (s : VmList) (due : List ℕ)
    → s.pending_vm_info_requests ≡ length due
    → (update_virtual_machine_info_list s).0.pending_vm_info_requests
      ≡ length (due ++ asked_in (update_virtual_machine_info_list s).1)
unfolding update_virtual_machine_info_list
timer-requests s due h = ground (
  arith,
  h,
  asked_in-map s.admin_virtual_machines,
  length-append due (asked_in (map (λ e. asked_all e.0) s.admin_virtual_machines)),
  length-append due [],
)

length-middle :
    (before : List ℕ) (id : ℕ) (after : List ℕ)
    → length (before ++ id ∷ after) ≡ suc (length (before ++ after))
length-middle [] id after = refl
length-middle (b ∷ before) id after = ap suc (length-middle before id after)

due-requests : {w : World} → Reachable w → w.list.pending_vm_info_requests ≡ length w.due
unfolding add_vm_list_viewer add_admin_vm_list_viewer remove_vm_list_viewer
    remove_admin_vm_list_viewer
due-requests start = refl
due-requests (timer {w = w} r) = timer-requests w.list w.due (due-requests r)
due-requests (answered {w = w} before after id p out r split ran) =
    answer_all-requests w.list id p (length (before ++ after)) out
      (due-requests r ∙ ap length split ∙ length-middle before id after) ran
due-requests (answered_one {w = w} id p out r ran) =
    answer_one-requests w.list id p out ran ∙ due-requests r
due-requests (machine_added {w = w} id info l r ran) =
    add-requests w.list id info l ran ∙ due-requests r
due-requests (machine_removed {w = w} id out r ran) =
    remove-requests w.list id out ran ∙ due-requests r
due-requests (viewer_added v r) = due-requests r
due-requests (admin_viewer_added v r) = due-requests r
due-requests (viewer_removed v r) = due-requests r
due-requests (admin_viewer_removed v r) = due-requests r

-- In every reachable state the timer of the list asks every VM for its info if all answers have come, and
-- none as long as an answer is due, whatever VMs are added and removed in between: the counter of the
-- requests is the number of the answers that are due, so that no update is skipped for good.
pub timer_asks :
    {w : World}
    → Reachable w
    → (update_virtual_machine_info_list w.list).1
      ≡ (if length w.due == 0 then map (λ e. asked_all e.0) w.list.admin_virtual_machines else [])
unfolding update_virtual_machine_info_list
timer_asks {w = w} r = ground (arith, due-requests r)
