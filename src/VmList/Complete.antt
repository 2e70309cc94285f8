-- ===== src/VmList/Complete.antt =====
-- A whole update of the infos of all VMs, whose answers come in any order.
use collab_vm_server.Base.{
  ℕ, suc, ◌≡◌, refl, sym, ap, ◌∙◌, true, List, [], ◌∷◌, map, some, length, contains, arith,
}
use mathlib.Core.List.{Permᴰ}
use collab_vm_server.Base.Dict.{has_key, Keyed}
use collab_vm_server.VmList.{
  VmList, AdminVm, AdminVmInfo, VmInfo, Effect, blank_admin_info, blank_info,
}
use collab_vm_server.VmList.Resizable.{reset}
use collab_vm_server.VmList.Equivalence.{copy_exactly}
use collab_vm_server.VmList.Info.{Produced}
use collab_vm_server.VmList.Update.{
  update_virtual_machine_info_list, publish, present, admin_info_of, info_of, published,
  published_to,
}
use collab_vm_server.VmList.Answers.{
  answers, ids_of, admin_infos, infos, receive_all, answers-receive_all, receive_all-requests,
  receive_all-updates, receive_all-machines, present-admins, present-infos, filled,
}

infos-perm :
    (p : ℕ → Produced) {xs ys : List ℕ} → Permᴰ xs ys → length (infos p xs) ≡ length (infos p ys)
infos-perm p Permᴰ.nil = refl
infos-perm p (Permᴰ.cons {a = a} {b = b} {l₁ = xs} {l₂ = ys} e d) =
    ground (arith, infos-perm p d, ap p e)
infos-perm p (Permᴰ.swap {a = a} {b = b} {a' = c} {b' = d} {l = l} e f) =
    ground (arith, ap p e, ap p f)
infos-perm p (Permᴰ.trans d e) = infos-perm p d ∙ infos-perm p e

contains-perm : {xs ys : List ℕ} (j : ℕ) → Permᴰ xs ys → contains j xs ≡ contains j ys
contains-perm j Permᴰ.nil = refl
contains-perm j (Permᴰ.cons {a = a} {b = b} {l₁ = xs} {l₂ = ys} e d) =
    ground (arith, contains-perm j d, e)
contains-perm j (Permᴰ.swap {a = a} {b = b} {a' = c} {b' = d} {l = l} e f) = ground (arith, e, f)
contains-perm j (Permᴰ.trans d e) = contains-perm j d ∙ contains-perm j e

length-perm : {xs ys : List ℕ} → Permᴰ xs ys → length xs ≡ length ys
length-perm Permᴰ.nil = refl
length-perm (Permᴰ.cons e d) = ap suc (length-perm d)
length-perm (Permᴰ.swap e f) = refl
length-perm (Permᴰ.trans d e) = length-perm d ∙ length-perm e

contains-ids :
    (m : List (ℕ × AdminVm)) (j : ℕ) → has_key j m ≡ true → contains j (map (λ e. e.0) m) ≡ true
contains-ids [] j h = h
contains-ids ((k, vm) ∷ m) j h = ground (arith, contains-ids m j)

length-ids : (m : List (ℕ × AdminVm)) → length (map (λ e. e.0) m) ≡ length m
length-ids [] = refl
length-ids (e ∷ m) = ap suc (length-ids m)

length-admin_infos :
    (p : ℕ → Produced) (m : List (ℕ × AdminVm)) (ids : List ℕ)
    → length (map (filled p ids) m) ≡ length (admin_infos p (map (λ e. e.0) m))
length-admin_infos p [] ids = refl
length-admin_infos p (e ∷ m) ids = ap suc (length-admin_infos p m ids)

publish-infos :
    (s : VmList) (admins : List AdminVmInfo) (clients : List VmInfo)
    → present admin_info_of s.admin_virtual_machines ≡ admins
    → present info_of s.admin_virtual_machines ≡ clients
    → length s.admin_virtual_machines ≡ length admins
    → s.pending_vm_info_updates ≡ length clients
    → (r : VmList × List Effect) × (publish s ≡ some r)
      × (r.0.admin_vm_info_list ≡ admins)
      × (r.0.vm_info_list ≡ clients)
      × (r.0.pending_vm_info_requests ≡ s.pending_vm_info_requests)
unfolding publish reset
publish-infos s admins clients a c n k =
    let s' = record s {
      admin_virtual_machines = map published s.admin_virtual_machines;
      admin_vm_info_list = admins;
      vm_info_list = clients;
    } in
    let first = copy_exactly blank_admin_info admins (length s.admin_virtual_machines) n in
    let second = copy_exactly blank_info clients s.pending_vm_info_updates k in
    ((s', published_to s'), rw (a, c) (rw (first, second) refl), refl, refl, refl)

-- The request is made of all VMs, and the counters are set.
abbrev asked : VmList → VmList
asked s = record s {
  pending_vm_info_requests = length s.admin_virtual_machines;
  pending_vm_info_updates = 0;
}

update-asked :
    (s : VmList) → s.pending_vm_info_requests ≡ 0 → (update_virtual_machine_info_list s).0 ≡ asked s
unfolding update_virtual_machine_info_list
update-asked s h = ground (arith, h)

-- An update of all VMs that starts when none is due, and whose answers come in any order, ends, and then
-- the administrators see the reported info of every VM and the clients that of every VM that has
-- one, both in the order of the map of VMs. There is a VM, no VM is in the map twice, every VM answers
-- once, and nothing else happens to the list in between.
pub complete_update :
    (s : VmList) (p : ℕ → Produced) (id : ℕ) (ids : List ℕ)
    → s.pending_vm_info_requests ≡ 0
    → Keyed s.admin_virtual_machines
    → Permᴰ (id ∷ ids) (ids_of s)
    → (l : VmList) × (answers (update_virtual_machine_info_list s).0 p (id ∷ ids) ≡ some l)
      × (l.admin_vm_info_list ≡ admin_infos p (ids_of s))
      × (l.vm_info_list ≡ infos p (ids_of s))
      × (l.pending_vm_info_requests ≡ 0)
complete_update s p id ids idle keyed perm =
    let m = s.admin_virtual_machines in
    let order = id ∷ ids in
    let got = receive_all (asked s) p order in
    let all : (j : ℕ) → has_key j m ≡ true → contains j order ≡ true =
      λ j h. contains-perm j perm ∙ contains-ids m j h in
    let machines = receive_all-machines p (asked s) order keyed in
    let counted = receive_all-updates (asked s) p order in
    let (r, ran, admins, clients, due) =
      publish-infos got (admin_infos p (ids_of s)) (infos p (ids_of s))
        (ap (present admin_info_of) machines ∙ present-admins p order m all)
        (ap (present info_of) machines ∙ present-infos p order m all)
        (ap length machines ∙ length-admin_infos p m order)
        (omega (arith, counted, infos-perm p perm)) in
    let idle_after =
      receive_all-requests (asked s) p order (sym (length-perm perm ∙ length-ids m)) in
    (
      r.0,
      ap (λ l. answers l p order) (update-asked s idle)
          ∙ answers-receive_all (asked s) p id ids r (sym (length-perm perm ∙ length-ids m)) ran,
      admins,
      clients,
      due ∙ idle_after,
    )
