-- ===== src/VmList/Answers.antt =====
-- The answers of an update of all VMs, received one after the other.
use collab_vm_server.Base.{
  ℕ, suc, ◌+◌, ◌≡◌, refl, sym, ap, ◌∙◌, subst, inl, inr, true, false, List, [], ◌∷◌, map, Option,
  none, some, length, if◌then◌else◌, ◌>>=◌, contains, arith, Option-cases,
}
use collab_vm_server.Base.Dict.{has_key, modify, Keyed}
use collab_vm_server.VmList.{VmList, AdminVm, AdminVmInfo, VmInfo, Effect}
use collab_vm_server.VmList.Info.{Produced}
use collab_vm_server.VmList.Update.{
  answer_all, receive, publish, present, admin_info_of, info_of, set_pending,
}

-- The answers of VMs, in the order of their arrival.
unfoldable pub answers : VmList → (ℕ → Produced) → List ℕ → Option VmList
unfolding answer_all
answers s p [] = some s
answers s p (id ∷ ids) = answer_all s id (p id) >>= λ r. answers r.0 p ids

abbrev pub ids_of : VmList → List ℕ
ids_of s = map (λ e. e.0) s.admin_virtual_machines

-- What the administrators and the clients should see of the VMs.
abbrev pub admin_infos : (ℕ → Produced) → List ℕ → List AdminVmInfo
admin_infos p ids = map (λ id. (p id).admin_vm_info) ids

abbrev pub infos : (ℕ → Produced) → List ℕ → List VmInfo
infos p [] = []
infos p (id ∷ ids) = elim (p id).vm_info [ none ↦ infos p ids | some i ↦ i ∷ infos p ids ]

unfoldable pub receive_all : VmList → (ℕ → Produced) → List ℕ → VmList
unfolding receive
receive_all s p [] = s
receive_all s p (id ∷ ids) = receive_all (receive s id (p id)) p ids

last_answer :
    (s : VmList) (id : ℕ) (q : Produced) (r : VmList × List Effect)
    → s.pending_vm_info_requests ≡ 1
    → publish (receive s id q) ≡ some r
    → answer_all s id q ≡ some r
unfolding answer_all receive
last_answer s id q r h k = ground (arith, h, k)

early_answer :
    (s : VmList) (id : ℕ) (q : Produced) (n : ℕ)
    → s.pending_vm_info_requests ≡ suc (suc n)
    → answer_all s id q ≡ some (receive s id q, [])
unfolding answer_all receive
early_answer s id q n h = ground (arith, h)

answers-cons :
    (s : VmList) (p : ℕ → Produced) (id : ℕ) (ids : List ℕ) (r : VmList × List Effect)
    → answer_all s id (p id) ≡ some r
    → answers s p (id ∷ ids) ≡ answers r.0 p ids
unfolding answers
answers-cons s p id ids r h = ap (λ o. o >>= λ r'. answers r'.0 p ids) h

-- Only the last answer publishes.
pub answers-receive_all :
    (s : VmList) (p : ℕ → Produced) (id : ℕ) (ids : List ℕ) (r : VmList × List Effect)
    → s.pending_vm_info_requests ≡ length (id ∷ ids)
    → publish (receive_all s p (id ∷ ids)) ≡ some r
    → answers s p (id ∷ ids) ≡ some r.0
unfolding receive_all
answers-receive_all s p id [] r h k =
    answers-cons s p id [] r (last_answer s id (p id) r h k) ∙ unfold answers in refl
answers-receive_all s p id (j ∷ ids) r h k =
    answers-cons s p id (j ∷ ids) (receive s id (p id), [])
      (early_answer s id (p id) (length ids) h)
    ∙ answers-receive_all (receive s id (p id)) p j ids r (unfold receive in ground (arith, h)) k

pub receive_all-requests :
    (s : VmList) (p : ℕ → Produced) (ids : List ℕ)
    → s.pending_vm_info_requests ≡ length ids
    → (receive_all s p ids).pending_vm_info_requests ≡ 0
unfolding receive_all receive
receive_all-requests s p [] h = h
receive_all-requests s p (id ∷ ids) h =
    receive_all-requests (receive s id (p id)) p ids (ground (arith, h))

pub receive_all-updates :
    (s : VmList) (p : ℕ → Produced) (ids : List ℕ)
    → (receive_all s p ids).pending_vm_info_updates
      ≡ s.pending_vm_info_updates + length (infos p ids)
unfolding receive_all receive
receive_all-updates s p [] = omega arith
receive_all-updates s p (id ∷ ids) = ground (arith, receive_all-updates (receive s id (p id)) p ids)

module _ (p : ℕ → Produced) where
  -- The entry of a VM after some answers.
  abbrev pub filled : List ℕ → ℕ × AdminVm → ℕ × AdminVm
  filled ids (id, vm) = (id, if contains id ids then set_pending (p id) vm else vm)

  filled-absent :
      (id : ℕ) (m : List (ℕ × AdminVm)) → has_key id m ≡ false → map (filled (id ∷ [])) m ≡ m
  filled-absent id [] h = refl
  filled-absent id ((j, vm) ∷ m) h = ground (arith, filled-absent id m)

  modify-filled :
      (id : ℕ) (m : List (ℕ × AdminVm))
      → Keyed m
      → modify id (set_pending (p id)) m ≡ map (filled (id ∷ [])) m
  modify-filled id [] h = refl
  modify-filled id ((j, vm) ∷ m) h = ground (arith, modify-filled id m h.1, filled-absent id m, h.0)

  filled-filled :
      (id : ℕ) (ids : List ℕ) (m : List (ℕ × AdminVm))
      → map (filled ids) (map (filled (id ∷ [])) m) ≡ map (filled (id ∷ ids)) m
  filled-filled id ids [] = refl
  filled-filled id ids ((j, vm) ∷ m) = ground (arith, filled-filled id ids m)

  Keyed-filled : (ids : List ℕ) (m : List (ℕ × AdminVm)) → Keyed m → Keyed (map (filled ids) m)
  Keyed-filled ids [] h = tt
  Keyed-filled ids ((j, vm) ∷ m) h = (has_key-filled ids j m h.0, Keyed-filled ids m h.1)
    where
      has_key-filled :
          (ids : List ℕ) (k : ℕ) (m : List (ℕ × AdminVm))
          → has_key k m ≡ false
          → has_key k (map (filled ids) m) ≡ false
      has_key-filled ids k [] h = refl
      has_key-filled ids k ((j, vm) ∷ m) h = ground (arith, has_key-filled ids k m)

  filled-nil : (m : List (ℕ × AdminVm)) → map (filled []) m ≡ m
  filled-nil [] = refl
  filled-nil ((j, vm) ∷ m) = ap (λ r. (j, vm) ∷ r) (filled-nil m)

  pub receive_all-machines :
      (s : VmList) (ids : List ℕ)
      → Keyed s.admin_virtual_machines
      → (receive_all s p ids).admin_virtual_machines ≡ map (filled ids) s.admin_virtual_machines
  unfolding receive_all receive
  receive_all-machines s [] h = sym (filled-nil s.admin_virtual_machines)
  receive_all-machines s (id ∷ ids) h =
      let m = s.admin_virtual_machines in
      let one = modify-filled id m h in
      receive_all-machines (receive s id (p id)) ids
        (subst Keyed (sym one) (Keyed-filled (id ∷ []) m h))
      ∙ ap (map (filled ids)) one
      ∙ filled-filled id ids m

  pub present-admins :
      (ids : List ℕ) (m : List (ℕ × AdminVm))
      → ((j : ℕ) → has_key j m ≡ true → contains j ids ≡ true)
      → present admin_info_of (map (filled ids) m) ≡ admin_infos p (map (λ e. e.0) m)
  present-admins ids [] h = refl
  present-admins ids ((j, vm) ∷ m) h =
      rw (h j (ground arith))
        (ap (λ r. (p j).admin_vm_info ∷ r) (present-admins ids m (λ k e. h k (ground (arith, e)))))

  pub present-infos :
      (ids : List ℕ) (m : List (ℕ × AdminVm))
      → ((j : ℕ) → has_key j m ≡ true → contains j ids ≡ true)
      → present info_of (map (filled ids) m) ≡ infos p (map (λ e. e.0) m)
  present-infos ids [] h = refl
  present-infos ids ((j, vm) ∷ m) h =
      let rest = present-infos ids m (λ k e. h k (ground (arith, e))) in
      rw (h j (ground arith)) (elim (Option-cases (p j).vm_info) [
        | inl e ↦ rw e rest
        | inr (i, e) ↦ rw e (ap (λ r. i ∷ r) rest)
      ])
