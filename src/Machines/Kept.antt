-- ===== src/Machines/Kept.antt =====
-- What the calls of the VMs keep of the map of VMs, when each call keeps it of its VM.
use collab_vm_server.Base.{
  ℕ, ◌≡◌, refl, subst, ◌∙◌, inl, inr, Bool, true, ◌&&◌, List, [], ◌∷◌, ◌++◌, Option, none, some,
  ◌>>=◌, ◌==◌, Option-cases, Bool-cases, arith,
}
use collab_vm_server.Base.Dict.{lookup, modify}
use collab_vm_server.Client.{Socket, VmCall, Task, call_connected_vm, call_vm, call_each_vm}
use collab_vm_server.Vm.{VmState, Now, Effect}
use collab_vm_server.Vm.Steps as Steps
use collab_vm_server.Machines.{
  Machines, Served, with_positions, and_then, event_of, call_machine, call_each_machine, perform,
  perform_all,
}

-- The same VMs, with related states.
abbrev pub Related : (VmState → VmState → Type 0) → (before after : List (ℕ × VmState)) → Type 0
Related R [] [] = Unit {0}
Related R [] (e ∷ ms) = ⊥
Related R (e ∷ ms) [] = ⊥
Related R ((id, s) ∷ ms) ((id', s') ∷ ms') = (id' ≡ id) × R s s' × Related R ms ms'

abbrev pub all_tasks : (Task → Bool) → List Task → Bool
all_tasks p [] = true
all_tasks p (t ∷ ts) = p t && all_tasks p ts

-- Calls succeed, keep what they should of all VMs, and what is left are tasks of a kind.
abbrev pub Kept :
    (VmState → VmState → Type 0) → (Task → Bool) → List (ℕ × VmState) → Option Served → Type 0
Kept R kind vms none = ⊥
Kept R kind vms (some r) = Related R vms r.machines.vms × (all_tasks kind r.left ≡ true)

unfoldable pub task_with : (VmCall → Bool) → (Task → Bool) → Task → Bool
task_with allowed kind (call_connected_vm call) = allowed call
task_with allowed kind (call_vm vm_id call) = allowed call
task_with allowed kind (call_each_vm ids call) = allowed call
task_with allowed kind task = kind task

-- What a proof about the map needs to know of one VM: the calls that are allowed succeed, whatever
-- positions the users have, and keep it.
pub record Keeps (R : VmState → VmState → Type 0) (allowed : VmCall → Bool) (self : ℕ)
    (was_running : Bool) (now : Now) : Type 0 where
  pub same : (s : VmState) → R s s
  pub then_next : (s t u : VmState) → R s t → R t u → R s u
  pub kept :
      (s : VmState) (positions : ℕ → Option ℕ) (call : VmCall)
      → allowed call ≡ true
      → (s' : VmState) × (es : List Effect) × (Steps.step
            (with_positions positions s)
            now
            (event_of self was_running call)
          ≡ some (s', es))
        × R s s'

module _ (R : VmState → VmState → Type 0) (allowed : VmCall → Bool) (kind : Task → Bool) (self : ℕ)
    (was_running : Bool) (now : Now) (keeps : Keeps R allowed self was_running now) where
  Related-refl : (ms : List (ℕ × VmState)) → Related R ms ms
  Related-refl [] = tt
  Related-refl ((id, s) ∷ ms) = (refl, keeps.same s, Related-refl ms)

  Related-trans :
      (ms ns os : List (ℕ × VmState)) → Related R ms ns → Related R ns os → Related R ms os
  Related-trans [] [] [] h k = tt
  Related-trans [] [] (e ∷ os) h k = k
  Related-trans [] (e ∷ ns) os h k = absurd h
  Related-trans (e ∷ ms) [] os h k = absurd h
  Related-trans (e ∷ ms) (f ∷ ns) [] h k = k
  Related-trans ((i, s) ∷ ms) ((j, t) ∷ ns) ((l, u) ∷ os) h k =
      (k.0 ∙ h.0, keeps.then_next s t u h.1 k.1, Related-trans ms ns os h.2 k.2)

  Related-modify :
      (ms : List (ℕ × VmState)) (id : ℕ) (s s' : VmState)
      → lookup id ms ≡ some s
      → R s s'
      → Related R ms (modify id (λ _. s') ms)
  Related-modify [] id s s' e r = absurd (ground (arith, e))
  Related-modify ((j, t) ∷ ms) id s s' e r = elim (Bool-cases (id == j)) [
    | inl here ↦
        let eq : s ≡ t = ground (arith, e, here) in
        rw here (refl, subst (λ u. R u s') eq r, Related-refl ms)
    | inr other ↦
        rw other (refl, keeps.same t, Related-modify ms id s s' (ground (arith, e, other)) r)
  ]

  all_tasks-append :
      (ts us : List Task)
      → all_tasks kind ts ≡ true
      → all_tasks kind us ≡ true
      → all_tasks kind (ts ++ us) ≡ true
  all_tasks-append [] us h k = k
  all_tasks-append (t ∷ ts) us h k = ground (arith, h, k, all_tasks-append ts us)

  -- One call after another.
  Kept-then :
      (vms : List (ℕ × VmState)) (first : Option Served) (rest : Machines → Option Served)
      → Kept R kind vms first
      → ((ns : Machines) → Kept R kind ns.vms (rest ns))
      → Kept R kind vms (and_then self was_running now first rest)
  Kept-then vms none rest h k = h
  Kept-then vms (some f) rest h k = last (rest f.machines) (k f.machines)
    where
      last :
          (r : Option Served)
          → Kept R kind f.machines.vms r
          → Kept R kind vms (
              r >>= λ r'. some (record {
                machines = r'.machines;
                told = f.told ++ r'.told;
                left = f.left ++ r'.left;
              }))
      last none l = l
      last (some r') l = (
        Related-trans vms f.machines.vms r'.machines.vms h.0 l.0,
        all_tasks-append f.left r'.left h.1 l.1,
      )

  call_machine-Kept :
      (ms : Machines) (vm_id : ℕ) (call : VmCall)
      → allowed call ≡ true
      → Kept R kind ms.vms (call_machine self was_running now ms vm_id call)
  unfolding call_machine
  call_machine-Kept ms vm_id call ok = elim (Option-cases (lookup vm_id ms.vms)) [
    | inl e ↦ rw (e, call_machine) (Related-refl ms.vms, refl)
    | inr (s, e) ↦
        let (s', es, ran, related) = keeps.kept s ms.positions call ok in
        rw (e, call_machine)
          (rw (ran, call_machine) (Related-modify ms.vms vm_id s s' e related, refl))
  ]

  call_each_machine-Kept :
      (ms : Machines) (ids : List ℕ) (call : VmCall)
      → allowed call ≡ true
      → Kept R kind ms.vms (call_each_machine self was_running now ms ids call)
  unfolding call_each_machine
  call_each_machine-Kept ms [] call ok = (Related-refl ms.vms, refl)
  call_each_machine-Kept ms (vm_id ∷ ids) call ok = elim (Option-cases (lookup vm_id ms.vms)) [
    | inl e ↦ rw (e, call_each_machine) (Related-refl ms.vms, refl)
    | inr (s, e) ↦
        rw (e, call_each_machine)
          (Kept-then ms.vms (call_machine self was_running now ms vm_id call)
            (λ ns. call_each_machine self was_running now ns ids call)
            (call_machine-Kept ms vm_id call ok) (λ ns. call_each_machine-Kept ns ids call ok))
  ]

  perform-Kept :
      (c : Socket) (ms : Machines) (t : Task)
      → task_with allowed kind t ≡ true
      → Kept R kind ms.vms (perform self was_running now c ms t)
  unfolding perform task_with
  perform-Kept c ms (call_connected_vm call) ok = call_machine-Kept ms c.connected_vm_id call ok
  perform-Kept c ms (call_vm vm_id call) ok = call_machine-Kept ms vm_id call ok
  perform-Kept c ms (call_each_vm ids call) ok = call_each_machine-Kept ms ids call ok
  perform-Kept c ms t ok = (Related-refl ms.vms, ground (arith, ok))

  pub perform_all-Kept :
      (c : Socket) (ms : Machines) (ts : List Task)
      → all_tasks (task_with allowed kind) ts ≡ true
      → Kept R kind ms.vms (perform_all self was_running now c ms ts)
  unfolding perform_all
  perform_all-Kept c ms [] ok = (Related-refl ms.vms, refl)
  perform_all-Kept c ms (t ∷ ts) ok =
      Kept-then ms.vms (perform self was_running now c ms t)
        (λ ns. perform_all self was_running now c ns ts) (perform-Kept c ms t (ground (arith, ok)))
        (λ ns. perform_all-Kept c ns ts (ground (arith, ok)))
