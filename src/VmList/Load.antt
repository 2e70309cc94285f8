-- ===== src/VmList/Load.antt =====
-- The constructor of `VirtualMachinesList` in CollabVmServer.hpp: the settings of all VMs are read row by
-- row, and a VM is made of the rows of one number. `none` is an exception: an index behind the end
-- of a list.
use collab_vm_server.Base.{
  ℕ, ◌++◌, List, [], ◌∷◌, Option, none, some, ◌>>=◌, ltb, length, ◌==◌, if◌then◌else◌,
}
use collab_vm_server.Base.Dict.{emplace}

-- `size` is that of the list of settings, of which `settings` are set.
pub record Loader (S : Type 0) : Type 0 where
  pub size : ℕ
  pub settings : List S
  pub previous_vm_id : Option ℕ
  pub machines : List (ℕ × List S)

module _ {S : Type 0} where
  -- `size` is the number of settings that there are.
  abbrev pub new_loader : (size : ℕ) → Loader S
  new_loader size = record { size = size; settings = []; previous_vm_id = none; machines = [] }

  -- The list is truncated, and the assignment of a new list has no effect: `operator=` returns a list
  -- and leaves its object as it is.
  unfoldable pub create_vm : Loader S → (vm_id : ℕ) → Loader S
  create_vm l vm_id = record l {
    size = length l.settings;
    settings = [];
    machines = emplace vm_id l.settings l.machines;
  }

  unfoldable pub before_row : Loader S → (vm_id : ℕ) → Loader S
  unfolding create_vm
  before_row l vm_id = elim l.previous_vm_id [
    | none ↦ l
    | some previous ↦ if previous == vm_id then l else create_vm l previous
  ]

  unfoldable pub set_setting : Loader S → (vm_id : ℕ) → S → Option (Loader S)
  set_setting l vm_id setting =
      if ltb (length l.settings) l.size
      then some (record l { settings = l.settings ++ setting ∷ []; previous_vm_id = some vm_id })
      else none

  unfoldable pub read_vm_settings : Loader S → List (ℕ × S) → Option (Loader S)
  unfolding before_row set_setting
  read_vm_settings l [] = some l
  read_vm_settings l ((vm_id, setting) ∷ rows) =
      set_setting (before_row l vm_id) vm_id setting >>= λ next. read_vm_settings next rows

  unfoldable pub finish : Loader S → List (ℕ × List S)
  unfolding create_vm
  finish l = elim l.previous_vm_id [
    | none ↦ l.machines
    | some previous ↦ (create_vm l previous).machines
  ]

  unfoldable pub load : (size : ℕ) → List (ℕ × S) → Option (List (ℕ × List S))
  unfolding read_vm_settings finish
  load size rows = read_vm_settings (new_loader size) rows >>= λ l. some (finish l)
