-- ===== src/SettingList.antt =====
-- The lists of settings, of a VM and of the server: `Database::UpdateList` in Database/Database.h and
-- `GetInitialSettings` in AdminVirtualMachine.hpp. A setting is a value of a union, `which` gives the
-- number of its member, and `cleared` the default of a member. `none` is an index out of bounds.
pub mod Update
pub mod Initial
pub mod Tests
use collab_vm_server.Base.{
  ℕ, zero, suc, Bool, List, [], ◌∷◌, Option, none, some, length, set, ltb, ◌==◌, if◌then◌else◌,
}

module _ {V : Type 0} (which : V → ℕ) (cleared : ℕ → V) where
  -- The first setting of a list with a number.
  abbrev pub find_setting : List V → ℕ → Option V
  find_setting [] n = none
  find_setting (u ∷ us) n = if which u == n then some u else find_setting us n

  abbrev pub updated : List V → V → V
  updated list_updates old = elim (find_setting list_updates (which old)) [
    | none ↦ old
    | some u ↦ u
  ]

  unfoldable pub update_list : (old_list new_list list_updates : List V) → Option (List V)
  update_list [] new_list list_updates = some new_list
  update_list (old ∷ old_list) new_list list_updates =
      let rest =
        update_list old_list (set new_list (which old) (updated list_updates old)) list_updates in
      if ltb (which old) (length new_list) then rest else none

  -- The settings behind those of lower numbers.
  abbrev pub skip_below : ℕ → List V → List V
  skip_below i [] = []
  skip_below i (s ∷ settings) =
      let rest = skip_below i settings in if ltb (which s) i then rest else s ∷ settings

  abbrev pub setting_at : ℕ → List V → V
  setting_at i [] = cleared i
  setting_at i (s ∷ settings) = if which s == i then s else cleared i

  -- The loop over the numbers from `i` on, of which `n` are left.
  unfoldable pub fill_settings : (n i : ℕ) → List V → List V
  fill_settings zero i settings = []
  fill_settings (suc n) i settings =
      let current = skip_below i settings in setting_at i current ∷ fill_settings n (suc i) current

  unfoldable pub get_initial_settings : (fields : ℕ) → (initial_settings : List V) → List V
  unfolding fill_settings
  get_initial_settings fields initial_settings =
      if length initial_settings == fields
      then initial_settings
      else fill_settings fields 0 initial_settings
