-- ===== src/SettingList/Tests.antt =====
-- Settings of three members, as pairs of a number and a value.
use collab_vm_server.Base.{ℕ, ◌≡◌, refl, List, [], ◌∷◌, map, some}
use collab_vm_server.SettingList.{update_list, updated}
use collab_vm_server.SettingList.Update.{update_list-updated}

abbrev which : ℕ × ℕ → ℕ
which (n, v) = n

abbrev cleared : ℕ → ℕ × ℕ
cleared n = (n, 0)

abbrev three : List (ℕ × ℕ)
three = (0, 5) ∷ (1, 6) ∷ (2, 7) ∷ []

abbrev blank : List (ℕ × ℕ)
blank = (0, 0) ∷ (0, 0) ∷ (0, 0) ∷ []

update_list-updated_example :
    update_list which cleared three blank ((1, 9) ∷ [])
    ≡ some (map (updated which cleared ((1, 9) ∷ [])) three)
update_list-updated_example =
    update_list-updated which cleared three blank ((1, 9) ∷ []) (refl, (refl, (refl, tt))) refl
