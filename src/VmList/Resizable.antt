-- ===== src/VmList/Resizable.antt =====
-- CollabVmServer.hpp, `ResizableList`: every change builds a list of the new size in a new message and
-- copies the elements. A new list has blank elements; `none` is a write out of bounds, for which
-- Cap'n Proto throws.
use collab_vm_server.Base.{
  ℕ, suc, ◌+◌, ◌-◌, ◌^◌, Bool, List, [], ◌∷◌, Option, none, some, length, set, replicate, ltb, ◌==◌,
  if◌then◌else◌,
}

module _ {ℓ} {V : Type ℓ} where
  -- `setWithCaveats`.
  abbrev pub set_element : List V → ℕ → V → Option (List V)
  set_element list i v = if ltb i (length list) then some (set list i v) else none

  -- The loop that copies the elements from number `i` on.
  unfoldable pub copy_elements : List V → ℕ → List V → Option (List V)
  copy_elements [] i new = some new
  copy_elements (v ∷ vs) i new = elim (set_element new i v) [
    | none ↦ none
    | some new' ↦ copy_elements vs (suc i) new'
  ]

  -- The loop of `RemoveFirst`, with the number of the next element to write.
  unfoldable pub copy_without : (V → Bool) → List V → ℕ → List V → Option (List V)
  copy_without predicate [] j new = some new
  copy_without predicate (v ∷ vs) j new =
      if predicate v then copy_without predicate vs j new else (elim (set_element new j v) [
        | none ↦ none
        | some new' ↦ copy_without predicate vs (suc j) new'
      ])

  -- The loop of `UpdateElement`.
  unfoldable pub copy_updated : (V → Bool) → V → List V → ℕ → List V → Option (List V)
  copy_updated predicate new_element [] i new = some new
  copy_updated predicate new_element (v ∷ vs) i new =
      elim (set_element new i (if predicate v then new_element else v)) [
        | none ↦ none
        | some new' ↦ copy_updated predicate new_element vs (suc i) new'
      ]

  module _ (blank : V) where
    unfoldable pub reset : (capacity : ℕ) → List V
    reset capacity = replicate capacity blank

    -- `Add` without an element, whose result is the last of the new list.
    unfoldable pub add_blank : List V → Option (List V)
    unfolding copy_elements reset
    add_blank list = copy_elements list 0 (reset (length list + 1))

    unfoldable pub add : List V → V → Option (List V)
    unfolding add_blank
    add list new_element = elim (add_blank list) [
      | none ↦ none
      | some new ↦ set_element new (length new - 1) new_element
    ]

    -- `list_.size() - 1` wraps for the empty list, and its loop then copies nothing.
    abbrev pub size_without : ℕ → ℕ
    size_without n = if n == 0 then 2 ^ 32 - 1 else n - 1

    unfoldable pub remove_first : (V → Bool) → List V → Option (List V)
    unfolding copy_without reset
    remove_first predicate list = copy_without predicate list 0 (reset (size_without (length list)))

    unfoldable pub update_element : (V → Bool) → List V → V → Option (List V)
    unfolding copy_updated reset
    update_element predicate list new_element =
        copy_updated predicate new_element list 0 (reset (length list))
