-- ===== src/Guests.antt =====
-- CollabVmServer.hpp with CaseInsensitiveUtils.hpp: the names of the guests, a map from a name to the
-- socket that has it. `to_upper` is the locale's upper case of a character and `to_string` is
-- `std::to_string`. `none` as a result is that the fuel ran out.
pub mod Free
pub mod Tests
use collab_vm_server.Base.{
  ℕ, zero, suc, ◌+◌, ◌%◌, ◌^◌, Bool, true, false, not, ◌&&◌, ◌||◌, List, [], ◌∷◌, ◌++◌, map, Option,
  none, some, length, ◌==◌, if◌then◌else◌, same_text,
}

abbrev pub Guests : Type 0
Guests = List (List ℕ × ℕ)

pub data Renamed : Type 0 where
  same_name name_taken : Renamed
  now_called : List ℕ → Renamed

module _ (to_upper : ℕ → ℕ) where
  -- `CaseInsensitiveComparator`.
  unfoldable pub iequals : List ℕ → List ℕ → Bool
  iequals [] [] = true
  iequals [] (d ∷ ds) = false
  iequals (c ∷ cs) [] = false
  iequals (c ∷ cs) (d ∷ ds) = (to_upper c == to_upper d) && iequals cs ds

  unfoldable pub is_taken : Guests → List ℕ → Bool
  unfolding iequals
  is_taken [] username = false
  is_taken ((name, socket) ∷ guests) username = iequals name username || is_taken guests username

  -- `insert`, and if there was no such name.
  unfoldable pub insert : Guests → List ℕ → ℕ → Guests × Bool
  unfolding is_taken
  insert guests username socket =
      if is_taken guests username then (guests, false) else ((username, socket) ∷ guests, true)

  unfoldable pub erase : Guests → List ℕ → Guests
  unfolding iequals
  erase [] username = []
  erase ((name, socket) ∷ guests) username =
      if iequals name username then guests else (name, socket) ∷ erase guests username

  unfoldable pub find : Guests → List ℕ → Option ℕ
  unfolding iequals
  find [] username = none
  find ((name, socket) ∷ guests) username =
      if iequals name username then some socket else find guests username

  -- The end of `CHANGE_USERNAME`. The new name is put in before the old one is taken out.
  unfoldable pub rename : Guests → (current new : List ℕ) → ℕ → Guests × Renamed
  unfolding insert erase
  rename guests current new socket =
      if same_text current new
      then (guests, same_name)
      else (let (guests', is_new) = insert guests new socket in
          if not is_new then (guests', name_taken) else (erase guests' current, now_called new))

  -- The guest's part of `OnDisconnect`.
  unfoldable pub forget : Guests → (username : List ℕ) → Guests
  unfolding erase
  forget guests username = if length username == 0 then guests else erase guests username

  module _ (to_string : ℕ → List ℕ) where
    -- "guest" and a number.
    abbrev pub guest_name : ℕ → List ℕ
    guest_name num = 103 ∷ 117 ∷ 101 ∷ 115 ∷ 116 ∷ to_string num

    -- The loop of `GenerateUsername`, from a number that was drawn.
    unfoldable pub generate_username :
        (fuel : ℕ) → Guests → (num socket : ℕ) → Option (Guests × List ℕ)
    unfolding insert
    generate_username zero guests num socket = none
    generate_username (suc fuel) guests num socket =
        let rest = generate_username fuel guests ((num + 1) % 2 ^ 32) socket in
        let (guests', is_new) = insert guests (guest_name num) socket in
        if is_new then some (guests', guest_name num) else rest
