-- ===== src/Guests/Tests.antt =====
-- Names of guests, with the numbers written in a system with one digit.
use collab_vm_server.Base.{
  ℕ, zero, suc, ◌≡◌, refl, true, false, List, [], ◌∷◌, some, replicate, arith, ◌==◌, if◌then◌else◌,
}
use collab_vm_server.Guests.{
  Guests, iequals, is_taken, generate_username, guest_name, rename, name_taken, now_called,
}
use collab_vm_server.Guests.Free.{generate_username_ends}

-- Capital letters from small ones, and the others as they are.
abbrev upper : ℕ → ℕ
upper c = if c == 98 then 66 else c

abbrev tally : ℕ → List ℕ
tally n = replicate n 49

tally-distinct : (i j : ℕ) → iequals upper (tally i) (tally j) ≡ true → i ≡ j
unfolding iequals
tally-distinct zero zero h = refl
tally-distinct zero (suc j) h = absurd (ground (arith, h))
tally-distinct (suc i) zero h = absurd (ground (arith, h))
tally-distinct (suc i) (suc j) h = ground (arith, h, tally-distinct i j)

abbrev two_guests : Guests
two_guests = (guest_name upper tally 5, 1) ∷ (guest_name upper tally 4, 2) ∷ []

generate_username_ends_example :
    (username : List ℕ) × (generate_username upper tally 3 two_guests 4 7
      ≡ some ((username, 7) ∷ two_guests, username))
    × (is_taken upper two_guests username ≡ false)
generate_username_ends_example =
    generate_username_ends upper tally tally-distinct 3 two_guests 4 7 (omega arith) (omega arith)

-- A guest cannot change a letter of the own name to a capital: the name is still taken by the guest.
own_name_taken :
    rename upper ((98 ∷ [], 1) ∷ []) (98 ∷ []) (66 ∷ []) 1 ≡ ((98 ∷ [], 1) ∷ [], name_taken)
unfolding rename
own_name_taken = refl

renamed :
    rename upper ((98 ∷ [], 1) ∷ []) (98 ∷ []) (99 ∷ []) 1
    ≡ ((99 ∷ [], 1) ∷ [], now_called (99 ∷ []))
unfolding rename
renamed = refl
