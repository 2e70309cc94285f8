-- ===== src/Channel/Tests.antt =====
-- A channel with an administrator and two guests of one address.
use collab_vm_server.Base.{◌+◌, ◌≡◌, refl, Option, none, some, [], ◌∷◌, arith, replicate}
use collab_vm_server.Base.Dict.{lookup, count}
use collab_vm_server.User.{UserData, UserType, admin, guest, no_votes}
use collab_vm_server.Chat.{new_room}
use collab_vm_server.Channel.{Channel, new_channel, add_user, remove_user}
use collab_vm_server.Channel.References.{
  Counted, has_ip, references, new_channel-Counted, add_user-Counted, remove_user-Counted,
  add_again_leaks,
}

abbrev person : UserType → collab_vm_server.Base.ℕ → UserData
person t ip = record { username = 117 ∷ []; user_type = t; ip_address = ip; vote_data = no_votes }

abbrev empty : Channel
empty = new_channel (new_room 4 4 guest 1)

abbrev one : Channel
one = (add_user empty (person admin 9) 1).0

one-Counted : Counted one
unfolding new_channel
one-Counted =
    (add_user-Counted empty (person admin 9) 1 refl (new_channel-Counted (new_room 4 4 guest 1))).0

add_user-Counted_example :
    Counted (add_user one (person guest 5) 2).0
    × (lookup 2 (add_user one (person guest 5) 2).0.users ≡ some (person guest 5))
unfolding add_user new_channel
add_user-Counted_example = add_user-Counted one (person guest 5) 2 refl one-Counted

remove_user-Counted_example :
    Counted (remove_user one 1).0 × (lookup 1 (remove_user one 1).0.users ≡ none)
remove_user-Counted_example = remove_user-Counted one 1 one-Counted

add_again_leaks_example :
    let c' = (remove_user (add_user one (person guest 9) 1).0 1).0 in
    (lookup 1 c'.users ≡ none) × (references 9 c'.ip_data ≡ count (has_ip 9) c'.users + 1)
unfolding add_user new_channel
add_again_leaks_example =
    add_again_leaks one (person admin 9) (person guest 9) 1 one-Counted refl refl
