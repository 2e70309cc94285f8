-- ===== src/Chat/Tests.antt =====
-- A room that is full, and its history.
use collab_vm_server.Base.{◌≡◌, [], ◌∷◌, some, arith}
use collab_vm_server.User.{admin, guest}
use collab_vm_server.Chat.{ChatRoom, new_room, get_chat_history}
use collab_vm_server.Chat.History.{Said, stored, say_all, get_chat_history-say_all}

abbrev hello : Said
hello = record { username = 97 ∷ []; user_type = admin; message = 104 ∷ 105 ∷ []; timestamp = 7 }

get_chat_history-say_all_example :
    (room : ChatRoom) × (say_all 4 5 guest (new_room 4 5 guest 3) (hello ∷ hello ∷ []) ≡ some room)
    × (get_chat_history room ≡ some (stored 4 5 guest hello ∷ stored 4 5 guest hello ∷ []))
get_chat_history-say_all_example =
    get_chat_history-say_all 4 5 guest 3 (hello ∷ hello ∷ []) (omega arith)
