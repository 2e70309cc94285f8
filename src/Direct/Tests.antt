-- ===== src/Direct/Tests.antt =====
-- A direct chat between clients 1 and 2.
use collab_vm_server.Base.{◌≡◌, refl, List, [], ◌∷◌}
use collab_vm_server.Direct.{
  no_rooms, Store, Part, opens, joins, confirms, run, send_direct, sent_chat_message,
}

abbrev opening : List Part
opening = opens 1 2 ∷ joins 1 2 1 ∷ confirms 1 2 1 1 (104 ∷ []) ∷ []

abbrev nobody : Store
nobody socket = no_rooms

-- What 1 says is for 2, and what 2 answers as well.
said :
    send_direct (run nobody opening 1) 1 (97 ∷ []) (104 ∷ [])
    ≡ sent_chat_message 2 1 (97 ∷ []) (104 ∷ []) ∷ []
unfolding run send_direct
said = refl

answered :
    send_direct (run nobody opening 2) 1 (98 ∷ []) (105 ∷ [])
    ≡ sent_chat_message 2 1 (98 ∷ []) (105 ∷ []) ∷ []
unfolding run send_direct
answered = refl
