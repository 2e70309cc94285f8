-- ===== src/Direct/Rooms.antt =====
-- The limit of the rooms of a client, and whom a new room leads to.
use collab_vm_server.Base.{
  ℕ, ◌+◌, ◌≤◌, ◌<◌, ◌≡◌, inl, inr, List, [], ◌∷◌, none, length, update, arith, Option-cases,
}
use collab_vm_server.Base.Dict.{lookup, emplace, remove, length-modify, lookup-emplace}
use collab_vm_server.Direct.{
  ChatRooms, Room, Store, Part, opens, joins, confirms, undoes, open_room, join_room, confirm_room,
  undo_room, send_direct, sent_chat_message, find_room, step, run, with_room,
}

length-emplace : (k : ℕ) (v : Room) (m : List (ℕ × Room)) → length (emplace k v m) ≤ length m + 1
length-emplace k v [] = omega arith
length-emplace k v ((j, w) ∷ m) = ground (arith, length-emplace k v m)

length-remove : (k : ℕ) (m : List (ℕ × Room)) → length (remove k m) ≤ length m
length-remove k [] = omega arith
length-remove k ((j, w) ∷ m) = ground (arith, length-remove k m)

open_room-limit :
    (c : ChatRooms) (self recipient : ℕ)
    → length c.rooms ≤ 10
    → length (open_room c self recipient).0.rooms ≤ 10
unfolding open_room
open_room-limit c self recipient h =
    ground (
      arith,
      h,
      length-emplace c.rooms_id (record { partner = recipient; partner_room = 0 }) c.rooms,
    )

join_room-limit :
    (c : ChatRooms) (self recipient sender_id : ℕ)
    → length c.rooms ≤ 10
    → length (join_room c self recipient sender_id).0.rooms ≤ 10
unfolding join_room
join_room-limit c self recipient sender_id h = elim (Option-cases (find_room self c.rooms)) [
  | inl e ↦ ground (
    arith,
    e,
    h,
    length-emplace c.rooms_id (record { partner = recipient; partner_room = sender_id }) c.rooms,
  )
  | inr (r, e) ↦ ground (arith, e, h, length-modify r.0 (with_room sender_id) c.rooms)
]

confirm_room-limit :
    (c : ChatRooms) (self recipient sender_id recipient_id : ℕ) (message : List ℕ)
    → length c.rooms ≤ 10
    → length (confirm_room c self recipient sender_id recipient_id message).0.rooms ≤ 10
unfolding confirm_room
confirm_room-limit c self recipient sender_id recipient_id message h =
    ground (arith, h, length-modify sender_id (with_room recipient_id) c.rooms)

update-limit :
    (s : Store) (u : ℕ) (c : ChatRooms)
    → ((v : ℕ) → length (s v).rooms ≤ 10)
    → length c.rooms ≤ 10
    → (v : ℕ) → length (update s u c v).rooms ≤ 10
update-limit s u c h k v = ground (arith, h v, k)

step-limit :
    (s : Store) (p : Part)
    → ((v : ℕ) → length (s v).rooms ≤ 10)
    → (v : ℕ) → length (step s p v).rooms ≤ 10
unfolding step
step-limit s (opens self recipient) h =
    update-limit s self _ h (open_room-limit (s self) self recipient (h self))
step-limit s (joins self recipient sender_id) h =
    update-limit s recipient _ h
      (join_room-limit (s recipient) self recipient sender_id (h recipient))
step-limit s (confirms self recipient sender_id recipient_id message) h =
    update-limit s self _ h
      (confirm_room-limit (s self) self recipient sender_id recipient_id message (h self))
step-limit s (undoes self sender_id) h =
    update-limit s self _ h
      (unfold undo_room in omega (arith, h self, length-remove sender_id (s self).rooms))

-- However the parts of the openings of rooms mix, no client ever has more than ten rooms, if none had
-- more at first.
pub run-limit :
    (s : Store) (ps : List Part)
    → ((v : ℕ) → length (s v).rooms ≤ 10)
    → (v : ℕ) → length (run s ps v).rooms ≤ 10
unfolding run
run-limit s [] h = h
run-limit s (p ∷ ps) h = run-limit (step s p) ps (step-limit s p h)

-- A room that is made for the recipient of a direct chat leads back to the recipient: what the recipient
-- answers in it is sent to the recipient, not to the client who opened the chat. The number of the
-- room is not in use.
pub answer_returns :
    (c : ChatRooms) (self recipient sender_id : ℕ) (username message : List ℕ)
    → find_room self c.rooms ≡ none
    → length c.rooms < 10
    → lookup c.rooms_id c.rooms ≡ none
    → send_direct (join_room c self recipient sender_id).0 c.rooms_id username message
      ≡ sent_chat_message recipient c.rooms_id username message ∷ []
unfolding join_room send_direct
answer_returns c self recipient sender_id username message e h free = ground (
  arith,
  e,
  h,
  lookup-emplace c.rooms_id c.rooms_id (record { partner = recipient; partner_room = sender_id })
      c.rooms free,
)
