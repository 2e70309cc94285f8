-- ===== src/Direct.antt =====
-- CollabVmServer.hpp: chat between two clients (`NEW_DIRECT` and `DIRECT` of `CHAT_MESSAGE`). A socket
-- is a number. Its rooms are on a strand of its own, so that opening a room has three parts, between
-- which anything may run. A room has the other client and the number of the room there, 0 for none yet.
pub mod Rooms
pub mod Tests
use collab_vm_server.Base.{
  ℕ, ◌+◌, ◌%◌, ◌^◌, Bool, true, false, not, ◌&&◌, List, [], ◌∷◌, ◌++◌, Option, none, some, length,
  leb, update, ◌==◌, if◌then◌else◌,
}
use collab_vm_server.Base.Dict.{lookup, emplace, modify, remove}

pub record Room : Type 0 where
  pub partner : ℕ
  pub partner_room : ℕ

-- The fields `chat_rooms_` and `chat_rooms_id_` of a socket.
pub record ChatRooms : Type 0 where
  pub rooms : List (ℕ × Room)
  pub rooms_id : ℕ

abbrev pub no_rooms : ChatRooms
no_rooms = record { rooms = []; rooms_id = 1 }

pub data Response : Type 0 where
  user_not_found user_chat_limit recipient_chat_limit : Response

pub data Effect : Type 0 where
  responded : (socket : ℕ) → Response → Effect
  sent_channel_id : (socket id : ℕ) → Effect
  sent_new_channel : (socket id : ℕ) → (message : List ℕ) → Effect
  sent_chat_message : (socket id : ℕ) → (sender message : List ℕ) → Effect

-- The next part of the opening of a room.
pub data Next : Type 0 where
  done : List Effect → Next
  ask_recipient : (sender_id : ℕ) → Next
  confirm : (sender_id recipient_id : ℕ) → Next
  undo : (sender_id : ℕ) → Next

-- The first room with a client.
abbrev pub find_room : ℕ → List (ℕ × Room) → Option (ℕ × Room)
find_room partner [] = none
find_room partner ((id, room) ∷ rooms) =
    if room.partner == partner then some (id, room) else find_room partner rooms

abbrev pub next_id : ℕ → ℕ
next_id id = (id + 1) % 2 ^ 32

-- The sender's part: a room with the recipient, unless there is one.
unfoldable pub open_room : ChatRooms → (self recipient : ℕ) → ChatRooms × Next
open_room c self recipient =
    if leb 10 (length c.rooms)
    then (c, done (responded self user_chat_limit ∷ []))
    else (elim (find_room recipient c.rooms) [
      | some (id, room) ↦ (c, done (sent_channel_id self room.partner_room ∷ []))
      | none ↦ (
        record c {
          rooms = emplace c.rooms_id (record { partner = recipient; partner_room = 0 }) c.rooms;
          rooms_id = next_id c.rooms_id;
        },
        ask_recipient c.rooms_id,
      )
    ])

abbrev pub with_room : ℕ → Room → Room
with_room id room = record room { partner_room = id }

-- The recipient's part. The new room's client is the recipient.
unfoldable pub join_room : ChatRooms → (self recipient sender_id : ℕ) → ChatRooms × Next
join_room c self recipient sender_id = elim (find_room self c.rooms) [
  | some (id, room) ↦
      if room.partner_room == 0
      then (record c { rooms = modify id (with_room sender_id) c.rooms }, done [])
      else (c, done (sent_channel_id self sender_id ∷ []))
  | none ↦ if leb 10 (length c.rooms) then (c, undo sender_id) else (
    record c {
      rooms = emplace c.rooms_id (record { partner = recipient; partner_room = sender_id }) c.rooms;
      rooms_id = next_id c.rooms_id;
    },
    confirm sender_id c.rooms_id,
  )
]

-- The sender's part again, when the recipient has a room.
unfoldable pub confirm_room :
    ChatRooms
    → (self recipient sender_id recipient_id : ℕ) → (message : List ℕ) → ChatRooms × List Effect
confirm_room c self recipient sender_id recipient_id message = elim (lookup sender_id c.rooms) [
  | none ↦ (c, [])
  | some room ↦ if not (room.partner_room == 0) then (c, []) else (
    record c { rooms = modify sender_id (with_room recipient_id) c.rooms },
    sent_channel_id self sender_id
        ∷ sent_new_channel recipient recipient_id message
        ∷ sent_new_channel self recipient_id message
        ∷ [],
  )
]

-- The sender's part again, when the recipient has too many rooms.
unfoldable pub undo_room : ChatRooms → (self sender_id : ℕ) → ChatRooms × List Effect
undo_room c self sender_id =
    (record c { rooms = remove sender_id c.rooms }, responded self recipient_chat_limit ∷ [])

-- A message in a room goes to the client of the room.
unfoldable pub send_direct : ChatRooms → (id : ℕ) → (username message : List ℕ) → List Effect
send_direct c id username message = elim (lookup id c.rooms) [
  | none ↦ []
  | some room ↦ sent_chat_message room.partner id username message ∷ []
]

-- The rooms of all sockets.
abbrev pub Store : Type 0
Store = ℕ → ChatRooms

-- What runs on a strand; the parts of different openings mix.
pub data Part : Type 0 where
  opens : (self recipient : ℕ) → Part
  joins : (self recipient sender_id : ℕ) → Part
  confirms : (self recipient sender_id recipient_id : ℕ) → List ℕ → Part
  undoes : (self sender_id : ℕ) → Part

unfoldable pub step : Store → Part → Store
unfolding open_room join_room confirm_room undo_room
step s (opens self recipient) = update s self (open_room (s self) self recipient).0
step s (joins self recipient sender_id) =
    update s recipient (join_room (s recipient) self recipient sender_id).0
step s (confirms self recipient sender_id recipient_id message) =
    update s self (confirm_room (s self) self recipient sender_id recipient_id message).0
step s (undoes self sender_id) = update s self (undo_room (s self) self sender_id).0

unfoldable pub run : Store → List Part → Store
unfolding step
run s [] = s
run s (p ∷ ps) = run (step s p) ps
