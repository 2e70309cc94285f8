-- ===== src/Chat.antt =====
-- CollabVmChatRoom.hpp: the ring buffer of the last chat messages. The texts of a slot have a fixed
-- number of bytes; to copy a longer text into one is undefined behaviour, written `none`.
pub mod Ring
pub mod History
pub mod Tests
use collab_vm_server.Base.{
  ℕ, zero, suc, ◌+◌, ◌-◌, ◌%◌, Bool, true, false, List, [], ◌∷◌, ◌++◌, Option, none, some, length,
  get_elem?, set, replicate, if◌then◌else◌, ◌==◌, leb, ◌>>=◌,
}
use collab_vm_server.User.{UserType}

abbrev pub max_chat_message_history : ℕ
max_chat_message_history = 100

-- A message of the history. The sender's type is a field that no operation writes.
pub record ChatMessage : Type 0 where
  pub sender : List ℕ
  pub user_type : UserType
  pub message : List ℕ
  pub timestamp : ℕ

pub record ChannelChatMessage : Type 0 where
  pub channel : ℕ
  pub content : ChatMessage

pub record ChatRoom : Type 0 where
  pub id : ℕ
  pub next_message_offset : ℕ
  pub count : ℕ
  pub messages : List ChatMessage

-- The text builder has `size` bytes.
unfoldable pub copy_string_to_text_builder : List ℕ → ℕ → Option (List ℕ)
copy_string_to_text_builder text size =
    if leb (length text) size then some (text ++ replicate (size - length text) 0) else none

-- The two lengths of the template, and the default of the user type in the schema.
module _ (max_username_len max_message_len : ℕ) (default_type : UserType) where
  unfoldable pub empty_slot : ChatMessage
  empty_slot = record {
    sender = replicate max_username_len 0;
    user_type = default_type;
    message = replicate max_message_len 0;
    timestamp = 0;
  }

  unfoldable pub new_room : ℕ → ChatRoom
  unfolding empty_slot
  new_room id = record {
    id = id;
    next_message_offset = 0;
    count = 0;
    messages = replicate max_chat_message_history empty_slot;
  }

abbrev pub min : ℕ → ℕ → ℕ
min a b = if leb a b then a else b

-- The message for the other users, and the room with the message in its history.
unfoldable pub add_user_message :
    (max_username_len max_message_len : ℕ)
    → ChatRoom
    → (username : List ℕ) → UserType
    → (message : List ℕ) → (timestamp : ℕ) → Option (ChannelChatMessage × ChatRoom)
unfolding copy_string_to_text_builder
add_user_message max_username_len max_message_len room username user_type message timestamp = do
  slot ← get_elem? room.messages room.next_message_offset
  body ← copy_string_to_text_builder message max_message_len
  sender ← copy_string_to_text_builder username max_username_len
  some (
    record {
      channel = room.id;
      content = record {
        sender = username;
        user_type = user_type;
        message = message;
        timestamp = timestamp;
      };
    },
    record room {
      count = min (room.count + 1) max_chat_message_history;
      next_message_offset = (room.next_message_offset + 1) % max_chat_message_history;
      messages =
          set room.messages room.next_message_offset
            (record slot { sender = sender; message = body; timestamp = timestamp });
    },
  )

-- The loop of `GetChatHistory` over the messages that are left.
pub read_messages : List ChatMessage → ℕ → ℕ → Option (List ChatMessage)
read_messages messages message_index zero = some []
read_messages messages message_index (suc left) = do
  message ← get_elem? messages message_index
  rest ← read_messages messages ((message_index + 1) % length messages) left
  some (message ∷ rest)

unfoldable pub get_chat_history : ChatRoom → Option (List ChatMessage)
get_chat_history room =
    read_messages room.messages
      (if room.count == max_chat_message_history then room.next_message_offset else 0) room.count
