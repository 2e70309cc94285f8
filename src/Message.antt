-- ===== src/Message.antt =====
-- The messages of the server that the models build (`CollabVmServerMessage`), and to whom they go.
use collab_vm_server.Base.{ℕ, Bool, List}
use collab_vm_server.Base.Int.{ℤ}
use collab_vm_server.User.{UserType}
use collab_vm_server.Chat.{ChannelChatMessage}

pub data TurnState : Type 0 where
  disabled paused enabled : TurnState

pub data VoteStatus : Type 0 where
  votes_disabled votes_cooling_down : VoteStatus
  votes_idle : (disallow_guest_votes : Bool) → VoteStatus
  votes_in_progress : (time_remaining : ℤ) (yes no : ℕ) (disallow_guest_votes : Bool) → VoteStatus

pub record ListedUser : Type 0 where
  pub username : List ℕ
  pub user_type : UserType

pub record AdminListedUser : Type 0 where
  pub username : List ℕ
  pub user_type : UserType
  pub ip_address : ℕ

pub data Message : Type 0 where
  user_list : (channel : ℕ) → List ListedUser → Message
  admin_user_list : (channel : ℕ) → List AdminListedUser → Message
  user_list_add : (channel : ℕ) → ListedUser → Message
  admin_user_list_add : (channel : ℕ) → AdminListedUser → Message
  user_list_remove : (channel : ℕ) → (username : List ℕ) → Message
  change_username : (old_username new_username : List ℕ) → Message
  chat_message : ChannelChatMessage → Message
  vm_description : List ℕ → Message
  vm_turn_info : TurnState → (time_remaining : ℤ) → (users : List (List ℕ)) → Message
  vote_status : VoteStatus → Message
  vote_result : Bool → Message

-- `QueueMessage` of a user's socket, or of the user that stands for the recording.
pub data Sent : Type 0 where
  to_user : ℕ → Message → Sent
  to_recording : Message → Sent
