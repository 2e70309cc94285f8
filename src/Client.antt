-- ===== src/Client.antt =====
-- CollabVmServer.hpp: what a client may ask of the server (`CollabVmSocket`). The flags of a socket
-- are its state; a text is the list of its bytes. `HandleMessage` runs the guards at once and hands the
-- rest to the strand of the data that it needs: such a part is a `Task`, with what it captures.
-- `Rules` is what `CollabVm::Common` gives; times are those of the steady clock.
pub mod Handle
pub mod Runs
pub mod Safety
pub mod Rate
pub mod Tests
use collab_vm_server.Base.{ℕ, ◌-◌, Bool, true, false, not, ◌&&◌, ◌||◌, List, [], ◌∷◌, Option}

pub record Rules : Type 0 where
  pub validate_username : List ℕ → Bool
  pub is_instruction_allowed : ℕ → Bool
  pub max_chat_message_len : ℕ
  pub chat_rate_limit : ℕ
  pub username_change_rate_limit : ℕ

pub record Socket : Type 0 where
  pub connected_vm_id : ℕ
  pub is_in_global_chat : Bool
  pub is_captcha_required : Bool
  pub is_logged_in : Bool
  pub is_admin : Bool
  pub is_viewing_server_config : Bool
  pub is_viewing_vm_list : Bool
  pub username : List ℕ
  pub last_chat_message : ℕ
  pub last_username_change : ℕ

abbrev pub new_socket : Socket
new_socket = record {
  connected_vm_id = 0;
  is_in_global_chat = false;
  is_captcha_required = false;
  is_logged_in = false;
  is_admin = false;
  is_viewing_server_config = false;
  is_viewing_vm_list = false;
  username = [];
  last_chat_message = 0;
  last_username_change = 0;
}

pub data Destination : Type 0 where
  to_new_direct : (username : List ℕ) → Destination
  to_direct to_vm : (id : ℕ) → Destination
  to_unknown : Destination

pub record Registration : Type 0 where
  pub requested_username : List ℕ
  pub password : List ℕ
  pub invite_id : List ℕ
  pub two_factor_token : Option (List ℕ)
  pub captcha_token : List ℕ

-- The members of `CollabVmClientMessage::Message`. Settings are the bytes of their list; an
-- instruction is its kind and its number.
pub data ClientMessage : Type 0 where
  connect_to_channel : (channel_id : ℕ) → ClientMessage
  captcha_completed : (token : List ℕ) → ClientMessage
  turn_request : ClientMessage
  vote : (voted_yes : Bool) → ClientMessage
  guac_instr : (which instruction : ℕ) → ClientMessage
  change_username : (new_username : List ℕ) → ClientMessage
  change_password_request : (old_password new_password : List ℕ) → ClientMessage
  chat_message : Destination → (message : List ℕ) → ClientMessage
  vm_list_request : ClientMessage
  login_request : (username password captcha_token : List ℕ) → ClientMessage
  two_factor_response : (code : ℕ) → ClientMessage
  account_registration_request : Registration → ClientMessage
  server_config_request server_config_hidden : ClientMessage
  server_config_modifications : (changed_settings : List ℕ) → ClientMessage
  create_vm : (initial_settings : List ℕ) → ClientMessage
  read_vms : ClientMessage
  read_vm_config : (vm_id : ℕ) → ClientMessage
  update_vm_config : (vm_id : ℕ) → (modifications : List ℕ) → ClientMessage
  delete_vm : (vm_id : ℕ) → ClientMessage
  start_vms stop_vms restart_vms : List ℕ → ClientMessage
  create_invite : (invite_name username : List ℕ) → (admin : Bool) → ClientMessage
  read_invites : ClientMessage
  update_invite : (id username : List ℕ) → (admin : Bool) → ClientMessage
  delete_invite validate_invite : (id : List ℕ) → ClientMessage
  create_reserved_username delete_reserved_username : (username : List ℕ) → ClientMessage
  read_reserved_usernames : ClientMessage
  ban_ip : (first second : ℕ) → ClientMessage
  send_captcha kick_user : (username : List ℕ) → (channel : ℕ) → ClientMessage
  pause_turn_timer resume_turn_timer end_turn cancel_vote : ClientMessage
  recording_preview_request : (vm_id timestamp : ℕ) → ClientMessage
  unknown_message : ClientMessage

-- A call of a VM on behalf of the client.
pub data VmCall : Type 0 where
  requests_turn ends_turn : VmCall
  votes : Bool → VmCall
  sends_input : ℕ → VmCall
  pauses_turns resumes_turns cancels_vote : VmCall
  starts stops restarts : VmCall

pub data Task : Type 0 where
  close : Task
  connect : (channel_id : ℕ) → Task
  verify_captcha : (token : List ℕ) → Task
  -- The VM is the one to which the client is connected when the task runs.
  call_connected_vm : VmCall → Task
  call_vm : (vm_id : ℕ) → VmCall → Task
  -- Every VM of the list in turn, up to the first that does not exist.
  call_each_vm : List ℕ → VmCall → Task
  rename : (new_username : List ℕ) → Task
  change_password : (old_password new_password : List ℕ) → Task
  chat : Destination → (message : List ℕ) → Task
  view_vm_list leave_vm_list : Task
  login : (username password captcha_token : List ℕ) → Task
  check_totp : ℕ → Task
  register register_with_captcha : Registration → Task
  send_server_config view_server_config leave_server_config : Task
  update_server_settings create_machine : List ℕ → Task
  send_admin_vm_list : Task
  send_vm_config delete_machine : ℕ → Task
  update_machine : ℕ → List ℕ → Task
  insert_invite : (invite_name username : List ℕ) → Bool → Task
  list_invites list_reserved_usernames : Task
  change_invite : (id username : List ℕ) → Bool → Task
  remove_invite check_invite reserve_username release_username : List ℕ → Task
  ban : ℕ → ℕ → Task
  require_captcha_of kick : List ℕ → ℕ → Task
  send_recording_previews : ℕ → ℕ → Task
