-- ===== src/Client/Handle.antt =====
-- CollabVmServer.hpp: `HandleMessage`, its guards and what it hands on.
use collab_vm_server.Base.{
  ℕ, ◌-◌, Bool, true, false, not, ◌&&◌, ◌||◌, List, [], ◌∷◌, Option, none, some, length, ltb, ◌==◌,
  if◌then◌else◌,
}
use collab_vm_server.Client.{
  Rules, Socket, Destination, Registration, ClientMessage, connect_to_channel, captcha_completed,
  turn_request, vote, guac_instr, change_username, change_password_request, chat_message,
  vm_list_request, login_request, two_factor_response, account_registration_request,
  server_config_request, server_config_hidden, server_config_modifications, create_vm, read_vms,
  read_vm_config, update_vm_config, delete_vm, start_vms, stop_vms, restart_vms, create_invite,
  read_invites, update_invite, delete_invite, validate_invite, create_reserved_username,
  delete_reserved_username, read_reserved_usernames, ban_ip, send_captcha, kick_user,
  pause_turn_timer, resume_turn_timer, end_turn, cancel_vote, recording_preview_request,
  unknown_message, requests_turn, ends_turn, votes, sends_input, pauses_turns, resumes_turns,
  cancels_vote, starts, stops, restarts, Task, close, connect, verify_captcha, call_connected_vm,
  call_vm, call_each_vm, rename, change_password, chat, view_vm_list, login, check_totp, register,
  register_with_captcha, send_server_config, view_server_config, leave_server_config,
  update_server_settings, create_machine, send_admin_vm_list, send_vm_config, delete_machine,
  update_machine, insert_invite, list_invites, list_reserved_usernames, change_invite,
  remove_invite, check_invite, reserve_username, release_username, ban, require_captcha_of, kick,
  send_recording_previews,
}

abbrev guarded : Bool → Task → List Task
guarded b t = if b then t ∷ [] else []

-- Is the client connected to a VM? The number of the global channel is 0.
abbrev pub is_connected : Socket → Bool
is_connected c = not (c.connected_vm_id == 0)

abbrev may_act : Socket → Bool
may_act c = is_connected c && not c.is_captcha_required

unfoldable pub read_input : Rules → Socket → (which instruction : ℕ) → List Task
read_input rules c which instruction =
    if not (may_act c)
    then []
    else (if rules.is_instruction_allowed which
        then call_vm c.connected_vm_id (sends_input instruction) ∷ []
        else close ∷ [])

-- `now` is not before the times that the socket remembers.
unfoldable pub handle_change_username : Rules → Socket → ℕ → List ℕ → List Task
handle_change_username rules c now new_username =
    guarded
      (not c.is_captcha_required
        && not c.is_logged_in
        && not (ltb (now - c.last_username_change) rules.username_change_rate_limit)
        && rules.validate_username new_username)
      (rename new_username)

unfoldable pub is_chat_refused : Rules → Socket → ℕ → List ℕ → Bool
is_chat_refused rules c now message =
    c.is_captcha_required
    || length message == 0
    || ltb rules.max_chat_message_len (length message)
    || ltb (now - c.last_chat_message) rules.chat_rate_limit

unfoldable pub handle_chat : Rules → Socket → ℕ → Destination → List ℕ → Socket × List Task
unfolding is_chat_refused
handle_chat rules c now destination message =
    if is_chat_refused rules c now message
    then (c, [])
    else (record c { last_chat_message = now }, chat destination message ∷ [])

-- A registration with an invite needs no captcha.
unfoldable pub handle_registration : Registration → List Task
handle_registration r =
    if length r.invite_id == 0 then register_with_captcha r ∷ [] else register r ∷ []

unfoldable pub handle_config_request : Socket → Socket × List Task
handle_config_request c =
    if not c.is_admin
    then (c, [])
    else (if c.is_viewing_server_config then (c, send_server_config ∷ []) else (
      record c { is_viewing_server_config = true },
      send_server_config ∷ view_server_config ∷ [],
    ))

unfoldable pub leave_config : Socket → Socket × List Task
leave_config c =
    if c.is_viewing_server_config
    then (record c { is_viewing_server_config = false }, leave_server_config ∷ [])
    else (c, [])

abbrev invite_id_len : ℕ
invite_id_len = 32

-- The members whose handlers leave the socket as it is.
unfoldable pub tasks_of : Rules → Socket → ℕ → ClientMessage → List Task
unfolding read_input handle_change_username handle_registration
tasks_of rules c now (connect_to_channel channel_id) = connect channel_id ∷ []
tasks_of rules c now (captcha_completed token) = verify_captcha token ∷ []
tasks_of rules c now turn_request = guarded (may_act c) (call_connected_vm requests_turn)
tasks_of rules c now (vote voted_yes) = guarded (may_act c) (call_connected_vm (votes voted_yes))
tasks_of rules c now (guac_instr which instruction) = read_input rules c which instruction
tasks_of rules c now (change_username new_username) =
    handle_change_username rules c now new_username
tasks_of rules c now (change_password_request old_password new_password) =
    guarded c.is_logged_in (change_password old_password new_password)
tasks_of rules c now (chat_message destination message) = []
tasks_of rules c now vm_list_request = view_vm_list ∷ []
tasks_of rules c now (login_request username password captcha_token) =
    login username password captcha_token ∷ []
tasks_of rules c now (two_factor_response code) = check_totp code ∷ []
tasks_of rules c now (account_registration_request r) = handle_registration r
tasks_of rules c now server_config_request = []
tasks_of rules c now server_config_hidden = []
tasks_of rules c now (server_config_modifications changed_settings) =
    guarded c.is_admin (update_server_settings changed_settings)
tasks_of rules c now (create_vm initial_settings) =
    guarded c.is_admin (create_machine initial_settings)
tasks_of rules c now read_vms = guarded c.is_admin send_admin_vm_list
tasks_of rules c now (read_vm_config vm_id) = guarded c.is_admin (send_vm_config vm_id)
tasks_of rules c now (update_vm_config vm_id modifications) =
    guarded c.is_admin (update_machine vm_id modifications)
tasks_of rules c now (delete_vm vm_id) = guarded c.is_admin (delete_machine vm_id)
tasks_of rules c now (start_vms ids) = guarded c.is_admin (call_each_vm ids starts)
tasks_of rules c now (stop_vms ids) = guarded c.is_admin (call_each_vm ids stops)
tasks_of rules c now (restart_vms ids) = guarded c.is_admin (call_each_vm ids restarts)
tasks_of rules c now (create_invite invite_name username admin) =
    guarded c.is_admin (insert_invite invite_name username admin)
tasks_of rules c now read_invites = guarded c.is_admin list_invites
tasks_of rules c now (update_invite id username admin) =
    guarded c.is_admin (change_invite id username admin)
tasks_of rules c now (delete_invite id) = guarded c.is_admin (remove_invite id)
tasks_of rules c now (validate_invite id) = guarded (length id == invite_id_len) (check_invite id)
tasks_of rules c now (create_reserved_username username) =
    guarded c.is_admin (reserve_username username)
tasks_of rules c now (delete_reserved_username username) =
    guarded c.is_admin (release_username username)
tasks_of rules c now read_reserved_usernames = guarded c.is_admin list_reserved_usernames
tasks_of rules c now (ban_ip first second) = guarded c.is_admin (ban first second)
tasks_of rules c now (send_captcha username channel) =
    guarded c.is_admin (require_captcha_of username channel)
tasks_of rules c now (kick_user username channel) = guarded c.is_admin (kick username channel)
tasks_of rules c now pause_turn_timer =
    guarded (c.is_admin && is_connected c) (call_vm c.connected_vm_id pauses_turns)
tasks_of rules c now resume_turn_timer =
    guarded (c.is_admin && is_connected c) (call_vm c.connected_vm_id resumes_turns)
tasks_of rules c now end_turn = guarded (is_connected c) (call_vm c.connected_vm_id ends_turn)
tasks_of rules c now cancel_vote =
    guarded (c.is_admin && is_connected c) (call_vm c.connected_vm_id cancels_vote)
tasks_of rules c now (recording_preview_request vm_id timestamp) =
    guarded c.is_admin (send_recording_previews vm_id timestamp)
tasks_of rules c now unknown_message = close ∷ []

unfoldable pub handle_message : Rules → Socket → ℕ → ClientMessage → Socket × List Task
unfolding tasks_of handle_chat handle_config_request leave_config
handle_message rules c now (chat_message destination message) =
    handle_chat rules c now destination message
handle_message rules c now server_config_request = handle_config_request c
handle_message rules c now server_config_hidden = leave_config c
handle_message rules c now message = (c, tasks_of rules c now message)

-- `OnMessage`: bytes that are no message make the reader throw.
unfoldable pub on_message : Rules → Socket → ℕ → Option ClientMessage → Socket × List Task
unfolding handle_message
on_message rules c now none = (c, close ∷ [])
on_message rules c now (some message) = handle_message rules c now message
