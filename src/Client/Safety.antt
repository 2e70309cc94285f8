-- ===== src/Client/Safety.antt =====
-- What the guards of `HandleMessage` keep out, over whole runs of messages.
use collab_vm_server.Base.{
  ℕ, ◌≡◌, refl, Bool, true, false, not, ◌&&◌, List, [], ◌∷◌, ◌++◌, Option, arith,
}
use collab_vm_server.Client.{
  Rules, Socket, ClientMessage, VmCall, requests_turn, ends_turn, votes, sends_input, Task,
  call_connected_vm, call_vm, call_each_vm, rename, chat, send_server_config, view_server_config,
  update_server_settings, create_machine, send_admin_vm_list, send_vm_config, delete_machine,
  update_machine, insert_invite, list_invites, list_reserved_usernames, change_invite,
  remove_invite, reserve_username, release_username, ban, require_captcha_of, kick,
  send_recording_previews,
}
use collab_vm_server.Client.Runs.{
  Event, connected, received, captcha_checked, captcha_demanded, session_created, joined,
  joined_global_chat, list_viewed, step, run,
}
use collab_vm_server.Client.Handle.{
  on_message, handle_message, tasks_of, handle_chat, is_chat_refused, handle_config_request,
  leave_config, read_input, handle_change_username, handle_registration,
}

-- A call of a VM that only an administrator may make.
abbrev pub is_admin_call : VmCall → Bool
is_admin_call requests_turn = false
is_admin_call ends_turn = false
is_admin_call (votes v) = false
is_admin_call (sends_input i) = false
is_admin_call _ = true

-- A task that reads or changes what only administrators may.
abbrev pub is_admin_task : Task → Bool
is_admin_task (call_connected_vm call) = is_admin_call call
is_admin_task (call_vm vm_id call) = is_admin_call call
is_admin_task (call_each_vm ids call) = true
is_admin_task send_server_config = true
is_admin_task view_server_config = true
is_admin_task (update_server_settings s) = true
is_admin_task (create_machine s) = true
is_admin_task send_admin_vm_list = true
is_admin_task (send_vm_config vm_id) = true
is_admin_task (delete_machine vm_id) = true
is_admin_task (update_machine vm_id s) = true
is_admin_task (insert_invite n u a) = true
is_admin_task list_invites = true
is_admin_task list_reserved_usernames = true
is_admin_task (change_invite id u a) = true
is_admin_task (remove_invite id) = true
is_admin_task (reserve_username u) = true
is_admin_task (release_username u) = true
is_admin_task (ban first second) = true
is_admin_task (require_captcha_of u channel) = true
is_admin_task (kick u channel) = true
is_admin_task (send_recording_previews vm_id t) = true
is_admin_task _ = false

-- A turn, a vote, input, a chat message or a new name that the client asks for.
abbrev pub is_action : Task → Bool
is_action (call_connected_vm requests_turn) = true
is_action (call_connected_vm (votes v)) = true
is_action (call_vm vm_id (sends_input i)) = true
is_action (rename new_username) = true
is_action (chat destination message) = true
is_action _ = false

abbrev pub none_of : (Task → Bool) → List Task → Bool
none_of p [] = true
none_of p (t ∷ ts) = not (p t) && none_of p ts

none_of-append :
    (p : Task → Bool) (ts us : List Task)
    → none_of p ts ≡ true
    → none_of p us ≡ true
    → none_of p (ts ++ us) ≡ true
none_of-append p [] us h k = k
none_of-append p (t ∷ ts) us h k = ground (arith, none_of-append p ts us)

-- No event makes the client an administrator.
abbrev pub NoAdminLogin : List Event → Type 0
NoAdminLogin [] = Unit {0}
NoAdminLogin (session_created true ∷ es) = ⊥
NoAdminLogin (e ∷ es) = NoAdminLogin es

-- The server is not told that the client solved a captcha.
abbrev pub NoCaptchaSolved : List Event → Type 0
NoCaptchaSolved [] = Unit {0}
NoCaptchaSolved (captcha_checked true ∷ es) = ⊥
NoCaptchaSolved (connected captcha_required ∷ es) = ⊥
NoCaptchaSolved (e ∷ es) = NoCaptchaSolved es

pub on_message-admin :
    (rules : Rules) (c : Socket) (now : ℕ) (m : Option ClientMessage)
    → c.is_admin ≡ false
    → (none_of is_admin_task (on_message rules c now m).1 ≡ true)
      × ((on_message rules c now m).0.is_admin ≡ false)
unfolding on_message handle_message tasks_of handle_chat is_chat_refused handle_config_request
    leave_config read_input handle_change_username handle_registration
on_message-admin rules c now m h = ground arith

on_message-captcha :
    (rules : Rules) (c : Socket) (now : ℕ) (m : Option ClientMessage)
    → c.is_captcha_required ≡ true
    → (none_of is_action (on_message rules c now m).1 ≡ true)
      × ((on_message rules c now m).0.is_captcha_required ≡ true)
unfolding on_message handle_message tasks_of handle_chat is_chat_refused handle_config_request
    leave_config read_input handle_change_username handle_registration
on_message-captcha rules c now m h = ground arith

step-admin :
    (c : Socket) (rules : Rules) (e : Event)
    → NoAdminLogin (e ∷ [])
    → c.is_admin ≡ false
    → (none_of is_admin_task (step c rules e).1 ≡ true) × ((step c rules e).0.is_admin ≡ false)
unfolding step
step-admin c rules (received now m) n h = on_message-admin rules c now m h
step-admin c rules (connected b) n h = (refl, h)
step-admin c rules (captcha_checked b) n h = (refl, h)
step-admin c rules captcha_demanded n h = (refl, h)
step-admin c rules (session_created true) n h = absurd n
step-admin c rules (session_created false) n h = (refl, refl)
step-admin c rules (joined vm_id) n h = ground arith
step-admin c rules joined_global_chat n h = ground arith
step-admin c rules list_viewed n h = (refl, h)

NoAdminLogin-split :
    (e : Event) (es : List Event) → NoAdminLogin (e ∷ es) → NoAdminLogin (e ∷ []) × NoAdminLogin es
NoAdminLogin-split (session_created true) es n = absurd n
NoAdminLogin-split (session_created false) es n = (tt, n)
NoAdminLogin-split (received now m) es n = (tt, n)
NoAdminLogin-split (connected b) es n = (tt, n)
NoAdminLogin-split (captcha_checked b) es n = (tt, n)
NoAdminLogin-split captcha_demanded es n = (tt, n)
NoAdminLogin-split (joined vm_id) es n = (tt, n)
NoAdminLogin-split joined_global_chat es n = (tt, n)
NoAdminLogin-split list_viewed es n = (tt, n)

-- A client that is no administrator and does not become one by logging in gets no administrative task
-- done, whatever messages it sends and whatever else happens to its socket, in any order.
pub no_admin_tasks :
    (rules : Rules) (c : Socket) (es : List Event)
    → c.is_admin ≡ false
    → NoAdminLogin es
    → none_of is_admin_task (run c rules es) ≡ true
unfolding run
no_admin_tasks rules c [] h n = refl
no_admin_tasks rules c (e ∷ es) h n =
    let (now, later) = NoAdminLogin-split e es n in
    let (told, kept) = step-admin c rules e now h in
    none_of-append is_admin_task (step c rules e).1 _ told
      (no_admin_tasks rules (step c rules e).0 es kept later)

step-captcha :
    (c : Socket) (rules : Rules) (e : Event)
    → NoCaptchaSolved (e ∷ [])
    → c.is_captcha_required ≡ true
    → (none_of is_action (step c rules e).1 ≡ true)
      × ((step c rules e).0.is_captcha_required ≡ true)
unfolding step
step-captcha c rules (received now m) n h = on_message-captcha rules c now m h
step-captcha c rules (connected b) n h = absurd n
step-captcha c rules (captcha_checked true) n h = absurd n
step-captcha c rules (captcha_checked false) n h = (refl, refl)
step-captcha c rules captcha_demanded n h = (refl, refl)
step-captcha c rules (session_created b) n h = (refl, h)
step-captcha c rules (joined vm_id) n h = ground arith
step-captcha c rules joined_global_chat n h = ground arith
step-captcha c rules list_viewed n h = (refl, h)

NoCaptchaSolved-split :
    (e : Event) (es : List Event)
    → NoCaptchaSolved (e ∷ es)
    → NoCaptchaSolved (e ∷ []) × NoCaptchaSolved es
NoCaptchaSolved-split (captcha_checked true) es n = absurd n
NoCaptchaSolved-split (connected b) es n = absurd n
NoCaptchaSolved-split (captcha_checked false) es n = (tt, n)
NoCaptchaSolved-split (session_created b) es n = (tt, n)
NoCaptchaSolved-split (received now m) es n = (tt, n)
NoCaptchaSolved-split captcha_demanded es n = (tt, n)
NoCaptchaSolved-split (joined vm_id) es n = (tt, n)
NoCaptchaSolved-split joined_global_chat es n = (tt, n)
NoCaptchaSolved-split list_viewed es n = (tt, n)

-- As long as a captcha is required of a client and none is found valid, its messages have no turn requested,
-- no vote cast, no input and no chat message sent and no name changed by `CHANGE_USERNAME`, whatever the
-- client sends. A login or a registration, which have their own checks, are not kept out.
pub captcha_blocks :
    (rules : Rules) (c : Socket) (es : List Event)
    → c.is_captcha_required ≡ true
    → NoCaptchaSolved es
    → none_of is_action (run c rules es) ≡ true
unfolding run
captcha_blocks rules c [] h n = refl
captcha_blocks rules c (e ∷ es) h n =
    let (now, later) = NoCaptchaSolved-split e es n in
    let (told, kept) = step-captcha c rules e now h in
    none_of-append is_action (step c rules e).1 _ told
      (captcha_blocks rules (step c rules e).0 es kept later)
