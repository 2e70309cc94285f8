-- ===== src/Client/Runs.antt =====
-- CollabVmServer.hpp: the events that change the flags of a socket, in any order: its messages, and what
-- the strands of the server answer later.
use collab_vm_server.Base.{ℕ, Bool, true, false, not, List, [], ◌∷◌, ◌++◌, Option}
use collab_vm_server.Client.{Rules, Socket, ClientMessage, Task, leave_vm_list}
use collab_vm_server.Client.Handle.{on_message}

pub data Event : Type 0 where
  -- `OnConnect`, with the setting of the server.
  connected : (captcha_required : Bool) → Event
  received : (now : ℕ) → Option ClientMessage → Event
  captcha_checked : (is_valid : Bool) → Event
  -- `SEND_CAPTCHA` of an administrator.
  captcha_demanded : Event
  -- `CreateSession` found the user.
  session_created : (is_admin : Bool) → Event
  -- The client is in the channel of a VM.
  joined : (vm_id : ℕ) → Event
  joined_global_chat : Event
  list_viewed : Event

abbrev pub if_viewing : Bool → List Task
if_viewing true = leave_vm_list ∷ []
if_viewing false = []

unfoldable pub step : Socket → Rules → Event → Socket × List Task
unfolding on_message
step c rules (connected captcha_required) =
    (record c { is_captcha_required = captcha_required }, [])
step c rules (received now message) = on_message rules c now message
step c rules (captcha_checked is_valid) = (record c { is_captcha_required = not is_valid }, [])
step c rules captcha_demanded = (record c { is_captcha_required = true }, [])
step c rules (session_created is_admin) =
    (record c { is_logged_in = true; is_admin = is_admin }, [])
step c rules (joined vm_id) = (
  record c { connected_vm_id = vm_id; is_viewing_vm_list = false },
  if_viewing c.is_viewing_vm_list,
)
step c rules joined_global_chat = (
  record c { is_in_global_chat = true; connected_vm_id = 0; is_viewing_vm_list = false },
  if_viewing c.is_viewing_vm_list,
)
step c rules list_viewed = (record c { is_viewing_vm_list = true }, [])

-- All tasks of a run.
unfoldable pub run : Socket → Rules → List Event → List Task
unfolding step
run c rules [] = []
run c rules (e ∷ es) = (step c rules e).1 ++ run (step c rules e).0 rules es
