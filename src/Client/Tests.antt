-- ===== src/Client/Tests.antt =====
-- Runs of clients, and the theorems of their guards at concrete runs.
use collab_vm_server.Base.{◌*◌, ◌≤◌, ◌≡◌, refl, true, false, List, [], ◌∷◌, none, some, arith}
use collab_vm_server.Client.{
  Rules, Socket, new_socket, connect_to_channel, turn_request, chat_message, start_vms, ban_ip,
  server_config_request, server_config_hidden, to_vm, call_connected_vm, requests_turn, chat, close,
  connect, send_server_config, view_server_config, leave_server_config, guac_instr, call_vm,
  sends_input,
}
use collab_vm_server.Client.Runs.{
  Event, connected, received, captcha_checked, captcha_demanded, session_created, joined, run,
}
use collab_vm_server.Client.Safety.{
  none_of, is_admin_task, is_action, no_admin_tasks, captcha_blocks,
}
use collab_vm_server.Client.Rate.{chats, Timed, chat_rate_bound}

abbrev pub rules : Rules
rules = record {
  validate_username = λ username. true;
  is_instruction_allowed = λ which. true;
  max_chat_message_len = 100;
  chat_rate_limit = 1000;
  username_change_rate_limit = 1000;
}

abbrev visit : List Event
visit =
    connected false
    ∷ received 2000 (some (connect_to_channel 3))
    ∷ joined 3
    ∷ received 2100 (some turn_request)
    ∷ received 2200 (some (start_vms (3 ∷ [])))
    ∷ received 3000 (some (chat_message (to_vm 3) (104 ∷ [])))
    ∷ received 3500 (some (chat_message (to_vm 3) (105 ∷ [])))
    ∷ received 4000 (some (chat_message (to_vm 3) (106 ∷ [])))
    ∷ received 4100 (some (ban_ip 1 2))
    ∷ session_created false
    ∷ received 4200 (some (guac_instr 0 7))
    ∷ received 4300 none
    ∷ []

-- The second chat message comes too early.
visit_tasks : run new_socket rules visit ≡ (
    connect 3
    ∷ call_connected_vm requests_turn
    ∷ chat (to_vm 3) (104 ∷ [])
    ∷ chat (to_vm 3) (106 ∷ [])
    ∷ call_vm 3 (sends_input 7)
    ∷ close
    ∷ [])
unfolding run
visit_tasks = refl

abbrev administrator : Socket
administrator = record new_socket { is_logged_in = true; is_admin = true }

-- The list of VMs is viewed once.
config_tasks :
    run administrator rules (
      received 1 (some server_config_request)
      ∷ received 2 (some server_config_request)
      ∷ received 3 (some server_config_hidden)
      ∷ [])
    ≡ (send_server_config ∷ view_server_config ∷ send_server_config ∷ leave_server_config ∷ [])
unfolding run
config_tasks = refl

no_admin_tasks_example : none_of is_admin_task (run new_socket rules visit) ≡ true
no_admin_tasks_example = no_admin_tasks rules new_socket visit refl tt

abbrev suspect : Socket
suspect = record new_socket { is_captcha_required = true; connected_vm_id = 3 }

abbrev attempts : List Event
attempts =
    received 2000 (some turn_request)
    ∷ captcha_checked false
    ∷ received 3000 (some (chat_message (to_vm 3) (104 ∷ [])))
    ∷ captcha_demanded
    ∷ received 3500 (some (guac_instr 0 7))
    ∷ []

captcha_blocks_example : none_of is_action (run suspect rules attempts) ≡ true
captcha_blocks_example = captcha_blocks rules suspect attempts refl tt

visit-Timed : Timed 2000 visit 4300
visit-Timed = ground arith

chat_rate_bound_example : chats (run new_socket rules visit) * 1000 ≤ 4300
chat_rate_bound_example = chat_rate_bound rules new_socket visit 2000 4300 (omega arith) visit-Timed
