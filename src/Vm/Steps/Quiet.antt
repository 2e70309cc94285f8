-- ===== src/Vm/Steps/Quiet.antt =====
-- AdminVirtualMachine.hpp: what a stopped VM does not do.
use collab_vm_server.Base.{
  ℕ, ◌≡◌, refl, ◌≢◌, Bool, false, List, [], ◌∷◌, map, Option, none, some, arith,
}
use collab_vm_server.User.{UserData}
use collab_vm_server.Turn as TurnModule
use collab_vm_server.Turn.{TurnController}
use collab_vm_server.Vote as VoteModule
use collab_vm_server.Vote.{remove_vote, add_vote, on_vote_timer, on_cooldown_timer}
use collab_vm_server.Vm.{VmState, Now, Effect}
use collab_vm_server.Vm.Votes.{vote_timer_handler, cooldown_timer_handler, restart, cancel_vote}
use collab_vm_server.Vm.Control.{
  request_turn, pause_turn_timer, resume_turn_timer, end_current_turn, turn_timer_handler,
  with_turn, after_turn, read_instruction, stop, on_start, on_stop, connect_delay_handler,
  on_guacamole_instructions, queue_instructions, set_recording_settings,
}
use collab_vm_server.Vm.Steps.{
  Event, user_joins, user_leaves, user_votes, vote_timer_fires, cooldown_fires, vote_cancelled,
  turn_requested, turns_paused, turns_resumed, turn_ended_by, turn_timer_fires, input, started,
  stopped, restarted, client_started, client_stopped, connect_delay_fires, settings_updated,
  instructions_received, recording_settings_changed, step,
}
use collab_vm_server.Vm.Steps.Effects.{acts, acts-turn_effects, acts-run_calls}
use collab_vm_server.Vm.Steps.Silent.{join_quiet, vote_quiet, update_quiet, leave_quiet}

after_quiet :
    (s s' : VmState) (now : Now) (r : Option (TurnController × List TurnModule.Effect × Bool))
    (es : List Effect)
    → after_turn s now r ≡ some (s', es)
    → acts es ≡ false
unfolding with_turn
after_quiet s s' now none es h = absurd (ground arith)
after_quiet s s' now (some (t, e, r)) es h =
    ground (arith, h, acts-turn_effects (record s { turn = t }) now.turn_after e)

cancel_quiet : acts cancel_vote ≡ false
unfolding cancel_vote VoteModule.stop_vote
cancel_quiet = refl

queued_quiet :
    (is : List ℕ) (users : List (ℕ × UserData)) → acts (map (queue_instructions is) users) ≡ false
queued_quiet is [] = refl
queued_quiet is ((user, d) ∷ users) = queued_quiet is users

instructions_quiet : (s : VmState) (is : List ℕ) → acts (on_guacamole_instructions s is) ≡ false
unfolding on_guacamole_instructions
instructions_quiet s is = queued_quiet is s.channel.users

-- A VM that is not active executes no command, starts no recording and no Guacamole client, does not tell its
-- users the state of a Guacamole client that has connected and waits for no connection, whatever event it
-- handles but `Start`. It still writes the display to a user who joins, and still hands on instructions
-- of a Guacamole client that has not stopped yet.
pub inactive_quiet :
    (s s' : VmState) (now : Now) (e : Event) (es : List Effect)
    → s.active ≡ false
    → e ≢ started
    → step s now e ≡ some (s', es)
    → acts es ≡ false
unfolding step vote_timer_handler cooldown_timer_handler request_turn pause_turn_timer
    resume_turn_timer end_current_turn turn_timer_handler with_turn read_instruction stop on_start
    on_stop connect_delay_handler restart set_recording_settings
inactive_quiet s s' now (user_joins d user) es off n h = ground (arith, h, join_quiet s now d user)
inactive_quiet s s' now (user_leaves user) es off n h = leave_quiet s s' now user es h
inactive_quiet s s' now (user_votes user y) es off n h = ground (arith, h, vote_quiet s now user y)
inactive_quiet s s' now (vote_timer_fires failed) es off n h = ground (
  arith,
  h,
  acts-run_calls
      (record s {
        vote =
            (on_vote_timer s.settings.votes_enabled s.settings.vote_cooldown_time s.vote failed).0;
      })
      now (on_vote_timer s.settings.votes_enabled s.settings.vote_cooldown_time s.vote failed).1
      off,
)
inactive_quiet s s' now cooldown_fires es off n h = ground (
  arith,
  h,
  acts-run_calls (record s { vote = (on_cooldown_timer s.vote).0 }) now (on_cooldown_timer s.vote).1
      off,
)
inactive_quiet s s' now vote_cancelled es off n h = ground (arith, h, cancel_quiet)
inactive_quiet s s' now (turn_requested user) es off n h = ground (
  arith,
  h,
  acts-turn_effects (record s { turn = (TurnModule.request_turn s.turn user now.turn_before).0 })
      now.turn_after (TurnModule.request_turn s.turn user now.turn_before).1,
)
inactive_quiet s s' now (turns_paused b) es off n h = ground (
  arith,
  h,
  acts-turn_effects (record s { turn = (TurnModule.pause_turn_timer s.turn b now.turn_before).0 })
      now.turn_after (TurnModule.pause_turn_timer s.turn b now.turn_before).1,
)
inactive_quiet s s' now turns_resumed es off n h = ground (
  arith,
  h,
  acts-turn_effects (record s { turn = (TurnModule.resume_turn_timer s.turn).0 }) now.turn_after
      (TurnModule.resume_turn_timer s.turn).1,
)
inactive_quiet s s' now (turn_ended_by user) es off n h =
    ground (arith, h, after_quiet s s' now (TurnModule.end_current_turn s.turn now.turn_before) es)
inactive_quiet s s' now (turn_timer_fires failed current) es off n h =
    ground (
      arith,
      h,
      after_quiet s s' now (TurnModule.on_timer s.turn failed current now.turn_before) es,
    )
inactive_quiet s s' now (input user i) es off n h = ground (arith, h, off)
inactive_quiet s s' now started es off n h = absurd (n refl)
inactive_quiet s s' now stopped es off n h = ground (arith, h, off)
inactive_quiet s s' now restarted es off n h = ground (arith, h, off)
inactive_quiet s s' now client_started es off n h = ground (arith, h, off)
inactive_quiet s s' now client_stopped es off n h = ground (arith, h, off)
inactive_quiet s s' now (connect_delay_fires failed) es off n h = ground (arith, h, off)
inactive_quiet s s' now (settings_updated new) es off n h =
    ground (arith, h, update_quiet s now new off)
inactive_quiet s s' now (instructions_received is) es off n h =
    ground (arith, h, instructions_quiet s is)
inactive_quiet s s' now (recording_settings_changed b) es off n h = ground (arith, h, off)
