-- ===== src/Vm/Steps/Effects.antt =====
-- Which effects of a VM start something, and which parts of its handlers have none of them.
use collab_vm_server.Base.{
  ℕ, ◌≡◌, refl, Bool, true, false, ◌||◌, List, [], ◌∷◌, ◌++◌, map, if◌then◌else◌, arith,
}
use collab_vm_server.Base.Int.{ℤ}
use collab_vm_server.User.{UserData}
use collab_vm_server.Message.{Message, Sent}
use collab_vm_server.Turn as TurnModule
use collab_vm_server.Turn.{TurnController}
use collab_vm_server.Vote as VoteModule
use collab_vm_server.Vote.{remove_vote, add_vote, on_vote_timer, on_cooldown_timer}
use collab_vm_server.Channel.{broadcast_message}
use collab_vm_server.Vm.{
  VmState, Now, Effect, execute_command, start_guacamole, start_recording, send_guacamole_state,
  turn_effect, turn_effects, get_turn_queue, broadcast, sent, start_connect_delay_timer,
}
use collab_vm_server.Vm.Votes.{run_calls, vote_call, end_vote, become_idle, timer_calls}
use collab_vm_server.Vm.Settings.{close_guests}

-- Does a list of effects start a command, a recording or the Guacamole client?
abbrev is_action : Effect → Bool
is_action (execute_command c) = true
is_action start_recording = true
is_action (start_guacamole p) = true
is_action send_guacamole_state = true
is_action (start_connect_delay_timer n) = true
is_action _ = false

abbrev pub acts : List Effect → Bool
acts [] = false
acts (e ∷ es) = is_action e || acts es

pub acts-append :
    (es fs : List Effect) → acts es ≡ false → acts fs ≡ false → acts (es ++ fs) ≡ false
acts-append [] fs a b = b
acts-append (e ∷ es) fs a b = ground (arith, a, acts-append es fs (ground (arith, a)) b)

pub acts-sent : (l : List Sent) → acts (map sent l) ≡ false
acts-sent [] = refl
acts-sent (m ∷ l) = acts-sent l

pub acts-broadcast : (s : VmState) (m : Message) → acts (broadcast s m) ≡ false
acts-broadcast s m = acts-sent (broadcast_message true s.channel.users m)

pub acts-turn_effects :
    (s : VmState) (t : ℤ) (es : List TurnModule.Effect) → acts (turn_effects s t es) ≡ false
unfolding turn_effects turn_effect
acts-turn_effects s t [] = refl
acts-turn_effects s t (TurnModule.Effect.timer_cancel ∷ es) = acts-turn_effects s t es
acts-turn_effects s t (TurnModule.Effect.timer_expires_after d ∷ es) = acts-turn_effects s t es
acts-turn_effects s t (TurnModule.Effect.timer_async_wait u ∷ es) = acts-turn_effects s t es
acts-turn_effects s t (TurnModule.Effect.current_user_changed q r ∷ es) =
    acts-append (broadcast s (get_turn_queue s t)) (turn_effects s t es)
      (acts-broadcast s (get_turn_queue s t)) (acts-turn_effects s t es)
acts-turn_effects s t (TurnModule.Effect.user_added q r ∷ es) =
    acts-append (broadcast s (get_turn_queue s t)) (turn_effects s t es)
      (acts-broadcast s (get_turn_queue s t)) (acts-turn_effects s t es)
acts-turn_effects s t (TurnModule.Effect.user_removed q r ∷ es) =
    acts-append (broadcast s (get_turn_queue s t)) (turn_effects s t es)
      (acts-broadcast s (get_turn_queue s t)) (acts-turn_effects s t es)

pub acts-timer_calls : (es : List VoteModule.Effect) → acts (timer_calls es) ≡ false
unfolding timer_calls
acts-timer_calls [] = refl
acts-timer_calls (VoteModule.Effect.start_vote_timer t ∷ es) = acts-timer_calls es
acts-timer_calls (VoteModule.Effect.start_cooldown_timer t ∷ es) = acts-timer_calls es
acts-timer_calls (VoteModule.Effect.cancel_timer ∷ es) = acts-timer_calls es
acts-timer_calls (VoteModule.Effect.on_vote_start ∷ es) = acts-timer_calls es
acts-timer_calls (VoteModule.Effect.on_vote_idle ∷ es) = acts-timer_calls es
acts-timer_calls (VoteModule.Effect.on_vote_end b ∷ es) = acts-timer_calls es

pub acts-run_calls :
    (s : VmState) (now : Now) (es : List VoteModule.Effect)
    → s.active ≡ false
    → acts (run_calls s now es).1 ≡ false
unfolding run_calls vote_call end_vote become_idle
acts-run_calls s now [] h = refl
acts-run_calls s now (VoteModule.Effect.start_vote_timer t ∷ es) h = acts-run_calls s now es h
acts-run_calls s now (VoteModule.Effect.start_cooldown_timer t ∷ es) h = acts-run_calls s now es h
acts-run_calls s now (VoteModule.Effect.cancel_timer ∷ es) h = acts-run_calls s now es h
acts-run_calls s now (VoteModule.Effect.on_vote_start ∷ es) h = acts-run_calls s now es h
acts-run_calls s now (VoteModule.Effect.on_vote_idle ∷ es) h =
    ground (arith, h, acts-run_calls s now es h)
acts-run_calls s now (VoteModule.Effect.on_vote_end b ∷ es) h =
    ground (arith, h, acts-run_calls s now es h)

pub acts-if : (b : Bool) (es : List Effect) → acts es ≡ false → acts (if b then es else []) ≡ false
acts-if true es h = h
acts-if false es h = refl

pub acts-close_guests : (users : List (ℕ × UserData)) → acts (close_guests users) ≡ false
unfolding close_guests
acts-close_guests [] = refl
acts-close_guests ((u, d) ∷ users) = ground (arith, acts-close_guests users)
