-- ===== src/Vm/Steps/Safety.antt =====
-- What the events of a VM keep sound, one by one and in sequence.
use collab_vm_server.Base.{
  ℕ, ◌≡◌, refl, subst, Bool, true, false, not, ◌&&◌, List, [], ◌∷◌, some, arith,
}
use collab_vm_server.User.{UserData}
use collab_vm_server.Turn as TurnModule
use collab_vm_server.Turn.{Call, clear_all, request, pause, resume, TurnController}
use collab_vm_server.Turn.Position.{IsValid-empty}
use collab_vm_server.Chat.{ChatRoom}
use collab_vm_server.Vote.{on_vote_timer, on_cooldown_timer}
use collab_vm_server.Vm.{VmState, VmSettings, Now, Effect}
use collab_vm_server.Vm.Users.{join}
use collab_vm_server.Vm.Votes.{vote, vote_timer_handler, cooldown_timer_handler}
use collab_vm_server.Vm.Control.{
  request_turn, pause_turn_timer, resume_turn_timer, start, stop, on_start, on_stop,
}
use collab_vm_server.Vm.Settings.{update_settings, validate_settings, new_vm}
use collab_vm_server.Vm.Steps.{
  Event, user_joins, user_leaves, user_votes, vote_timer_fires, cooldown_fires, vote_cancelled,
  turn_requested, turns_paused, turns_resumed, turn_ended_by, turn_timer_fires, input, started,
  stopped, restarted, client_started, run, without_valid, client_stopped, connect_delay_fires,
  settings_updated, instructions_received, recording_settings_changed, step,
}
use collab_vm_server.Vm.Steps.Kept.{
  Sound, Succeeds, Same, Same-Sound, run_calls-Same, vote-Same, leave-Succeeds,
}
use collab_vm_server.Vm.Steps.Turns.{
  request_turn-Sound, pause-Sound, resume-Sound, ends_running_turn, Handles, end_turn-Handles,
  timer-Succeeds, update-Sound,
}

vote_timer_handler-Same :
    (s : VmState) (now : Now) (b : Bool) → Same s (vote_timer_handler s now b).0
unfolding vote_timer_handler
vote_timer_handler-Same s now b =
    let out = on_vote_timer s.settings.votes_enabled s.settings.vote_cooldown_time s.vote b in
    run_calls-Same (record s { vote = out.0 }) now out.1

cooldown_timer_handler-Same : (s : VmState) (now : Now) → Same s (cooldown_timer_handler s now).0
unfolding cooldown_timer_handler
cooldown_timer_handler-Same s now =
    let out = on_cooldown_timer s.vote in run_calls-Same (record s { vote = out.0 }) now out.1

join-Same : (s : VmState) (now : Now) (d : UserData) (user : ℕ) → Same s (join s now d user).0
unfolding join
join-Same s now d user = (refl, refl)

start-Same : (s : VmState) → Same s (start s).0
unfolding start
start-Same s = ground arith

stop-Same : (s : VmState) → Same s (stop s).0
unfolding stop
stop-Same s = ground arith

on_start-Same : (s : VmState) → Same s (on_start s).0
unfolding on_start
on_start-Same s = ground arith

on_stop-Same : (s : VmState) → Same s (on_stop s).0
unfolding on_stop
on_stop-Same s = ground arith

done : (r : VmState × List Effect) → Sound r.0 → Succeeds (some r)
done r h = (r.0, r.1, refl, h)

pub new_vm-Sound :
    (settings : VmSettings) (room : ChatRoom)
    → validate_settings settings ≡ true
    → Sound (new_vm settings room)
unfolding new_vm TurnModule.set_turn_time
new_vm-Sound settings room good = record {
  valid = IsValid-empty;
  nobody_waits = λ w. refl;
  timed = refl;
  checked = good;
}

-- Is the event undefined behaviour?
abbrev pub faults : VmState → Event → Bool
faults s (turn_ended_by user) = ends_running_turn s user
faults s _ = false

-- When the positions of the users are those in the queue of the VM, so that no other VM has given them
-- one, every event of a sound VM leaves it sound, but for one: to end the turn that a user has, by that
-- user or an administrator, is undefined behaviour.
pub step-Sound :
    (s : VmState) (now : Now) (e : Event) → Sound s → Handles (faults s e) (step s now e)
unfolding step
step-Sound s now (user_joins d user) h =
    done (join s now d user) (Same-Sound s _ (join-Same s now d user) h)
step-Sound s now (user_leaves user) h = leave-Succeeds s now user h
step-Sound s now (user_votes user y) h =
    done (vote s now user y) (Same-Sound s _ (vote-Same s now user y) h)
step-Sound s now (vote_timer_fires failed) h =
    done (vote_timer_handler s now failed) (Same-Sound s _ (vote_timer_handler-Same s now failed) h)
step-Sound s now cooldown_fires h =
    done (cooldown_timer_handler s now) (Same-Sound s _ (cooldown_timer_handler-Same s now) h)
step-Sound s now vote_cancelled h = (s, _, refl, h)
step-Sound s now (turn_requested user) h =
    done (request_turn s now user) (request_turn-Sound s now user h)
step-Sound s now (turns_paused b) h = done (pause_turn_timer s now b) (pause-Sound s now b h)
step-Sound s now turns_resumed h = done (resume_turn_timer s now) (resume-Sound s now h)
step-Sound s now (turn_ended_by user) h = end_turn-Handles s now user h
step-Sound s now (turn_timer_fires failed current) h = timer-Succeeds s now failed current h
step-Sound s now (input user i) h = (s, _, refl, h)
step-Sound s now started h = done (start s) (Same-Sound s _ (start-Same s) h)
step-Sound s now stopped h = done (stop s) (Same-Sound s _ (stop-Same s) h)
step-Sound s now restarted h = (s, _, refl, h)
step-Sound s now client_started h = done (on_start s) (Same-Sound s _ (on_start-Same s) h)
step-Sound s now client_stopped h = done (on_stop s) (Same-Sound s _ (on_stop-Same s) h)
step-Sound s now (connect_delay_fires failed) h = (s, _, refl, h)
step-Sound s now (settings_updated new) h =
    done (without_valid (update_settings s now new)) (update-Sound s now new h)
step-Sound s now (instructions_received is) h = (s, _, refl, h)
step-Sound s now (recording_settings_changed b) h = (s, _, refl, h)

abbrev is_end_of_turn : Event → Bool
is_end_of_turn (turn_ended_by user) = true
is_end_of_turn _ = false

abbrev pub no_end_of_turn : List (Now × Event) → Bool
no_end_of_turn [] = true
no_end_of_turn ((now, e) ∷ es) = not (is_end_of_turn e) && no_end_of_turn es

no_fault : (s : VmState) (e : Event) → is_end_of_turn e ≡ false → faults s e ≡ false
no_fault s e h = ground (arith, h)

-- A new VM with valid settings is sound after any events in any order, without a fault of its turn
-- controller, if nobody asks for the end of a turn. Nothing but these events changes the positions of its
-- users, so that they wait for no other VM.
pub run-Sound :
    (settings : VmSettings) (room : ChatRoom) (es : List (Now × Event))
    → validate_settings settings ≡ true
    → no_end_of_turn es ≡ true
    → (s : VmState) × (run (new_vm settings room) es ≡ some s) × Sound s
unfolding run
run-Sound settings room es good = from (new_vm settings room) es (new_vm-Sound settings room good)
  where
    from :
        (s : VmState) (es : List (Now × Event))
        → Sound s
        → no_end_of_turn es ≡ true
        → (s' : VmState) × (run s es ≡ some s') × Sound s'
    from s [] h n = (s, refl, h)
    from s ((now, e) ∷ es) h n =
        let (s', told, ran, sound) =
          subst (λ b. Handles b (step s now e)) (no_fault s e (ground (arith, n)))
            (step-Sound s now e h) in
        let (last, rest, l) = from s' es sound (ground (arith, n)) in (last, rw (ran, run) rest, l)
