-- ===== src/Vm/Tests.antt =====
-- A VM with two guests, one of whom has started a vote.
use collab_vm_server.Base.{ℕ, ◌≡◌, ◌≢◌, refl, Bool, true, false, List, some, [], ◌∷◌, arith}
use collab_vm_server.Base.Int.{pos}
use collab_vm_server.Base.Dict.{remove}
use collab_vm_server.User.{UserData, guest, no_votes, voted_for}
use collab_vm_server.Chat.{new_room}
use collab_vm_server.Turn.{initial, is_paused, get_current_user}
use collab_vm_server.Turn.Position.{IsValid-empty}
use collab_vm_server.Turn.Order.{Valid}
use collab_vm_server.Vote.{VoteController, idle, add_vote}
use collab_vm_server.Channel.{new_channel, add_user}
use collab_vm_server.Channel.References.{new_channel-Counted}
use collab_vm_server.Vm.{VmState, VmSettings, Now, Effect, vnc, is_admin_user, has_current_turn}
use collab_vm_server.Vm.Users.{join, leave}
use collab_vm_server.Vm.Votes.{vote, vote_timer_handler}
use collab_vm_server.Turn.{set_turn_time}
use collab_vm_server.Vm.Control.{read_instruction}
use collab_vm_server.Vm.Settings.{new_vm, validate_settings}
use collab_vm_server.Vm.Steps.{
  Event, started, user_joins, user_leaves, turn_requested, settings_updated, step, run,
}
use collab_vm_server.Vm.Steps.Kept.{Sound}
use collab_vm_server.Vm.Steps.Turns.{Handles}
use collab_vm_server.Vm.Steps.Safety.{step-Sound, run-Sound, faults}
use collab_vm_server.Vm.Steps.Effects.{acts}
use collab_vm_server.Vm.Steps.Quiet.{inactive_quiet}
use collab_vm_server.Vm.Steps.Input.{input_exclusive}
use collab_vm_server.Vm.Ballot.{Fair}
use collab_vm_server.Vm.Ballot.Voting.{vote-Fair}
use collab_vm_server.Vm.Ballot.Leaving.{join-Fair, leave-Fair}
use collab_vm_server.Vm.Ballot.Ending.{Ended, vote_timer_handler-Ended, disabled_vote_stays}

abbrev person : ℕ → UserData
person ip = record { username = 117 ∷ []; user_type = guest; ip_address = ip; vote_data = no_votes }

abbrev settings : Bool → VmSettings
settings votes = record {
  name = 118 ∷ [];
  description = [];
  turns_enabled = true;
  turn_time = 10;
  votes_enabled = votes;
  vote_time = 60;
  vote_cooldown_time = 600;
  disallow_guests = false;
  disallow_guest_votes = false;
  recordings_enabled = false;
  start_command = 115 ∷ [];
  stop_command = [];
  restart_command = 114 ∷ [];
  run_start_command_after_disconnect = true;
  protocol = vnc;
  guacamole_parameters = [];
}

abbrev no_ballot : VoteController
no_ballot = record { vote_state = idle; yes_vote_count = 0; no_vote_count = 0 }

abbrev empty : VmState
empty = record {
  settings = settings true;
  turn = initial;
  vote = no_ballot;
  channel = new_channel (new_room 4 4 guest 1);
  active = true;
  connected = true;
}

abbrev now : Now
now = record { turn_before = pos 5; turn_after = pos 5; vote_until = pos 7; vote_limit = 5 }

empty-Fair : Fair empty
unfolding new_channel
empty-Fair = record {
  counted = new_channel-Counted (new_room 4 4 guest 1);
  one_each = λ ip. omega arith;
  yes = λ w. refl;
  no = λ w. refl;
  rest = λ w. refl;
}

abbrev one : VmState
one = (join empty now (person 5) 1).0

abbrev two : VmState
two = (join one now (person 6) 2).0

abbrev running : VmState
running = (vote two now 1 true).0

one-Fair : Fair one
unfolding new_channel
one-Fair = join-Fair empty now (person 5) 1 refl refl empty-Fair

two-Fair : Fair two
unfolding join new_channel add_user
two-Fair = join-Fair one now (person 6) 2 refl refl one-Fair

vote-Fair_example : Fair (vote two now 1 true).0
unfolding join new_channel add_user
vote-Fair_example = vote-Fair two now 1 true (omega arith) two-Fair

leave-Fair_example :
    (s' : VmState) × (es : List Effect) × (leave two now 2 ≡ some (s', es))
    × (s'.channel.users ≡ remove 2 two.channel.users)
    × (s'.turn.turn_queue ≡ [])
    × Valid s'.turn
    × Fair s'
unfolding join new_channel add_user
leave-Fair_example = leave-Fair two now 2 (person 6) refl (omega arith) IsValid-empty two-Fair

vote_timer_handler-Ended_example : Ended (vote_timer_handler two now false).0
unfolding join
vote_timer_handler-Ended_example = vote_timer_handler-Ended two now false refl refl two-Fair

abbrev cooling : VmState
cooling = (vote_timer_handler two now false).0

-- Votes are disabled while the vote runs.
abbrev switched_off : VmState
switched_off = record running { settings = settings false }

disabled_vote_stays_example :
    let s' = (vote_timer_handler switched_off now false).0 in
    let again = record s' { settings = record s'.settings { votes_enabled = true } } in
    vote again now 1 true ≡ (again, [])
unfolding join new_channel add_user vote add_vote
disabled_vote_stays_example =
    disabled_vote_stays switched_off now now false true 1
      (record (person 5) {
        vote_data = record { last_vote = voted_for; voted_amount = 0; voted_limit = false };
      })
      refl refl refl

abbrev fresh : VmState
fresh = new_vm (settings true) (new_room 4 4 guest 1)

fresh-Sound : Sound fresh
unfolding new_vm set_turn_time validate_settings
fresh-Sound = record {
  valid = IsValid-empty;
  nobody_waits = λ w. refl;
  timed = refl;
  checked = refl;
}

step-Sound_example : Handles (faults fresh (turn_requested 1)) (step fresh now (turn_requested 1))
step-Sound_example = step-Sound fresh now (turn_requested 1) fresh-Sound

abbrev some_events : List (Now × Event)
some_events =
    (now, started)
    ∷ (now, user_joins (person 5) 1)
    ∷ (now, turn_requested 1)
    ∷ (now, settings_updated (settings false))
    ∷ (now, user_leaves 1)
    ∷ []

run-Sound_example :
    (s : VmState) × (run (new_vm (settings true) (new_room 4 4 guest 1)) some_events ≡ some s)
    × Sound s
unfolding validate_settings
run-Sound_example = run-Sound (settings true) (new_room 4 4 guest 1) some_events refl refl

-- User 1 has the turn.
abbrev in_control : VmState
in_control = record two { turn = record initial { turn_queue = 1 ∷ 2 ∷ [] } }

not_empty : (e : Effect) (es : List Effect) → e ∷ es ≢ []
not_empty e es h = ground arith

input_exclusive_example : read_instruction in_control 2 9 ≡ []
unfolding join new_channel add_user read_instruction is_admin_user has_current_turn is_paused
    get_current_user
input_exclusive_example = input_exclusive in_control 1 2 8 9 refl refl (not_empty _ _) (omega arith)

inactive_quiet_example : acts (join fresh now (person 5) 1).1 ≡ false
unfolding step new_vm
inactive_quiet_example =
    inactive_quiet fresh (join fresh now (person 5) 1).0 now (user_joins (person 5) 1)
      (join fresh now (person 5) 1).1 refl (λ q. absurd (ground arith)) refl
