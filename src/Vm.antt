-- ===== src/Vm.antt =====
-- AdminVirtualMachine.hpp: the state of a VM, as far as it is about its turn queue, its vote and its
-- channel of users; its recording is in Recording, and calls of it are effects. Everything runs on the
-- VM's strand, so a handler is one step. What the clock, the timers and `Common::vote_limit` give is
-- in `Now`; calls of other objects are effects in order. The positions in `turn` are fields of the
-- sockets, which other VMs write too: a step reads them as it finds them, and Machines hands them from one
-- VM to the next.
pub mod Users
pub mod Votes
pub mod Control
pub mod Settings
pub mod Ballot
pub mod Steps
pub mod Tests
use collab_vm_server.Base.{
  ℕ, ◌+◌, Bool, true, false, not, ◌&&◌, ◌||◌, List, [], ◌∷◌, ◌++◌, map, Option, none, some, ◌==◌,
  if◌then◌else◌,
}
use collab_vm_server.Base.Int.{ℤ, pos, negsuc}
use collab_vm_server.Base.Dict.{lookup}
use collab_vm_server.User.{UserData, UserType, is_admin}
use collab_vm_server.Message.{
  Message, Sent, TurnState, disabled, paused, enabled, VoteStatus, votes_disabled,
  votes_cooling_down, votes_idle, votes_in_progress, vm_turn_info, vote_status, vm_description,
}
use collab_vm_server.Turn as TurnModule
use collab_vm_server.Turn.{TurnController, get_time_remaining, is_paused}
use collab_vm_server.Vote as VoteModule
use collab_vm_server.Vote.{VoteController, is_cooling_down}
use collab_vm_server.Channel.{Channel, broadcast_message}

pub data Protocol : Type 0 where
  rdp vnc other_protocol : Protocol

-- The settings that the modelled code reads.
pub record VmSettings : Type 0 where
  pub name : List ℕ
  pub description : List ℕ
  pub turns_enabled : Bool
  pub turn_time : ℕ
  pub votes_enabled : Bool
  pub vote_time : ℕ
  pub vote_cooldown_time : ℕ
  pub disallow_guests : Bool
  pub disallow_guest_votes : Bool
  pub recordings_enabled : Bool
  pub start_command : List ℕ
  pub stop_command : List ℕ
  pub restart_command : List ℕ
  pub run_start_command_after_disconnect : Bool
  pub protocol : Protocol
  pub guacamole_parameters : List (List ℕ × List ℕ)

pub record VmState : Type 0 where
  pub settings : VmSettings
  pub turn : TurnController
  pub vote : VoteController
  pub channel : Channel
  pub active : Bool
  pub connected : Bool

-- What a step reads of the world: `expiry() - now` of the turn timer before and after the step's own
-- calls of it, and of the vote timer; and the limit of votes of a user.
pub record Now : Type 0 where
  pub turn_before : ℤ
  pub turn_after : ℤ
  pub vote_until : ℤ
  pub vote_limit : ℕ

pub data Effect : Type 0 where
  sent : Sent → Effect
  turn_timer : TurnModule.Effect → Effect
  vote_timer : VoteModule.Effect → Effect
  execute_command : List ℕ → Effect
  start_recording stop_recording update_vm_info : Effect
  set_guacamole_arguments : List (List ℕ × List ℕ) → Effect
  start_guacamole : Protocol → Effect
  stop_guacamole send_guacamole_state : Effect
  instruction_read instruction_recorded : ℕ → Effect
  -- A batch of the Guacamole client's instructions for a user.
  instructions_queued : (user : ℕ) (instructions : List ℕ) → Effect
  recording_settings_set : Effect
  start_connect_delay_timer : ℕ → Effect
  cancel_connect_delay_timer : Effect
  close_socket : ℕ → Effect
  -- `AddUser` of the Guacamole client writes the display to a new user.
  write_display : ℕ → Effect

abbrev turn_state : VmState → TurnState
turn_state s =
    if s.settings.turns_enabled then (if is_paused s.turn then paused else enabled) else disabled

-- The names of the queued users that are in the channel.
pub queue_names : List (ℕ × UserData) → List ℕ → List (List ℕ)
queue_names users [] = []
queue_names users (u ∷ us) = elim (lookup u users) [
  | none ↦ queue_names users us
  | some d ↦ d.username ∷ queue_names users us
]

unfoldable pub get_turn_queue : VmState → ℤ → Message
unfolding queue_names
get_turn_queue s until_expiry =
    vm_turn_info (turn_state s) (get_time_remaining s.turn.turn_queue until_expiry)
      (queue_names s.channel.users s.turn.turn_queue)

abbrev is_zero : ℤ → Bool
is_zero (pos n) = n == 0
is_zero (negsuc n) = false

unfoldable pub get_vote_status : VmState → ℤ → Message
get_vote_status s until_expiry =
    let time_remaining = VoteModule.get_time_remaining s.vote until_expiry in
    vote_status (
      if not s.settings.votes_enabled
      then votes_disabled
      else if is_cooling_down s.vote
      then votes_cooling_down
      else if is_zero time_remaining
      then votes_idle s.settings.disallow_guest_votes
      else votes_in_progress time_remaining s.vote.yes_vote_count s.vote.no_vote_count
          s.settings.disallow_guest_votes)

abbrev pub broadcast : VmState → Message → List Effect
broadcast s m = map sent (broadcast_message true s.channel.users m)

-- `OnCurrentUserChanged`, `OnUserAdded` and `OnUserRemoved` broadcast the queue of the state; what else
-- the turn controller does are calls of its timer.
unfoldable pub turn_effect : VmState → ℤ → TurnModule.Effect → List Effect
unfolding get_turn_queue
turn_effect s t (TurnModule.Effect.current_user_changed q r) = broadcast s (get_turn_queue s t)
turn_effect s t (TurnModule.Effect.user_added q r) = broadcast s (get_turn_queue s t)
turn_effect s t (TurnModule.Effect.user_removed q r) = broadcast s (get_turn_queue s t)
turn_effect s t TurnModule.Effect.timer_cancel = turn_timer TurnModule.Effect.timer_cancel ∷ []
turn_effect s t (TurnModule.Effect.timer_expires_after d) =
    turn_timer (TurnModule.Effect.timer_expires_after d) ∷ []
turn_effect s t (TurnModule.Effect.timer_async_wait u) =
    turn_timer (TurnModule.Effect.timer_async_wait u) ∷ []

unfoldable pub turn_effects : VmState → ℤ → List TurnModule.Effect → List Effect
unfolding turn_effect
turn_effects s t [] = []
turn_effects s t (e ∷ es) = turn_effect s t e ++ turn_effects s t es

unfoldable pub has_current_turn : VmState → ℕ → Bool
has_current_turn s user = elim (TurnModule.get_current_user s.turn.turn_queue) [
  | none ↦ false
  | some u ↦ u == user
]

unfoldable pub is_admin_user : VmState → ℕ → Bool
is_admin_user s user = elim (lookup user s.channel.users) [
  | none ↦ false
  | some d ↦ is_admin d.user_type
]
