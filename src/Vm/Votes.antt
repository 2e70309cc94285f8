-- ===== src/Vm/Votes.antt =====
-- AdminVirtualMachine.hpp with VoteController.hpp: the vote of the users of a VM.
use collab_vm_server.Base.{
  ℕ, Bool, true, false, not, ◌&&◌, ◌||◌, List, [], ◌∷◌, ◌++◌, map, Option, none, some,
  if◌then◌else◌,
}
use collab_vm_server.Base.Dict.{lookup, modify}
use collab_vm_server.User.{UserData, is_registered, no_votes}
use collab_vm_server.Message.{vote_result}
use collab_vm_server.Vote as VoteModule
use collab_vm_server.Vote.{
  VoteController, add_vote, on_vote_timer, on_cooldown_timer, start_vote_timer,
  start_cooldown_timer, cancel_timer, on_vote_start, on_vote_idle, on_vote_end,
}
use collab_vm_server.Channel.{Channel, ChannelIpData}
use collab_vm_server.Vm.{
  VmState, Now, Effect, vote_timer, execute_command, get_vote_status, broadcast,
}
use collab_vm_server.Vm.Users.{with_vote_data}

abbrev pub voted_of : Option ChannelIpData → Bool
voted_of none = false
voted_of (some i) = i.voted

abbrev pub with_voted : Bool → ChannelIpData → ChannelIpData
with_voted b i = record i { voted = b }

-- The calls that `AddVote` makes; `OnVoteStart` does nothing.
unfoldable pub timer_calls : List VoteModule.Effect → List Effect
timer_calls [] = []
timer_calls (start_vote_timer t ∷ es) = vote_timer (start_vote_timer t) ∷ timer_calls es
timer_calls (start_cooldown_timer t ∷ es) = vote_timer (start_cooldown_timer t) ∷ timer_calls es
timer_calls (cancel_timer ∷ es) = vote_timer cancel_timer ∷ timer_calls es
timer_calls (on_vote_start ∷ es) = timer_calls es
timer_calls (on_vote_idle ∷ es) = timer_calls es
timer_calls (on_vote_end b ∷ es) = timer_calls es

-- `Vote` for a user with data `d` whose address has not voted.
unfoldable pub cast : VmState → Now → ℕ → UserData → Bool → VmState × List Effect
unfolding timer_calls
cast s now user d voted_yes =
    let (vote, data', es, counted) =
      add_vote s.settings.votes_enabled now.vote_limit s.settings.vote_time s.vote d.vote_data
        voted_yes in
    let c = s.channel in
    let s' = record s {
      vote = vote;
      channel = record c {
        users = modify user (with_vote_data data') c.users;
        ip_data = if counted then modify d.ip_address (with_voted true) c.ip_data else c.ip_data;
      };
    } in
    (
      s',
      timer_calls es ++ (if counted then broadcast s' (get_vote_status s' now.vote_until) else []),
    )

unfoldable pub vote : VmState → Now → ℕ → Bool → VmState × List Effect
unfolding cast
vote s now user voted_yes = elim (lookup user s.channel.users) [
  | none ↦ (s, [])
  | some d ↦
      if s.settings.disallow_guest_votes && not (is_registered d.user_type)
      then (s, [])
      else if voted_of (lookup d.ip_address s.channel.ip_data)
      then (s, [])
      else cast s now user d voted_yes
]

-- `Restart` of the VM.
unfoldable pub restart : VmState → List Effect
restart s = if not s.active then [] else elim s.settings.restart_command [
  | [] ↦ []
  | c ∷ command ↦ execute_command (c ∷ command) ∷ []
]

abbrev pub forget_entry : ℕ × UserData → ℕ × UserData
forget_entry (user, d) = (user, with_vote_data no_votes d)

-- The loop of `OnVoteEnd` over the users clears the flag of each user's address.
unfoldable pub clear_voted :
    List (ℕ × UserData) → List (ℕ × ChannelIpData) → List (ℕ × ChannelIpData)
clear_voted [] ips = ips
clear_voted ((user, d) ∷ users) ips = clear_voted users (modify d.ip_address (with_voted false) ips)

unfoldable pub forget_votes : Channel → Channel
unfolding clear_voted
forget_votes c = record c {
  users = map forget_entry c.users;
  ip_data = clear_voted c.users c.ip_data;
}

unfoldable pub end_vote : VmState → Bool → VmState × List Effect
unfolding forget_votes restart
end_vote s vote_passed =
    let s' = record s { channel = forget_votes s.channel } in
    if not s.active || not s.settings.votes_enabled
    then (s, [])
    else (s', (if vote_passed then restart s else []) ++ broadcast s' (vote_result vote_passed))

unfoldable pub become_idle : VmState → Now → List Effect
become_idle s now =
    if s.active && s.settings.votes_enabled
    then broadcast s (get_vote_status s now.vote_until)
    else []

-- One call of the vote controller's handlers.
unfoldable pub vote_call : VmState → Now → VoteModule.Effect → VmState × List Effect
unfolding end_vote become_idle
vote_call s now on_vote_idle = (s, become_idle s now)
vote_call s now (on_vote_end b) = end_vote s b
vote_call s now on_vote_start = (s, [])
vote_call s now (start_vote_timer t) = (s, vote_timer (start_vote_timer t) ∷ [])
vote_call s now (start_cooldown_timer t) = (s, vote_timer (start_cooldown_timer t) ∷ [])
vote_call s now cancel_timer = (s, vote_timer cancel_timer ∷ [])

-- The calls that a handler of the vote's timer makes, in order.
unfoldable pub run_calls : VmState → Now → List VoteModule.Effect → VmState × List Effect
unfolding vote_call
run_calls s now [] = (s, [])
run_calls s now (e ∷ es) =
    let (s', told) = vote_call s now e in
    let (s'', more) = run_calls s' now es in (s'', told ++ more)

-- The handlers of the vote's timer and of the cooldown.
unfoldable pub vote_timer_handler : VmState → Now → (failed : Bool) → VmState × List Effect
unfolding run_calls
vote_timer_handler s now failed =
    let (vote, es) =
      on_vote_timer s.settings.votes_enabled s.settings.vote_cooldown_time s.vote failed in
    run_calls (record s { vote = vote }) now es

unfoldable pub cooldown_timer_handler : VmState → Now → VmState × List Effect
unfolding run_calls
cooldown_timer_handler s now =
    let (vote, es) = on_cooldown_timer s.vote in run_calls (record s { vote = vote }) now es

unfoldable pub cancel_vote : List Effect
cancel_vote = map vote_timer VoteModule.stop_vote
