-- ===== src/Vm/Ballot/Ending.antt =====
-- AdminVirtualMachine.hpp, `OnVoteEnd`, with the timers of VoteController.hpp: a vote ends.
use collab_vm_server.Base.{
  ℕ, ◌<◌, ◌≡◌, refl, sym, ◌≢◌, inl, inr, Bool, true, false, List, [], ◌∷◌, map, Option, none, some,
  ◌==◌, if◌then◌else◌, Option-cases, arith, subst, ==→≡,
}
use collab_vm_server.Base.Dict.{lookup, modify, has_key, count, Keyed, Keyed-modify}
use collab_vm_server.User.{UserData}
use collab_vm_server.Vote.{VoteController, voting, cooling_down, on_vote_timer, on_cooldown_timer}
use collab_vm_server.Channel.{ChannelIpData}
use collab_vm_server.Channel.References.{IsCounted, has_ip}
use collab_vm_server.Vm.{VmState, Now}
use collab_vm_server.Vm.Votes.{
  voted_of, with_voted, forget_entry, clear_voted, forget_votes, vote_timer_handler,
  cooldown_timer_handler, vote, end_vote, run_calls, vote_call,
}
use collab_vm_server.Vm.Ballot.{has_decided, decided_from, Fair, lookup-voted}

-- Users without their votes.
has_key-forget :
    (user : ℕ) (users : List (ℕ × UserData))
    → has_key user (map forget_entry users) ≡ has_key user users
has_key-forget user [] = refl
has_key-forget user ((u, d) ∷ users) = ground (arith, has_key-forget user users)

Keyed-forget : (users : List (ℕ × UserData)) → Keyed users → Keyed (map forget_entry users)
Keyed-forget [] h = tt
Keyed-forget ((u, d) ∷ users) h = ground (arith, Keyed-forget users h.1, has_key-forget u users)

count-forget :
    (ip : ℕ) (users : List (ℕ × UserData))
    → count (has_ip ip) (map forget_entry users) ≡ count (has_ip ip) users
count-forget ip [] = refl
count-forget ip ((u, d) ∷ users) = ground (arith, count-forget ip users)

none_decided : (users : List (ℕ × UserData)) → count has_decided (map forget_entry users) ≡ 0
none_decided [] = refl
none_decided ((u, d) ∷ users) = ground (arith, none_decided users)

none_decided_from :
    (ip : ℕ) (users : List (ℕ × UserData)) → count (decided_from ip) (map forget_entry users) ≡ 0
none_decided_from ip [] = refl
none_decided_from ip ((u, d) ∷ users) = ground (arith, none_decided_from ip users)

-- What the loop of `OnVoteEnd` leaves of an entry: it clears the flag if a user has the address.
abbrev cleared : Bool → Option ChannelIpData → Option ChannelIpData
cleared b none = none
cleared b (some i) = if b then some (with_voted false i) else some i

abbrev has_user : ℕ → List (ℕ × UserData) → Bool
has_user ip [] = false
has_user ip ((u, d) ∷ users) = if ip == d.ip_address then true else has_user ip users

has_user-count :
    (ip : ℕ) (users : List (ℕ × UserData)) → 0 < count (has_ip ip) users → has_user ip users ≡ true
has_user-count ip [] h = absurd (omega arith)
has_user-count ip ((u, d) ∷ users) h = ground (arith, has_user-count ip users, ==→≡ ip d.ip_address)

lookup-clear_voted :
    (ip : ℕ) (users : List (ℕ × UserData)) (ips : List (ℕ × ChannelIpData))
    → lookup ip (clear_voted users ips) ≡ cleared (has_user ip users) (lookup ip ips)
unfolding clear_voted
lookup-clear_voted ip [] ips = ground arith
lookup-clear_voted ip ((u, d) ∷ users) ips = ground (
  arith,
  lookup-clear_voted ip users (modify d.ip_address (with_voted false) ips),
  lookup-voted ip d.ip_address false ips,
  ==→≡ ip d.ip_address,
)

Keyed-clear_voted :
    (users : List (ℕ × UserData)) (ips : List (ℕ × ChannelIpData))
    → Keyed ips
    → Keyed (clear_voted users ips)
unfolding clear_voted
Keyed-clear_voted [] ips h = h
Keyed-clear_voted ((u, d) ∷ users) ips h =
    Keyed-clear_voted users (modify d.ip_address (with_voted false) ips)
      (Keyed-modify d.ip_address (with_voted false) ips h)

IsCounted-forget :
    (users : List (ℕ × UserData)) (ips : List (ℕ × ChannelIpData))
    → IsCounted users ips
    → IsCounted (map forget_entry users) (clear_voted users ips)
IsCounted-forget users ips h = record {
  keyed_users = Keyed-forget users h.keyed_users;
  keyed_ips = Keyed-clear_voted users ips h.keyed_ips;
  counted =
      λ ip. ground (arith, lookup-clear_voted ip users ips, count-forget ip users, h.counted ip);
  live = λ ip i f. elim (Option-cases (lookup ip ips)) [
    | inl gone ↦ absurd (ground (arith, lookup-clear_voted ip users ips))
    | inr (old, there) ↦ ground (arith, lookup-clear_voted ip users ips, h.live ip old there)
  ];
}

-- Every address in the channel has a user, so no flag is left.
no_flag :
    (users : List (ℕ × UserData)) (ips : List (ℕ × ChannelIpData)) (ip : ℕ)
    → IsCounted users ips
    → voted_of (lookup ip (clear_voted users ips)) ≡ false
no_flag users ips ip h = elim (Option-cases (lookup ip ips)) [
  | inl gone ↦ ground (arith, lookup-clear_voted ip users ips)
  | inr (i, there) ↦ ground (
    arith,
    lookup-clear_voted ip users ips,
    h.live ip i there,
    h.counted ip,
    has_user-count ip users,
  )
]

abbrev pub Ended : VmState → Type 0
Ended s =
    Fair s
    × (s.vote.vote_state ≢ voting)
    × (count has_decided s.channel.users ≡ 0)
    × ((ip : ℕ) → voted_of (lookup ip s.channel.ip_data) ≡ false)

forgotten-Ended :
    (s : VmState) (v : VoteController)
    → v.vote_state ≢ voting
    → Fair s
    → Ended (record s { vote = v; channel = forget_votes s.channel })
unfolding forget_votes
forgotten-Ended s v over h =
    let users = s.channel.users in
    let ips = s.channel.ip_data in
    (
      record {
        counted = IsCounted-forget users ips h.counted;
        one_each = λ ip. ground (arith, none_decided_from ip users);
        yes = λ w. absurd (over w);
        no = λ w. absurd (over w);
        rest = λ w. none_decided users;
      },
      over,
      none_decided users,
      λ ip. no_flag users ips ip h.counted,
    )

timer_over :
    (b : Bool) (t : ℕ) (v : VoteController) (failed : Bool)
    → (on_vote_timer b t v failed).0.vote_state ≢ voting
unfolding on_vote_timer
timer_over b t v failed = ground arith

timer_handler_state :
    (s : VmState) (now : Now) (failed : Bool)
    → s.active ≡ true
    → s.settings.votes_enabled ≡ true
    → (vote_timer_handler s now failed).0 ≡ record s {
      vote = (on_vote_timer true s.settings.vote_cooldown_time s.vote failed).0;
      channel = forget_votes s.channel;
    }
unfolding vote_timer_handler on_vote_timer run_calls vote_call end_vote
timer_handler_state s now failed a e = ground arith

-- When a vote's time is over on an active VM with votes enabled and a fair ballot, whether its timer failed or not, no vote
-- is running any more, no user has a vote, every address may vote again and the ballot is fair.
pub vote_timer_handler-Ended :
    (s : VmState) (now : Now) (failed : Bool)
    → s.active ≡ true
    → s.settings.votes_enabled ≡ true
    → Fair s
    → Ended (vote_timer_handler s now failed).0
vote_timer_handler-Ended s now failed a e h =
    subst Ended (sym (timer_handler_state s now failed a e)) (
      forgotten-Ended s (on_vote_timer true s.settings.vote_cooldown_time s.vote failed).0
        (timer_over true s.settings.vote_cooldown_time s.vote failed) h)

-- The end of a cooldown keeps a fair ballot fair.
pub cooldown_timer_handler-Fair :
    (s : VmState) (now : Now)
    → s.vote.vote_state ≡ cooling_down
    → Fair s
    → Fair (cooldown_timer_handler s now).0
unfolding cooldown_timer_handler run_calls vote_call on_cooldown_timer
cooldown_timer_handler-Fair s now cools h = record {
  counted = h.counted;
  one_each = h.one_each;
  yes = λ w. absurd (ground arith);
  no = λ w. absurd (ground arith);
  rest = λ w. h.rest (ground arith);
}

-- If votes were disabled while a vote ran, its end forgets nothing: a user whose address had voted and
-- who is there still is refused when votes are enabled again, whatever is voted.
pub disabled_vote_stays :
    (s : VmState) (now now' : Now) (failed voted_yes : Bool) (user : ℕ) (d : UserData)
    → s.settings.votes_enabled ≡ false
    → lookup user s.channel.users ≡ some d
    → voted_of (lookup d.ip_address s.channel.ip_data) ≡ true
    → let s' = (vote_timer_handler s now failed).0 in
      let again = record s' { settings = record s'.settings { votes_enabled = true } } in
      vote again now' user voted_yes ≡ (again, [])
unfolding vote_timer_handler on_vote_timer run_calls vote_call end_vote vote
disabled_vote_stays s now now' failed voted_yes user d off e voted = ground arith
