-- ===== src/Vm/Ballot.antt =====
-- The votes of a VM's users, by AdminVirtualMachine.hpp, VoteController.hpp and UserChannel.hpp
-- together: what holds between two handlers.
pub mod Voting
pub mod Leaving
pub mod Ending
use collab_vm_server.Base.{
  ℕ, ◌+◌, ◌^◌, ◌<◌, ◌≤◌, ◌≡◌, refl, sym, ap, ◌∙◌, ◌≢◌, ◌⊎◌, inl, inr, Bool, true, false, not, ◌&&◌,
  List, [], ◌∷◌, Option, none, some, length, ◌==◌, if◌then◌else◌, Bool-cases, Option-cases, arith,
  ==_refl, ==→≡,
}
use collab_vm_server.Base.Dict.{
  lookup, emplace, modify, remove, count, Keyed, lookup-modify, modify-absent, Keyed-modify,
  count-modify, count-remove, count-emplace, count-le, count-le-length, length-modify,
}
use collab_vm_server.User.{
  UserData, UserVoteData, VoteDecision, undecided, voted_for, voted_against, is_registered,
}
use collab_vm_server.Vote.{
  VoteController, VoteState, idle, voting, cooling_down, inc32, dec32, decision, add_vote,
}
use collab_vm_server.Vote.Tally.{Refused, Accepted, add_vote-undecided}
use collab_vm_server.Channel.{Channel, ChannelIpData}
use collab_vm_server.Channel.References.{IsCounted, has_ip, references, entry_of_user}
use collab_vm_server.Vm.{VmState, Now, Effect}
use collab_vm_server.Vm.Users.{with_vote_data}
use collab_vm_server.Vm.Votes.{voted_of, with_voted, cast, vote}

abbrev for_it : VoteDecision → Bool
for_it voted_for = true
for_it _ = false

abbrev against_it : VoteDecision → Bool
against_it voted_against = true
against_it _ = false

abbrev decided_vote : VoteDecision → Bool
decided_vote undecided = false
decided_vote _ = true

abbrev pub is_for : UserData → Bool
is_for d = for_it d.vote_data.last_vote

abbrev pub is_against : UserData → Bool
is_against d = against_it d.vote_data.last_vote

abbrev pub has_decided : UserData → Bool
has_decided d = decided_vote d.vote_data.last_vote

abbrev pub decided_from : ℕ → UserData → Bool
decided_from ip d = has_decided d && has_ip ip d

pub record IsFair (v : VoteController) (users : List (ℕ × UserData))
    (ips : List (ℕ × ChannelIpData)) : Type 0 where
  pub counted : IsCounted users ips
  -- Of the users with one address one at most has a vote, and none if the address has not voted.
  pub one_each :
      (ip : ℕ) → count (decided_from ip) users ≤ (if voted_of (lookup ip ips) then 1 else 0)
  -- During a vote the counts are those of the users' votes, and otherwise nobody has one.
  pub yes : v.vote_state ≡ voting → v.yes_vote_count ≡ count is_for users
  pub no : v.vote_state ≡ voting → v.no_vote_count ≡ count is_against users
  pub rest : v.vote_state ≢ voting → count has_decided users ≡ 0

abbrev pub Fair : VmState → Type 0
Fair s = IsFair s.vote s.channel.users s.channel.ip_data

pub lookup-voted :
    (j ip : ℕ) (b : Bool) (ips : List (ℕ × ChannelIpData))
    → lookup j (modify ip (with_voted b) ips) ≡ (
        if j == ip
        then elim (lookup ip ips) [ none ↦ none | some i ↦ some (with_voted b i) ]
        else lookup j ips)
lookup-voted j ip b ips = elim (Option-cases (lookup ip ips)) [
  | inl e ↦ rw (modify-absent ip (with_voted b) ips e) (ground (arith, ==→≡ j ip))
  | inr (i, e) ↦ ground (arith, lookup-modify j ip (with_voted b) i ips e)
]

-- Another vote of a user changes no address, and a flag no count of references.
pub IsCounted-voted :
    (users : List (ℕ × UserData)) (ips : List (ℕ × ChannelIpData)) (d : UserData) (user ip : ℕ)
    (v : UserVoteData) (b : Bool)
    → lookup user users ≡ some d
    → IsCounted users ips
    → IsCounted (modify user (with_vote_data v) users) (modify ip (with_voted b) ips)
IsCounted-voted users ips d user ip v b e h = record {
  keyed_users = Keyed-modify user (with_vote_data v) users h.keyed_users;
  keyed_ips = Keyed-modify ip (with_voted b) ips h.keyed_ips;
  counted = λ j. ground (
    arith,
    lookup-voted j ip b ips,
    count-modify (has_ip j) user (with_vote_data v) d users e,
    h.counted j,
    ==→≡ j ip,
  );
  live = λ j i f. elim (Option-cases (lookup j ips)) [
    | inl gone ↦ absurd (ground (arith, lookup-voted j ip b ips, ==→≡ j ip))
    | inr (old, there) ↦ ground (arith, lookup-voted j ip b ips, h.live j old there, ==→≡ j ip)
  ];
}

pub for-le-decided : (users : List (ℕ × UserData)) → count is_for users ≤ count has_decided users
for-le-decided users = count-le is_for has_decided users (λ d h. ground arith)

pub against-le-decided :
    (users : List (ℕ × UserData)) → count is_against users ≤ count has_decided users
against-le-decided users = count-le is_against has_decided users (λ d h. ground arith)
