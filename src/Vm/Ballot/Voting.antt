-- ===== src/Vm/Ballot/Voting.antt =====
-- A vote of a user of a VM keeps the ballot fair.
use collab_vm_server.Base.{
  ℕ, ◌^◌, ◌<◌, ◌≡◌, inl, inr, Bool, true, false, not, ◌&&◌, List, [], some, length, Bool-cases,
  Option-cases, arith, ==_refl, ==→≡,
}
use collab_vm_server.Base.Dict.{
  lookup, modify, Keyed-modify, count-modify, count-remove, count-le-length, length-modify,
}
use collab_vm_server.User.{UserData, UserVoteData, undecided, is_registered}
use collab_vm_server.Vote.{VoteController, add_vote}
use collab_vm_server.Vote.Tally.{Accepted, add_vote-undecided}
use collab_vm_server.Channel.{ChannelIpData}
use collab_vm_server.Channel.References.{has_ip, entry_of_user}
use collab_vm_server.Vm.{VmState, Now, Effect}
use collab_vm_server.Vm.Users.{with_vote_data}
use collab_vm_server.Vm.Votes.{voted_of, with_voted, cast, vote}
use collab_vm_server.Vm.Ballot.{
  is_for, is_against, has_decided, decided_from, IsFair, Fair, lookup-voted, IsCounted-voted,
  for-le-decided, against-le-decided,
}

-- A user without a vote, of an address that has not voted, votes.
IsFair-Accepted :
    (v v' : VoteController) (users : List (ℕ × UserData)) (ips : List (ℕ × ChannelIpData))
    (d : UserData) (user : ℕ) (x : UserVoteData) (voted_yes counted : Bool)
    → lookup user users ≡ some d
    → d.vote_data.last_vote ≡ undecided
    → voted_of (lookup d.ip_address ips) ≡ false
    → length users < 2 ^ 32
    → IsFair v users ips
    → Accepted v v' x voted_yes counted
    → IsFair v' (modify user (with_vote_data x) users) (modify d.ip_address (with_voted true) ips)
IsFair-Accepted v v' users ips d user x voted_yes counted e u nv small h a = record {
  counted = IsCounted-voted users ips d user d.ip_address x true e h.counted;
  one_each = λ j. ground (
    arith,
    lookup-voted j d.ip_address true ips,
    count-modify (decided_from j) user (with_vote_data x) d users e,
    h.one_each j,
    entry_of_user users ips d user e h.counted,
    ==→≡ j d.ip_address,
  );
  yes = λ _. ground (
    arith,
    a,
    h,
    count-modify is_for user (with_vote_data x) d users e,
    count-le-length is_for (modify user (with_vote_data x) users),
    length-modify user (with_vote_data x) users,
    for-le-decided users,
  );
  no = λ _. ground (
    arith,
    a,
    h,
    count-modify is_against user (with_vote_data x) d users e,
    count-le-length is_against (modify user (with_vote_data x) users),
    length-modify user (with_vote_data x) users,
    against-le-decided users,
  );
  rest = λ ne. absurd (ne a.now_voting);
}

-- A user without a vote still has none.
IsFair-refused :
    (v : VoteController) (users : List (ℕ × UserData)) (ips : List (ℕ × ChannelIpData))
    (d : UserData) (user : ℕ) (x : UserVoteData)
    → lookup user users ≡ some d
    → d.vote_data.last_vote ≡ undecided
    → IsFair v users ips
    → x.last_vote ≡ undecided
    → IsFair v (modify user (with_vote_data x) users) ips
IsFair-refused v users ips d user x e u h r = record {
  counted = record {
    keyed_users = Keyed-modify user (with_vote_data x) users h.counted.keyed_users;
    keyed_ips = h.counted.keyed_ips;
    counted = λ j.
        ground
          (arith, count-modify (has_ip j) user (with_vote_data x) d users e, h.counted.counted j);
    live = h.counted.live;
  };
  one_each = λ j.
      ground
        (arith, count-modify (decided_from j) user (with_vote_data x) d users e, h.one_each j, r);
  yes = λ w. ground (arith, count-modify is_for user (with_vote_data x) d users e, h.yes w);
  no = λ w. ground (arith, count-modify is_against user (with_vote_data x) d users e, h.no w);
  rest = λ w. ground (arith, count-modify has_decided user (with_vote_data x) d users e, h.rest w);
}

-- A user of an address that has not voted has no vote.
undecided_of_fair :
    (v : VoteController) (users : List (ℕ × UserData)) (ips : List (ℕ × ChannelIpData))
    (d : UserData) (user : ℕ)
    → lookup user users ≡ some d
    → voted_of (lookup d.ip_address ips) ≡ false
    → IsFair v users ips
    → d.vote_data.last_vote ≡ undecided
undecided_of_fair v users ips d user e nv h = ground (
  arith,
  count-remove (decided_from d.ip_address) user d users e,
  h.one_each d.ip_address,
  ==_refl d.ip_address,
)

cast-Fair :
    (s : VmState) (now : Now) (user : ℕ) (d : UserData) (voted_yes : Bool)
    → lookup user s.channel.users ≡ some d
    → voted_of (lookup d.ip_address s.channel.ip_data) ≡ false
    → length s.channel.users < 2 ^ 32
    → Fair s
    → Fair (cast s now user d voted_yes).0
unfolding cast
cast-Fair s now user d voted_yes e nv small h =
    let und = undecided_of_fair s.vote s.channel.users s.channel.ip_data d user e nv h in
    let r =
      add_vote s.settings.votes_enabled now.vote_limit s.settings.vote_time s.vote d.vote_data
        voted_yes in
    elim (add_vote-undecided s.settings.votes_enabled now.vote_limit s.settings.vote_time s.vote
      d.vote_data voted_yes und) [
        | inl refused ↦
            rw (refused.not_counted, refused.same)
              (IsFair-refused s.vote s.channel.users s.channel.ip_data d user r.1 e und h
                refused.open_still)
        | inr ok ↦ rw (ok.is_counted) (
            IsFair-Accepted s.vote r.0 s.channel.users s.channel.ip_data d user r.1 voted_yes r.3 e
              und nv small h ok)
      ]

-- A present user's vote does nothing, or is cast for an address that has not voted.
pub vote_cases {ℓ} :
    (P : VmState × List Effect → Type ℓ) (s : VmState) (now : Now) (user : ℕ) (d : UserData)
    (voted_yes : Bool)
    → lookup user s.channel.users ≡ some d
    → P (s, [])
    → (voted_of (lookup d.ip_address s.channel.ip_data) ≡ false → P (cast s now user d voted_yes))
    → P (vote s now user voted_yes)
unfolding vote
vote_cases P s now user d voted_yes e refused accepted =
    elim (Bool-cases (s.settings.disallow_guest_votes && not (is_registered d.user_type))) [
      | inl guest ↦ rw (e, vote) (rw guest refused)
      | inr allowed ↦ elim (Bool-cases (voted_of (lookup d.ip_address s.channel.ip_data))) [
        | inl old ↦ rw (e, vote) (rw (allowed, old) refused)
        | inr new ↦ rw (e, vote) (rw (allowed, new) (accepted new))
      ]
    ]

-- In a VM with less than 2 ^ 32 users and a fair ballot, a vote of any user, counted or not, keeps the
-- ballot fair.
pub vote-Fair :
    (s : VmState) (now : Now) (user : ℕ) (voted_yes : Bool)
    → length s.channel.users < 2 ^ 32
    → Fair s
    → Fair (vote s now user voted_yes).0
unfolding vote
vote-Fair s now user voted_yes small h = elim (Option-cases (lookup user s.channel.users)) [
  | inl e ↦ rw (e, vote) h
  | inr (d, e) ↦
      vote_cases (λ r. Fair r.0) s now user d voted_yes e h
        (λ nv. cast-Fair s now user d voted_yes e nv small h)
]
