-- ===== src/Vm/Ballot/Leaving.antt =====
-- A user who leaves a VM takes the vote along, and a user who joins brings none.
use collab_vm_server.Base.{
  ℕ, ◌^◌, ◌<◌, ◌≡◌, refl, sym, ◌∙◌, List, none, some, length, ◌++◌, arith, ==→≡,
}
use collab_vm_server.Base.Dict.{
  lookup, remove, count-remove, count-emplace, count-le, count-le-length, remove-modify,
}
use collab_vm_server.User.{UserData, UserVoteData, undecided}
use collab_vm_server.Turn.Order.{Valid, remove_user-Serves}
use collab_vm_server.Turn.Position.{erase}
use collab_vm_server.Vote.{VoteController, remove_vote}
use collab_vm_server.Channel.{
  ChannelIpData, release_ip, add_user, begin_remove_user, end_remove_user,
}
use collab_vm_server.Channel.References.{
  has_ip, entry_of_user, IsCounted-remove, IsCounted-add, lookup-release_ip, lookup-referenced,
}
use collab_vm_server.Vm.{VmState, Now, Effect, turn_effects}
use collab_vm_server.Vm.Users.{with_vote_data, leave, join, finish_leave, retract}
use collab_vm_server.Vm.Ballot.{is_for, is_against, has_decided, decided_from, IsFair, Fair}

remove_vote-state :
    (v : VoteController) (x : UserVoteData) → (remove_vote v x).0.vote_state ≡ v.vote_state
unfolding remove_vote
remove_vote-state v x = ground arith

-- The flag of an address stays as long as the address has another user.
IsFair-left :
    (v : VoteController) (users : List (ℕ × UserData)) (ips : List (ℕ × ChannelIpData))
    (d : UserData) (user : ℕ)
    → lookup user users ≡ some d
    → length users < 2 ^ 32
    → IsFair v users ips
    → IsFair (remove_vote v d.vote_data).0 (remove user users) (release_ip d.ip_address ips)
unfolding remove_vote
IsFair-left v users ips d user e small h =
    let (i, f) = entry_of_user users ips d user e h.counted in
    record {
      counted = IsCounted-remove users ips d user e h.counted;
      one_each = λ j. ground (
        arith,
        lookup-release_ip j d.ip_address i ips h.counted.keyed_ips f,
        count-remove (decided_from j) user d users e,
        count-remove (has_ip j) user d users e,
        count-le (decided_from j) (has_ip j) (remove user users) (λ x p. ground arith),
        h.counted.counted j,
        h.counted.live d.ip_address i f,
        h.one_each j,
        f,
        ==→≡ j d.ip_address,
      );
      yes = λ w. ground (
        arith,
        h.yes (sym (remove_vote-state v d.vote_data) ∙ w),
        count-remove is_for user d users e,
        count-le-length is_for users,
      );
      no = λ w. ground (
        arith,
        h.no (sym (remove_vote-state v d.vote_data) ∙ w),
        count-remove is_against user d users e,
        count-le-length is_against users,
      );
      rest = λ w. omega (
        arith,
        h.rest (λ q. w (remove_vote-state v d.vote_data ∙ q)),
        count-remove has_decided user d users e,
      );
    }

-- What is left of a VM's users when one of them has left.
pub finish_leave-Fair :
    (s s' : VmState) (now : Now) (user : ℕ) (d : UserData)
    → lookup user s.channel.users ≡ some d
    → length s.channel.users < 2 ^ 32
    → Fair s
    → s'.vote ≡ s.vote
    → s'.channel ≡ begin_remove_user s.channel d
    → Fair (finish_leave s' now user d).0
unfolding finish_leave retract begin_remove_user end_remove_user
finish_leave-Fair s s' now user d e small h same begun =
    let left = IsFair-left s.vote s.channel.users s.channel.ip_data d user e small h in
    rw
      (
        begun,
        same,
        remove-modify user (with_vote_data (remove_vote s.vote d.vote_data).1) s.channel.users,
      )
      left

-- In a VM with less than 2 ^ 32 users, valid positions in its turn queue and a fair ballot, `RemoveUser` of
-- a user who is there succeeds. The user is gone from the channel and from the queue, the queue is
-- otherwise as before, its positions are valid and the ballot is fair.
pub leave-Fair :
    (s : VmState) (now : Now) (user : ℕ) (d : UserData)
    → lookup user s.channel.users ≡ some d
    → length s.channel.users < 2 ^ 32
    → Valid s.turn
    → Fair s
    → (s' : VmState) × (es : List Effect) × (leave s now user ≡ some (s', es))
      × (s'.channel.users ≡ remove user s.channel.users)
      × (s'.turn.turn_queue ≡ erase user s.turn.turn_queue)
      × Valid s'.turn
      × Fair s'
unfolding leave finish_leave retract begin_remove_user end_remove_user
leave-Fair s now user d e small v h =
    let (turn, es, was_queued, ran, _, served) = remove_user-Serves s.turn user now.turn_before v in
    let mid = record s { channel = begin_remove_user s.channel d; turn = turn } in
    let last = (finish_leave mid now user d).0 in
    (
      last,
      turn_effects mid now.turn_after es ++ (finish_leave mid now user d).1,
      ground (arith, e, ran),
      remove-modify user (with_vote_data (remove_vote s.vote d.vote_data).1) s.channel.users,
      served.queue,
      served.valid,
      finish_leave-Fair s mid now user d e small h refl refl,
    )

-- A user who was not there and has no vote joins, and a fair ballot stays fair.
pub join-Fair :
    (s : VmState) (now : Now) (d : UserData) (user : ℕ)
    → lookup user s.channel.users ≡ none
    → d.vote_data.last_vote ≡ undecided
    → Fair s
    → Fair (join s now d user).0
unfolding join add_user
join-Fair s now d user new und h = record {
  counted = IsCounted-add s.channel.users s.channel.ip_data d user new h.counted;
  one_each = λ j. ground (
    arith,
    lookup-referenced j d.ip_address s.channel.ip_data,
    count-emplace (decided_from j) user d s.channel.users new,
    h.one_each j,
    ==→≡ j d.ip_address,
  );
  yes = λ w. ground (arith, h.yes w, count-emplace is_for user d s.channel.users new);
  no = λ w. ground (arith, h.no w, count-emplace is_against user d s.channel.users new);
  rest = λ w. ground (arith, h.rest w, count-emplace has_decided user d s.channel.users new);
}
