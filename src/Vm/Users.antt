-- ===== src/Vm/Users.antt =====
-- AdminVirtualMachine.hpp with UserChannel.hpp: a user joins and leaves the channel of a VM.
use collab_vm_server.Base.{ℕ, true, List, [], ◌∷◌, ◌++◌, map, Option, none, some, if◌then◌else◌}
use collab_vm_server.Base.Dict.{lookup, modify}
use collab_vm_server.User.{UserData, UserVoteData}
use collab_vm_server.Message.{to_user, vm_description}
use collab_vm_server.Turn.{TurnController}
use collab_vm_server.Turn
use collab_vm_server.Vote.{remove_vote}
use collab_vm_server.Channel.{add_user, begin_remove_user, end_remove_user}
use collab_vm_server.Vm.{
  VmState, Now, Effect, sent, write_display, get_turn_queue, get_vote_status, broadcast,
  turn_effects,
}

-- `OnAddUser`, which runs before the channel changes.
unfoldable pub on_add_user : VmState → Now → ℕ → List Effect
on_add_user s now user =
    sent (to_user user (vm_description s.settings.description))
    ∷ sent (to_user user (get_turn_queue s now.turn_after))
    ∷ sent (to_user user (get_vote_status s now.vote_until))
    ∷ write_display user
    ∷ []

unfoldable pub join : VmState → Now → UserData → ℕ → VmState × List Effect
unfolding on_add_user
join s now d user =
    let (channel, sends) = add_user s.channel d user in
    (record s { channel = channel }, on_add_user s now user ++ map sent sends)

abbrev pub with_vote_data : UserVoteData → UserData → UserData
with_vote_data v d = record d { vote_data = v }

-- The vote of a user is taken back; the users are told if there was one.
unfoldable pub retract : VmState → Now → ℕ → UserData → VmState × List Effect
retract s now user d =
    let (vote, data', changed) = remove_vote s.vote d.vote_data in
    let s' = record s {
      vote = vote;
      channel = record s.channel { users = modify user (with_vote_data data') s.channel.users };
    } in
    (s', if changed then broadcast s' (get_vote_status s' now.vote_until) else [])

-- The rest of `RemoveUser` behind the turn controller's part of `OnRemoveUser`.
unfoldable pub finish_leave : VmState → Now → ℕ → UserData → VmState × List Effect
unfolding retract
finish_leave s now user d =
    let (s', told) = retract s now user d in
    let (channel, sends) = end_remove_user true s'.channel user d.username in
    (record s' { channel = channel }, told ++ map sent sends)

-- `RemoveUser`. `none` is a fault of the turn controller.
unfoldable pub leave : VmState → Now → ℕ → Option (VmState × List Effect)
unfolding finish_leave
leave s now user = elim (lookup user s.channel.users) [
  | none ↦ some (s, [])
  | some d ↦ elim (Turn.remove_user s.turn user now.turn_before) [
    | none ↦ none
    | some (turn, es, was_queued) ↦
        let s' = record s { channel = begin_remove_user s.channel d; turn = turn } in
        let (s'', told) = finish_leave s' now user d in
        some (s'', turn_effects s' now.turn_after es ++ told)
  ]
]
