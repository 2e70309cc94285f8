-- ===== src/Vm/Steps/Silent.antt =====
-- Handlers of users, votes and settings that start nothing.
use collab_vm_server.Base.{
  ℕ, ◌≡◌, refl, inl, inr, Bool, true, false, not, ◌&&◌, List, [], ◌∷◌, ◌++◌, map, some,
  if◌then◌else◌, Bool-cases, Option-cases, arith, same_text,
}
use collab_vm_server.Base.Dict.{lookup}
use collab_vm_server.User.{UserData}
use collab_vm_server.Message.{vm_description}
use collab_vm_server.Turn as TurnModule
use collab_vm_server.Turn.{TurnController}
use collab_vm_server.Vote as VoteModule
use collab_vm_server.Vote.{remove_vote, add_vote, on_vote_timer, on_cooldown_timer}
use collab_vm_server.Channel.{add_user, begin_remove_user, end_remove_user}
use collab_vm_server.Vm.{
  get_vote_status, VmState, VmSettings, Now, Effect, start_recording, turn_effects, broadcast, sent,
  vote_timer, stop_recording, set_guacamole_arguments,
}
use collab_vm_server.Vm.Users.{join, leave, on_add_user, finish_leave, retract}
use collab_vm_server.Vm.Votes.{vote, cast, timer_calls, cancel_vote}
use collab_vm_server.Vm.Settings.{
  update_settings, apply_turns, apply_others, close_guests, differ, seconds, validate_settings,
}
use collab_vm_server.Vm.Steps.Effects.{
  acts, acts-append, acts-sent, acts-broadcast, acts-turn_effects, acts-timer_calls, acts-if,
  acts-close_guests,
}

pub join_quiet :
    (s : VmState) (now : Now) (d : UserData) (user : ℕ) → acts (join s now d user).1 ≡ false
unfolding join on_add_user
join_quiet s now d user = acts-sent (add_user s.channel d user).1

cast_quiet :
    (s : VmState) (now : Now) (user : ℕ) (d : UserData) (y : Bool)
    → acts (cast s now user d y).1 ≡ false
unfolding cast
cast_quiet s now user d y =
    let out =
      add_vote s.settings.votes_enabled now.vote_limit s.settings.vote_time s.vote d.vote_data y in
    let s' = (cast s now user d y).0 in
    let told = broadcast s' (get_vote_status s' now.vote_until) in
    acts-append (timer_calls out.2) (if out.3 then told else []) (acts-timer_calls out.2)
      (acts-if out.3 told (acts-broadcast s' (get_vote_status s' now.vote_until)))

pub vote_quiet :
    (s : VmState) (now : Now) (user : ℕ) (y : Bool) → acts (vote s now user y).1 ≡ false
unfolding vote
vote_quiet s now user y = elim (Option-cases (lookup user s.channel.users)) [
  | inl e ↦ ground (arith, e)
  | inr (d, e) ↦ ground (arith, e, cast_quiet s now user d y)
]

acts-unless : (b : Bool) (es : List Effect) → acts es ≡ false → acts (if b then [] else es) ≡ false
acts-unless true es h = refl
acts-unless false es h = h

-- Messages and closed sockets around effects that start nothing.
parts_quiet :
    (b c d e : Bool) (told described closed recorded last : List Effect)
    → acts told ≡ false
    → acts described ≡ false
    → acts closed ≡ false
    → acts recorded ≡ false
    → acts last ≡ false
    → acts (
        (if b then (if c then cancel_vote else []) ++ told else [])
        ++ (if d then [] else described)
        ++ (if e then closed else [])
        ++ recorded
        ++ last)
      ≡ false
unfolding cancel_vote VoteModule.stop_vote
parts_quiet b c d e told described closed recorded last t u v w x =
    let voted =
      if b
      then (if c then vote_timer VoteModule.Effect.cancel_timer ∷ [] else []) ++ told
      else [] in
    let voted_quiet : acts voted ≡ false =
      acts-if b ((if c then vote_timer VoteModule.Effect.cancel_timer ∷ [] else []) ++ told) (
        acts-append (if c then vote_timer VoteModule.Effect.cancel_timer ∷ [] else []) told
          (ground arith) t) in
    let described' = if d then [] else described in
    let closed' = if e then closed else [] in
    acts-append (voted ++ described' ++ closed' ++ recorded) last
      (acts-append (voted ++ described' ++ closed') recorded
        (acts-append (voted ++ described') closed'
          (acts-append voted described' voted_quiet (acts-unless d described u))
          (acts-if e closed v))
        w)
      x

others_quiet :
    (s : VmState) (now : Now) (previous : VmSettings)
    → s.active ≡ false
    → acts (apply_others s now previous) ≡ false
unfolding apply_others
others_quiet s now previous h =
    parts_quiet (differ s.settings.votes_enabled previous.votes_enabled)
      (not s.settings.votes_enabled) (same_text previous.description s.settings.description)
      (s.settings.disallow_guests && not previous.disallow_guests)
      (broadcast s (get_vote_status s now.vote_until))
      (broadcast s (vm_description s.settings.description)) (close_guests s.channel.users)
      (if s.active && differ s.settings.recordings_enabled previous.recordings_enabled
        then (if s.settings.recordings_enabled then start_recording else stop_recording) ∷ []
        else [])
      (set_guacamole_arguments s.settings.guacamole_parameters ∷ [])
      (acts-broadcast s (get_vote_status s now.vote_until))
      (acts-broadcast s (vm_description s.settings.description)) (acts-close_guests s.channel.users)
      (ground (arith, h)) refl

pub update_quiet :
    (s : VmState) (now : Now) (new : VmSettings)
    → s.active ≡ false
    → acts (update_settings s now new).1 ≡ false
unfolding update_settings apply_turns
update_quiet s now new h = elim (Bool-cases (validate_settings new)) [
  | inr bad ↦ rw (bad, update_settings) refl
  | inl good ↦
      rw (good, update_settings)
        (acts-append (apply_turns s now new).1
          (apply_others (apply_turns s now new).0 now s.settings)
          (ground (
            arith,
            acts-turn_effects
                (record s {
                  settings = new;
                  turn =
                      (TurnModule.clear
                        (TurnModule.set_turn_time s.turn (seconds new.turn_time))).0;
                })
                now.turn_after
                (TurnModule.clear (TurnModule.set_turn_time s.turn (seconds new.turn_time))).1,
          ))
          (others_quiet (apply_turns s now new).0 now s.settings (ground (arith, h))))
]

retract_quiet :
    (s : VmState) (now : Now) (user : ℕ) (d : UserData) → acts (retract s now user d).1 ≡ false
unfolding retract
retract_quiet s now user d =
    let s' = (retract s now user d).0 in
    acts-if (remove_vote s.vote d.vote_data).2 (broadcast s' (get_vote_status s' now.vote_until))
      (acts-broadcast s' (get_vote_status s' now.vote_until))

finish_quiet :
    (s : VmState) (now : Now) (user : ℕ) (d : UserData) → acts (finish_leave s now user d).1 ≡ false
unfolding finish_leave
finish_quiet s now user d =
    let out = retract s now user d in
    let sends = (end_remove_user true out.0.channel user d.username).1 in
    acts-append out.1 (map sent sends) (retract_quiet s now user d) (acts-sent sends)

pub leave_quiet :
    (s s' : VmState) (now : Now) (user : ℕ) (es : List Effect)
    → leave s now user ≡ some (s', es)
    → acts es ≡ false
unfolding leave
leave_quiet s s' now user es h = elim (Option-cases (lookup user s.channel.users)) [
  | inl e ↦ ground (arith, h, e)
  | inr (d, e) ↦ elim (Option-cases (TurnModule.remove_user s.turn user now.turn_before)) [
    | inl f ↦ absurd (ground (arith, h, e, f))
    | inr ((t, tes, r), f) ↦
        let mid = record s { channel = begin_remove_user s.channel d; turn = t } in
        let told =
          acts-append (turn_effects mid now.turn_after tes) (finish_leave mid now user d).1
            (acts-turn_effects mid now.turn_after tes) (finish_quiet mid now user d) in
        ground (arith, h, e, f, told)
  ]
]
