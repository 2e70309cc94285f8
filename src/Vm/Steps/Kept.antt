-- ===== src/Vm/Steps/Kept.antt =====
-- A VM that is sound, and what the handlers other than those of the turns keep of it.
use collab_vm_server.Base.{
  ℕ, ◌≡◌, refl, sym, subst, ◌∙◌, inl, inr, Bool, true, false, List, [], ◌∷◌, ◌++◌, Option, some,
  Option-cases, arith,
}
use collab_vm_server.Base.Int.{ℤ}
use collab_vm_server.Base.Dict.{lookup}
use collab_vm_server.Turn as TurnModule
use collab_vm_server.Turn.{Call, clear_all, request, pause, resume, TurnController}
use collab_vm_server.Turn.Position.{erase, absent}
use collab_vm_server.Turn.Order.{Valid, erase-absent, removed, removal_effects, remove_user_queued}
use collab_vm_server.Vote.{
  start_vote_timer, start_cooldown_timer, cancel_timer, on_vote_start, on_vote_idle, on_vote_end,
}
use collab_vm_server.Channel.{begin_remove_user}
use collab_vm_server.Vm.{turn_effects, VmState, Now, Effect}
use collab_vm_server.Vm.Users.{leave, finish_leave, retract}
use collab_vm_server.Vm.Votes.{vote, cast, run_calls, vote_call, end_vote}
use collab_vm_server.Vm.Control.{with_turn, after_turn}
use collab_vm_server.Vm.Settings.{validate_settings, seconds}

-- The positions of all users describe the queue of this VM, so that nobody has one from another VM; no user waits while turns are disabled, and turns and votes
-- last as long as the settings say, which is no time only if they are disabled.
pub record Sound (s : VmState) : Type 0 where
  pub valid : Valid s.turn
  pub nobody_waits : s.settings.turns_enabled ≡ false → s.turn.turn_queue ≡ []
  pub timed : s.turn.turn_time ≡ seconds s.settings.turn_time
  pub checked : validate_settings s.settings ≡ true

-- The call of the turn controller that a step makes.
abbrev pub Same : VmState → VmState → Type 0
Same s s' = (s'.settings ≡ s.settings) × (s'.turn ≡ s.turn)

pub Same-Sound : (s s' : VmState) → Same s s' → Sound s → Sound s'
Same-Sound s s' (settings, turn) h = record {
  valid = subst Valid (sym turn) h.valid;
  nobody_waits = ground (arith, h.nobody_waits);
  timed = ground (arith, h.timed);
  checked = ground (arith, h.checked);
}

pub with_turn-Sound :
    (s : VmState) (now : Now) (t : TurnController) (es : List TurnModule.Effect)
    → Valid t
    → t.turn_time ≡ s.turn.turn_time
    → (s.settings.turns_enabled ≡ false → t.turn_queue ≡ [])
    → Sound s
    → Sound (with_turn s now t es).0
unfolding with_turn
with_turn-Sound s now t es valid timed empty h = record {
  valid = valid;
  nobody_waits = empty;
  timed = timed ∙ h.timed;
  checked = h.checked;
}

-- A step succeeds and keeps the VM sound.
abbrev pub Succeeds : Option (VmState × List Effect) → Type 0
Succeeds r = (s' : VmState) × (es : List Effect) × (r ≡ some (s', es)) × Sound s'

erase_nil : (user : ℕ) (q : List ℕ) → q ≡ [] → erase user q ≡ []
erase_nil user [] e = refl
erase_nil user (u ∷ q) e = absurd (ground arith)

-- A call of `RemoveUser` of the turn controller, by a user who leaves, the timer or an administrator.
remove_kept :
    (t : TurnController) (user : ℕ) (u : ℤ)
    → Valid t
    → (t' : TurnController) × (es : List TurnModule.Effect) × (r : Bool) × (TurnModule.remove_user t
          user u
        ≡ some (t', es, r))
      × Valid t'
      × (t'.turn_time ≡ t.turn_time)
      × (t'.turn_queue ≡ erase user t.turn_queue)
unfolding TurnModule.remove_user
remove_kept t user u v = elim (Option-cases (t.positions user)) [
  | inl e ↦ (
    t,
    [],
    false,
    rw (e, TurnModule.remove_user),
    v,
    refl,
    sym (erase-absent user t.turn_queue (absent user v e)),
  )
  | inr (i, e) ↦
      let (p, run, valid) = remove_user_queued t user i u v e in
      (removed t user p, removal_effects (removed t user p) i u, true, run, valid, refl, refl)
]

pub run_calls-Same :
    (s : VmState) (now : Now) (es : List collab_vm_server.Vote.Effect)
    → Same s (run_calls s now es).0
unfolding run_calls vote_call end_vote
run_calls-Same s now [] = (refl, refl)
run_calls-Same s now (e ∷ es) =
    let first = vote_call-Same s now e in
    let rest = run_calls-Same (vote_call s now e).0 now es in (rest.0 ∙ first.0, rest.1 ∙ first.1)
  where
    vote_call-Same :
        (s : VmState) (now : Now) (e : collab_vm_server.Vote.Effect) → Same s (vote_call s now e).0
    vote_call-Same s now (on_vote_end b) = ground arith
    vote_call-Same s now on_vote_idle = (refl, refl)
    vote_call-Same s now on_vote_start = (refl, refl)
    vote_call-Same s now (start_vote_timer t) = (refl, refl)
    vote_call-Same s now (start_cooldown_timer t) = (refl, refl)
    vote_call-Same s now cancel_timer = (refl, refl)

pub vote-Same : (s : VmState) (now : Now) (user : ℕ) (y : Bool) → Same s (vote s now user y).0
unfolding vote cast
vote-Same s now user y = ground arith

pub leave-Succeeds : (s : VmState) (now : Now) (user : ℕ) → Sound s → Succeeds (leave s now user)
unfolding leave finish_leave retract
leave-Succeeds s now user h = elim (Option-cases (lookup user s.channel.users)) [
  | inl e ↦ (s, [], rw (e, leave), h)
  | inr (d, e) ↦
      let (t, es, r, ran, valid, time, queue) = remove_kept s.turn user now.turn_before h.valid in
      let mid = record s { channel = begin_remove_user s.channel d; turn = t } in
      let out = finish_leave mid now user d in
      (
        out.0,
        turn_effects mid now.turn_after es ++ out.1,
        ground (arith, e, ran),
        record {
          valid = valid;
          nobody_waits = λ w. queue ∙ erase_nil user s.turn.turn_queue (h.nobody_waits w);
          timed = time ∙ h.timed;
          checked = h.checked;
        },
      )
]

pub removal-Succeeds :
    (s : VmState) (now : Now) (user : ℕ)
    → Sound s
    → Succeeds (after_turn s now (TurnModule.remove_user s.turn user now.turn_before))
removal-Succeeds s now user h =
    let (t, es, r, ran, valid, time, queue) = remove_kept s.turn user now.turn_before h.valid in
    (
      (with_turn s now t es).0,
      (with_turn s now t es).1,
      rw ran,
      with_turn-Sound s now t es valid time
          (λ w. queue ∙ erase_nil user s.turn.turn_queue (h.nobody_waits w)) h,
    )
