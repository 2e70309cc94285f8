-- ===== src/Vm/Steps/Turns.antt =====
-- The handlers of a VM's turns and of its settings keep a sound VM sound.
use collab_vm_server.Base.{
  ℕ, ◌≡◌, refl, inl, inr, Bool, true, false, not, ◌&&◌, ◌||◌, List, [], ◌∷◌, Option, none, some,
  if◌then◌else◌, Bool-cases, arith,
}
use collab_vm_server.Turn as TurnModule
use collab_vm_server.Turn.{Call, clear_all, request, pause, resume, TurnController}
use collab_vm_server.Turn.Order.{Valid}
use collab_vm_server.Vm.{has_current_turn, is_admin_user, VmState, VmSettings, Now, Effect}
use collab_vm_server.Vm.Control.{
  request_turn, pause_turn_timer, resume_turn_timer, end_current_turn, turn_timer_handler,
  with_turn, after_turn,
}
use collab_vm_server.Vm.Settings.{update_settings, apply_turns, validate_settings, seconds}
use collab_vm_server.Vm.Steps.Kept.{Sound, Succeeds, with_turn-Sound, removal-Succeeds}
use collab_vm_server.Turn.Refinement.{step-Valid}

abbrev is_empty : List ℕ → Bool
is_empty [] = true
is_empty (u ∷ us) = false

-- A call that is made only while turns are enabled.
guarded-Sound :
    (s : VmState) (now : Now) (t : TurnController) (es : List TurnModule.Effect)
    → Valid t
    → t.turn_time ≡ s.turn.turn_time
    → Sound s
    → Sound (if s.settings.turns_enabled then with_turn s now t es else (s, [])).0
guarded-Sound s now t es valid timed h = by_guard s.settings.turns_enabled refl
  where
    by_guard :
        (b : Bool)
        → s.settings.turns_enabled ≡ b
        → Sound (if b then with_turn s now t es else (s, [])).0
    by_guard false e = h
    by_guard true e =
        with_turn-Sound s now t es valid timed (λ off. absurd (ground (arith, e, off))) h

pub request_turn-Sound :
    (s : VmState) (now : Now) (user : ℕ) → Sound s → Sound (request_turn s now user).0
unfolding request_turn TurnModule.request_turn TurnModule.step
request_turn-Sound s now user h =
    let out = TurnModule.request_turn s.turn user now.turn_before in
    guarded-Sound s now out.0 out.1
      (step-Valid s.turn out.0 (request user now.turn_before) out.1 h.valid refl) (ground arith) h

pub pause-Sound :
    (s : VmState) (now : Now) (b : Bool) → Sound s → Sound (pause_turn_timer s now b).0
unfolding pause_turn_timer TurnModule.pause_turn_timer
pause-Sound s now b h =
    let out = TurnModule.pause_turn_timer s.turn b now.turn_before in
    guarded-Sound s now out.0 out.1 h.valid refl h

pub resume-Sound : (s : VmState) (now : Now) → Sound s → Sound (resume_turn_timer s now).0
unfolding resume_turn_timer TurnModule.resume_turn_timer TurnModule.step
resume-Sound s now h =
    let out = TurnModule.resume_turn_timer s.turn in
    guarded-Sound s now out.0 out.1 (step-Valid s.turn out.0 resume out.1 h.valid refl)
      (ground arith) h

-- The turn controller is asked to end a turn while a user has it, which is undefined behaviour.
abbrev pub ends_running_turn : VmState → ℕ → Bool
ends_running_turn s user =
    s.settings.turns_enabled
    && (has_current_turn s user || is_admin_user s user)
    && not (is_empty s.turn.turn_queue)

-- A handler succeeds and keeps the VM sound, or it is undefined behaviour.
abbrev pub Handles : (faults : Bool) → Option (VmState × List Effect) → Type 0
Handles true r = r ≡ none
Handles false r = Succeeds r

pub end_turn-Handles :
    (s : VmState) (now : Now) (user : ℕ)
    → Sound s
    → Handles (ends_running_turn s user) (end_current_turn s now user)
unfolding end_current_turn
end_turn-Handles s now user h =
    by_guard (s.settings.turns_enabled && (has_current_turn s user || is_admin_user s user))
  where
    by_queue :
        (q : List ℕ)
        → s.turn.turn_queue ≡ q
        → Handles
            (not (is_empty q))
            (after_turn s now (TurnModule.end_current_turn s.turn now.turn_before))
    by_queue [] e = (
      (with_turn s now s.turn []).0,
      (with_turn s now s.turn []).1,
      unfold TurnModule.end_current_turn in rw e,
      with_turn-Sound s now s.turn [] h.valid refl h.nobody_waits h,
    )
    by_queue (u ∷ us) e = unfold TurnModule.end_current_turn in ground (arith, e)

    by_guard :
        (b : Bool)
        → Handles (b && not (is_empty s.turn.turn_queue)) (
            if b
            then after_turn s now (TurnModule.end_current_turn s.turn now.turn_before)
            else some (s, []))
    by_guard false = (s, [], refl, h)
    by_guard true = by_queue s.turn.turn_queue refl

pub timer-Succeeds :
    (s : VmState) (now : Now) (failed : Bool) (current : ℕ)
    → Sound s
    → Succeeds (turn_timer_handler s now failed current)
unfolding turn_timer_handler TurnModule.on_timer
timer-Succeeds s now true current h = (
  (with_turn s now s.turn []).0,
  (with_turn s now s.turn []).1,
  refl,
  with_turn-Sound s now s.turn [] h.valid refl h.nobody_waits h,
)
timer-Succeeds s now false current h = removal-Succeeds s now current h

-- Valid settings apply whatever the settings before were.
apply_turns-Sound :
    (s : VmState) (now : Now) (new : VmSettings)
    → validate_settings new ≡ true
    → Sound s
    → Sound (apply_turns s now new).0
unfolding apply_turns with_turn TurnModule.clear TurnModule.step TurnModule.set_turn_time
apply_turns-Sound s now new good h = by_cases new.turns_enabled s.settings.turns_enabled refl refl
  where
    timed : TurnController
    timed = record s.turn { turn_time = seconds new.turn_time }

    cleared : TurnController
    cleared = (TurnModule.clear timed).0

    by_cases :
        (a b : Bool)
        → new.turns_enabled ≡ a
        → s.settings.turns_enabled ≡ b
        → Sound
            (if◌then◌else◌ {A = VmState × List Effect}
              (not a && b)
              (with_turn (record s { settings = new }) now cleared (TurnModule.clear timed).1)
              (record s { settings = new; turn = timed }, [])).0
    by_cases true b e f = record {
      valid = h.valid;
      nobody_waits = λ w. absurd (ground (arith, e, w));
      timed = refl;
      checked = good;
    }
    by_cases false false e f = record {
      valid = h.valid;
      nobody_waits = λ w. h.nobody_waits f;
      timed = refl;
      checked = good;
    }
    by_cases false true e f = record {
      valid = step-Valid timed cleared clear_all (TurnModule.clear timed).1 h.valid refl;
      nobody_waits = λ w. ground arith;
      timed = ground arith;
      checked = good;
    }

pub update-Sound :
    (s : VmState) (now : Now) (new : VmSettings) → Sound s → Sound (update_settings s now new).0
unfolding update_settings
update-Sound s now new h = elim (Bool-cases (validate_settings new)) [
  | inr bad ↦ rw (bad, update_settings) h
  | inl good ↦ rw (good, update_settings) (apply_turns-Sound s now new good h)
]
