-- ===== src/Turn/Tests.antt =====
-- Runs of the turn queue, and its theorems at concrete states.
use collab_vm_server.Base.{◌≡◌, refl, true, false, List, [], ◌∷◌, none, some, arith, update}
use collab_vm_server.Base.Int.{pos}
use collab_vm_server.Turn.{
  TurnController, Effect, request, remove, set_time, pause, resume, clear_all, timer, end_turn,
  end_current_turn, step, run, initial, remove_user, request_turn, pause_turn_timer,
  resume_turn_timer, timer_expires_after, timer_async_wait, current_user_changed,
  update_current_turn, on_timer,
}
use collab_vm_server.Turn.Position.{IsValid-enqueue, IsValid-empty}
use collab_vm_server.Turn.Order.{serve, serve_all, Valid}
use collab_vm_server.Turn.Refinement.{step-Outcome, Outcome, RunFollows, run_refines}
use collab_vm_server.Turn.Timer.{IsTimed}
use collab_vm_server.Turn.Runs.{
  Reachable, start, next, call, Reachable-IsTimed, remove_user_of_other,
}

-- Two users in the queue, 5 seconds each.
abbrev two : TurnController
two = record {
  turn_time = 5000000000;
  turn_queue = 1 ∷ 2 ∷ [];
  paused_time = none;
  positions = update (update (λ u. none) 1 (some 0)) 2 (some 1);
}

two-Valid : Valid two
two-Valid = IsValid-enqueue 2 (1 ∷ []) _ (IsValid-enqueue 1 [] (λ u. none) IsValid-empty refl) refl

-- The test of tests/TurnTest.cpp, with the remaining time of every call at 0.
abbrev turn_test : List collab_vm_server.Turn.Call
turn_test =
    set_time 5000000000
    ∷ request 1 (pos 0)
    ∷ request 2 (pos 0)
    ∷ request 3 (pos 0)
    ∷ remove 1 (pos 0)
    ∷ clear_all
    ∷ []

turn_test_ends : serve_all [] turn_test ≡ some []
unfolding serve_all serve
turn_test_ends = refl

step-Outcome_example : Outcome two (2 ∷ []) (step two (remove 1 (pos 7)))
unfolding serve
step-Outcome_example = step-Outcome two (remove 1 (pos 7)) two-Valid

run_refines_example : RunFollows (serve_all [] turn_test) (run initial turn_test)
run_refines_example = run_refines turn_test

-- Two users wait, and an administrator ends the turn.
turn_test_faults :
    run initial (request 1 (pos 0) ∷ request 2 (pos 0) ∷ end_turn (pos 0) ∷ []) ≡ none
unfolding run step request_turn end_current_turn
turn_test_faults = refl

one_request : Reachable (request_turn initial 4 (pos 0)).0 (some 4)
unfolding step request_turn update_current_turn
one_request = next start (call (request 4 (pos 0)) (request_turn initial 4 (pos 0)).1 refl refl)

Reachable-IsTimed_example :
    Valid (request_turn initial 4 (pos 0)).0 × IsTimed (request_turn initial 4 (pos 0)).0 (some 4)
Reachable-IsTimed_example = Reachable-IsTimed one_request

-- User 5 waits in the queue of another VM, user 1 has the turn in this one.
abbrev shared : TurnController
shared = record two {
  turn_queue = 1 ∷ [];
  positions = update (update (λ u. none) 1 (some 0)) 5 (some 0);
}

remove_user_of_other_example :
    (s' : TurnController) × (es : List Effect) × (remove_user shared 5 (pos 9)
      ≡ some (s', es, true))
    × (s'.turn_queue ≡ [])
    × (request_turn s' 1 (pos 0) ≡ (s', [], false))
remove_user_of_other_example =
    remove_user_of_other shared 5 1 (pos 9) (pos 0) refl refl refl (λ e. omega arith)
