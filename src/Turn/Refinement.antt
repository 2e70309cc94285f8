-- ===== src/Turn/Refinement.antt =====
-- Every call of TurnController.hpp, and every sequence of calls, against the specification `serve`.
use collab_vm_server.Base.{
  ℕ, ◌≡◌, refl, subst, ◌*◌, ◌/◌, inl, inr, true, false, List, [], ◌∷◌, Option, none, some, length,
  ◌==◌, Bool-cases, Option-cases, arith,
}
use collab_vm_server.Base.Int.{ℤ, pos}
use collab_vm_server.Turn.{
  TurnController, Effect, Call, request, remove, set_time, pause, resume, end_turn, clear_all,
  timer, user_added, kept_time, current_user_changed, timer_cancel, ns_per_ms, reset_positions,
  set_turn_time, get_time_remaining, request_turn, end_current_turn, pause_turn_timer, on_timer,
  resume_turn_timer, clear, step, run, initial, enqueue, update_current_turn, without_result,
  remove_user,
}
use collab_vm_server.Turn.Position.{
  IsValid, erase, absent, IsValid-enqueue, IsValid-clear, IsValid-empty,
}
use collab_vm_server.Turn.Order.{
  serve, serve_all, Valid, Serves, announced-update, remove_user-Serves,
}

-- The outcome of a call that leaves the queue `q`.
abbrev pub Outcome : TurnController → List ℕ → Option (TurnController × List Effect) → Type 0
Outcome s q r = (s' : TurnController) × (es : List Effect) × (r ≡ some (s', es)) × Serves s q s' es

-- What the specification asks of a call: a queue, or undefined behaviour.
abbrev pub Follows :
    TurnController → Option (List ℕ) → Option (TurnController × List Effect) → Type 0
Follows s none r = r ≡ none
Follows s (some q) r = Outcome s q r

request-Outcome :
    (s : TurnController) (user : ℕ) (t : ℤ)
    → Valid s
    → Follows s (serve s.turn_queue (request user t)) (step s (request user t))
unfolding step request_turn serve
request-Outcome s user t v = elim (Option-cases (s.positions user)) [
  | inr (i, e) ↦
      let inside = v.only user i e in
      (s, [], ground arith, record { queue = rw inside; valid = v; told = inr (refl, rw inside) })
  | inl e ↦
      let out = absent user v e in
      let s' = enqueue s user in
      elim (Bool-cases (length s.turn_queue == 0)) [
        | inl first ↦ (
          s',
          update_current_turn s' s'.turn_time,
          ground arith,
          record {
            queue = rw out;
            valid = IsValid-enqueue user s.turn_queue s.positions v e;
            told = inl (rw out (announced-update s' s'.turn_time));
          },
        )
        | inr later ↦ (
          s',
          user_added s'.turn_queue (get_time_remaining s'.turn_queue t) ∷ [],
          ground arith,
          record {
            queue = rw out;
            valid = IsValid-enqueue user s.turn_queue s.positions v e;
            told = inl (rw out);
          },
        )
      ]
]

remove-Outcome :
    (s : TurnController) (user : ℕ) (t : ℤ)
    → Valid s
    → Outcome s (erase user s.turn_queue) (without_result (remove_user s user t))
remove-Outcome s user t v =
    let (s', es, b, e, _, h) = remove_user-Serves s user t v in (s', es, rw e, h)

end_turn-Outcome :
    (s : TurnController) (q : List ℕ) (t : ℤ)
    → Valid s
    → s.turn_queue ≡ q
    → Follows s (serve q (end_turn t)) (without_result (end_current_turn s t))
unfolding end_current_turn serve
end_turn-Outcome s [] t v e =
    (s, [], ground arith, record { queue = e; valid = v; told = inr (refl, e) })
end_turn-Outcome s (u ∷ us) t v e = ground (arith, e)

clear-Outcome :
    (s : TurnController) (q : List ℕ) → Valid s → s.turn_queue ≡ q → Outcome s [] (some (clear s))
unfolding clear
clear-Outcome s [] v e =
    (s, timer_cancel ∷ [], ground arith, record { queue = e; valid = v; told = inr (refl, e) })
clear-Outcome s (u ∷ us) v e = (
  record s { turn_queue = []; positions = reset_positions s.positions (u ∷ us) },
  timer_cancel ∷ current_user_changed [] (pos 0) ∷ [],
  rw (e, clear),
  record {
    queue = refl;
    valid = IsValid-clear (u ∷ us) s.positions (subst (λ q. IsValid q s.positions) e v);
    told = inl refl;
  },
)

resume-Outcome :
    (s : TurnController) → Valid s → Outcome s s.turn_queue (some (resume_turn_timer s))
unfolding resume_turn_timer
resume-Outcome s v = elim (Option-cases s.paused_time) [
  | inl e ↦ (s, [], ground arith, record { queue = refl; valid = v; told = inr (refl, refl) })
  | inr (paused, e) ↦
      let s' = record s { paused_time = none } in
      (
        s',
        update_current_turn s' (paused * ns_per_ms),
        rw (e, resume_turn_timer),
        record { queue = refl; valid = v; told = inl (announced-update s' (paused * ns_per_ms)) },
      )
]

-- When the positions of all users describe the queue of a controller, every call of it leaves the queue that
-- the specification gives, keeps the positions right, and announces the new queue once unless the queue
-- is as before; and it is undefined behaviour where the specification says so, which is when
-- `EndCurrentTurn` is called while a user has the turn.
pub step-Outcome :
    (s : TurnController) (c : Call) → Valid s → Follows s (serve s.turn_queue c) (step s c)
unfolding step serve on_timer set_turn_time pause_turn_timer
step-Outcome s (request user t) v = request-Outcome s user t v
step-Outcome s (remove user t) v = remove-Outcome s user t v
step-Outcome s (set_time time) v =
    (set_turn_time s time, [], refl, record { queue = refl; valid = v; told = inr (refl, refl) })
step-Outcome s (pause was_running t) v = (
  (pause_turn_timer s was_running t).0,
  (pause_turn_timer s was_running t).1,
  refl,
  record {
    queue = refl;
    valid = v;
    told = inl (
        let s' = (pause_turn_timer s was_running t).0 in
        announced-update s' (
          kept_time was_running (get_time_remaining s.turn_queue t) (s.turn_time / ns_per_ms)
          * ns_per_ms));
  },
)
step-Outcome s resume v = resume-Outcome s v
step-Outcome s clear_all v = clear-Outcome s s.turn_queue v refl
step-Outcome s (end_turn t) v = end_turn-Outcome s s.turn_queue t v refl
step-Outcome s (timer true user t) v =
    (s, [], refl, record { queue = refl; valid = v; told = inr (refl, refl) })
step-Outcome s (timer false user t) v = remove-Outcome s user t v

-- The state after a call that succeeds is valid.
pub step-Valid :
    (s s' : TurnController) (c : Call) (es : List Effect)
    → Valid s
    → step s c ≡ some (s', es)
    → Valid s'
step-Valid s s' c es v e = after (serve s.turn_queue c) (step-Outcome s c v)
  where
    after : (q : Option (List ℕ)) → Follows s q (step s c) → Valid s'
    after none faulted = absurd (ground (arith, faulted, e))
    after (some q) (r, fx, ran, h) =
        let same : r ≡ s' = ground (arith, ran, e) in subst Valid same h.valid

-- What the specification asks of a sequence of calls.
abbrev pub RunFollows : Option (List ℕ) → Option TurnController → Type 0
RunFollows none r = r ≡ none
RunFollows (some q) r = (s : TurnController) × (r ≡ some s) × (s.turn_queue ≡ q) × Valid s

run-Outcome :
    (s : TurnController) (cs : List Call)
    → Valid s
    → RunFollows (serve_all s.turn_queue cs) (run s cs)
unfolding run serve_all
run-Outcome s [] v = (s, refl, refl, v)
run-Outcome s (c ∷ cs) v =
    after (serve s.turn_queue c) (step-Outcome s c v) (λ s' w. run-Outcome s' cs w)
  where
    after :
        (q : Option (List ℕ))
        → Follows s q (step s c)
        → ((s' : TurnController) → Valid s' → RunFollows (serve_all s'.turn_queue cs) (run s' cs))
        → RunFollows (elim q [ none ↦ none | some next ↦ serve_all next cs ]) (run s (c ∷ cs))
    after none faulted rest = rw (faulted, run) refl
    after (some q) (s', es, ran, h) rest =
        rw (ran, run)
          (subst (λ q. RunFollows (serve_all q cs) (run s' cs)) h.queue (rest s' h.valid))

-- From the initial state, when no user has a position and only this controller gives and takes positions,
-- every sequence of calls does what the specification says: it leaves the queue that the specification
-- gives from the empty queue, and positions that describe it, or it is undefined behaviour because
-- `EndCurrentTurn` is called while a user has the turn.
pub run_refines : (cs : List Call) → RunFollows (serve_all [] cs) (run initial cs)
run_refines cs = run-Outcome initial cs IsValid-empty
