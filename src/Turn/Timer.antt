-- ===== src/Turn/Timer.antt =====
-- The turn timer of TurnController.hpp: while the controller runs it waits for the current user, and
-- while it is paused it waits for nobody.
use collab_vm_server.Base.{
  ℕ, zero, suc, ◌*◌, ◌/◌, ◌≡◌, ◌≢◌, refl, sym, ap, ◌∙◌, subst, inl, inr, true, false, List, [], ◌∷◌,
  ◌++◌, Option, none, some, contains, ◌==◌, Bool-cases, Option-cases, arith, ==→≡, ≢→==,
}
use collab_vm_server.Base.Int.{ℤ, pos}
use collab_vm_server.Turn.{
  TurnController, Effect, Call, request, remove, set_time, pause, resume, end_turn, clear_all,
  timer, user_added, user_removed, current_user_changed, timer_cancel, timer_expires_after,
  timer_async_wait, update_current_turn, update_queue_turn, is_paused, get_time_remaining,
  request_turn, remove_user, set_turn_time, pause_turn_timer, resume_turn_timer, end_current_turn,
  clear, on_timer, step, enqueue, ns_per_ms, without_result, kept_time, reset_positions,
}
use collab_vm_server.Turn.Position.{Numbered, erase}
use collab_vm_server.Turn.Order.{Valid, removed, remove_user_queued}

-- The user for whom the timer waits after some effects. Setting an expiry or cancelling ends the
-- wait before it, and a new wait has a new user.
abbrev pub armed : Option ℕ → List Effect → Option ℕ
armed a [] = a
armed a (timer_cancel ∷ es) = armed none es
armed a (timer_expires_after t ∷ es) = armed none es
armed a (timer_async_wait u ∷ es) = armed (some u) es
armed a (current_user_changed q t ∷ es) = armed a es
armed a (user_added q t ∷ es) = armed a es
armed a (user_removed q t ∷ es) = armed a es

-- With the empty queue an old wait may still be pending.
abbrev pub Fits : Option ℕ → List ℕ → Option ℕ → Type 0
Fits (some paused) q a = a ≡ none
Fits none [] a = Unit {0}
Fits none (u ∷ us) a = a ≡ some u

abbrev pub IsTimed : TurnController → Option ℕ → Type 0
IsTimed s a = Fits s.paused_time s.turn_queue a

-- `UpdateCurrentTurn` makes the timer fit, if nothing is awaited while the controller is paused.
Fits-update :
    (s : TurnController) (p : Option ℕ) (q : List ℕ) (t : ℕ) (a : Option ℕ)
    → s.paused_time ≡ p
    → s.turn_queue ≡ q
    → Fits p [] a
    → Fits p q (armed a (update_current_turn s t))
unfolding update_current_turn is_paused update_queue_turn
Fits-update s (some r) [] t a e f h = rw (e, f) h
Fits-update s (some r) (u ∷ us) t a e f h = rw (e, f) h
Fits-update s none [] t a e f h = tt
Fits-update s none (u ∷ us) t a e f h = rw (e, f) refl

IsTimed-update :
    (s : TurnController) (t : ℕ) (a : Option ℕ)
    → Fits s.paused_time [] a
    → IsTimed s (armed a (update_current_turn s t))
IsTimed-update s t a h = Fits-update s s.paused_time s.turn_queue t a refl refl h

Fits-nil : (p : Option ℕ) (q : List ℕ) (a : Option ℕ) → Fits p q a → Fits p [] a
Fits-nil none q a h = tt
Fits-nil (some r) q a h = h

-- A user behind the first is added or removed: the first stays.
Fits-append :
    (p : Option ℕ) (u v : ℕ) (us : List ℕ) (a : Option ℕ)
    → Fits p (u ∷ us) a
    → Fits p (u ∷ us ++ v ∷ []) a
Fits-append none u v us a h = h
Fits-append (some r) u v us a h = h

Fits-erase :
    (p : Option ℕ) (u : ℕ) (q : List ℕ) (k : ℕ) (positions : ℕ → Option ℕ) (a : Option ℕ)
    → Numbered 0 q positions
    → positions u ≡ some (suc k)
    → Fits p q a
    → Fits p (erase u q) a
Fits-erase (some r) u q k positions a n e h = h
Fits-erase none u [] k positions a n e h = h
Fits-erase none u (v ∷ vs) k positions a n e h = elim (Bool-cases (u == v)) [
  | inl same ↦ absurd (ground (arith, n.0, e, ap positions (==→≡ u v same)))
  | inr other ↦ rw other h
]

-- What holds of the state and the effects, if there is no fault.
abbrev pub Ensures :
    (TurnController → List Effect → Type 0) → Option (TurnController × List Effect) → Type 0
Ensures P none = Unit {0}
Ensures P (some (s, es)) = P s es

abbrev TimedAfter : Option ℕ → TurnController → List Effect → Type 0
TimedAfter a s es = IsTimed s (armed a es)

remove-queued-IsTimed :
    (s : TurnController) (user i : ℕ) (t : ℤ) (a : Option ℕ)
    → Valid s
    → s.positions user ≡ some i
    → (i ≢ 0 → IsTimed s a)
    → Fits s.paused_time [] a
    → Ensures (TimedAfter a) (without_result (remove_user s user t))
remove-queued-IsTimed s user zero t a v e h k =
    let (p, ran, _) = remove_user_queued s user 0 t v e in
    rw ran (IsTimed-update (removed s user p) s.turn_time a k)
remove-queued-IsTimed s user (suc i) t a v e h k =
    let (p, ran, _) = remove_user_queued s user (suc i) t v e in
    rw (ran, ≢→== (suc i) 0 (omega arith))
      (Fits-erase s.paused_time user s.turn_queue i s.positions a v.numbered e (h (omega arith)))

remove-IsTimed :
    (s : TurnController) (user : ℕ) (t : ℤ) (a : Option ℕ)
    → Valid s
    → IsTimed s a
    → Ensures (TimedAfter a) (without_result (remove_user s user t))
remove-IsTimed s user t a v h = elim (Option-cases (s.positions user)) [
  | inl e ↦ unfold remove_user in rw (e, remove_user) h
  | inr (i, e) ↦
      remove-queued-IsTimed s user i t a v e (λ _. h) (Fits-nil s.paused_time s.turn_queue a h)
]

-- The wait for the current user is over: it is removed, and the timer starts for the next one.
pub fire-IsTimed :
    (s : TurnController) (p : Option ℕ) (q : List ℕ) (user : ℕ) (t : ℤ)
    → Valid s
    → s.paused_time ≡ p
    → s.turn_queue ≡ q
    → Fits p q (some user)
    → Ensures (TimedAfter none) (without_result (remove_user s user t))
fire-IsTimed s (some r) q user t v e f h = cc
fire-IsTimed s none [] user t v e f h = elim (Option-cases (s.positions user)) [
  | inl g ↦ unfold remove_user in rw (g, remove_user) (rw (e, f) tt)
  | inr (i, g) ↦ absurd (ground (arith, v.only user i g, ap (contains user) f))
]
fire-IsTimed s none (u ∷ us) user t v e f h =
    let same : user ≡ u = cc in
    let num : Numbered 0 (u ∷ us) s.positions =
      subst (λ q. Numbered 0 q s.positions) f v.numbered in
    remove-queued-IsTimed s user 0 t none v (ap s.positions same ∙ num.0) (λ n. absurd (n refl))
      (rw e tt)

request-IsTimed :
    (s : TurnController) (q : List ℕ) (user : ℕ) (t : ℤ) (a : Option ℕ)
    → s.turn_queue ≡ q
    → IsTimed s a
    → Ensures (TimedAfter a) (step s (request user t))
unfolding step request_turn
request-IsTimed s [] user t a f h = elim (Option-cases (s.positions user)) [
  | inr (i, e) ↦ let r : request_turn s user t ≡ (s, [], false) = ground arith in rw r h
  | inl e ↦
      let s' = enqueue s user in
      let r : request_turn s user t ≡ (s', update_current_turn s' s'.turn_time, true) =
        ground arith in
      rw r (IsTimed-update s' s'.turn_time a (Fits-nil s.paused_time s.turn_queue a h))
]
request-IsTimed s (u ∷ us) user t a f h = elim (Option-cases (s.positions user)) [
  | inr (i, e) ↦ let r : request_turn s user t ≡ (s, [], false) = ground arith in rw r h
  | inl e ↦
      let s' = enqueue s user in
      let r : request_turn s user t
          ≡ (s', user_added s'.turn_queue (get_time_remaining s'.turn_queue t) ∷ [], true) =
        ground arith in
      rw r (
        subst (λ q. Fits s.paused_time (q ++ user ∷ []) a) (sym f)
          (Fits-append s.paused_time u user us a (subst (λ q. Fits s.paused_time q a) f h)))
]

Fits-none : (p : Option ℕ) → Fits p [] none
Fits-none none = tt
Fits-none (some r) = refl

clear-IsTimed :
    (s : TurnController) (q : List ℕ) (a : Option ℕ)
    → s.turn_queue ≡ q
    → IsTimed (clear s).0 (armed a (clear s).1)
unfolding clear
clear-IsTimed s [] a f =
    let r : clear s ≡ (s, timer_cancel ∷ []) = ground arith in
    rw r (subst (λ q. Fits s.paused_time q none) (sym f) (Fits-none s.paused_time))
clear-IsTimed s (u ∷ us) a f =
    let r : clear s ≡ (
      record s { turn_queue = []; positions = reset_positions s.positions (u ∷ us) },
      timer_cancel ∷ current_user_changed [] (pos 0) ∷ [],
    ) =
      ground arith in
    rw r (Fits-none s.paused_time)

resume-IsTimed :
    (s : TurnController) (a : Option ℕ)
    → IsTimed s a
    → IsTimed (resume_turn_timer s).0 (armed a (resume_turn_timer s).1)
unfolding resume_turn_timer
resume-IsTimed s a h = elim (Option-cases s.paused_time) [
  | inl e ↦ let r : resume_turn_timer s ≡ (s, []) = ground arith in rw r h
  | inr (paused, e) ↦
      let s' = record s { paused_time = none } in
      let r : resume_turn_timer s ≡ (s', update_current_turn s' (paused * ns_per_ms)) =
        ground arith in
      rw r (IsTimed-update s' (paused * ns_per_ms) a tt)
]

end_turn-IsTimed :
    (s : TurnController) (q : List ℕ) (t : ℤ) (a : Option ℕ)
    → Valid s
    → s.turn_queue ≡ q
    → IsTimed s a
    → Ensures (TimedAfter a) (without_result (end_current_turn s t))
unfolding end_current_turn
end_turn-IsTimed s [] t a v f h =
    let r : end_current_turn s t ≡ some (s, [], false) = ground arith in rw r h
end_turn-IsTimed s (u ∷ us) t a v f h =
    let r : end_current_turn s t ≡ none = ground arith in rw r tt

pub step-IsTimed :
    (s : TurnController) (c : Call) (a : Option ℕ)
    → Valid s
    → IsTimed s a
    → Ensures (TimedAfter a) (step s c)
unfolding step on_timer set_turn_time pause_turn_timer
step-IsTimed s (request user t) a v h = request-IsTimed s s.turn_queue user t a refl h
step-IsTimed s (remove user t) a v h = remove-IsTimed s user t a v h
step-IsTimed s (set_time time) a v h = h
step-IsTimed s (pause was_running t) a v h =
    let s' = (pause_turn_timer s was_running t).0 in
    let kept =
      kept_time was_running (get_time_remaining s.turn_queue t) (s.turn_time / ns_per_ms) in
    IsTimed-update s' (kept * ns_per_ms) none refl
step-IsTimed s resume a v h = resume-IsTimed s a h
step-IsTimed s clear_all a v h = clear-IsTimed s s.turn_queue a refl
step-IsTimed s (end_turn t) a v h = end_turn-IsTimed s s.turn_queue t a v refl h
step-IsTimed s (timer true user t) a v h = h
step-IsTimed s (timer false user t) a v h = remove-IsTimed s user t a v h
