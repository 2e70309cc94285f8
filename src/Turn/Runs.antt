-- ===== src/Turn/Runs.antt =====
-- TurnController.hpp together with its timer, as steps of a transition system: calls of the
-- controller, in any order, and the end of the wait for the current turn.
use collab_vm_server.Base.{
  ℕ, ◌*◌, ◌/◌, ◌<◌, ◌≡◌, ◌≢◌, refl, sym, subst, true, false, List, [], ◌∷◌, Option, none, some,
  arith, update, ≢→==,
}
use collab_vm_server.Base.Int.{ℤ, pos}
use collab_vm_server.Turn.{
  TurnController, Effect, Call, timer, step, on_timer, initial, pause_turn_timer, resume_turn_timer,
  get_time_remaining, ns_per_ms, timer_expires_after, timer_async_wait, current_user_changed,
  update_current_turn, is_paused, update_queue_turn, remove_user, request_turn, erase_at, decrement,
}
use collab_vm_server.Turn.Position.{IsValid-empty}
use collab_vm_server.Turn.Order.{Valid}
use collab_vm_server.Turn.Refinement.{step-Valid}
use collab_vm_server.Turn.Timer.{armed, IsTimed, Ensures, step-IsTimed, fire-IsTimed}

-- One step from a state `s` of the controller and the user `a` for whom the timer waits.
pub data Move (s : TurnController) (a : Option ℕ) (s' : TurnController) (a' : Option ℕ)
    : Type 0 where
  -- Any call; also a handler that was due when its wait was replaced, or that was cancelled.
  call : (c : Call) (es : List Effect) → step s c ≡ some (s', es) → a' ≡ armed a es → Move s a s' a'
  -- The pending wait ends and its handler runs.
  fire :
      (user : ℕ) (t : ℤ) (es : List Effect)
      → a ≡ some user
      → step s (timer false user t) ≡ some (s', es)
      → a' ≡ armed none es
      → Move s a s' a'

pub data Reachable : TurnController → Option ℕ → Type 0 where
  start : Reachable initial none
  next :
      {s s' : TurnController} {a a' : Option ℕ} → Reachable s a → Move s a s' a' → Reachable s' a'

Move-Valid : {s s' : TurnController} {a a' : Option ℕ} → Move s a s' a' → Valid s → Valid s'
Move-Valid {s} {s'} (call c es e _) v = step-Valid s s' c es v e
Move-Valid {s} {s'} (fire user t es _ e _) v = step-Valid s s' (timer false user t) es v e

Move-IsTimed :
    {s s' : TurnController} {a a' : Option ℕ}
    → Move s a s' a'
    → Valid s
    → IsTimed s a
    → IsTimed s' a'
unfolding step on_timer
Move-IsTimed {s} {s'} {a} (call c es e f) v h =
    subst (IsTimed s') (sym f)
      (subst (Ensures (λ s es. IsTimed s (armed a es))) e (step-IsTimed s c a v h))
Move-IsTimed {s} {s'} {a} (fire user t es g e f) v h = subst (IsTimed s') (sym f) (
    subst (Ensures (λ s es. IsTimed s (armed none es))) e
      (fire-IsTimed s s.paused_time s.turn_queue user t v refl refl (subst (IsTimed s) g h)))

-- In every reachable state the positions describe the queue, and the timer waits for the first
-- user of the queue, or for nobody if the controller is paused.
pub Reachable-IsTimed : {s : TurnController} {a : Option ℕ} → Reachable s a → Valid s × IsTimed s a
Reachable-IsTimed start = (IsValid-empty, tt)
Reachable-IsTimed (next r m) =
    let (v, h) = Reachable-IsTimed r in (Move-Valid m v, Move-IsTimed m v h)

-- A pause of a running turn with `ns` ticks left, at least a millisecond, followed by a resumption
-- restores the controller, and starts the timer again for the first user with the time that was left in
-- whole milliseconds.
pub resume-pause :
    (s : TurnController) (u : ℕ) (us : List ℕ) (ns : ℕ)
    → s.paused_time ≡ none
    → s.turn_queue ≡ u ∷ us
    → 0 < ns / ns_per_ms
    → resume_turn_timer (pause_turn_timer s true (pos ns)).0 ≡ (
      s,
      timer_expires_after (ns / ns_per_ms * ns_per_ms)
          ∷ timer_async_wait u
          ∷ current_user_changed (u ∷ us) (pos (ns / ns_per_ms))
          ∷ [],
    )
unfolding resume_turn_timer pause_turn_timer is_paused update_queue_turn get_time_remaining
resume-pause s u us ns p q h = ground arith

-- A user who is first in the queue of another controller, and so has position 0 in the shared field, makes
-- this one remove its only queued user instead. That user keeps a position, and can make no request.
pub remove_user_of_other :
    (s : TurnController) (u v : ℕ) (t t' : ℤ)
    → s.turn_queue ≡ v ∷ []
    → s.positions v ≡ some 0
    → s.positions u ≡ some 0
    → u ≢ v
    → (s' : TurnController) × (es : List Effect) × (remove_user s u t ≡ some (s', es, true))
      × (s'.turn_queue ≡ [])
      × (request_turn s' v t' ≡ (s', [], false))
unfolding remove_user request_turn erase_at decrement
remove_user_of_other s u v t t' q pv pu ne =
    let s' = record s { turn_queue = []; positions = update s.positions u none } in
    (
      s',
      update_current_turn s' s'.turn_time,
      ground arith,
      refl,
      ground (arith, ≢→== v u (λ e. ne (sym e))),
    )
