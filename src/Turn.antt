-- ===== src/Turn.antt =====
-- TurnController.hpp: the queue of users who wait for control of a VM, and its turn timer.
-- A `TUserPtr` is the number that identifies the shared user object, and `positions` is the field
-- `turn_queue_position_` of every such object. Calls of the timer and of the virtual functions are
-- effects in the order in which they are made; what the timer answers is an argument:
-- `until_expiry` is `expiry() - now` and `was_running` is the result of `cancel()`. Durations are
-- ticks of the steady clock, `ns_per_ms` of them in a millisecond. `none` as a result means
-- undefined behaviour or an uncaught exception. A position is a field of a user's socket, which the turn
-- controllers of all VMs share, so that `positions` is what this controller finds and leaves there.
pub mod Position
pub mod Order
pub mod Refinement
pub mod Timer
pub mod Runs
pub mod Tests
use collab_vm_server.Base.{
  ℕ, zero, suc, ◌-◌, ◌*◌, ◌/◌, ◌^◌, Bool, true, false, ◌&&◌, List, [], ◌∷◌, ◌++◌, Option, none,
  some, length, drop, update, if◌then◌else◌, ◌==◌, ◌>>=◌,
}
use collab_vm_server.Base.Int.{ℤ, pos, negsuc, div_trunc, is_positive}

pub data Effect : Type 0 where
  timer_cancel : Effect
  timer_expires_after : ℕ → Effect
  timer_async_wait : ℕ → Effect
  current_user_changed : List ℕ → ℤ → Effect
  user_added : List ℕ → ℤ → Effect
  user_removed : List ℕ → ℤ → Effect

pub record TurnController : Type 0 where
  pub turn_time : ℕ
  pub turn_queue : List ℕ
  pub paused_time : Option ℕ
  pub positions : ℕ → Option ℕ

abbrev pub ns_per_ms : ℕ
ns_per_ms = 1000000

abbrev pub empty_positions : ℕ → Option ℕ
empty_positions u = none

abbrev pub initial : TurnController
initial = record { turn_time = 0; turn_queue = []; paused_time = none; positions = empty_positions }

abbrev is_some : Option ℕ → Bool
is_some none = false
is_some (some t) = true

unfoldable pub is_paused : TurnController → Bool
is_paused s = is_some s.paused_time

unfoldable pub get_time_remaining : List ℕ → ℤ → ℤ
get_time_remaining [] until_expiry = pos 0
get_time_remaining (u ∷ us) until_expiry = div_trunc until_expiry ns_per_ms

unfoldable pub get_current_user : List ℕ → Option ℕ
get_current_user [] = none
get_current_user (u ∷ us) = some u

-- The state is only read.
update_queue_turn : List ℕ → Bool → ℕ → List Effect
update_queue_turn [] paused time_remaining = current_user_changed [] (pos 0) ∷ []
update_queue_turn (u ∷ us) true time_remaining =
    current_user_changed (u ∷ us) (pos (time_remaining / ns_per_ms)) ∷ []
update_queue_turn (u ∷ us) false time_remaining =
    timer_expires_after time_remaining
    ∷ timer_async_wait u
    ∷ current_user_changed (u ∷ us) (pos (time_remaining / ns_per_ms))
    ∷ []

unfoldable pub update_current_turn : TurnController → ℕ → List Effect
unfolding update_queue_turn is_paused
update_current_turn s time_remaining = update_queue_turn s.turn_queue (is_paused s) time_remaining

enqueue : TurnController → ℕ → TurnController
enqueue s user = record s {
  turn_queue = s.turn_queue ++ user ∷ [];
  positions = update s.positions user (some (length s.turn_queue));
}

unfoldable pub request_turn : TurnController → ℕ → ℤ → TurnController × List Effect × Bool
unfolding enqueue update_current_turn get_time_remaining
request_turn s user until_expiry = elim (s.positions user) [
  | some position ↦ (s, [], false)
  | none ↦
      let s' = enqueue s user in
      if length s.turn_queue == 0
      then (s', update_current_turn s' s'.turn_time, true)
      else (s', user_added s'.turn_queue (get_time_remaining s'.turn_queue until_expiry) ∷ [], true)
]

-- `--` on a `std::size_t`.
abbrev pred_size : ℕ → ℕ
pred_size n = if n == 0 then 2 ^ 64 - 1 else n - 1

pub erase_at : List ℕ → ℕ → Option (List ℕ)
erase_at [] i = none
erase_at (u ∷ us) zero = some us
erase_at (u ∷ us) (suc i) = erase_at us i >>= λ rest. some (u ∷ rest)

-- The loop over the users behind the removed one.
pub decrement : (ℕ → Option ℕ) → List ℕ → Option (ℕ → Option ℕ)
decrement positions [] = some positions
decrement positions (u ∷ us) = elim (positions u) [
  | none ↦ none
  | some n ↦ decrement (update positions u (some (pred_size n))) us
]

unfoldable pub remove_user : TurnController → ℕ → ℤ → Option (TurnController × List Effect × Bool)
unfolding update_current_turn get_time_remaining
remove_user s user until_expiry = elim (s.positions user) [
  | none ↦ some (s, [], false)
  | some position ↦ do
    queue ← erase_at s.turn_queue position
    positions ← decrement s.positions (drop position queue)
    old_position ← positions user
    let s' = record s { turn_queue = queue; positions = update positions user none }
    some (
      s',
      (if old_position == 0
          then update_current_turn s' s'.turn_time
          else user_removed queue (get_time_remaining queue until_expiry) ∷ []),
      true,
    )
]

unfoldable pub set_turn_time : TurnController → ℕ → TurnController
set_turn_time s time = record s { turn_time = time }

-- A remaining time of a positive number of milliseconds, or another.
abbrev kept_time : Bool → ℤ → ℕ → ℕ
kept_time was_running (pos n) otherwise =
    if was_running && is_positive (pos n) then n else otherwise
kept_time was_running (negsuc n) otherwise = otherwise

unfoldable pub pause_turn_timer : TurnController → Bool → ℤ → TurnController × List Effect
unfolding update_current_turn get_time_remaining
pause_turn_timer s was_running until_expiry =
    let remaining = get_time_remaining s.turn_queue until_expiry in
    let paused = kept_time was_running remaining (s.turn_time / ns_per_ms) in
    let s' = record s { paused_time = some paused } in
    (s', timer_cancel ∷ update_current_turn s' (paused * ns_per_ms))

unfoldable pub resume_turn_timer : TurnController → TurnController × List Effect
unfolding update_current_turn
resume_turn_timer s = elim s.paused_time [
  | none ↦ (s, [])
  | some paused ↦
      let s' = record s { paused_time = none } in (s', update_current_turn s' (paused * ns_per_ms))
]

-- `RemoveUser` gets a reference to the first element of the queue, erases that element and then reads the
-- user through the reference.
unfoldable pub end_current_turn : TurnController → ℤ → Option (TurnController × List Effect × Bool)
end_current_turn s until_expiry = elim s.turn_queue [ [] ↦ some (s, [], false) | u ∷ us ↦ none ]

pub reset_positions : (ℕ → Option ℕ) → List ℕ → ℕ → Option ℕ
reset_positions positions [] = positions
reset_positions positions (u ∷ us) = reset_positions (update positions u none) us

unfoldable pub clear : TurnController → TurnController × List Effect
clear s = elim s.turn_queue [
  | [] ↦ (s, timer_cancel ∷ [])
  | u ∷ us ↦ (
    record s { turn_queue = []; positions = reset_positions s.positions (u ∷ us) },
    timer_cancel ∷ current_user_changed [] (pos 0) ∷ [],
  )
]

-- The handler of the timer: `failed` is its error code, `user` the captured current user.
unfoldable pub on_timer :
    TurnController → Bool → ℕ → ℤ → Option (TurnController × List Effect × Bool)
unfolding remove_user
on_timer s failed user until_expiry =
    if failed then some (s, [], false) else remove_user s user until_expiry

-- The calls that other code and the timer make.
pub data Call : Type 0 where
  request remove : ℕ → ℤ → Call
  set_time : ℕ → Call
  pause : Bool → ℤ → Call
  resume clear_all : Call
  end_turn : ℤ → Call
  timer : Bool → ℕ → ℤ → Call

abbrev pub without_result :
    Option (TurnController × List Effect × Bool) → Option (TurnController × List Effect)
without_result none = none
without_result (some (s, effects, result)) = some (s, effects)

unfoldable pub step : TurnController → Call → Option (TurnController × List Effect)
unfolding request_turn remove_user set_turn_time pause_turn_timer resume_turn_timer
step s (request user t) = let (s', effects, result) = request_turn s user t in some (s', effects)
step s (remove user t) = without_result (remove_user s user t)
step s (set_time time) = some (set_turn_time s time, [])
step s (pause was_running t) = some (pause_turn_timer s was_running t)
step s resume = some (resume_turn_timer s)
step s clear_all = some (clear s)
step s (end_turn t) = without_result (end_current_turn s t)
step s (timer failed user t) = without_result (on_timer s failed user t)

unfoldable pub run : TurnController → List Call → Option TurnController
run s [] = some s
run s (c ∷ cs) = step s c >>= λ after. run after.0 cs
