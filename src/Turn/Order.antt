-- ===== src/Turn/Order.antt =====
-- TurnController.hpp and a queue of users without positions, as its specification.
use collab_vm_server.Base.{
  ℕ, ◌≡◌, refl, sym, ap, ◌∙◌, ◌⊎◌, inl, inr, Bool, true, false, List, [], ◌∷◌, ◌++◌, Option, none,
  some, contains, update, if◌then◌else◌, ◌==◌, Bool-cases, Option-cases, arith,
}
use collab_vm_server.Base.Int.{ℤ}
use collab_vm_server.Turn.{
  TurnController, Effect, Call, request, remove, set_time, pause, resume, end_turn, clear_all,
  timer, user_removed, current_user_changed, user_added, timer_cancel, timer_expires_after,
  timer_async_wait, update_current_turn, get_time_remaining, remove_user, run, is_paused,
  update_queue_turn,
}
use collab_vm_server.Turn.Position.{IsValid, erase, removal, absent, IsValid-erase}

-- The queue after a call, without positions: first come, first served, and nobody twice. `none` is
-- undefined behaviour, which is to end a turn while there is one.
unfoldable pub serve : List ℕ → Call → Option (List ℕ)
serve queue (request user t) = some (if contains user queue then queue else queue ++ user ∷ [])
serve queue (remove user t) = some (erase user queue)
serve queue (set_time time) = some queue
serve queue (pause was_running t) = some queue
serve queue resume = some queue
serve queue clear_all = some []
serve [] (end_turn t) = some []
serve (u ∷ us) (end_turn t) = none
serve queue (timer failed user t) = some (if failed then queue else erase user queue)

unfoldable pub serve_all : List ℕ → List Call → Option (List ℕ)
serve_all queue [] = some queue
serve_all queue (c ∷ cs) = elim (serve queue c) [ none ↦ none | some after ↦ serve_all after cs ]

abbrev pub Valid : TurnController → Type 0
Valid s = IsValid s.turn_queue s.positions

pub erase-absent : (u : ℕ) (us : List ℕ) → contains u us ≡ false → erase u us ≡ us
erase-absent u [] c = refl
erase-absent u (v ∷ vs) c = ground (arith, erase-absent u vs)

-- The state after the removal of a queued user, and what is announced.
abbrev pub removed : TurnController → ℕ → (ℕ → Option ℕ) → TurnController
removed s user p = record s { turn_queue = erase user s.turn_queue; positions = p }

abbrev pub removal_effects : TurnController → ℕ → ℤ → List Effect
removal_effects s' position t =
    if position == 0
    then update_current_turn s' s'.turn_time
    else user_removed s'.turn_queue (get_time_remaining s'.turn_queue t) ∷ []

pub remove_user_queued :
    (s : TurnController) (user i : ℕ) (t : ℤ)
    → Valid s
    → s.positions user ≡ some i
    → (p : ℕ → Option ℕ) × (remove_user s user t
        ≡ some (removed s user p, removal_effects (removed s user p) i t, true))
      × IsValid (erase user s.turn_queue) p
unfolding remove_user
remove_user_queued s user i t v e =
    let (p', r) =
      removal 0 user i s.turn_queue s.positions v.numbered (e ∙ ap some (omega arith))
        (v.only user i e) in
    let old_position : p' user ≡ some i = r.old ∙ ap some (omega arith) in
    (
      update p' user none,
      rw (e, remove_user) (rw (r.erased) (rw (r.run) (rw old_position))),
      IsValid-erase user i s.turn_queue s.positions p' v r,
    )

-- The queues that are announced to the users, in order.
abbrev pub announced : List Effect → List (List ℕ)
announced [] = []
announced (current_user_changed q t ∷ es) = q ∷ announced es
announced (user_added q t ∷ es) = q ∷ announced es
announced (user_removed q t ∷ es) = q ∷ announced es
announced (timer_cancel ∷ es) = announced es
announced (timer_expires_after t ∷ es) = announced es
announced (timer_async_wait u ∷ es) = announced es

-- A call that leaves the queue `q`: it is announced once, or the queue was `q` before.
pub record Serves (s : TurnController) (q : List ℕ) (s' : TurnController) (es : List Effect)
    : Type 0 where
  pub queue : s'.turn_queue ≡ q
  pub valid : Valid s'
  pub told : (announced es ≡ q ∷ []) ⊎ ((announced es ≡ []) × (s.turn_queue ≡ q))

pub announced-update :
    (s : TurnController) (t : ℕ) → announced (update_current_turn s t) ≡ s.turn_queue ∷ []
unfolding update_current_turn
announced-update s t = of_queue s.turn_queue (is_paused s)
  where
    of_queue : (q : List ℕ) (b : Bool) → announced (update_queue_turn q b t) ≡ q ∷ []
    of_queue [] b = refl
    of_queue (u ∷ us) true = refl
    of_queue (u ∷ us) false = refl

announced-removal :
    (s : TurnController) (i : ℕ) (t : ℤ) → announced (removal_effects s i t) ≡ s.turn_queue ∷ []
announced-removal s i t = elim (Bool-cases (i == 0)) [
  | inl front ↦ rw front (announced-update s s.turn_time)
  | inr behind ↦ rw behind
]

pub remove_user-Serves :
    (s : TurnController) (user : ℕ) (t : ℤ)
    → Valid s
    → (s' : TurnController) × (es : List Effect) × (result : Bool) × (remove_user s user t
        ≡ some (s', es, result))
      × (result ≡ contains user s.turn_queue)
      × Serves s (erase user s.turn_queue) s' es
remove_user-Serves s user t v = elim (Option-cases (s.positions user)) [
  | inl e ↦
      let out = absent user v e in
      let same = erase-absent user s.turn_queue out in
      (
        s,
        [],
        false,
        unfold remove_user in rw (e, remove_user),
        sym out,
        record { queue = sym same; valid = v; told = inr (refl, sym same) },
      )
  | inr (i, e) ↦
      let (p, run, valid) = remove_user_queued s user i t v e in
      (
        removed s user p,
        removal_effects (removed s user p) i t,
        true,
        run,
        sym (v.only user i e),
        record {
          queue = refl;
          valid = valid;
          told = inl (announced-removal (removed s user p) i t);
        },
      )
]
