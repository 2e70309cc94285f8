-- ===== src/Vote.antt =====
-- VoteController.hpp: the state machine of a vote to reset a VM. What the derived class answers
-- (`GetVotesEnabled`, `GetVoteTime`, `GetVoteCooldownTime`) and `Common::vote_limit` are arguments;
-- calls of the timer and of the derived class are effects in order. Counts are `std::uint32_t`.
pub mod Tally
pub mod Tests
use collab_vm_server.Base.{
  ℕ, suc, ◌+◌, ◌-◌, ◌%◌, ◌^◌, Bool, true, false, not, ◌||◌, List, [], ◌∷◌, ◌++◌, ltb, leb, ◌==◌,
  if◌then◌else◌,
}
use collab_vm_server.Base.Int.{ℤ, pos, negsuc, div_trunc, is_positive}
use collab_vm_server.User.{UserVoteData, VoteDecision, undecided, voted_for, voted_against}

pub data VoteState : Type 0 where
  idle voting cooling_down : VoteState

pub record VoteController : Type 0 where
  pub vote_state : VoteState
  pub yes_vote_count : ℕ
  pub no_vote_count : ℕ

pub data Effect : Type 0 where
  -- `expires_after` in seconds and `async_wait` with the handler of the vote, or of the cooldown.
  start_vote_timer start_cooldown_timer : ℕ → Effect
  cancel_timer on_vote_start on_vote_idle : Effect
  on_vote_end : Bool → Effect

abbrev pub initial : VoteController
initial = record { vote_state = idle; yes_vote_count = 0; no_vote_count = 0 }

abbrev cooling : VoteState → Bool
cooling cooling_down = true
cooling _ = false

abbrev pub is_cooling_down : VoteController → Bool
is_cooling_down c = cooling c.vote_state

abbrev remaining : VoteState → ℤ → ℤ
remaining voting until_expiry =
    if is_positive until_expiry then div_trunc until_expiry 1000000 else pos 0
remaining _ until_expiry = pos 0

-- `until_expiry` is `expiry() - now` in ticks of the steady clock.
abbrev pub get_time_remaining : VoteController → ℤ → ℤ
get_time_remaining c until_expiry = remaining c.vote_state until_expiry

abbrev pub inc32 : ℕ → ℕ
inc32 n = (n + 1) % 2 ^ 32

abbrev pub dec32 : ℕ → ℕ
dec32 n = (n + 2 ^ 32 - 1) % 2 ^ 32

abbrev pub decision : Bool → VoteDecision
decision true = voted_for
decision false = voted_against

abbrev pub same_decision : VoteDecision → VoteDecision → Bool
same_decision undecided undecided = true
same_decision voted_for voted_for = true
same_decision voted_against voted_against = true
same_decision _ _ = false

-- One vote more for a decision, and one less for another.
count_vote : VoteController → Bool → VoteController
count_vote c true = record c { yes_vote_count = inc32 c.yes_vote_count }
count_vote c false = record c { no_vote_count = inc32 c.no_vote_count }

uncount_vote : VoteController → VoteDecision → VoteController
uncount_vote c undecided = c
uncount_vote c voted_for = record c { yes_vote_count = dec32 c.yes_vote_count }
uncount_vote c voted_against = record c { no_vote_count = dec32 c.no_vote_count }

start_vote : UserVoteData → Bool → ℕ → VoteController × UserVoteData × List Effect × Bool
start_vote d voted_yes vote_time = (
  record { vote_state = voting; yes_vote_count = 1; no_vote_count = 0 },
  record d { last_vote = decision voted_yes },
  start_vote_timer vote_time ∷ on_vote_start ∷ [],
  true,
)

-- `previous` is the vote before this one.
change_vote :
    VoteController → UserVoteData → Bool → VoteController × UserVoteData × List Effect × Bool
unfolding count_vote uncount_vote
change_vote c d voted_yes =
    if same_decision d.last_vote (decision voted_yes) then (c, d, [], false) else (
      uncount_vote (count_vote c voted_yes) d.last_vote,
      record d { last_vote = decision voted_yes },
      [],
      true,
    )

vote_again :
    VoteController → UserVoteData → Bool → ℕ → VoteController × UserVoteData × List Effect × Bool
unfolding change_vote
vote_again c d voted_yes vote_limit =
    let d' = record d { voted_amount = d.voted_amount + 1 } in
    if d.voted_limit
    then (c, record d { voted_limit = true }, [], false)
    else if leb vote_limit d'.voted_amount
    then (c, record d' { voted_limit = true }, [], false)
    else change_vote c d' voted_yes

add_vote_in :
    VoteState
    → VoteController
    → UserVoteData
    → Bool
    → (vote_limit vote_time : ℕ) → VoteController × UserVoteData × List Effect × Bool
unfolding start_vote vote_again
add_vote_in idle c d voted_yes vote_limit vote_time =
    if not voted_yes then (c, d, [], false) else start_vote d voted_yes vote_time
add_vote_in voting c d voted_yes vote_limit vote_time = vote_again c d voted_yes vote_limit
add_vote_in cooling_down c d voted_yes vote_limit vote_time = (c, d, [], false)

-- The last component is true if the vote was counted.
unfoldable pub add_vote :
    (votes_enabled : Bool) (vote_limit vote_time : ℕ)
    → VoteController
    → UserVoteData
    → Bool
    → VoteController × UserVoteData × List Effect × Bool
unfolding add_vote_in
add_vote votes_enabled vote_limit vote_time c d voted_yes =
    if not votes_enabled
    then (c, d, [], false)
    else add_vote_in c.vote_state c d voted_yes vote_limit vote_time

unfoldable pub remove_vote : VoteController → UserVoteData → VoteController × UserVoteData × Bool
unfolding uncount_vote
remove_vote c d =
    if same_decision d.last_vote undecided
    then (c, d, false)
    else (uncount_vote c d.last_vote, record d { last_vote = undecided }, true)

unfoldable pub stop_vote : List Effect
stop_vote = cancel_timer ∷ []

-- The handler of the vote's timer. `failed` is its error code.
unfoldable pub on_vote_timer :
    (votes_enabled : Bool) (cooldown_time : ℕ)
    → VoteController
    → (failed : Bool) → VoteController × List Effect
on_vote_timer votes_enabled cooldown_time c failed =
    let passed = leb c.no_vote_count c.yes_vote_count in
    if failed || not votes_enabled
    then (record c { vote_state = idle }, on_vote_idle ∷ on_vote_end false ∷ [])
    else if not (cooldown_time == 0)
    then (
      record c { vote_state = cooling_down },
      start_cooldown_timer cooldown_time ∷ on_vote_end passed ∷ [],
    )
    else (record c { vote_state = idle }, on_vote_idle ∷ on_vote_end passed ∷ [])

-- The handler of the cooldown ends it whatever its error code is.
unfoldable pub on_cooldown_timer : VoteController → VoteController × List Effect
on_cooldown_timer c = (record c { vote_state = idle }, on_vote_idle ∷ [])
