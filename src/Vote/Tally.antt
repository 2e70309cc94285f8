-- ===== src/Vote/Tally.antt =====
-- What VoteController.hpp does with the vote of a user who has not decided, and with a vote that is
-- taken back.
use collab_vm_server.Base.{ℕ, ◌≡◌, refl, ◌⊎◌, Bool, true, false, if◌then◌else◌, arith}
use collab_vm_server.User.{UserVoteData, undecided}
use collab_vm_server.Vote.{
  VoteController, VoteState, idle, voting, cooling_down, add_vote, inc32, decision,
}

-- The vote does not count and nothing is decided.
pub record Refused (c c' : VoteController) (d' : UserVoteData) (counted : Bool) : Type 0 where
  pub same : c' ≡ c
  pub open_still : d'.last_vote ≡ undecided
  pub not_counted : counted ≡ false

-- The vote counts: it is the first of a vote, which must be a yes, or one more of a running vote.
pub record Accepted (c c' : VoteController) (d' : UserVoteData) (voted_yes counted : Bool)
    : Type 0 where
  pub decided : d'.last_vote ≡ decision voted_yes
  pub now_voting : c'.vote_state ≡ voting
  pub is_counted : counted ≡ true
  pub tally :
      ((c.vote_state ≡ idle)
        × (voted_yes ≡ true)
        × (c'.yes_vote_count ≡ 1)
        × (c'.no_vote_count ≡ 0))
      ⊎ ((c.vote_state ≡ voting)
          × (c'.yes_vote_count ≡ (if voted_yes then inc32 c.yes_vote_count else c.yes_vote_count))
          × (c'.no_vote_count ≡ (if voted_yes then c.no_vote_count else inc32 c.no_vote_count)))

-- The vote of a user who has not decided is refused, which changes no count and no decision, or it is
-- accepted, is the user's decision from then on, and is one vote more of a running vote or starts one.
pub add_vote-undecided :
    (votes_enabled : Bool) (limit time : ℕ) (c : VoteController) (d : UserVoteData)
    (voted_yes : Bool)
    → d.last_vote ≡ undecided
    → let (c', d', es, counted) = add_vote votes_enabled limit time c d voted_yes in
      Refused c c' d' counted ⊎ Accepted c c' d' voted_yes counted
unfolding add_vote
add_vote-undecided votes_enabled limit time c d voted_yes h = by_state c.vote_state refl
  where
    by_state :
        (v : VoteState)
        → c.vote_state ≡ v
        → let (c', d', es, counted) = add_vote votes_enabled limit time c d voted_yes in
          Refused c c' d' counted ⊎ Accepted c c' d' voted_yes counted
    by_state idle e = ground arith
    by_state voting e = ground arith
    by_state cooling_down e = ground arith
