-- ===== src/Vote/Tests.antt =====
-- Votes at concrete states.
use collab_vm_server.Vote.{VoteController, voting}

abbrev one_each_way : VoteController
one_each_way = record { vote_state = voting; yes_vote_count = 1; no_vote_count = 1 }
