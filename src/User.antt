-- ===== src/User.antt =====
-- CollabVmServer.hpp and VoteController.hpp: the data of a user in a channel. A username and every
-- other text is the list of its bytes; an IP address is the number of its bytes.
use collab_vm_server.Base.{ℕ, Bool, true, false, List}

pub data UserType : Type 0 where
  admin regular guest : UserType

pub data VoteDecision : Type 0 where
  undecided voted_for voted_against : VoteDecision

pub record UserVoteData : Type 0 where
  pub last_vote : VoteDecision
  pub voted_amount : ℕ
  pub voted_limit : Bool

abbrev pub no_votes : UserVoteData
no_votes = record { last_vote = undecided; voted_amount = 0; voted_limit = false }

pub record UserData : Type 0 where
  pub username : List ℕ
  pub user_type : UserType
  pub ip_address : ℕ
  pub vote_data : UserVoteData

abbrev is_admin_type : UserType → Bool
is_admin_type admin = true
is_admin_type _ = false

abbrev is_guest_type : UserType → Bool
is_guest_type guest = true
is_guest_type _ = false

abbrev pub is_admin : UserType → Bool
is_admin t = is_admin_type t

abbrev pub is_registered : UserType → Bool
is_registered admin = true
is_registered regular = true
is_registered guest = false

-- `GetUserType` of a socket, from its flags `is_admin_` and `is_logged_in_`.
unfoldable pub get_user_type : Bool → Bool → UserType
get_user_type true logged_in = admin
get_user_type false true = regular
get_user_type false false = guest
