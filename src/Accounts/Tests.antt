-- ===== src/Accounts/Tests.antt =====
-- A database with one user, an open invite, and a hash that is the password itself.
use collab_vm_server.Base.{ℕ, ◌≡◌, refl, List, [], ◌∷◌, none, some, true, false, arith}
use collab_vm_server.Accounts.{
  User, Database, new_user, create_user, get_user, login, invalid_password, find_user, update_user,
  UserInvite, registered, invite_invalid,
}
use collab_vm_server.Accounts.Register.{create_account, is_username_taken}
use collab_vm_server.Accounts.Session.{Session, create_session}
use collab_vm_server.Accounts.Login.{login-wrong_password}
use collab_vm_server.Accounts.Invites.{create_invite, validate_invite}
use collab_vm_server.Accounts.Invites.Once.{invite_once}
use collab_vm_server.Accounts.Sessions.{create_session-find_user}

abbrev plain : List ℕ → List ℕ → List ℕ
plain password salt = password

abbrev first_invite : UserInvite
first_invite = record {
  invite_id = 7 ∷ [];
  invited_username = 98 ∷ [];
  invites_admin = true;
  accepted = false;
}

abbrev no_accounts : Database
no_accounts = record {
  users = [];
  invites = first_invite ∷ [];
  unavailable_usernames = [];
  last_id = 0;
}

abbrev with_ann : Database
with_ann = (create_account plain no_accounts (97 ∷ []) (1 ∷ []) none none 9 (5 ∷ []) 3).0

abbrev ann : User
ann = record (new_user plain (97 ∷ []) (1 ∷ []) (5 ∷ []) [] 9 3 true) { id = 1 }

login-wrong_password_example : login plain with_ann (97 ∷ []) (2 ∷ []) ≡ some (invalid_password, [])
unfolding create_account is_username_taken
login-wrong_password_example =
    login-wrong_password plain no_accounts with_ann (97 ∷ []) (1 ∷ []) (2 ∷ []) (5 ∷ []) none none 9
      3 refl refl (λ e. absurd (ground arith))

create_session-find_user_example :
    (db' : Database) × (session : Session) × (user' : User) × (create_session with_ann
        (97 ∷ [])
        8
        4
        ((6 ∷ []) ∷ [])
      ≡ some (db', some session))
    × (get_user db' (97 ∷ []) ≡ some user')
    × (user'.session_id ≡ session.new_session_id)
    × (user'.password_hash ≡ 1 ∷ [])
    × (session.old_session_id ≡ session.new_session_id)
unfolding create_account is_username_taken create_user get_user find_user update_user
create_session-find_user_example =
    create_session-find_user with_ann ann (97 ∷ []) 8 4 ((6 ∷ []) ∷ []) refl refl refl

-- An invite for "c" beside the one for "b".
abbrev invited : Database
invited = record no_accounts {
  invites =
      first_invite
      ∷ record {
        invite_id = 8 ∷ [];
        invited_username = 99 ∷ [];
        invites_admin = false;
        accepted = false;
      }
      ∷ [];
}

invited_created :
    create_invite no_accounts (99 ∷ []) false ((7 ∷ []) ∷ (8 ∷ []) ∷ [])
    ≡ some (invited, some (8 ∷ []))
unfolding create_invite
invited_created = refl

invite_once_example :
    (validate_invite invited (8 ∷ []) ≡ (true, 99 ∷ []))
    × (account : Database) × (create_account plain invited
          (99 ∷ [])
          (5 ∷ [])
          none
          (some (8 ∷ []))
          1
          (2 ∷ [])
          3
        ≡ (account, registered))
    × (validate_invite account (8 ∷ []) ≡ (false, []))
    × (create_account plain account (100 ∷ []) (6 ∷ []) none (some (8 ∷ [])) 4 (1 ∷ []) 9
        ≡ (account, invite_invalid))
invite_once_example =
    invite_once plain no_accounts invited (99 ∷ []) (8 ∷ []) false ((7 ∷ []) ∷ (8 ∷ []) ∷ [])
      (5 ∷ []) (2 ∷ []) none 1 3 (100 ∷ []) (6 ∷ []) (1 ∷ []) none 4 9 invited_created
