-- ===== src/Accounts/Session.antt =====
-- Database.cpp, `CreateSession`: a user logs in.
use collab_vm_server.Base.{ℕ, Bool, List, [], ◌∷◌, Option, none, some, if◌then◌else◌}
use collab_vm_server.Accounts.{User, Database, get_user, update_user}

pub record Session : Type 0 where
  pub username : List ℕ
  pub is_admin : Bool
  pub old_session_id : List ℕ
  pub new_session_id : List ℕ

abbrev pub logged_in : User → (ip now : ℕ) → (session_id : List ℕ) → User
logged_in user ip now session_id = record user {
  last_login = now;
  last_active_ip_address = ip;
  session_id = session_id;
}

-- The loop, for the session ids that are generated. Without a user the tuple that is returned is empty.
unfoldable pub create_session :
    Database
    → (username : List ℕ) → (ip now : ℕ) → (generated : List (List ℕ))
    → Option (Database × Option Session)
create_session db username ip now [] = none
create_session db username ip now (session_id ∷ generated) =
    let again = create_session db username ip now generated in
    elim (get_user db username) [
      | none ↦ some (db, none)
      | some user ↦
          if user.is_disabled
          then some (db, none)
          else elim (update_user db (logged_in user ip now session_id)) [
            | none ↦ again
            | some db' ↦ some (
              db',
              some (record {
                username = user.username;
                is_admin = user.is_admin;
                old_session_id = session_id;
                new_session_id = session_id;
              }),
            )
          ]
    ]
