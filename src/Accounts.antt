-- ===== src/Accounts.antt =====
-- Database.cpp: the accounts of the registered users. A table is the list of its rows in the order in
-- which they were inserted, and a text or a blob is the list of its bytes. An empty blob is NULL, which is
-- equal to nothing. `none` as a result is undefined behaviour or that a loop took all of its input.
pub mod Register
pub mod Session
pub mod Invites
pub mod Entry
pub mod Rows
pub mod Login
pub mod Sessions
pub mod Tests
use collab_vm_server.Base.{
  ℕ, ◌+◌, Bool, true, false, not, ◌&&◌, ◌||◌, List, [], ◌∷◌, ◌++◌, map, Option, none, some, ◌==◌,
  if◌then◌else◌, same_text,
}

pub record User : Type 0 where
  pub id : ℕ
  pub username : List ℕ
  pub password_hash : List ℕ
  pub password_salt : List ℕ
  pub totp_key : List ℕ
  pub session_id : List ℕ
  pub registration_date : ℕ
  pub registration_ip_address : ℕ
  pub last_active_ip_address : ℕ
  pub last_login : ℕ
  pub last_failed_login : Option ℕ
  pub last_online : ℕ
  pub failed_logins : ℕ
  pub is_admin : Bool
  pub is_disabled : Bool

pub record UserInvite : Type 0 where
  pub invite_id : List ℕ
  pub invited_username : List ℕ
  pub invites_admin : Bool
  pub accepted : Bool

pub record Database : Type 0 where
  pub users : List User
  pub invites : List UserInvite
  pub unavailable_usernames : List (List ℕ)
  pub last_id : ℕ

-- `GetUser`: the last row of the table with the name.
unfoldable pub find_user : List User → List ℕ → Option User
find_user [] username = none
find_user (u ∷ us) username = elim (find_user us username) [
  | some v ↦ some v
  | none ↦ if same_text u.username username then some u else none
]

unfoldable pub get_user : Database → List ℕ → Option User
unfolding find_user
get_user db username = find_user db.users username

-- Does a row with another id have the session id? NULL is no session id.
unfoldable pub has_session : List User → (id : ℕ) → (session_id : List ℕ) → Bool
has_session [] id session_id = false
has_session (u ∷ us) id session_id =
    (not (u.id == id) && same_text u.session_id session_id) || has_session us id session_id

abbrev pub is_null : List ℕ → Bool
is_null [] = true
is_null (c ∷ cs) = false

-- The row whose id is that of the user.
unfoldable pub replace_row : User → List User → List User
replace_row user [] = []
replace_row user (u ∷ us) = (if u.id == user.id then user else u) ∷ replace_row user us

-- `none` is the exception of the unique session ids.
unfoldable pub update_user : Database → User → Option Database
unfolding has_session replace_row
update_user db user =
    if not (is_null user.session_id) && has_session db.users user.id user.session_id
    then none
    else some (record db { users = replace_row user db.users })

-- A new user has no session, so that no row is in conflict: no other column than the id is unique.
unfoldable pub create_user : Database → User → Database
create_user db user =
    let id = db.last_id + 1 in
    record db { users = db.users ++ record user { id = id } ∷ []; last_id = id }

pub data LoginResult : Type 0 where
  success invalid_username account_disabled invalid_password two_factor_required : LoginResult

pub data RegisterAccountError : Type 0 where
  registered username_taken invite_invalid : RegisterAccountError

-- `std::equal` reads as many bytes of the second range as the first one has.
abbrev pub equal : List ℕ → List ℕ → Option Bool
equal [] bs = some true
equal (a ∷ xs) [] = none
equal (a ∷ xs) (b ∷ bs) = if a == b then equal xs bs else some false

-- `argon2i_hash_raw` with the parameters of `HashPassword`, for a password and a salt.
module _ (hash_password : List ℕ → List ℕ → List ℕ) where
  abbrev pub login_with : User → Option Bool → Option (LoginResult × List ℕ)
  login_with user none = none
  login_with user (some false) = some (invalid_password, [])
  login_with user (some true) = elim user.totp_key [
    | [] ↦ some (success, [])
    | k ∷ key ↦ some (two_factor_required, k ∷ key)
  ]

  -- The result and the key of the one-time passwords, if there is one.
  unfoldable pub login : Database → (username password : List ℕ) → Option (LoginResult × List ℕ)
  unfolding get_user
  login db username password = elim (get_user db username) [
    | none ↦ some (invalid_username, [])
    | some user ↦
        if user.is_disabled
        then some (account_disabled, [])
        else login_with user (equal user.password_hash (hash_password password user.password_salt))
  ]

  abbrev pub change_with : Database → User → List ℕ → Option Bool → Option (Database × Bool)
  change_with db user new_password none = none
  change_with db user new_password (some false) = some (db, false)
  change_with db user new_password (some true) =
      elim (update_user db
        (record user { password_hash = hash_password new_password user.password_salt })) [
          | none ↦ none
          | some db' ↦ some (db', true)
        ]

  unfoldable pub change_password :
      Database → (username old_password new_password : List ℕ) → Option (Database × Bool)
  unfolding get_user update_user
  change_password db username old_password new_password = elim (get_user db username) [
    | none ↦ some (db, false)
    | some user ↦
        change_with db user new_password
          (equal user.password_hash (hash_password old_password user.password_salt))
  ]

  -- The user that `CreateAccount` inserts, at the time `now`.
  abbrev pub new_user :
      (username password salt totp_key : List ℕ) (ip now : ℕ) (is_admin : Bool) → User
  new_user username password salt totp_key ip now is_admin = record {
    id = 0;
    username = username;
    password_hash = hash_password password salt;
    password_salt = salt;
    totp_key = totp_key;
    session_id = [];
    registration_date = now;
    registration_ip_address = ip;
    last_active_ip_address = ip;
    last_login = now;
    last_failed_login = none;
    last_online = now;
    failed_logins = 0;
    is_admin = is_admin;
    is_disabled = false;
  }
