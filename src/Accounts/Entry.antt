-- ===== src/Accounts/Entry.antt =====
-- CollabVmServer.hpp: the account part of the messages `ACCOUNT_REGISTRATION_REQUEST` and
-- `LOGIN_REQUEST`, behind the captcha. The answer to the client is the result; `none` is undefined
-- behaviour or that a loop took all of its input.
use collab_vm_server.Base.{
  ℕ, ◌≡◌, ◌≢◌, refl, Bool, true, false, not, ◌||◌, List, [], ◌∷◌, Option, none, some, ltb, length,
  ◌==◌, if◌then◌else◌, arith,
}
use collab_vm_server.Client.{Registration}
use collab_vm_server.Accounts.{
  Database, is_null, LoginResult, success, RegisterAccountError, registered, login,
}
use collab_vm_server.Accounts.Register.{create_account}
use collab_vm_server.Accounts.Session.{create_session}
use collab_vm_server.Accounts.Invites.{validate_invite}

pub data RegistrationReply : Type 0 where
  invite_refused username_invalid password_invalid totp_error : RegistrationReply
  not_created : RegisterAccountError → RegistrationReply
  -- A session is created for the username.
  created_for : (username : List ℕ) → RegistrationReply
  no_reply : RegistrationReply

abbrev max_password_len : ℕ
max_password_len = 160

abbrev totp_key_len : ℕ
totp_key_len = 20

-- `b ^ n` on integers, tested for 0.
unfoldable pub xor_size : Bool → ℕ → Bool
xor_size true n = not (n == 1)
xor_size false n = not (n == 0)

-- The username of the account, or the reply that ends the request.
pub data Named : Type 0 where
  named : (username : List ℕ) → Named
  refused : RegistrationReply → Named

unfoldable pub choose_username :
    (validate_username : List ℕ → Bool)
    → (allow_registration : Bool) → Database
    → Registration
    → Named
unfolding validate_invite xor_size
choose_username validate_username allow_registration db r =
    if not (length r.invite_id == 0)
    then (let (is_valid, valid_username) = validate_invite db r.invite_id in
        if not is_valid || xor_size (is_null valid_username) (length r.requested_username)
        then refused invite_refused
        else named valid_username)
    else if allow_registration
    then (if validate_username r.requested_username
        then named r.requested_username
        else refused username_invalid)
    else refused no_reply

abbrev is_bad_token : Option (List ℕ) → Bool
is_bad_token none = false
is_bad_token (some token) = not (length token == totp_key_len)

abbrev invite_of : List ℕ → Option (List ℕ)
invite_of [] = none
invite_of (b ∷ bs) = some (b ∷ bs)

abbrev replied : List ℕ → Database × RegisterAccountError → Database × RegistrationReply
replied username (db, registered) = (db, created_for username)
replied username (db, error) = (db, not_created error)

module _ (hash_password : List ℕ → List ℕ → List ℕ) where
  unfoldable pub register_as :
      Database
      → Registration
      → (username : List ℕ) → (ip : ℕ) → (salt : List ℕ) → (now : ℕ) → Database × RegistrationReply
  unfolding create_account
  register_as db r username ip salt now =
      if ltb max_password_len (length r.password)
      then (db, password_invalid)
      else (if is_bad_token r.two_factor_token
          then (db, totp_error)
          else replied username (
              create_account hash_password db username r.password r.two_factor_token
                (invite_of r.invite_id) ip salt now))

  unfoldable pub register :
      (validate_username : List ℕ → Bool)
      → (allow_registration : Bool) → Database
      → Registration
      → (ip : ℕ) → (salt : List ℕ) → (now : ℕ) → Database × RegistrationReply
  unfolding choose_username register_as
  register validate_username allow_registration db r ip salt now =
      elim (choose_username validate_username allow_registration db r) [
        | refused reply ↦ (db, reply)
        | named username ↦ register_as db r username ip salt now
      ]

  pub data LoginReply : Type 0 where
    -- The socket is logged in as the user.
    session_created : (username : List ℕ) → (is_admin : Bool) → (session_id : List ℕ) → LoginReply
    login_result : LoginResult → LoginReply
    no_user : LoginReply

  unfoldable pub log_in_as :
      Database
      → (username : List ℕ) → (ip now : ℕ) → (generated : List (List ℕ))
      → Option (Database × LoginReply)
  unfolding create_session
  log_in_as db username ip now generated = elim (create_session db username ip now generated) [
    | none ↦ none
    | some (db', none) ↦ some (db', no_user)
    | some (db', some s) ↦ some (db', session_created s.username s.is_admin s.new_session_id)
  ]

  -- The key of the one-time passwords goes to the socket.
  unfoldable pub log_in :
      Database
      → (username password : List ℕ) → (ip now : ℕ) → (generated : List (List ℕ))
      → Option (Database × LoginReply × List ℕ)
  unfolding login log_in_as
  log_in db username password ip now generated = elim (login hash_password db username password) [
    | none ↦ none
    | some (success, key) ↦ elim (log_in_as db username ip now generated) [
      | none ↦ none
      | some (db', reply) ↦ some (db', reply, [])
    ]
    | some (result, key) ↦ some (db, login_result result, key)
  ]

  choose-refused :
      (validate_username : List ℕ → Bool) (allow : Bool) (db : Database) (r : Registration)
      → length r.invite_id ≢ 0
      → validate_invite db r.invite_id ≡ (true, [])
      → length r.requested_username ≢ 1
      → choose_username validate_username allow db r ≡ refused invite_refused
  unfolding choose_username xor_size
  choose-refused validate_username allow db r i v n = ground (arith, i, v, n)

  -- With an invite for any username, which is valid, a request is refused unless the requested name has
  -- just one character.
  pub nameless_invite_refused :
      (validate_username : List ℕ → Bool) (allow : Bool) (db : Database) (r : Registration) (ip : ℕ)
      (salt : List ℕ) (now : ℕ)
      → length r.invite_id ≢ 0
      → validate_invite db r.invite_id ≡ (true, [])
      → length r.requested_username ≢ 1
      → register validate_username allow db r ip salt now ≡ (db, invite_refused)
  unfolding register
  nameless_invite_refused validate_username allow db r ip salt now i v n =
      rw (choose-refused validate_username allow db r i v n, register) refl
