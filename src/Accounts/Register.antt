-- ===== src/Accounts/Register.antt =====
-- Database.cpp, `CreateAccount`: a user registers, with an invite or without one.
use collab_vm_server.Base.{
  ℕ, Bool, true, false, not, ◌&&◌, ◌||◌, List, [], ◌∷◌, map, Option, none, some, if◌then◌else◌,
  same_text,
}
use collab_vm_server.Accounts.{
  User, UserInvite, Database, create_user, new_user, RegisterAccountError, registered,
  username_taken, invite_invalid,
}

abbrev pub has_name : List ℕ → List (List ℕ) → Bool
has_name username [] = false
has_name username (n ∷ ns) = same_text n username || has_name username ns

abbrev pub user_name : User → List ℕ
user_name u = u.username

abbrev pub invited_name : UserInvite → List ℕ
invited_name i = i.invited_username

unfoldable pub is_username_taken : Database → List ℕ → Bool
is_username_taken db username =
    has_name username (map user_name db.users)
    || has_name username db.unavailable_usernames
    || has_name username (map invited_name db.invites)

-- The open invite with the id, if there is one.
unfoldable pub open_invite : List UserInvite → List ℕ → Option UserInvite
open_invite [] id = none
open_invite (i ∷ is) id =
    if same_text i.invite_id id && not i.accepted then some i else open_invite is id

-- `UPDATE UserInvite SET Accepted = 1 WHERE Id = ? AND Accepted = 0`.
unfoldable pub accept_invite : List UserInvite → List ℕ → List UserInvite
accept_invite [] id = []
accept_invite (i ∷ is) id =
    (if same_text i.invite_id id then record i { accepted = true } else i) ∷ accept_invite is id

abbrev pub no_users : List User → Bool
no_users [] = true
no_users (u ∷ us) = false

abbrev pub key_of : Option (List ℕ) → List ℕ
key_of none = []
key_of (some key) = key

module _ (hash_password : List ℕ → List ℕ → List ℕ) where
  -- The account with a new salt and the present time.
  unfoldable pub create_account :
      Database
      → (username password : List ℕ) → (totp_key invite_id : Option (List ℕ)) → (ip : ℕ)
      → (salt : List ℕ) → (now : ℕ) → Database × RegisterAccountError
  unfolding open_invite accept_invite is_username_taken
  create_account db username password totp_key invite_id ip salt now =
      let user : Bool → User =
        new_user hash_password username password salt (key_of totp_key) ip now in
      elim invite_id [
        | none ↦
            if is_username_taken db username
            then (db, username_taken)
            else (create_user db (user (no_users db.users)), registered)
        | some id ↦ elim (open_invite db.invites id) [
          | none ↦ (db, invite_invalid)
          | some i ↦ (
            create_user (record db { invites = accept_invite db.invites id })
                (user i.invites_admin),
            registered,
          )
        ]
      ]
