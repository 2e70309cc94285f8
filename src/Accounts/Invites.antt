-- ===== src/Accounts/Invites.antt =====
-- Database.cpp: invites and reserved usernames. The column of an invite's username is unique, and an
-- invite for any username has the empty text there. The ids that are generated are an argument.
pub mod Once
use collab_vm_server.Base.{
  ℕ, ◌≡◌, ◌≢◌, refl, sym, ap, ◌∙◌, inl, inr, Bool, true, false, not, ◌&&◌, ◌||◌, List, [], ◌∷◌,
  ◌++◌, map, Option, none, some, ◌==◌, if◌then◌else◌, arith, Bool-cases, Option-cases, same_text,
}
use collab_vm_server.Accounts.{
  User, UserInvite, Database, is_null, create_user, new_user, RegisterAccountError, registered,
  invite_invalid,
}
use collab_vm_server.Accounts.Register.{
  has_name, user_name, invited_name, open_invite, accept_invite, create_account, key_of, no_users,
}

abbrev pub has_invite_id : List ℕ → List UserInvite → Bool
has_invite_id id [] = false
has_invite_id id (i ∷ is) = same_text i.invite_id id || has_invite_id id is

abbrev pub new_invite : (id username : List ℕ) → Bool → UserInvite
new_invite id username is_admin = record {
  invite_id = id;
  invited_username = username;
  invites_admin = is_admin;
  accepted = false;
}

-- The loop of the insertion: another id after a conflict of the ids, the end after one of the names.
unfoldable pub insert_invite :
    Database
    → (username : List ℕ) → Bool
    → (generated : List (List ℕ)) → Option (Database × Option (List ℕ))
insert_invite db username is_admin [] = none
insert_invite db username is_admin (id ∷ generated) =
    let again = insert_invite db username is_admin generated in
    if has_invite_id id db.invites
    then again
    else (if has_name username (map invited_name db.invites)
        then some (db, none)
        else some
            (record db { invites = db.invites ++ new_invite id username is_admin ∷ [] }, some id))

unfoldable pub create_invite :
    Database
    → (username : List ℕ) → Bool
    → (generated : List (List ℕ)) → Option (Database × Option (List ℕ))
unfolding insert_invite
create_invite db username is_admin generated =
    if not (is_null username) && has_name username (map user_name db.users)
    then some (db, none)
    else insert_invite db username is_admin generated

unfoldable pub change_invites : List UserInvite → (id username : List ℕ) → Bool → List UserInvite
change_invites [] id username is_admin = []
change_invites (i ∷ is) id username is_admin =
    (if same_text i.invite_id id
      then record i { invited_username = username; invites_admin = is_admin }
      else i)
    ∷ change_invites is id username is_admin

abbrev other_has_name : List UserInvite → (id username : List ℕ) → Bool
other_has_name [] id username = false
other_has_name (i ∷ is) id username =
    not (same_text i.invite_id id) && same_text i.invited_username username
    || other_has_name is id username

-- `none` is the exception of the unique usernames. The result is if a row was modified.
unfoldable pub update_invite : Database → (id username : List ℕ) → Bool → Option (Database × Bool)
unfolding change_invites
update_invite db id username is_admin =
    if has_invite_id id db.invites && other_has_name db.invites id username
    then none
    else some (
      record db { invites = change_invites db.invites id username is_admin },
      has_invite_id id db.invites,
    )

unfoldable pub without_invite : List UserInvite → List ℕ → List UserInvite
without_invite [] id = []
without_invite (i ∷ is) id =
    if same_text i.invite_id id then without_invite is id else i ∷ without_invite is id

unfoldable pub delete_invite : Database → (id : List ℕ) → Database × Bool
unfolding without_invite
delete_invite db id =
    (record db { invites = without_invite db.invites id }, has_invite_id id db.invites)

unfoldable pub validate_invite : Database → (id : List ℕ) → Bool × List ℕ
unfolding open_invite
validate_invite db id = elim (open_invite db.invites id) [
  | none ↦ (false, [])
  | some i ↦ (true, i.invited_username)
]

unfoldable pub create_reserved_username : Database → List ℕ → Database × Bool
create_reserved_username db username =
    if has_name username db.unavailable_usernames
    then (db, false)
    else (record db { unavailable_usernames = db.unavailable_usernames ++ username ∷ [] }, true)

abbrev without_name : List ℕ → List (List ℕ) → List (List ℕ)
without_name username [] = []
without_name username (n ∷ ns) =
    if same_text n username then without_name username ns else n ∷ without_name username ns

unfoldable pub delete_reserved_username : Database → List ℕ → Database × Bool
delete_reserved_username db username =
    (record db { unavailable_usernames = without_name username db.unavailable_usernames }, true)
