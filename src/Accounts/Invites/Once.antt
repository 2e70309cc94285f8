-- ===== src/Accounts/Invites/Once.antt =====
-- An invite from its creation to the account that is registered with it.
use collab_vm_server.Base.{
  ℕ, ◌≡◌, refl, ap, ◌∙◌, Bool, true, false, List, [], ◌∷◌, ◌++◌, map, Option, none, some, arith,
  same_text_refl,
}
use collab_vm_server.Accounts.{
  User, UserInvite, Database, create_user, new_user, registered, invite_invalid,
}
use collab_vm_server.Accounts.Register.{
  has_name, invited_name, open_invite, accept_invite, create_account, key_of,
}
use collab_vm_server.Accounts.Invites.{
  has_invite_id, new_invite, insert_invite, create_invite, validate_invite,
}

open_invite-append :
    (is : List UserInvite) (id username : List ℕ) (is_admin : Bool)
    → has_invite_id id is ≡ false
    → open_invite (is ++ new_invite id username is_admin ∷ []) id
      ≡ some (new_invite id username is_admin)
unfolding open_invite
open_invite-append [] id username is_admin h = ground (arith, same_text_refl id)
open_invite-append (i ∷ is) id username is_admin h =
    ground (arith, h, open_invite-append is id username is_admin)

-- The rows with the id are accepted after an account was created with it.
open_invite-accept :
    (is : List UserInvite) (id : List ℕ) → open_invite (accept_invite is id) id ≡ none
unfolding open_invite accept_invite
open_invite-accept [] id = refl
open_invite-accept (i ∷ is) id = ground (arith, open_invite-accept is id)

insert_invite-valid :
    (db db' : Database) (username id : List ℕ) (is_admin : Bool) (generated : List (List ℕ))
    → insert_invite db username is_admin generated ≡ some (db', some id)
    → open_invite db'.invites id ≡ some (new_invite id username is_admin)
unfolding insert_invite
insert_invite-valid db db' username id is_admin [] h = absurd (ground (arith, h))
insert_invite-valid db db' username id is_admin (g ∷ generated) h = ground (
  arith,
  h,
  insert_invite-valid db db' username id is_admin generated,
  open_invite-append db.invites g username is_admin,
)

create_invite-valid :
    (db db' : Database) (username id : List ℕ) (is_admin : Bool) (generated : List (List ℕ))
    → create_invite db username is_admin generated ≡ some (db', some id)
    → open_invite db'.invites id ≡ some (new_invite id username is_admin)
unfolding create_invite
create_invite-valid db db' username id is_admin generated h =
    ground (arith, h, insert_invite-valid db db' username id is_admin generated)

validate_open :
    (db : Database) (id : List ℕ) (o : Option UserInvite)
    → open_invite db.invites id ≡ o
    → validate_invite db id ≡ (elim o [ none ↦ (false, []) | some i ↦ (true, i.invited_username) ])
unfolding validate_invite
validate_open db id o h = rw (h, validate_invite) refl

module _ (hash_password : List ℕ → List ℕ → List ℕ) where
  create_account-open :
      (db : Database) (i : UserInvite) (username password id salt : List ℕ)
      (totp_key : Option (List ℕ)) (ip now : ℕ)
      → open_invite db.invites id ≡ some i
      → create_account hash_password db username password totp_key (some id) ip salt now ≡ (
        create_user
            (record db { invites = accept_invite db.invites id })
            (new_user hash_password username password salt
              (key_of totp_key)
              ip
              now
              i.invites_admin),
        registered,
      )
  unfolding create_account
  create_account-open db i username password id salt totp_key ip now h = rw (h, create_account) refl

  create_account-closed :
      (db : Database) (username password id salt : List ℕ) (totp_key : Option (List ℕ)) (ip now : ℕ)
      → open_invite db.invites id ≡ none
      → create_account hash_password db username password totp_key (some id) ip salt now
        ≡ (db, invite_invalid)
  unfolding create_account
  create_account-closed db username password id salt totp_key ip now h = rw (h, create_account) refl

  create_user-invites : (db : Database) (u : User) → (create_user db u).invites ≡ db.invites
  unfolding create_user
  create_user-invites db u = refl

  -- An invite that was created is valid and names its username. One account can be registered with it, and
  -- then it is not valid any more, and no registration with it, whatever username, password and key it
  -- has and whenever it comes, makes a second account.
  pub invite_once :
      (db db' : Database) (username id : List ℕ) (is_admin : Bool) (generated : List (List ℕ))
      (password salt : List ℕ) (totp_key : Option (List ℕ)) (ip now : ℕ)
      (name secret salt' : List ℕ) (key : Option (List ℕ)) (ip' later : ℕ)
      → create_invite db username is_admin generated ≡ some (db', some id)
      → (validate_invite db' id ≡ (true, username))
        × (account : Database) × (create_account hash_password db' username password totp_key
              (some id)
              ip
              salt
              now
            ≡ (account, registered))
        × (validate_invite account id ≡ (false, []))
        × (create_account hash_password account name secret key (some id) ip' salt' later
            ≡ (account, invite_invalid))
  invite_once db db' username id is_admin generated password salt totp_key ip now name secret salt'
        key ip' later h =
      let i = new_invite id username is_admin in
      let valid = create_invite-valid db db' username id is_admin generated h in
      let user = new_user hash_password username password salt (key_of totp_key) ip now is_admin in
      let accepted = record db' { invites = accept_invite db'.invites id } in
      let account = create_user accepted user in
      let used : open_invite account.invites id ≡ none =
        ap (λ is. open_invite is id) (create_user-invites accepted user)
        ∙ open_invite-accept db'.invites id in
      (
        validate_open db' id (some i) valid,
        account,
        create_account-open db' i username password id salt totp_key ip now valid,
        validate_open account id none used,
        create_account-closed account name secret id salt' key ip' later used,
      )

-- As soon as there is an invite for any username, which has the empty text for one, no second one can be
-- created; the id that is generated is new.
pub create_invite-nameless :
    (db : Database) (is_admin : Bool) (id : List ℕ) (generated : List (List ℕ))
    → has_name [] (map invited_name db.invites) ≡ true
    → has_invite_id id db.invites ≡ false
    → create_invite db [] is_admin (id ∷ generated) ≡ some (db, none)
unfolding create_invite insert_invite
create_invite-nameless db is_admin id generated h new = ground (arith, h, new)
