-- ===== src/Accounts/Login.antt =====
-- Database.cpp: who can log in after an account is created, a password is changed or a session begins.
use collab_vm_server.Base.{
  ℕ, ◌+◌, ◌≡◌, refl, ap, ◌∙◌, ◌≢◌, inl, inr, true, false, List, [], ◌∷◌, ◌++◌, Option, none, some,
  length, arith, Option-cases,
}
use collab_vm_server.Accounts.{
  User, Database, find_user, get_user, update_user, replace_row, create_user, new_user, LoginResult,
  success, invalid_password, two_factor_required, login, change_password, registered,
}
use collab_vm_server.Accounts.Register.{create_account, key_of, open_invite, no_users}
use collab_vm_server.Accounts.Rows.{
  equal_refl, equal_differs, find_user-last, find_user-replace_row, find_user-named,
}

abbrev pub accepted_login : List ℕ → LoginResult × List ℕ
accepted_login [] = (success, [])
accepted_login (k ∷ key) = (two_factor_required, k ∷ key)

module _ (hash_password : List ℕ → List ℕ → List ℕ) where
  created :
      (db db' : Database) (username password salt : List ℕ) (totp_key invite_id : Option (List ℕ))
      (ip now : ℕ)
      → create_account hash_password db username password totp_key invite_id ip salt now
        ≡ (db', registered)
      → (user : User) × (get_user db' username ≡ some user)
        × (user.password_hash ≡ hash_password password salt)
        × (user.password_salt ≡ salt)
        × (user.totp_key ≡ key_of totp_key)
        × (user.is_disabled ≡ false)
  unfolding create_account create_user get_user
  created db db' username password salt totp_key none ip now h =
      let user =
        record (new_user hash_password username password salt (key_of totp_key) ip now
          (no_users db.users)) { id = db.last_id + 1 } in
      let rows : db'.users ≡ db.users ++ user ∷ [] = ground (arith, h) in
      (
        user,
        ap (λ r. find_user r username) rows ∙ find_user-last db.users user,
        refl,
        refl,
        refl,
        refl,
      )
  created db db' username password salt totp_key (some invite) ip now h =
      elim (Option-cases (open_invite db.invites invite)) [
        | inl e ↦ absurd (ground (arith, e, h))
        | inr (i, e) ↦
            let user =
              record (new_user hash_password username password salt (key_of totp_key) ip now
                i.invites_admin) { id = db.last_id + 1 } in
            let rows : db'.users ≡ db.users ++ user ∷ [] = ground (arith, e, h) in
            (
              user,
              ap (λ r. find_user r username) rows ∙ find_user-last db.users user,
              refl,
              refl,
              refl,
              refl,
            )
      ]

  -- A password whose hash is another one of the same length is refused.
  pub login-wrong_password :
      (db db' : Database) (username password other salt : List ℕ)
      (totp_key invite_id : Option (List ℕ)) (ip now : ℕ)
      → create_account hash_password db username password totp_key invite_id ip salt now
        ≡ (db', registered)
      → length (hash_password password salt) ≡ length (hash_password other salt)
      → hash_password password salt ≢ hash_password other salt
      → login hash_password db' username other ≡ some (invalid_password, [])
  unfolding login
  login-wrong_password db db' username password other salt totp_key invite_id ip now h l n =
      let (user, found, hash, s, key, open_account) =
        created db db' username password salt totp_key invite_id ip now h in
      ground (
        arith,
        found,
        hash,
        s,
        open_account,
        equal_differs (hash_password password salt) (hash_password other salt) l n,
      )

  -- After a change of the password a user who is not disabled logs in with the new one.
  pub login-change_password :
      (db db' : Database) (user : User) (username old_password new_password : List ℕ)
      → get_user db username ≡ some user
      → user.is_disabled ≡ false
      → change_password hash_password db username old_password new_password ≡ some (db', true)
      → login hash_password db' username new_password ≡ some (accepted_login user.totp_key)
  unfolding login change_password get_user update_user
  login-change_password db db' user username old_password new_password found open_account h =
      let changed = record user { password_hash = hash_password new_password user.password_salt } in
      let row : find_user (replace_row changed db.users) username ≡ some changed =
        find_user-replace_row db.users user changed username found refl
          (find_user-named db.users user username found) in
      let rows : db'.users ≡ replace_row changed db.users = ground (arith, h, found) in
      let found' : find_user db'.users username ≡ some changed =
        ap (λ r. find_user r username) rows ∙ row in
      ground
        (arith, found', open_account, equal_refl (hash_password new_password user.password_salt))
