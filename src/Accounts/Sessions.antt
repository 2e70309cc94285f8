-- ===== src/Accounts/Sessions.antt =====
-- Database.cpp, `CreateSession`: the session of a user who logs in.
use collab_vm_server.Base.{
  ℕ, ◌≡◌, refl, ap, ◌∙◌, inl, inr, Bool, true, false, not, ◌||◌, List, [], ◌∷◌, some, Option-cases,
  arith,
}
use collab_vm_server.Accounts.{
  User, Database, find_user, get_user, update_user, replace_row, has_session,
}
use collab_vm_server.Accounts.Session.{Session, create_session, logged_in}
use collab_vm_server.Accounts.Rows.{find_user-replace_row, find_user-named}

-- Is one of the session ids no other row's?
abbrev pub any_free : List User → (id : ℕ) → List (List ℕ) → Bool
any_free us id [] = false
any_free us id (g ∷ gs) = not (has_session us id g) || any_free us id gs

-- Once a session id is generated that no other user has, a user who is not disabled has a session: the id
-- that is returned is the one that the row of the user has then. It is returned as the old id too.
pub create_session-find_user :
    (db : Database) (user : User) (username : List ℕ) (ip now : ℕ) (generated : List (List ℕ))
    → get_user db username ≡ some user
    → user.is_disabled ≡ false
    → any_free db.users user.id generated ≡ true
    → (db' : Database) × (session : Session) × (user' : User) × (create_session db username ip now
          generated
        ≡ some (db', some session))
      × (get_user db' username ≡ some user')
      × (user'.session_id ≡ session.new_session_id)
      × (user'.password_hash ≡ user.password_hash)
      × (session.old_session_id ≡ session.new_session_id)
unfolding create_session update_user get_user
create_session-find_user db user username ip now [] found on free = absurd (ground arith)
create_session-find_user db user username ip now (g ∷ gs) found on free =
    elim (Option-cases (update_user db (logged_in user ip now g))) [
      | inl e ↦
          let later : any_free db.users user.id gs ≡ true = ground (arith, e, free) in
          let (db', session, user', ran, row, id, hash, old) =
            create_session-find_user db user username ip now gs found on later in
          (db', session, user', ground (arith, found, on, e, ran), row, id, hash, old)
      | inr (db', e) ↦
          let user' = logged_in user ip now g in
          let session : Session = record {
            username = user.username;
            is_admin = user.is_admin;
            old_session_id = g;
            new_session_id = g;
          } in
          let row : find_user (replace_row user' db.users) username ≡ some user' =
            find_user-replace_row db.users user user' username found refl
              (find_user-named db.users user username found) in
          let rows : db'.users ≡ replace_row user' db.users = ground (arith, e) in
          (
            db',
            session,
            user',
            ground (arith, found, on, e),
            ap (λ r. find_user r username) rows ∙ row,
            refl,
            refl,
            refl,
          )
    ]
