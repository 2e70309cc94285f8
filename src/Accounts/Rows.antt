-- ===== src/Accounts/Rows.antt =====
-- Database.cpp: the row that a name finds, after an insertion and after an update.
use collab_vm_server.Base.{
  ℕ, ◌≡◌, refl, ap, ◌∙◌, ◌≢◌, ◌⊎◌, inl, inr, true, false, List, [], ◌∷◌, ◌++◌, none, some, ◌==◌,
  length, arith, ==_refl, ==→≡, Bool-cases, Option-cases, same_text, same_text_refl,
}
use collab_vm_server.Accounts.{User, find_user, replace_row, equal}

pub equal_refl : (t : List ℕ) → equal t t ≡ some true
equal_refl [] = refl
equal_refl (c ∷ t) = ground (arith, equal_refl t, ==_refl c)

pub equal_differs : (s t : List ℕ) → length s ≡ length t → s ≢ t → equal s t ≡ some false
equal_differs [] [] l h = absurd (h refl)
equal_differs [] (d ∷ t) l h = absurd (ground arith)
equal_differs (c ∷ s) [] l h = absurd (ground arith)
equal_differs (c ∷ s) (d ∷ t) l h = elim (Bool-cases (c == d)) [
  | inl e ↦
      ground (arith, e, equal_differs s t (ground arith) (λ q. h (ground (arith, q, ==→≡ c d e))))
  | inr e ↦ ground (arith, e)
]

pub find_user-last : (us : List User) (u : User) → find_user (us ++ u ∷ []) u.username ≡ some u
unfolding find_user
find_user-last [] u = ground (arith, same_text_refl u.username)
find_user-last (v ∷ us) u = rw (find_user-last us u) refl

-- A name that no row has is afterwards the replaced row's or nobody's.
find_user-replaced :
    (us : List User) (v : User) (name : List ℕ)
    → find_user us name ≡ none
    → (find_user (replace_row v us) name ≡ none) ⊎ (find_user (replace_row v us) name ≡ some v)
unfolding find_user replace_row
find_user-replaced [] v name h = inl refl
find_user-replaced (w ∷ us) v name h = elim (Option-cases (find_user us name)) [
  | inl e ↦ elim (find_user-replaced us v name e) [
    | inl f ↦ elim (Bool-cases (w.id == v.id)) [
      | inl same ↦ elim (Bool-cases (same_text v.username name)) [
        | inl yes_name ↦ inr (rw (f, same, yes_name) refl)
        | inr no_name ↦ inl (rw (f, same, no_name) refl)
      ]
      | inr other ↦ inl (ground (arith, f, other, e))
    ]
    | inr f ↦ inr (ground (arith, f))
  ]
  | inr (x, e) ↦ absurd (ground (arith, e))
]

pub find_user-replace_row :
    (us : List User) (u v : User) (name : List ℕ)
    → find_user us name ≡ some u
    → v.id ≡ u.id
    → same_text v.username name ≡ true
    → find_user (replace_row v us) name ≡ some v
unfolding find_user replace_row
find_user-replace_row [] u v name h i n = absurd (ground arith)
find_user-replace_row (w ∷ us) u v name h i n = elim (Option-cases (find_user us name)) [
  | inl e ↦
      let head : (w.id == v.id) ≡ true = ground (arith, e, ==_refl v.id) in
      elim (find_user-replaced us v name e) [ inl f ↦ rw (f, head, n) refl | inr f ↦ rw f refl ]
  | inr (x, e) ↦
      let same : x ≡ u = ground (arith, e) in
      rw (find_user-replace_row us u v name (e ∙ ap some same) i n) refl
]

pub find_user-named :
    (us : List User) (u : User) (name : List ℕ)
    → find_user us name ≡ some u
    → same_text u.username name ≡ true
unfolding find_user
find_user-named [] u name h = absurd (ground arith)
find_user-named (w ∷ us) u name h = ground (arith, find_user-named us u name)
