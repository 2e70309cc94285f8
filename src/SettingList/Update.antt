-- ===== src/SettingList/Update.antt =====
-- Database/Database.h: what `UpdateList` puts at each place.
use collab_vm_server.Base.{
  ℕ, zero, suc, ◌+◌, ◌<◌, ◌≡◌, refl, sym, ap, ◌∙◌, List, [], ◌∷◌, map, some, length, get_elem?, set,
  length-set, get_elem?-set_self, get_elem?-set_ne, arith,
}
use collab_vm_server.SettingList.{updated, update_list}

module _ {V : Type 0} (which : V → ℕ) (cleared : ℕ → V) where
  -- The settings stand at the places of their numbers, from `k` on.
  abbrev pub IndexedFrom : ℕ → List V → Type 0
  IndexedFrom k [] = Unit {0}
  IndexedFrom k (v ∷ vs) = (which v ≡ k) × IndexedFrom (suc k) vs

  update_from :
      (k : ℕ) (old new updates : List V)
      → IndexedFrom k old
      → k + length old ≡ length new
      → (r : List V) × (update_list which cleared old new updates ≡ some r)
        × (length r ≡ length new)
        × ((i : ℕ) → i < k → get_elem? r i ≡ get_elem? new i)
        × ((j : ℕ) (v : V)
            → get_elem? old j ≡ some v
            → get_elem? r (k + j) ≡ some (updated which cleared updates v))
  unfolding update_list
  update_from k [] new updates h l = (new, refl, refl, λ i p. refl, λ j v e. absurd (ground arith))
  update_from k (w ∷ old) new updates (at, h) l =
      let c = updated which cleared updates w in
      let (r, ran, len, below, here) =
        update_from (suc k) old (set new (which w) c) updates h
          (omega (arith, l, length-set new (which w) c)) in
      let first : get_elem? r k ≡ some c =
        below k (omega arith)
        ∙ ap (get_elem? (set new (which w) c)) (sym at)
        ∙ get_elem?-set_self new (which w) c (omega (arith, at, l)) in
      (
        r,
        ground (arith, ran, at, l),
        len ∙ length-set new (which w) c,
        λ i p.
            below i (omega arith)
            ∙ get_elem?-set_ne new (which w) i c (λ e. omega (arith, e, at, p)),
        λ j v e. by_place r c j v first here refl e,
      )
    where
      by_place :
          (r : List V) (c : V) (j : ℕ) (v : V)
          → get_elem? r k ≡ some c
          → ((j : ℕ) (v : V)
              → get_elem? old j ≡ some v
              → get_elem? r (suc k + j) ≡ some (updated which cleared updates v))
          → c ≡ updated which cleared updates w
          → get_elem? (w ∷ old) j ≡ some v
          → get_elem? r (k + j) ≡ some (updated which cleared updates v)
      by_place r c zero v first here d e =
          let same : w ≡ v = ground (arith, e) in
          ap (get_elem? r) (omega arith)
          ∙ first
          ∙ ap some (d ∙ ap (updated which cleared updates) same)
      by_place r c (suc j) v first here d e = ap (get_elem? r) (omega arith) ∙ here j v e

  same_as_map :
      (f : V → V) (r old : List V)
      → length r ≡ length old
      → ((j : ℕ) (v : V) → get_elem? old j ≡ some v → get_elem? r j ≡ some (f v))
      → r ≡ map f old
  same_as_map f [] [] l h = refl
  same_as_map f [] (v ∷ old) l h = absurd (omega (arith, l))
  same_as_map f (x ∷ r) [] l h = absurd (omega (arith, l))
  same_as_map f (x ∷ r) (v ∷ old) l h =
      ground (arith, h zero v refl, same_as_map f r old (omega (arith, l)) (λ j w e. h (suc j) w e))

  -- Of a list whose settings stand at their numbers, the new list has every setting at the same place, with
  -- the value of the first update of that setting where there is one and the old value otherwise, whatever
  -- the new list of the same length had before.
  pub update_list-updated :
      (old new updates : List V)
      → IndexedFrom 0 old
      → length old ≡ length new
      → update_list which cleared old new updates ≡ some (map (updated which cleared updates) old)
  update_list-updated old new updates h l =
      let (r, ran, len, below, here) = update_from 0 old new updates h (omega (arith, l)) in
      ran
      ∙ ap some (
          same_as_map (updated which cleared updates) r old (len ∙ sym l)
            (λ j v e. ap (get_elem? r) (omega arith) ∙ here j v e))
