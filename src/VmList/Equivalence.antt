-- ===== src/VmList/Equivalence.antt =====
-- `ResizableList` against plain operations on lists.
use collab_vm_server.Base.{
  ℕ, suc, ◌+◌, ◌-◌, ◌≡◌, refl, sym, ap, ◌∙◌, Bool, true, List, [], ◌∷◌, ◌++◌, map, some, length,
  set, replicate, ltb, if◌then◌else◌, arith, append-nil, append_assoc, length-append, lt→ltb,
}
use native.Mathlib.Nat.{zero-add}
use collab_vm_server.VmList.Resizable.{
  set_element, copy_elements, copy_without, copy_updated, reset, add_blank, add, remove_first,
  update_element, size_without,
}

module _ {ℓ} {V : Type ℓ} where
  abbrev pub replaced : (V → Bool) → V → V → V
  replaced predicate new_element v = if predicate v then new_element else v

  -- A list without the elements that pass a test.
  abbrev pub without : (V → Bool) → List V → List V
  without predicate [] = []
  without predicate (v ∷ vs) =
      if predicate v then without predicate vs else v ∷ without predicate vs

  abbrev pub matches : (V → Bool) → List V → ℕ
  matches predicate [] = 0
  matches predicate (v ∷ vs) = (if predicate v then 1 else 0) + matches predicate vs

  set-append :
      (done rest : List V) (w v : V) → set (done ++ w ∷ rest) (length done) v ≡ done ++ v ∷ rest
  set-append [] rest w v = refl
  set-append (x ∷ done) rest w v = ap (λ l. x ∷ l) (set-append done rest w v)

  set_element-append :
      (done rest : List V) (w v : V)
      → set_element (done ++ w ∷ rest) (length done) v ≡ some (done ++ v ∷ rest)
  set_element-append done rest w v =
      let inside : ltb (length done) (length (done ++ w ∷ rest)) ≡ true =
        lt→ltb _ _ (omega (arith, length-append done (w ∷ rest))) in
      rw inside (ap some (set-append done rest w v))

  length-snoc : (done : List V) (v : V) → length (done ++ v ∷ []) ≡ suc (length done)
  length-snoc done v = omega (arith, length-append done (v ∷ []))

  snoc-append : (done rest : List V) (v : V) → done ++ v ∷ [] ++ rest ≡ done ++ v ∷ rest
  snoc-append done rest v = append_assoc done (v ∷ []) rest

  copy_elements-cons :
      (v : V) (vs : List V) (i : ℕ) (new new' : List V)
      → set_element new i v ≡ some new'
      → copy_elements (v ∷ vs) i new ≡ copy_elements vs (suc i) new'
  unfolding copy_elements
  copy_elements-cons v vs i new new' h = rw (h, copy_elements) refl

  -- The elements behind `done` are copied into the blanks in front of `k` others.
  copy_elements-append :
      (blank : V) (vs done : List V) (k : ℕ)
      → copy_elements vs (length done) (done ++ replicate (length vs + k) blank)
        ≡ some (done ++ vs ++ replicate k blank)
  copy_elements-append blank [] done k =
      unfold copy_elements in
      ap (λ n. some (done ++ replicate n blank)) (zero-add k)
      ∙ ap (λ d. some (d ++ replicate k blank)) (sym (append-nil done))
  copy_elements-append blank (v ∷ vs) done k =
      let blanks = replicate (length vs + k) blank in
      let first = set_element-append done blanks blank v in
      let rest = copy_elements-append blank vs (done ++ v ∷ []) k in
      let size : length (v ∷ vs) + k ≡ suc (length vs + k) = omega arith in
      ap (λ n. copy_elements (v ∷ vs) (length done) (done ++ replicate n blank)) size
      ∙ copy_elements-cons v vs (length done) (done ++ blank ∷ blanks) (done ++ v ∷ blanks) first
      ∙ ap (λ n. copy_elements vs n (done ++ v ∷ blanks)) (sym (length-snoc done v))
      ∙ ap (copy_elements vs (length (done ++ v ∷ []))) (sym (snoc-append done blanks v))
      ∙ rest
      ∙ ap (λ l. some (l ++ replicate k blank)) (snoc-append done vs v)

  copy_updated-eq :
      (predicate : V → Bool) (e : V) (vs : List V) (i : ℕ) (new : List V)
      → copy_updated predicate e vs i new ≡ copy_elements (map (replaced predicate e) vs) i new
  unfolding copy_elements copy_updated
  copy_updated-eq predicate e [] i new = refl
  copy_updated-eq predicate e (v ∷ vs) i new =
      ground (arith, copy_updated-eq predicate e vs (suc i) (set new i (replaced predicate e v)))

  -- What `RemoveFirst` writes are the elements that do not match.
  copy_without-eq :
      (predicate : V → Bool) (vs : List V) (i : ℕ) (new : List V)
      → copy_without predicate vs i new ≡ copy_elements (without predicate vs) i new
  unfolding copy_elements copy_without
  copy_without-eq predicate [] i new = refl
  copy_without-eq predicate (v ∷ vs) i new = ground (
    arith,
    copy_without-eq predicate vs i new,
    copy_without-eq predicate vs (suc i) (set new i v),
  )

  length-map : (f : V → V) (vs : List V) → length (map f vs) ≡ length vs
  length-map f [] = refl
  length-map f (v ∷ vs) = ap suc (length-map f vs)

  length-without :
      (predicate : V → Bool) (vs : List V)
      → length (without predicate vs) + matches predicate vs ≡ length vs
  length-without predicate [] = refl
  length-without predicate (v ∷ vs) = ground (arith, length-without predicate vs)

  copy_all :
      (blank : V) (vs : List V) (k : ℕ)
      → copy_elements vs 0 (replicate (length vs + k) blank) ≡ some (vs ++ replicate k blank)
  copy_all blank vs k = copy_elements-append blank vs [] k

  pub copy_exactly :
      (blank : V) (vs : List V) (n : ℕ)
      → n ≡ length vs
      → copy_elements vs 0 (replicate n blank) ≡ some vs
  copy_exactly blank vs n h =
      ap (λ k. copy_elements vs 0 (replicate k blank)) (omega (arith, h))
      ∙ copy_all blank vs 0
      ∙ ap some (append-nil vs)

  -- `Add` appends the element.
  pub add-append : (blank : V) (list : List V) (v : V) → add blank list v ≡ some (list ++ v ∷ [])
  unfolding add add_blank reset
  add-append blank list v =
      let r : add_blank blank list ≡ some (list ++ blank ∷ []) = copy_all blank list 1 in
      let i : length (list ++ blank ∷ []) - 1 ≡ length list =
        omega (arith, length-snoc list blank) in
      rw (r, add) (rw i (set_element-append list [] blank v))

  -- `UpdateElement` replaces every element that matches.
  pub update_element-map :
      (blank : V) (predicate : V → Bool) (list : List V) (v : V)
      → update_element blank predicate list v ≡ some (map (replaced predicate v) list)
  unfolding update_element reset
  update_element-map blank predicate list v =
      copy_updated-eq predicate v list 0 (replicate (length list) blank)
      ∙ copy_exactly blank (map (replaced predicate v) list) (length list)
          (sym (length-map (replaced predicate v) list))

  -- `RemoveFirst` takes out the matching element if there is exactly one.
  pub remove_first-without :
      (blank : V) (predicate : V → Bool) (list : List V)
      → matches predicate list ≡ 1
      → remove_first blank predicate list ≡ some (without predicate list)
  unfolding remove_first reset
  remove_first-without blank predicate list one =
      let counted = length-without predicate list in
      copy_without-eq predicate list 0 (replicate (size_without blank (length list)) blank)
      ∙ copy_exactly blank (without predicate list) (size_without blank (length list))
          (ground (arith, counted, one))

  -- With more than one that matches, the new list ends with a blank for each of them but one.
  pub remove_first-blanks :
      (blank : V) (predicate : V → Bool) (list : List V) (k : ℕ)
      → matches predicate list ≡ suc k
      → remove_first blank predicate list ≡ some (without predicate list ++ replicate k blank)
  unfolding remove_first reset
  remove_first-blanks blank predicate list k more =
      let counted = length-without predicate list in
      let size : size_without blank (length list) ≡ length (without predicate list) + k =
        ground (arith, counted, more) in
      copy_without-eq predicate list 0 (replicate (size_without blank (length list)) blank)
      ∙ ap (λ n. copy_elements (without predicate list) 0 (replicate n blank)) size
      ∙ copy_all blank (without predicate list) k
