-- ===== src/Guests/Free.antt =====
-- The loop that looks for a name of a new guest.
use collab_vm_server.Base.{
  ℕ, zero, suc, ◌+◌, ◌%◌, ◌^◌, ◌≤◌, ◌<◌, ◌≡◌, refl, ap, ◌∙◌, subst, inl, inr, ◌⊎◌, true, false,
  List, [], ◌∷◌, some, length, arith, Bool-cases,
}
use collab_vm_server.Guests.{
  Guests, iequals, is_taken, insert, erase, guest_name, generate_username,
}

positive : (k : ℕ) → (k ≡ 0) ⊎ ((j : ℕ) × (k ≡ suc j))
positive zero = inl refl
positive (suc j) = inr (j, refl)

module _ (to_upper : ℕ → ℕ) where
  -- Two texts that are equal to a third are equal.
  iequals-join :
      (k a b : List ℕ)
      → iequals to_upper k a ≡ true
      → iequals to_upper k b ≡ true
      → iequals to_upper a b ≡ true
  unfolding iequals
  iequals-join [] [] b h l = l
  iequals-join [] (x ∷ a) b h l = absurd (ground (arith, h))
  iequals-join (c ∷ k) [] b h l = absurd (ground (arith, h))
  iequals-join (c ∷ k) (x ∷ a) [] h l = absurd (ground (arith, l))
  iequals-join (c ∷ k) (x ∷ a) (y ∷ b) h l = ground (arith, h, l, iequals-join k a b)

  length-erase :
      (guests : Guests) (a : List ℕ)
      → is_taken to_upper guests a ≡ true
      → length guests ≡ suc (length (erase to_upper guests a))
  unfolding is_taken erase
  length-erase [] a h = absurd (ground (arith, h))
  length-erase ((name, socket) ∷ guests) a h = ground (arith, h, length-erase guests a)

  is_taken-erase :
      (guests : Guests) (a b : List ℕ)
      → iequals to_upper a b ≡ false
      → is_taken to_upper (erase to_upper guests a) b ≡ false
      → is_taken to_upper guests b ≡ false
  unfolding is_taken erase
  is_taken-erase [] a b d h = refl
  is_taken-erase ((name, socket) ∷ guests) a b d h =
      ground (arith, d, h, is_taken-erase guests a b d, iequals-join name a b)

  module _ (to_string : ℕ → List ℕ)
      (distinct : (i j : ℕ) → iequals to_upper (to_string i) (to_string j) ≡ true → i ≡ j) where
    guest_name-distinct :
        (i j : ℕ)
        → i < j
        → iequals to_upper (guest_name to_upper to_string i) (guest_name to_upper to_string j)
          ≡ false
    unfolding iequals
    guest_name-distinct i j h = elim (Bool-cases (iequals to_upper (to_string i) (to_string j))) [
      | inl same ↦ absurd (omega (arith, h, distinct i j same))
      | inr other ↦ ground (arith, other)
    ]

    -- Of one number more than there are guests, one gives a name that is free.
    free_number :
        (n num : ℕ) (guests : Guests)
        → length guests ≤ n
        → (k : ℕ) × (k ≤ n)
          × (is_taken to_upper guests (guest_name to_upper to_string (num + k)) ≡ false)
    free_number zero num [] h = (0, omega arith, unfold is_taken in refl)
    free_number zero num (g ∷ guests) h = absurd (omega (arith, h))
    free_number (suc n) num guests h =
        let name = guest_name to_upper to_string in
        elim (Bool-cases (is_taken to_upper guests (name (num + 0)))) [
          | inr free ↦ (0, omega arith, free)
          | inl taken ↦
              let (k, near, free) =
                free_number n (num + 1) (erase to_upper guests (name (num + 0)))
                  (omega (arith, h, length-erase guests (name (num + 0)) taken)) in
              let differ = guest_name-distinct (num + 0) (num + 1 + k) (omega arith) in
              let still = is_taken-erase guests (name (num + 0)) (name (num + 1 + k)) differ free in
              let i : num + 1 + k ≡ num + suc k = omega arith in
              (
                suc k,
                omega (arith, near),
                subst (λ m. is_taken to_upper guests (name m) ≡ false) i still,
              )
        ]

    generate_username-free :
        (fuel : ℕ) (guests : Guests) (num socket : ℕ)
        → is_taken to_upper guests (guest_name to_upper to_string num) ≡ false
        → generate_username to_upper to_string (suc fuel) guests num socket
          ≡ some (
            (guest_name to_upper to_string num, socket) ∷ guests,
            guest_name to_upper to_string num,
          )
    unfolding generate_username insert
    generate_username-free fuel guests num socket free = rw (free, insert) refl

    generate_username-taken :
        (fuel : ℕ) (guests : Guests) (num socket : ℕ)
        → is_taken to_upper guests (guest_name to_upper to_string num) ≡ true
        → num + 1 < 2 ^ 32
        → generate_username to_upper to_string (suc fuel) guests num socket
          ≡ generate_username to_upper to_string fuel guests (num + 1) socket
    unfolding generate_username insert
    generate_username-taken fuel guests num socket taken small =
        let wrapped : (num + 1) % 2 ^ 32 ≡ num + 1 = omega (arith, small) in
        rw (taken, insert)
          (ap (λ n. generate_username to_upper to_string fuel guests n socket) wrapped)

    -- The loop ends at a free name, if one comes before the fuel ends.
    generate_username-finds :
        (fuel : ℕ) (guests : Guests) (num socket k : ℕ)
        → k < fuel
        → num + k < 2 ^ 32
        → is_taken to_upper guests (guest_name to_upper to_string (num + k)) ≡ false
        → (username : List ℕ) × (generate_username to_upper to_string fuel guests num socket
            ≡ some ((username, socket) ∷ guests, username))
          × (is_taken to_upper guests username ≡ false)
    generate_username-finds zero guests num socket k h small free = absurd (omega (arith, h))
    generate_username-finds (suc fuel) guests num socket k h small free =
        let name = guest_name to_upper to_string in
        elim (Bool-cases (is_taken to_upper guests (name num))) [
          | inr here ↦ (name num, generate_username-free fuel guests num socket here, here)
          | inl taken ↦
              let pos : (k ≡ 0) ⊎ ((j : ℕ) × (k ≡ suc j)) = positive k in
              elim pos [
                | inl z ↦
                    let i : num + k ≡ num = omega (arith, z) in
                    let here = subst (λ m. is_taken to_upper guests (name m) ≡ false) i free in
                    absurd (ground (arith, taken, here))
                | inr (j, e) ↦
                    let i : num + k ≡ num + 1 + j = omega (arith, e) in
                    let (username, found, good) =
                      generate_username-finds fuel guests (num + 1) socket j (omega (arith, h, e))
                        (omega (arith, small, e))
                        (subst (λ m. is_taken to_upper guests (name m) ≡ false) i free) in
                    (
                      username,
                      generate_username-taken fuel guests num socket taken (omega (arith, small, e))
                          ∙ found,
                      good,
                    )
              ]
        ]

    -- The loop that looks for the name of a new guest ends with a name that nobody has, which is then the
    -- guest's. At most one try more than there are guests is made, the numbers that are tried stay
    -- below 2^32, and different numbers give different names.
    pub generate_username_ends :
        (fuel : ℕ) (guests : Guests) (num socket : ℕ)
        → length guests < fuel
        → num + length guests < 2 ^ 32
        → (username : List ℕ) × (generate_username to_upper to_string fuel guests num socket
            ≡ some ((username, socket) ∷ guests, username))
          × (is_taken to_upper guests username ≡ false)
    generate_username_ends fuel guests num socket enough small =
        let (k, near, free) = free_number (length guests) num guests (omega arith) in
        generate_username-finds fuel guests num socket k (omega (arith, enough, near))
          (omega (arith, small, near)) free
