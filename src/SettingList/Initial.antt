-- ===== src/SettingList/Initial.antt =====
-- AdminVirtualMachine.hpp: the first settings of a VM, of those that the database has.
use collab_vm_server.Base.{
  ℕ, zero, suc, ◌+◌, ◌<◌, ◌≤◌, ◌≡◌, refl, sym, subst, ap, ◌∙◌, ◌⊎◌, inl, inr, List, [], ◌∷◌, none,
  some, length, ltb, ◌==◌, arith, Bool-cases, ==→≡,
}
use collab_vm_server.SettingList.{
  find_setting, skip_below, setting_at, fill_settings, get_initial_settings,
}

module _ {V : Type 0} (which : V → ℕ) (cleared : ℕ → V) where
  -- The numbers rise.
  abbrev pub Sorted : ℕ → List V → Type 0
  Sorted k [] = Unit {0}
  Sorted k (v ∷ vs) = (k ≤ which v) × Sorted (suc (which v)) vs

  -- The value of a setting that the list has, or the default.
  abbrev pub value : List V → ℕ → V
  value settings n = elim (find_setting which cleared settings n) [ none ↦ cleared n | some v ↦ v ]

  -- The settings with the numbers from `i` on.
  abbrev pub values : List V → (n i : ℕ) → List V
  values settings zero i = []
  values settings (suc n) i = value settings i ∷ values settings n (suc i)

  find_above :
      (k n : ℕ) (settings : List V)
      → Sorted k settings
      → n < k
      → find_setting which cleared settings n ≡ none
  find_above k n [] h l = refl
  find_above k n (v ∷ vs) h l =
      ground (
        arith,
        h.0,
        l,
        find_above (suc (which v)) n vs h.1 (omega (arith, h.0, l)),
        ==→≡ (which v) n,
      )

  find_skip_below :
      (i n : ℕ) (settings : List V)
      → i ≤ n
      → find_setting which cleared (skip_below which cleared i settings) n
        ≡ find_setting which cleared settings n
  find_skip_below i n [] l = refl
  find_skip_below i n (v ∷ vs) l = ground (arith, l, find_skip_below i n vs l, ==→≡ (which v) n)

  setting_at-skip_below :
      (k i : ℕ) (settings : List V)
      → Sorted k settings
      → setting_at which cleared i (skip_below which cleared i settings) ≡ value settings i
  setting_at-skip_below k i [] h = refl
  setting_at-skip_below k i (v ∷ vs) h = ground (
    arith,
    setting_at-skip_below (suc (which v)) i vs h.1,
    find_above (suc (which v)) i vs h.1,
    ==→≡ (which v) i,
  )

  values-skip_below :
      (i j n : ℕ) (settings : List V)
      → i ≤ j
      → values (skip_below which cleared i settings) n j ≡ values settings n j
  values-skip_below i j zero settings l = refl
  values-skip_below i j (suc n) settings l = ground (
    arith,
    find_skip_below i j settings l,
    values-skip_below i (suc j) n settings (omega (arith, l)),
  )

  Sorted-skip_below :
      (k i : ℕ) (settings : List V)
      → Sorted k settings
      → (j : ℕ) × Sorted j (skip_below which cleared i settings)
  Sorted-skip_below k i [] h = (k, tt)
  Sorted-skip_below k i (v ∷ vs) h = elim (Bool-cases (ltb (which v) i)) [
    | inl below ↦ let (j, s) = Sorted-skip_below (suc (which v)) i vs h.1 in (j, rw below s)
    | inr above ↦ (k, rw above h)
  ]

  fill_settings-values :
      (k n i : ℕ) (settings : List V)
      → Sorted k settings
      → fill_settings which cleared n i settings ≡ values settings n i
  unfolding fill_settings
  fill_settings-values k zero i settings h = refl
  fill_settings-values k (suc n) i settings h =
      let current = skip_below which cleared i settings in
      let (j, s) = Sorted-skip_below k i settings h in
      ground (
        arith,
        setting_at-skip_below k i settings h,
        fill_settings-values j n (suc i) current s,
        values-skip_below i (suc i) n settings (omega arith),
      )

  abbrev pub AllBelow : ℕ → List V → Type 0
  AllBelow b [] = Unit {0}
  AllBelow b (v ∷ vs) = (which v < b) × AllBelow b vs

  -- Numbers that rise below a bound are no more than the bound allows.
  Sorted-length :
      (k b : ℕ) (settings : List V)
      → Sorted k settings
      → AllBelow b settings
      → (length settings ≡ 0) ⊎ (k + length settings ≤ b)
  Sorted-length k b [] h a = inl refl
  Sorted-length k b (v ∷ vs) h a =
      ground (arith, h.0, a.0, Sorted-length (suc (which v)) b vs h.1 a.1)

  values_behind :
      (v : V) (vs : List V) (n j : ℕ) → which v < j → values (v ∷ vs) n j ≡ values vs n j
  values_behind v vs zero j l = refl
  values_behind v vs (suc n) j l =
      ground (arith, l, ==→≡ (which v) j, values_behind v vs n (suc j) (omega (arith, l)))

  full_values :
      (k : ℕ) (settings : List V)
      → Sorted k settings
      → AllBelow (k + length settings) settings
      → values settings (length settings) k ≡ settings
  full_values k [] h a = refl
  full_values k (v ∷ vs) h a =
      let at : which v ≡ k =
        ground (arith, h.0, a.0, Sorted-length (suc (which v)) (k + suc (length vs)) vs h.1 a.1) in
      let rest =
        full_values (suc (which v)) vs h.1 (subst (λ b. AllBelow b vs) (omega (arith, at)) a.1) in
      let behind =
        values_behind v vs (length vs) (suc k) (omega (arith, at))
        ∙ ap (λ j. values vs (length vs) (suc j)) (sym at) in
      ground (arith, at, rest, behind)

  -- The first settings have one setting for every number, which is the one that the database has where it has
  -- one and the default otherwise, if the database has them in the order of their numbers.
  pub get_initial_settings-values :
      (fields : ℕ) (settings : List V)
      → Sorted 0 settings
      → AllBelow fields settings
      → get_initial_settings which cleared fields settings ≡ values settings fields 0
  unfolding get_initial_settings
  get_initial_settings-values fields settings h a = elim (Bool-cases (length settings == fields)) [
    | inr other ↦ rw other (fill_settings-values 0 fields 0 settings h)
    | inl full ↦
        let n : length settings ≡ fields = ==→≡ (length settings) fields full in
        rw full (
          subst (λ m. settings ≡ values settings m 0) n
            (sym
              (full_values 0 settings h (subst (λ b. AllBelow b settings) (omega (arith, n)) a))))
  ]
