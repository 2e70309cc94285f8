-- ===== src/VmList/Loading.antt =====
-- The VMs that are made of the rows of the database.
use collab_vm_server.Base.{
  ℕ, ◌+◌, ◌≤◌, ◌<◌, ◌≡◌, refl, sym, ap, ◌∙◌, false, List, [], ◌∷◌, ◌++◌, some, length, arith,
  append_assoc, append-nil, ◌>>=◌, length-append, ◌==◌, ==_refl, lt→ltb,
}
use collab_vm_server.Base.Dict.{emplace, has_key}
use collab_vm_server.VmList.Load.{
  Loader, new_loader, create_vm, before_row, set_setting, read_vm_settings, finish, load,
}

module _ {S : Type 0} where
  abbrev rows_of_vm : ℕ → List S → List (ℕ × S) → List (ℕ × S)
  rows_of_vm k [] rows = rows
  rows_of_vm k (s ∷ ss) rows = (k, s) ∷ rows_of_vm k ss rows

  -- The rows of VMs, in order.
  abbrev pub rows_of : List (ℕ × List S) → List (ℕ × S)
  rows_of [] = []
  rows_of ((k, ss) ∷ vms) = rows_of_vm k ss (rows_of vms)

  -- No VM has the number of one before, and all have `n` settings.
  abbrev pub Regular : (n : ℕ) → (before vms : List (ℕ × List S)) → Type 0
  Regular n before [] = Unit {0}
  Regular n before ((k, ss) ∷ vms) =
      (has_key k before ≡ false) × (length ss ≡ n) × Regular n (before ++ (k, ss) ∷ []) vms

  emplace_last :
      (k : ℕ) (v : List S) (m : List (ℕ × List S))
      → has_key k m ≡ false
      → emplace k v m ≡ m ++ (k, v) ∷ []
  emplace_last k v [] h = refl
  emplace_last k v ((j, w) ∷ m) h = ground (arith, emplace_last k v m)

  has_key-other :
      (j k : ℕ) (v : List S) (m : List (ℕ × List S))
      → has_key j (m ++ (k, v) ∷ []) ≡ false
      → (k == j) ≡ false
  has_key-other j k v [] h = ground arith
  has_key-other j k v ((i, w) ∷ m) h = ground (arith, has_key-other j k v m)

  abbrev reading : (size : ℕ) → (settings : List S) → (k : ℕ) → List (ℕ × List S) → Loader S
  reading size settings k machines = record {
    size = size;
    settings = settings;
    previous_vm_id = some k;
    machines = machines;
  }

  set_setting_fits :
      (l : Loader S) (k : ℕ) (s : S)
      → length l.settings < l.size
      → set_setting l k s
        ≡ some (record l { settings = l.settings ++ s ∷ []; previous_vm_id = some k })
  unfolding set_setting
  set_setting_fits l k s h = simp (lt→ltb (length l.settings) l.size h)

  next_row :
      (l l' : Loader S) (k : ℕ) (s : S) (rows : List (ℕ × S))
      → before_row l k ≡ l'
      → length l'.settings < l'.size
      → read_vm_settings l ((k, s) ∷ rows)
        ≡ read_vm_settings (reading l'.size (l'.settings ++ s ∷ []) k l'.machines) rows
  unfolding read_vm_settings
  next_row l l' k s rows e h =
      ap (λ o. o >>= λ next. read_vm_settings next rows)
        (ap (λ a. set_setting a k s) e ∙ set_setting_fits l' k s h)

  same_vm :
      (size : ℕ) (xs : List S) (k : ℕ) (machines : List (ℕ × List S))
      → before_row (reading size xs k machines) k ≡ reading size xs k machines
  unfolding before_row
  same_vm size xs k machines = simp (==_refl k)

  other_vm :
      (size : ℕ) (xs : List S) (k j : ℕ) (machines : List (ℕ × List S))
      → (k == j) ≡ false
      → has_key k machines ≡ false
      → before_row (reading size xs k machines) j
        ≡ reading (length xs) [] k (machines ++ (k, xs) ∷ [])
  unfolding before_row create_vm
  other_vm size xs k j machines h f = simp (h, emplace_last k xs machines f)

  read_rest :
      (size k : ℕ) (xs ss : List S) (machines : List (ℕ × List S)) (rows : List (ℕ × S))
      → length xs + length ss ≤ size
      → read_vm_settings (reading size xs k machines) (rows_of_vm k ss rows)
        ≡ read_vm_settings (reading size (xs ++ ss) k machines) rows
  read_rest size k xs [] machines rows h =
      ap (λ ys. read_vm_settings (reading size ys k machines) rows) (sym (append-nil xs))
  read_rest size k xs (s ∷ ss) machines rows h =
      next_row _ _ k s (rows_of_vm k ss rows) (same_vm size xs k machines) (omega (arith, h))
      ∙ read_rest size k (xs ++ s ∷ []) ss machines rows
          (omega (arith, h, length-append xs (s ∷ [])))
      ∙ ap (λ ys. read_vm_settings (reading size ys k machines) rows) (append_assoc xs (s ∷ []) ss)

  load_more :
      (size n k : ℕ) (xs : List S) (machines vms : List (ℕ × List S))
      → 0 < n
      → n ≤ size
      → length xs ≡ n
      → has_key k machines ≡ false
      → Regular n (machines ++ (k, xs) ∷ []) vms
      → (read_vm_settings (reading size xs k machines) (rows_of vms) >>= λ l. some (finish l))
        ≡ some (machines ++ (k, xs) ∷ vms)
  unfolding read_vm_settings finish create_vm
  load_more size n k xs machines [] p g e f r = ap some (emplace_last k xs machines f)
  load_more size n k xs machines ((j, []) ∷ vms) p g e f (d, q, r) = absurd (omega (arith, p, q))
  load_more size n k xs machines ((j, s ∷ ss) ∷ vms) p g e f (d, q, r) =
      ap (λ o. o >>= λ l. some (finish l))
        (next_row (reading size xs k machines) _ j s (rows_of_vm j ss (rows_of vms))
            (other_vm size xs k j machines (has_key-other j k xs machines d) f)
            (omega (arith, p, e))
          ∙ read_rest (length xs) j (s ∷ []) ss (machines ++ (k, xs) ∷ []) (rows_of vms)
              (omega (arith, e, q)))
      ∙ load_more (length xs) n j (s ∷ ss) (machines ++ (k, xs) ∷ []) vms p (omega (arith, e)) q d r
      ∙ ap some (append_assoc machines ((k, xs) ∷ []) ((j, s ∷ ss) ∷ vms))

  -- If no two VMs have the same number and all have `n` settings, at least one and not more than the
  -- list has room for, then the VMs that are made of their rows are these VMs.
  pub load-rows_of :
      (size n : ℕ) (vms : List (ℕ × List S))
      → 0 < n
      → n ≤ size
      → Regular n [] vms
      → load size (rows_of vms) ≡ some vms
  unfolding load read_vm_settings finish before_row
  load-rows_of size n [] p g r = refl
  load-rows_of size n ((k, []) ∷ vms) p g (d, q, r) = absurd (omega (arith, p, q))
  load-rows_of size n ((k, s ∷ ss) ∷ vms) p g (d, q, r) =
      ap (λ o. o >>= λ l. some (finish l))
        (next_row (new_loader size) (new_loader size) k s (rows_of_vm k ss (rows_of vms)) refl
            (omega (arith, p, g))
          ∙ read_rest size k (s ∷ []) ss [] (rows_of vms) (omega (arith, g, q)))
      ∙ load_more size n k (s ∷ ss) [] vms p g q refl r
