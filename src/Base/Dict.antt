-- ===== src/Base/Dict.antt =====
-- An unordered map with numbers for keys, as a list of entries in the order of an iteration.
use Prim.Native.Nat.{ℕ, ◌+◌, ◌≤◌}
use mathlib.Core.Path.{◌≡◌, refl}
use mathlib.Core.Logic.{◌≢◌}
use mathlib.Core.Bool.{Bool, true, false}
use mathlib.Core.List.{List, [], ◌∷◌}
use mathlib.Core.Option.{Option, none, some}
use native.Mathlib.Omega.{arith}
use collab_vm_server.Base.Tests.{◌==◌, if◌then◌else◌}
use collab_vm_server.Base.Lists.{length}

module _ {ℓ} {V : Type ℓ} where
  abbrev pub lookup : ℕ → List (ℕ × V) → Option V
  lookup k [] = none
  lookup k ((j, v) ∷ m) = if k == j then some v else lookup k m

  -- `emplace`: an entry that is there stays.
  abbrev pub emplace : ℕ → V → List (ℕ × V) → List (ℕ × V)
  emplace k v [] = (k, v) ∷ []
  emplace k v ((j, w) ∷ m) = if k == j then (j, w) ∷ m else (j, w) ∷ emplace k v m

  abbrev pub modify : ℕ → (V → V) → List (ℕ × V) → List (ℕ × V)
  modify k f [] = []
  modify k f ((j, v) ∷ m) = if k == j then (j, f v) ∷ m else (j, v) ∷ modify k f m

  abbrev pub remove : ℕ → List (ℕ × V) → List (ℕ × V)
  remove k [] = []
  remove k ((j, v) ∷ m) = if k == j then m else (j, v) ∷ remove k m

  -- Does the key occur?
  abbrev pub has_key : ℕ → List (ℕ × V) → Bool
  has_key k [] = false
  has_key k ((j, v) ∷ m) = if k == j then true else has_key k m

  -- No key occurs twice.
  abbrev pub Keyed : List (ℕ × V) → Type 0
  Keyed [] = Unit {0}
  Keyed ((j, v) ∷ m) = (has_key j m ≡ false) × Keyed m

  -- How many values pass a test.
  abbrev pub count : (V → Bool) → List (ℕ × V) → ℕ
  count p [] = 0
  count p ((j, v) ∷ m) = (if p v then 1 else 0) + count p m

  pub lookup-emplace :
      (j k : ℕ) (v : V) (m : List (ℕ × V))
      → lookup k m ≡ none
      → lookup j (emplace k v m) ≡ (if j == k then some v else lookup j m)
  lookup-emplace j k v [] h = refl
  lookup-emplace j k v ((i, w) ∷ m) h = ground (arith, lookup-emplace j k v m)

  pub emplace-present :
      (k : ℕ) (v w : V) (m : List (ℕ × V)) → lookup k m ≡ some w → emplace k v m ≡ m
  emplace-present k v w [] h = cc
  emplace-present k v w ((i, u) ∷ m) h = ground (arith, emplace-present k v w m)

  pub lookup-modify :
      (j k : ℕ) (f : V → V) (v : V) (m : List (ℕ × V))
      → lookup k m ≡ some v
      → lookup j (modify k f m) ≡ (if j == k then some (f v) else lookup j m)
  lookup-modify j k f v [] h = cc
  lookup-modify j k f v ((i, w) ∷ m) h = ground (arith, lookup-modify j k f v m)

  pub modify-absent : (k : ℕ) (f : V → V) (m : List (ℕ × V)) → lookup k m ≡ none → modify k f m ≡ m
  modify-absent k f [] h = refl
  modify-absent k f ((i, w) ∷ m) h = ground (arith, modify-absent k f m)

  pub lookup-none : (k : ℕ) (m : List (ℕ × V)) → has_key k m ≡ false → lookup k m ≡ none
  lookup-none k [] h = refl
  lookup-none k ((i, w) ∷ m) h = ground (arith, lookup-none k m)

  pub has_key-none : (k : ℕ) (m : List (ℕ × V)) → lookup k m ≡ none → has_key k m ≡ false
  has_key-none k [] h = refl
  has_key-none k ((i, w) ∷ m) h = ground (arith, has_key-none k m)

  pub has_key-remove :
      (j k : ℕ) (m : List (ℕ × V)) → has_key j m ≡ false → has_key j (remove k m) ≡ false
  has_key-remove j k [] h = refl
  has_key-remove j k ((i, w) ∷ m) h = ground (arith, has_key-remove j k m)

  pub has_key-modify :
      (j k : ℕ) (f : V → V) (m : List (ℕ × V)) → has_key j (modify k f m) ≡ has_key j m
  has_key-modify j k f [] = refl
  has_key-modify j k f ((i, w) ∷ m) = ground (arith, has_key-modify j k f m)

  pub has_key-emplace :
      (j k : ℕ) (v : V) (m : List (ℕ × V)) → j ≢ k → has_key j (emplace k v m) ≡ has_key j m
  has_key-emplace j k v [] h = ground arith
  has_key-emplace j k v ((i, w) ∷ m) h = ground (arith, has_key-emplace j k v m h)

  pub Keyed-emplace : (k : ℕ) (v : V) (m : List (ℕ × V)) → Keyed m → Keyed (emplace k v m)
  Keyed-emplace k v [] h = (refl, tt)
  Keyed-emplace k v ((i, w) ∷ m) h =
      ground (arith, Keyed-emplace k v m h.1, has_key-emplace i k v m)

  pub Keyed-modify : (k : ℕ) (f : V → V) (m : List (ℕ × V)) → Keyed m → Keyed (modify k f m)
  Keyed-modify k f [] h = tt
  Keyed-modify k f ((i, w) ∷ m) h = ground (arith, Keyed-modify k f m h.1, has_key-modify i k f m)

  pub Keyed-remove : (k : ℕ) (m : List (ℕ × V)) → Keyed m → Keyed (remove k m)
  Keyed-remove k [] h = tt
  Keyed-remove k ((i, w) ∷ m) h = ground (arith, Keyed-remove k m h.1, has_key-remove i k m)

  pub lookup-remove :
      (j k : ℕ) (m : List (ℕ × V))
      → Keyed m
      → lookup j (remove k m) ≡ (if j == k then none else lookup j m)
  lookup-remove j k [] h = ground arith
  lookup-remove j k ((i, w) ∷ m) h = ground (arith, lookup-remove j k m h.1, lookup-none i m h.0)

  -- How the operations change a count.
  pub count-emplace :
      (p : V → Bool) (k : ℕ) (v : V) (m : List (ℕ × V))
      → lookup k m ≡ none
      → count p (emplace k v m) ≡ count p m + (if p v then 1 else 0)
  count-emplace p k v [] h = omega arith
  count-emplace p k v ((i, w) ∷ m) h = ground (arith, count-emplace p k v m)

  pub count-modify :
      (p : V → Bool) (k : ℕ) (f : V → V) (v : V) (m : List (ℕ × V))
      → lookup k m ≡ some v
      → count p (modify k f m) + (if p v then 1 else 0) ≡ count p m + (if p (f v) then 1 else 0)
  count-modify p k f v [] h = cc
  count-modify p k f v ((i, w) ∷ m) h = ground (arith, count-modify p k f v m)

  pub count-remove :
      (p : V → Bool) (k : ℕ) (v : V) (m : List (ℕ × V))
      → lookup k m ≡ some v
      → count p (remove k m) + (if p v then 1 else 0) ≡ count p m
  count-remove p k v [] h = cc
  count-remove p k v ((i, w) ∷ m) h = ground (arith, count-remove p k v m)

  pub count-le :
      (p q : V → Bool) (m : List (ℕ × V))
      → ((v : V) → p v ≡ true → q v ≡ true)
      → count p m ≤ count q m
  count-le p q [] h = omega arith
  count-le p q ((i, v) ∷ m) h = ground (arith, count-le p q m h, h v)

  pub count-le-length : (p : V → Bool) (m : List (ℕ × V)) → count p m ≤ length m
  count-le-length p [] = omega arith
  count-le-length p ((i, v) ∷ m) = ground (arith, count-le-length p m)

  pub length-modify : (k : ℕ) (f : V → V) (m : List (ℕ × V)) → length (modify k f m) ≡ length m
  length-modify k f [] = refl
  length-modify k f ((i, w) ∷ m) = ground (arith, length-modify k f m)

  pub remove-modify : (k : ℕ) (f : V → V) (m : List (ℕ × V)) → remove k (modify k f m) ≡ remove k m
  remove-modify k f [] = refl
  remove-modify k f ((i, w) ∷ m) = ground (arith, remove-modify k f m)
