-- ===== src/Web/Paths.antt =====
-- `std::filesystem::path` on POSIX, as far as WebSocketServer.hpp uses it on requests: the iteration of a
-- path, whose root directory is an element, and its order.
use collab_vm_server.Base.{
  ℕ, ◌++◌, Bool, true, false, ◌||◌, List, [], ◌∷◌, Option, none, some, ltb, ◌==◌, if◌then◌else◌,
  same_text,
}

abbrev pub Elements : Type 0
Elements = List (List ℕ)

abbrev slash : ℕ
slash = 47

-- The names behind the root directory; a slash at the end has an empty name behind it.
abbrev names : (current : List ℕ) → List ℕ → Elements
names current [] = current ∷ []
names [] (c ∷ cs) = if c == slash then names [] cs else names (c ∷ []) cs
names (b ∷ bs) (c ∷ cs) = if c == slash then (b ∷ bs) ∷ names [] cs else names (b ∷ bs ++ c ∷ []) cs

abbrev rooted_names : List ℕ → Elements
rooted_names [] = []
rooted_names (c ∷ cs) = if c == slash then rooted_names cs else names (c ∷ []) cs

unfoldable pub elements : List ℕ → Elements
elements [] = []
elements (c ∷ cs) = if c == slash then (slash ∷ []) ∷ rooted_names cs else names (c ∷ []) cs

-- `operator/`: an absolute path replaces the path before it.
unfoldable pub join : (base path : Elements) → Elements
join base [] = base ++ [] ∷ []
join base (e ∷ es) = if same_text e (slash ∷ []) then e ∷ es else base ++ e ∷ es

abbrev less_text : List ℕ → List ℕ → Bool
less_text cs [] = false
less_text [] (d ∷ ds) = true
less_text (c ∷ cs) (d ∷ ds) = if c == d then less_text cs ds else ltb c d

-- `compare` of two absolute paths is negative.
unfoldable pub less_path : Elements → Elements → Bool
less_path ps [] = false
less_path [] (d ∷ ds) = true
less_path (p ∷ ps) (d ∷ ds) = if same_text d p then less_path ps ds else less_text p d

-- `std::equal` on the whole of the first path. It reads behind the end of the second if that is shorter.
unfoldable pub equal_prefix : Elements → Elements → Option Bool
equal_prefix [] ps = some true
equal_prefix (d ∷ ds) [] = none
equal_prefix (d ∷ ds) (p ∷ ps) = if same_text d p then equal_prefix ds ps else some false

unfoldable pub any_dots : Elements → Bool
any_dots [] = false
any_dots (e ∷ es) = same_text e (46 ∷ 46 ∷ []) || same_text e (46 ∷ []) || any_dots es
