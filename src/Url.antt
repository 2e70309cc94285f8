-- ===== src/Url.antt =====
-- Utils.hpp: `form_urlencode`, which writes a text for a form. A text is the list of its bytes.
pub mod Decode
pub mod Tests
use collab_vm_server.Base.{
  ℕ, ◌+◌, ◌/◌, ◌%◌, Bool, true, false, ◌&&◌, ◌||◌, List, [], ◌∷◌, ◌++◌, ◌==◌, leb, ltb,
  if◌then◌else◌,
}

abbrev between : ℕ → ℕ → ℕ → Bool
between a b c = leb a c && leb c b

abbrev is_alnum : ℕ → Bool
is_alnum c = between 65 90 c || between 97 122 c || between 48 57 c

-- The characters - _ . ! ~ * ' ( )
abbrev is_mark : ℕ → Bool
is_mark c = c == 45 || c == 95 || c == 46 || c == 33 || c == 126 || c == 42 || between 39 41 c

-- The characters that stand for themselves.
abbrev pub is_unreserved : ℕ → Bool
is_unreserved c = is_alnum c || is_mark c

-- A digit of `std::hex` with `std::uppercase`.
abbrev pub hex_digit : ℕ → ℕ
hex_digit d = if ltb d 10 then 48 + d else 55 + d

unfoldable pub encode_byte : ℕ → List ℕ
encode_byte c =
    if c == 32
    then 43 ∷ []
    else if is_unreserved c
    then c ∷ []
    else 37 ∷ hex_digit (c / 16) ∷ hex_digit (c % 16) ∷ []

unfoldable pub form_urlencode : List ℕ → List ℕ
unfolding encode_byte
form_urlencode [] = []
form_urlencode (c ∷ src) = encode_byte c ++ form_urlencode src
