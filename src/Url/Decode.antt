-- ===== src/Url/Decode.antt =====
-- What `form_urlencode` writes, read as the HTML standard says.
use collab_vm_server.Base.{
  ℕ, ◌+◌, ◌-◌, ◌*◌, ◌/◌, ◌%◌, ◌<◌, ◌≡◌, refl, sym, ap, ◌∙◌, inl, inr, true, false, ◌&&◌, List, [],
  ◌∷◌, ◌++◌, Option, none, some, ◌==◌, leb, if◌then◌else◌, Bool-cases, arith, ==→≡,
}
use collab_vm_server.Url.{is_unreserved, hex_digit, encode_byte, form_urlencode}

abbrev pub AllBytes : List ℕ → Type 0
AllBytes [] = Unit {0}
AllBytes (c ∷ s) = (c < 256) × AllBytes s

-- The value of a hexadecimal digit.
abbrev pub digit : ℕ → Option ℕ
digit c =
    if leb 48 c && leb c 57
    then some (c - 48)
    else if leb 65 c && leb c 70
    then some (c - 55)
    else none

-- Between two characters, behind a percent sign, and behind the first digit.
pub data Place : Type 0 where
  outside in_escape : Place
  in_digits : ℕ → Place

abbrev pub prepend : ℕ → Option (List ℕ) → Option (List ℕ)
prepend c none = none
prepend c (some s) = some (c ∷ s)

unfoldable pub decode : Place → List ℕ → Option (List ℕ)
decode outside [] = some []
decode in_escape [] = none
decode (in_digits h) [] = none
decode outside (c ∷ s) =
    if c == 43
    then prepend 32 (decode outside s)
    else if c == 37
    then decode in_escape s
    else prepend c (decode outside s)
decode in_escape (c ∷ s) = elim (digit c) [ none ↦ none | some h ↦ decode (in_digits h) s ]
decode (in_digits h) (c ∷ s) = elim (digit c) [
  | none ↦ none
  | some l ↦ prepend (16 * h + l) (decode outside s)
]

digit-hex_digit : (d : ℕ) → d < 16 → digit (hex_digit d) ≡ some d
digit-hex_digit d h = ground (arith, h)

decode_digits :
    (a b h l : ℕ) (s : List ℕ)
    → digit a ≡ some h
    → digit b ≡ some l
    → decode outside (37 ∷ a ∷ b ∷ s) ≡ prepend (16 * h + l) (decode outside s)
unfolding decode
decode_digits a b h l s ea eb = ground (arith, ea, eb)

decode_plus : (s : List ℕ) → decode outside (43 ∷ s) ≡ prepend 32 (decode outside s)
unfolding decode
decode_plus s = refl

decode_other :
    (c : ℕ) (s : List ℕ)
    → (c == 43) ≡ false
    → (c == 37) ≡ false
    → decode outside (c ∷ s) ≡ prepend c (decode outside s)
unfolding decode
decode_other c s p q = rw (p, q) refl

decode-escape :
    (h l : ℕ) (s : List ℕ)
    → h < 16
    → l < 16
    → decode outside (37 ∷ hex_digit h ∷ hex_digit l ∷ s) ≡ prepend (16 * h + l) (decode outside s)
decode-escape h l s hh hl =
    decode_digits (hex_digit h) (hex_digit l) h l s (digit-hex_digit h hh) (digit-hex_digit l hl)

-- An unreserved character is neither a plus nor a percent sign.
unreserved_stays : (c : ℕ) → is_unreserved c ≡ true → ((c == 43) ≡ false) × ((c == 37) ≡ false)
unreserved_stays c h = (ground (arith, h), ground (arith, h))

decode-encode_byte :
    (c : ℕ) (s : List ℕ)
    → c < 256
    → decode outside (encode_byte c ++ s) ≡ prepend c (decode outside s)
unfolding encode_byte
decode-encode_byte c s h = elim (Bool-cases (c == 32)) [
  | inl space ↦
      rw space (decode_plus s ∙ ap (λ x. prepend x (decode outside s)) (sym (==→≡ c 32 space)))
  | inr e ↦ elim (Bool-cases (is_unreserved c)) [
    | inl stays ↦
        rw (e, stays) (decode_other c s (unreserved_stays c stays).0 (unreserved_stays c stays).1)
    | inr escaped ↦
        rw (e, escaped)
          (decode-escape (c / 16) (c % 16) s (omega arith) (omega arith)
            ∙ ap (λ x. prepend x (decode outside s)) (omega arith))
  ]
]

-- Every text of bytes is read as it was before it was encoded.
pub decode-form_urlencode :
    (src : List ℕ) → AllBytes src → decode outside (form_urlencode src) ≡ some src
unfolding form_urlencode decode
decode-form_urlencode [] h = refl
decode-form_urlencode (c ∷ src) h =
    decode-encode_byte c (form_urlencode src) h.0 ∙ ap (prepend c) (decode-form_urlencode src h.1)
