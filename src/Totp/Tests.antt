-- ===== src/Totp/Tests.antt =====
-- The digest and the code of the example in RFC 4226, section 5.4, and a code that is checked one time
-- step later.
use collab_vm_server.Base.{
  ℕ, ◌+◌, ◌-◌, ◌/◌, ◌%◌, ◌≡◌, ◌≤◌, ◌↔◌, refl, true, List, [], ◌∷◌, ◌++◌, some, replicate,
  length-replicate, arith,
}
use collab_vm_server.Base.Int.{pos}
use collab_vm_server.Totp.{code_of, read_binary, generate_totp, validate_totp, any_code}
use collab_vm_server.Totp.Window.{code_at, validate_totp-codes}

abbrev digest : List ℕ
digest =
    31 ∷ 134 ∷ 152 ∷ 105 ∷ 14 ∷ 2 ∷ 202 ∷ 22 ∷ 97 ∷ 133 ∷ 80 ∷ 239 ∷ 127 ∷ 25 ∷ 218 ∷ 142 ∷ 148 ∷ 91
    ∷ 85 ∷ 90 ∷ []

digest_code : code_of 6 digest ≡ some 872921
unfolding code_of read_binary
digest_code = refl

-- A hash for the tests, with 20 bytes.
abbrev sum_bytes : List ℕ → ℕ
sum_bytes [] = 0
sum_bytes (b ∷ bs) = b + sum_bytes bs

abbrev test_hmac : List ℕ → List ℕ → List ℕ
test_hmac key message = replicate 20 (sum_bytes (key ++ message) % 256)

generated : generate_totp test_hmac (7 ∷ []) 6 30 0 59 ≡ some 744072
unfolding generate_totp code_of read_binary
generated = refl

accepted_later : validate_totp test_hmac (pos 744072) (7 ∷ []) 6 30 1 61 ≡ some true
unfolding validate_totp any_code generate_totp code_of read_binary
accepted_later = refl

validate_totp-codes_example :
    (validate_totp test_hmac (pos 744072) (7 ∷ []) 6 30 1 61 ≡ some true)
    ↔ ((k : ℕ) × (k ≤ 1) × (code_at test_hmac (7 ∷ []) 6 (61 / 30 - k) ≡ some 744072))
validate_totp-codes_example =
    validate_totp-codes test_hmac (7 ∷ []) 6 30 1 61 744072
      (λ message. length-replicate 20 (sum_bytes (7 ∷ message) % 256)) (omega arith) (omega arith)
