-- ===== src/Totp.antt =====
-- Totp.hpp: one-time passwords (RFC 6238 with SHA-1). OpenSSL's `HMAC` is a parameter. Machine words
-- are little endian, `long` and the counts of `std::chrono` have 64 bits, and the time is not before 1970.
pub mod Window
pub mod Tests
use collab_vm_server.Base.{
  ℕ, zero, suc, ◌+◌, ◌-◌, ◌*◌, ◌/◌, ◌%◌, ◌^◌, Bool, true, false, List, [], ◌∷◌, Option, none, some,
  get_elem?, ◌>>=◌, ◌==◌, if◌then◌else◌,
}
use collab_vm_server.Base.Int.{ℤ, pos, negsuc}

-- The lowest `n` bytes of a number, the highest of them first.
abbrev pub big_endian : (n value : ℕ) → List ℕ
big_endian zero value = []
big_endian (suc n) value = value / 256 ^ n % 256 ∷ big_endian n value

-- A 64-bit difference, which may be negative.
abbrev pub timer : (timestamp time_step time_window : ℕ) → ℕ
timer timestamp time_step time_window = (timestamp / time_step + 2 ^ 64 - time_window) % 2 ^ 64

-- Four bytes of the digest as a number; `none` is a read behind its end.
unfoldable pub read_binary : (digest : List ℕ) (offset : ℕ) → Option ℕ
read_binary digest offset = get_elem? digest offset >>= λ a. get_elem? digest (offset + 1) >>= λ b.
    get_elem? digest (offset + 2) >>= λ c.
    get_elem? digest (offset + 3) >>= λ d. some ((((a * 256 + b) * 256 + c) * 256 + d) % 2 ^ 31)

unfoldable pub code_of : (digits : ℕ) → (digest : List ℕ) → Option ℕ
unfolding read_binary
code_of digits digest = get_elem? digest 19 >>= λ last.
    read_binary digest (last % 2 ^ 4) >>= λ binary. some (binary % 10 ^ digits)

abbrev pub is_code : ℤ → ℕ → Bool
is_code (pos n) code = n == code
is_code (negsuc n) code = false

-- `hmac` takes the key and the message.
module _ (hmac : List ℕ → List ℕ → List ℕ) where
  unfoldable pub generate_totp :
      (key : List ℕ) (digits time_step time_window timestamp : ℕ) → Option ℕ
  unfolding code_of
  generate_totp key digits time_step time_window timestamp =
      code_of digits (hmac key (big_endian 8 (timer timestamp time_step time_window)))

  -- `any_of` on the `n` windows from `time_window` on.
  unfoldable pub any_code :
      (input : ℤ) (key : List ℕ) (digits time_step now n time_window : ℕ) → Option Bool
  unfolding generate_totp
  any_code input key digits time_step now zero time_window = some false
  any_code input key digits time_step now (suc n) time_window =
      let rest = any_code input key digits time_step now n (time_window + 1) in
      generate_totp key digits time_step time_window now >>= λ code.
      if is_code input code then some true else rest

  unfoldable pub validate_totp :
      (input : ℤ) (key : List ℕ) (digits time_step time_window now : ℕ) → Option Bool
  unfolding any_code
  validate_totp input key digits time_step time_window now =
      any_code input key digits time_step now (time_window + 1) 0
