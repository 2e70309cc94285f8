-- ===== src/Totp/Window.antt =====
-- Which codes are valid at a time, for a hash that has a digest of 20 bytes.
use collab_vm_server.Base.{
  ℕ, zero, suc, ◌+◌, ◌-◌, ◌/◌, ◌%◌, ◌^◌, ◌≤◌, ◌<◌, ◌≡◌, ◌↔◌, refl, sym, ap, ◌∙◌, true, List, [],
  ◌∷◌, Option, none, some, get_elem?, length, ◌>>=◌, arith, ==_refl, ==→≡, ◌==◌, Bool-cases, inl,
  inr,
}
use collab_vm_server.Base.Int.{pos}
use collab_vm_server.Totp.{
  timer, big_endian, read_binary, code_of, generate_totp, any_code, validate_totp,
}

-- A value is computed without a read out of bounds.
abbrev Returns {ℓ} : {A : Type ℓ} → Option A → Type ℓ
Returns {A = A} o = (a : A) × (o ≡ some a)

Returns-bind {ℓ κ} :
    {A : Type ℓ} {B : Type κ} (o : Option A) (f : A → Option B)
    → Returns o
    → ((a : A) → Returns (f a))
    → Returns (o >>= f)
Returns-bind none f (a, h) k = absurd cc
Returns-bind (some a) f h k = k a

get_elem?-Returns : (xs : List ℕ) (i : ℕ) → i < length xs → Returns (get_elem? xs i)
get_elem?-Returns [] i h = absurd (omega arith)
get_elem?-Returns (x ∷ xs) zero h = (x, refl)
get_elem?-Returns (x ∷ xs) (suc i) h = get_elem?-Returns xs i (omega arith)

read_binary-Returns :
    (digest : List ℕ) (offset : ℕ)
    → offset + 3 < length digest
    → Returns (read_binary digest offset)
unfolding read_binary
read_binary-Returns digest offset h =
    Returns-bind _ _ (get_elem?-Returns digest offset (omega arith)) λ a.
      Returns-bind _ _ (get_elem?-Returns digest (offset + 1) (omega arith)) λ b.
        Returns-bind _ _ (get_elem?-Returns digest (offset + 2) (omega arith))
          λ c. Returns-bind _ _ (get_elem?-Returns digest (offset + 3) (omega arith)) λ d. (_, refl)

-- The code of a digest of 20 bytes is read inside of the digest.
code_of-Returns :
    (digits : ℕ) (digest : List ℕ) → length digest ≡ 20 → Returns (code_of digits digest)
unfolding code_of
code_of-Returns digits digest h =
    Returns-bind _ _ (get_elem?-Returns digest 19 (omega arith)) λ last.
      Returns-bind _ _ (read_binary-Returns digest (last % 2 ^ 4) (omega arith)) λ binary. (_, refl)

module _ (hmac : List ℕ → List ℕ → List ℕ) where
  generate_totp-Returns :
      (key : List ℕ) (digits time_step time_window now : ℕ)
      → ((message : List ℕ) → length (hmac key message) ≡ 20)
      → Returns (generate_totp hmac key digits time_step time_window now)
  unfolding generate_totp
  generate_totp-Returns key digits time_step time_window now len =
      code_of-Returns digits (hmac key (big_endian 8 (timer now time_step time_window))) (len _)

  any_code-found :
      (key : List ℕ) (digits time_step now n time_window k code : ℕ)
      → ((message : List ℕ) → length (hmac key message) ≡ 20)
      → time_window ≤ k
      → k < time_window + n
      → generate_totp hmac key digits time_step k now ≡ some code
      → any_code hmac (pos code) key digits time_step now n time_window ≡ some true
  unfolding any_code
  any_code-found key digits time_step now zero time_window k code len g h e = absurd (omega arith)
  any_code-found key digits time_step now (suc n) time_window k code len g h e =
      let (c, p) = generate_totp-Returns key digits time_step time_window now len in
      elim (Bool-cases (code == c)) [
        | inl q ↦ simp (p, q)
        | inr q ↦
            (let rest =
                any_code-found key digits time_step now n (time_window + 1) k code len
                  (elim (Bool-cases (time_window == k)) [
                    | inl r ↦ (let r' = ==→≡ time_window k r in let s = ==_refl code in absurd cc)
                    | inr r ↦ ground (arith, g, r)
                  ])
                  (omega arith) e in
              simp (p, q, rest))
      ]

  any_code_sound :
      (key : List ℕ) (digits time_step now n time_window code : ℕ)
      → ((message : List ℕ) → length (hmac key message) ≡ 20)
      → any_code hmac (pos code) key digits time_step now n time_window ≡ some true
      → (k : ℕ) × (time_window ≤ k)
        × (k < time_window + n)
        × (generate_totp hmac key digits time_step k now ≡ some code)
  unfolding any_code
  any_code_sound key digits time_step now zero time_window code len h = absurd cc
  any_code_sound key digits time_step now (suc n) time_window code len h =
      let (c, p) = generate_totp-Returns key digits time_step time_window now len in
      elim (Bool-cases (code == c)) [
        | inl q ↦ (time_window, omega arith, omega arith, p ∙ ap some (sym (==→≡ code c q)))
        | inr q ↦
            (let (k, g, l, e) =
                any_code_sound key digits time_step now n (time_window + 1) code len
                  (simp (p, q) at h) in
              (k, omega (arith, g), omega (arith, l), e))
      ]

  -- The code of a whole number of time steps since 1970, by RFC 4226.
  abbrev pub code_at : (key : List ℕ) (digits steps : ℕ) → Option ℕ
  code_at key digits steps = code_of digits (hmac key (big_endian 8 steps))

  generate_totp-code_at :
      (key : List ℕ) (digits time_step k now : ℕ)
      → k ≤ now / time_step
      → now / time_step < 2 ^ 64
      → generate_totp hmac key digits time_step k now ≡ code_at key digits (now / time_step - k)
  unfolding generate_totp
  generate_totp-code_at key digits time_step k now h l =
      ap (code_at key digits) (omega (arith, h, l))

  -- For a hash with digests of 20 bytes, a number is accepted at a time exactly if it is the code of the
  -- time step of that time or of one of the `time_window` time steps before it, when there are so many since
  -- 1970 and their number has 64 bits.
  pub validate_totp-codes :
      (key : List ℕ) (digits time_step time_window now code : ℕ)
      → ((message : List ℕ) → length (hmac key message) ≡ 20)
      → time_window ≤ now / time_step
      → now / time_step < 2 ^ 64
      → (validate_totp hmac (pos code) key digits time_step time_window now ≡ some true)
        ↔ ((k : ℕ) × (k ≤ time_window) × (code_at key digits (now / time_step - k) ≡ some code))
  unfolding validate_totp
  validate_totp-codes key digits time_step time_window now code len past bits = (
    λ h.
        let (k, g, l, e) = any_code_sound key digits time_step now (time_window + 1) 0 code len h in
        let w : k ≤ time_window = omega (arith, l) in
        let f = generate_totp-code_at key digits time_step k now (omega (arith, w, past)) bits in
        (k, w, sym f ∙ e),
    λ (k, l, e).
        let f = generate_totp-code_at key digits time_step k now (omega (arith, l, past)) bits in
        any_code-found key digits time_step now (time_window + 1) 0 k code len (omega arith)
          (omega (arith, l)) (f ∙ e),
  )

  -- The code of a time is valid at every time from then on until `time_window` time steps later.
  pub validate-generate_totp :
      (key : List ℕ) (digits time_step time_window timestamp now code : ℕ)
      → ((message : List ℕ) → length (hmac key message) ≡ 20)
      → timestamp / time_step ≤ now / time_step
      → now / time_step ≤ timestamp / time_step + time_window
      → generate_totp hmac key digits time_step 0 timestamp ≡ some code
      → validate_totp hmac (pos code) key digits time_step time_window now ≡ some true
  unfolding validate_totp generate_totp
  validate-generate_totp key digits time_step time_window timestamp now code len h k e =
      any_code-found key digits time_step now (time_window + 1) 0
        (now / time_step - timestamp / time_step) code len (omega arith) (omega arith)
        (ap (λ t. code_of digits (hmac key (big_endian 8 t))) (ap (λ t. t % 2 ^ 64) (omega arith))
          ∙ e)
