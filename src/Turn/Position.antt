-- ===== src/Turn/Position.antt =====
-- The positions that TurnController.hpp keeps in the users agree with the queue, and what
-- `RemoveUser` does to them.
use collab_vm_server.Base.{
  ℕ, zero, suc, ◌+◌, ◌<◌, ◌≡◌, refl, sym, ap, ◌∙◌, ◌≢◌, inl, inr, true, false, List, [], ◌∷◌, ◌++◌,
  Option, none, some, length, drop, contains, update, if◌then◌else◌, ◌==◌, Bool-cases, Option-cases,
  ◌||◌, arith, ==_refl, ==→≡, ≢→==,
}
use collab_vm_server.Turn.{pred_size, erase_at, decrement, reset_positions}

-- The users of the list have the positions k, k + 1, ... in this order.
abbrev pub Numbered : ℕ → List ℕ → (ℕ → Option ℕ) → Type 0
Numbered k [] p = Unit {0}
Numbered k (u ∷ us) p = (p u ≡ some k) × Numbered (suc k) us p

-- The list without the first occurrence of a user.
abbrev pub erase : ℕ → List ℕ → List ℕ
erase u [] = []
erase u (v ∷ vs) = if u == v then vs else v ∷ erase u vs

contains_lower :
    (m n u : ℕ) (us : List ℕ) (p : ℕ → Option ℕ)
    → Numbered m us p
    → p u ≡ some n
    → n < m
    → contains u us ≡ false
contains_lower m n u [] p h e l = refl
contains_lower m n u (v ∷ vs) p h e l = elim (Bool-cases (u == v)) [
  | inl same ↦ let uv : u ≡ v = ==→≡ u v same in absurd (ground (arith, ap p uv))
  | inr other ↦ rw other (contains_lower (suc m) n u vs p h.1 e (omega arith))
]

Numbered-update :
    (m u : ℕ) (us : List ℕ) (p : ℕ → Option ℕ) (v : Option ℕ)
    → contains u us ≡ false
    → Numbered m us p
    → Numbered m us (update p u v)
Numbered-update m u [] p v c h = tt
Numbered-update m u (w ∷ ws) p v c h = elim (Bool-cases (u == w)) [
  | inl same ↦ ground arith
  | inr other ↦ (ground arith, Numbered-update (suc m) u ws p v (ground arith) h.1)
]

pred_size-suc : (k : ℕ) → pred_size (suc k) ≡ k
pred_size-suc k = ground arith

update_self : (p : ℕ → Option ℕ) (u : ℕ) (v : Option ℕ) → update p u v u ≡ v
update_self p u v = rw (==_refl u)

decrement_lem :
    (k : ℕ) (us : List ℕ) (p : ℕ → Option ℕ)
    → Numbered (suc k) us p
    → (p' : ℕ → Option ℕ) × (decrement p us ≡ some p')
      × Numbered k us p'
      × ((w : ℕ) → contains w us ≡ false → p' w ≡ p w)
unfolding decrement
decrement_lem k [] p h = (p, refl, tt, λ w c. refl)
decrement_lem k (u ∷ us) p h =
    let q : ℕ → Option ℕ = update p u (some k) in
    let fresh : contains u us ≡ false =
      contains_lower (suc (suc k)) (suc k) u us p h.1 h.0 (omega arith) in
    let (p', run, num, rest) =
      decrement_lem (suc k) us q (Numbered-update (suc (suc k)) u us p (some k) fresh h.1) in
    (
      p',
      rw (h.0, decrement) (ap (λ x. decrement (update p u (some x)) us) (pred_size-suc k) ∙ run),
      (rest u fresh ∙ update_self p u (some k), num),
      λ w c. ground (arith, rest w),
    )

pub contains-erase : (w u : ℕ) (us : List ℕ) → w ≢ u → contains w (erase u us) ≡ contains w us
contains-erase w u [] h = refl
contains-erase w u (v ∷ vs) h = ground (arith, contains-erase w u vs h, ≢→== w u h)

-- A user of a numbered list has a number from the list's range.
pub contains_number :
    (k u : ℕ) (us : List ℕ) (p : ℕ → Option ℕ)
    → Numbered k us p
    → contains u us ≡ true
    → (i : ℕ) × (p u ≡ some (k + i)) × (i < length us)
contains_number k u [] p h c = cc
contains_number k u (v ∷ vs) p h c = elim (Bool-cases (u == v)) [
  | inl same ↦ (0, ap p (==→≡ u v same) ∙ h.0 ∙ ap some (omega arith), omega arith)
  | inr other ↦
      let (i, e, l) = contains_number (suc k) u vs p h.1 (ground arith) in
      (suc i, e ∙ ap some (omega arith), omega arith)
]

-- What a removal leaves: the erased list, with the numbers of those behind it one lower.
pub record Removed (k u i : ℕ) (us : List ℕ) (p p' : ℕ → Option ℕ) : Type 0 where
  pub erased : erase_at us i ≡ some (erase u us)
  pub run : decrement p (drop i (erase u us)) ≡ some p'
  pub old : p' u ≡ some (k + i)
  pub numbered : Numbered k (erase u us) (update p' u none)
  pub others : (w : ℕ) → contains w (erase u us) ≡ false → p' w ≡ p w

pub removal :
    (k u i : ℕ) (us : List ℕ) (p : ℕ → Option ℕ)
    → Numbered k us p
    → p u ≡ some (k + i)
    → contains u us ≡ true
    → (p' : ℕ → Option ℕ) × Removed k u i us p p'
unfolding erase_at
removal k u i [] p h e c = cc
removal k u zero (v ∷ vs) p h e c = elim (Bool-cases (u == v)) [
  | inl same ↦
      let away : contains u vs ≡ false =
        contains_lower (suc k) k u vs p h.1 (e ∙ ap some (omega arith)) (omega arith) in
      let (p', run, num, rest) = decrement_lem k vs p h.1 in
      (
        p',
        record {
          erased = rw same;
          run = rw same run;
          old = rest u away ∙ e;
          numbered = rw same (Numbered-update k u vs p' none away num);
          others = λ w. rw same (rest w);
        },
      )
  | inr other ↦
      let (j, ej, lj) = contains_number (suc k) u vs p h.1 (ground arith) in
      absurd (ground (arith, e, ej))
]
removal k u (suc i) (v ∷ vs) p h e c = elim (Bool-cases (u == v)) [
  | inl same ↦ absurd (ground (arith, e, h.0, ap p (==→≡ u v same)))
  | inr other ↦
      let (p', r) = removal (suc k) u i vs p h.1 (e ∙ ap some (omega arith)) (ground arith) in
      let vs' = erase u vs in
      let front : contains v vs ≡ false = contains_lower (suc k) k v vs p h.1 h.0 (omega arith) in
      let ne : v ≢ u = λ q. ground (arith, ==_refl u) in
      (
        p',
        record {
          erased = rw (other, r.erased) refl;
          run = rw other r.run;
          old = r.old ∙ ap some (omega arith);
          numbered = rw other (
            ground (arith, ≢→== v u ne, r.others v (contains-erase v u vs ne ∙ front), h.0),
            r.numbered,
          );
          others = λ w. rw other (λ cw. r.others w (ground arith));
        },
      )
]

-- The users' positions describe the queue exactly.
pub record IsValid (queue : List ℕ) (p : ℕ → Option ℕ) : Type 0 where
  pub numbered : Numbered 0 queue p
  pub only : (u n : ℕ) → p u ≡ some n → contains u queue ≡ true

pub IsValid-empty : IsValid [] (λ u. none)
IsValid-empty = record { numbered = tt; only = λ u n e. cc }

Numbered-append :
    (k u : ℕ) (us : List ℕ) (p : ℕ → Option ℕ)
    → Numbered k us p
    → p u ≡ some (k + length us)
    → Numbered k (us ++ u ∷ []) p
Numbered-append k u [] p h e = (e ∙ ap some (omega arith), tt)
Numbered-append k u (v ∷ vs) p h e =
    (h.0, Numbered-append (suc k) u vs p h.1 (e ∙ ap some (omega arith)))

contains-append : (w u : ℕ) (us : List ℕ) → contains w (us ++ u ∷ []) ≡ (contains w us || w == u)
contains-append w u [] = ground arith
contains-append w u (v ∷ vs) = ground (arith, contains-append w u vs)

-- In a valid state a user without a position is not in the queue.
pub absent :
    {us : List ℕ} {p : ℕ → Option ℕ} (u : ℕ) → IsValid us p → p u ≡ none → contains u us ≡ false
absent {us} {p} u h e = elim (Bool-cases (contains u us)) [
  | inl c ↦ let (i, f, l) = contains_number 0 u us p h.numbered c in absurd (cc)
  | inr c ↦ c
]

pub IsValid-enqueue :
    (u : ℕ) (us : List ℕ) (p : ℕ → Option ℕ)
    → IsValid us p
    → p u ≡ none
    → IsValid (us ++ u ∷ []) (update p u (some (length us)))
IsValid-enqueue u us p h e = record {
  numbered =
      Numbered-append 0 u us (update p u (some (length us)))
        (Numbered-update 0 u us p (some (length us)) (absent u h e) h.numbered)
        (update_self p u (some (length us)) ∙ ap some (omega arith));
  only = λ w n q. rw (contains-append w u us) (ground (arith, h.only w n));
}

pub IsValid-erase :
    (u i : ℕ) (us : List ℕ) (p p' : ℕ → Option ℕ)
    → IsValid us p
    → Removed 0 u i us p p'
    → IsValid (erase u us) (update p' u none)
IsValid-erase u i us p p' h r = record { numbered = r.numbered; only = kept }
  where
    kept : (w n : ℕ) → update p' u none w ≡ some n → contains w (erase u us) ≡ true
    kept w n q = elim (Bool-cases (w == u)) [
      | inl same ↦ absurd (ground arith)
      | inr other ↦ elim (Bool-cases (contains w (erase u us))) [
        | inl c ↦ c
        | inr c ↦
            let ne : w ≢ u = λ z. ground (arith, other) in
            contains-erase w u us ne ∙ h.only w n (sym (r.others w c) ∙ ground (arith, other, q))
      ]
    ]

reset_positions-none :
    (us : List ℕ) (p : ℕ → Option ℕ)
    → ((w : ℕ) → contains w us ≡ false → p w ≡ none)
    → (w : ℕ) → reset_positions p us w ≡ none
unfolding reset_positions
reset_positions-none [] p h w = h w refl
reset_positions-none (u ∷ us) p h w =
    reset_positions-none us (update p u none) (λ v c. ground (arith, h v)) w

pub IsValid-clear :
    (us : List ℕ) (p : ℕ → Option ℕ) → IsValid us p → IsValid [] (reset_positions p us)
IsValid-clear us p h = record {
  numbered = tt;
  only = λ u n e. ground (arith, e, reset_positions-none us p unlisted u);
}
  where
    unlisted : (w : ℕ) → contains w us ≡ false → p w ≡ none
    unlisted w c = elim (Option-cases (p w)) [
      | inl e ↦ e
      | inr (n, e) ↦ absurd (ground (arith, h.only w n e, c))
    ]
