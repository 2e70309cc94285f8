-- ===== src/Archive/Earliest.antt =====
-- The file that is found for a time.
use collab_vm_server.Base.{
  ℕ, ◌≤◌, ◌≡◌, refl, sym, ap, ◌∙◌, inl, inr, ◌⊎◌, true, false, List, [], ◌∷◌, none, some, arith,
  Option-cases, Bool-cases,
}
use collab_vm_server.Archive.{Row, in_span, start_of, first_in_span, earlier}

-- A row of the list, by its place.
pub data In (r : Row) : List Row → Type 0 where
  here : {rs : List Row} → In r (r ∷ rs)
  there : {q : Row} {rs : List Row} → In r rs → In r (q ∷ rs)

first_in_span-skip :
    (vm_id start stop : ℕ) (q : Row) (rows : List Row)
    → in_span vm_id start stop q ≡ false
    → first_in_span vm_id start stop (q ∷ rows) ≡ first_in_span vm_id start stop rows
unfolding first_in_span
first_in_span-skip vm_id start stop q rows h = rw (h, first_in_span) refl

first_in_span-take :
    (vm_id start stop : ℕ) (q : Row) (rows : List Row)
    → in_span vm_id start stop q ≡ true
    → first_in_span vm_id start stop (q ∷ rows)
      ≡ some (earlier q (first_in_span vm_id start stop rows))
unfolding first_in_span
first_in_span-take vm_id start stop q rows h = rw (h, first_in_span) refl

earlier-cases :
    (p t : Row)
    → (earlier p (some t) ≡ p) × (start_of p ≤ start_of t)
      ⊎ (earlier p (some t) ≡ t) × (start_of t ≤ start_of p)
earlier-cases p t = ground arith

-- A row of the table that is found, in the span.
unfoldable pub Found : (vm_id start stop : ℕ) (rows : List Row) (r : Row) → Type 0
Found vm_id start stop rows r =
    (first_in_span vm_id start stop rows ≡ some r) × In r rows × (in_span vm_id start stop r ≡ true)

Found-skip :
    (vm_id start stop : ℕ) (p : Row) (rows : List Row) (r : Row)
    → in_span vm_id start stop p ≡ false
    → Found vm_id start stop rows r
    → Found vm_id start stop (p ∷ rows) r
unfolding Found
Found-skip vm_id start stop p rows r out h =
    (first_in_span-skip vm_id start stop p rows out ∙ h.0, there h.1, h.2)

-- A row in the span in front of others: the one that is found does not start after it nor after the one
-- that is found among the others.
Found-both :
    (vm_id start stop : ℕ) (p : Row) (rows : List Row) (t : Row)
    → in_span vm_id start stop p ≡ true
    → Found vm_id start stop rows t
    → (r : Row) × Found vm_id start stop (p ∷ rows) r
      × (start_of r ≤ start_of p)
      × (start_of r ≤ start_of t)
unfolding Found
Found-both vm_id start stop p rows t inside h =
    let both =
      first_in_span-take vm_id start stop p rows inside ∙ ap (λ o. some (earlier p o)) h.0 in
    elim (earlier-cases p t) [
      | inl (e, le) ↦ (p, (both ∙ ap some e, here, inside), omega arith, le)
      | inr (e, le) ↦ (t, (both ∙ ap some e, there h.1, h.2), le, omega arith)
    ]

Found-alone :
    (vm_id start stop : ℕ) (p : Row) (rows : List Row)
    → in_span vm_id start stop p ≡ true
    → first_in_span vm_id start stop rows ≡ none
    → Found vm_id start stop (p ∷ rows) p
unfolding Found
Found-alone vm_id start stop p rows inside e = (
  first_in_span-take vm_id start stop p rows inside ∙ ap (λ o. some (earlier p o)) e,
  here,
  inside,
)

-- What is found is in the table and in the span.
Found-some :
    (vm_id start stop : ℕ) (rows : List Row) (r : Row)
    → first_in_span vm_id start stop rows ≡ some r
    → (t : Row) × Found vm_id start stop rows t
Found-some vm_id start stop [] r h = absurd (unfold first_in_span in ground (arith, h))
Found-some vm_id start stop (p ∷ rows) r h = elim (Bool-cases (in_span vm_id start stop p)) [
  | inl inside ↦ elim (Option-cases (first_in_span vm_id start stop rows)) [
    | inl e ↦ (p, Found-alone vm_id start stop p rows inside e)
    | inr (t, e) ↦
        let (u, found) = Found-some vm_id start stop rows t e in
        let (w, both, _, _) = Found-both vm_id start stop p rows u inside found in (w, both)
  ]
  | inr out ↦
      let skipped = first_in_span-skip vm_id start stop p rows out in
      let (t, found) = Found-some vm_id start stop rows r (sym skipped ∙ h) in
      (t, Found-skip vm_id start stop p rows t out found)
]

-- If a recording of the VM starts in a span of time, a recording of the table is found that starts in the
-- span and not after that one.
pub first_in_span-le :
    (vm_id start stop : ℕ) (rows : List Row) (q : Row)
    → In q rows
    → in_span vm_id start stop q ≡ true
    → (r : Row) × Found vm_id start stop rows r × (start_of r ≤ start_of q)
first_in_span-le vm_id start stop [] q i h = elim i [ ]
first_in_span-le vm_id start stop (_ ∷ rows) q here h =
    elim (Option-cases (first_in_span vm_id start stop rows)) [
      | inl e ↦ (q, Found-alone vm_id start stop q rows h e, omega arith)
      | inr (t, e) ↦
          let (u, found) = Found-some vm_id start stop rows t e in
          let (r, both, le, _) = Found-both vm_id start stop q rows u h found in (r, both, le)
    ]
first_in_span-le vm_id start stop (p ∷ rows) q (there i) h =
    let (t, found, le) = first_in_span-le vm_id start stop rows q i h in
    elim (Bool-cases (in_span vm_id start stop p)) [
      | inl inside ↦
          let (r, both, _, le') = Found-both vm_id start stop p rows t inside found in
          (r, both, omega (arith, le, le'))
      | inr out ↦ (t, Found-skip vm_id start stop p rows t out found, le)
    ]
