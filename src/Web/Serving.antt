-- ===== src/Web/Serving.antt =====
-- Which files a request can have sent, whatever the files of the host are.
use collab_vm_server.Base.{
  ℕ, ◌++◌, ◌≡◌, ◌≢◌, ◌⊎◌, inl, inr, refl, subst, if◌then◌else◌, Bool, true, false, List, [], ◌∷◌,
  Option, none, some, arith, Option-cases, Bool-cases, same_text, same_text→≡,
}
use collab_vm_server.Web.Paths.{Elements, elements, join, less_path, equal_prefix, any_dots}
use collab_vm_server.Web.{
  FileSystem, prepare_file, send_canonical, send_file_response, or_else, serve_file, respond_get,
  sent_or_not_found, not_found, close, method_not_allowed, accept_websocket, html, index_html,
  Request, Method, Response, file, respond, is_websocket, get, post, other,
}

-- A path at or below another one.
abbrev pub Inside : (doc_root path : Elements) → Type 0
Inside doc_root path = (rest : Elements) × (path ≡ doc_root ++ rest)

equal_prefix-Inside : (ds ps : Elements) → equal_prefix ds ps ≡ some true → Inside ds ps
unfolding equal_prefix
equal_prefix-Inside [] ps h = (ps, refl)
equal_prefix-Inside (d ∷ ds) [] h = absurd cc
equal_prefix-Inside (d ∷ ds) (p ∷ ps) h = elim (Bool-cases (same_text d p)) [
  | inl e ↦
      (let (rest, q) = equal_prefix-Inside ds ps (simp e at h) in
        let r = same_text→≡ d p e in (rest, cc))
  | inr e ↦ absurd (ground (arith, e, h))
]

-- A path that is not less is long enough to be compared.
less_path-equal_prefix :
    (ds ps : Elements) → less_path ps ds ≡ false → (b : Bool) × (equal_prefix ds ps ≡ some b)
unfolding equal_prefix less_path
less_path-equal_prefix [] ps h = (true, refl)
less_path-equal_prefix (d ∷ ds) [] h = absurd cc
less_path-equal_prefix (d ∷ ds) (p ∷ ps) h = elim (Bool-cases (same_text d p)) [
  | inl e ↦ (let (b, q) = less_path-equal_prefix ds ps (simp e at h) in (b, simp (e, q)))
  | inr e ↦ (false, simp e)
]

Method-cases : (m : Method) → (m ≡ get) ⊎ ((m ≡ post) ⊎ (m ≡ other))
Method-cases get = inl refl
Method-cases post = inr (inl refl)
Method-cases other = inr (inr refl)

-- A file that the host lets the server send: it is in the document root and not a directory.
abbrev pub Servable : FileSystem → (doc_root path : Elements) → Type 0
Servable fs doc_root p =
    Inside doc_root p × (fs.is_directory p ≡ some false) × (fs.can_open p ≡ true)

module _ (fs : FileSystem) (doc_root : Elements) where
  prepare_file-some :
      (q p : Elements)
      → prepare_file fs q ≡ some p
      → (q ≡ p) × (fs.is_directory q ≡ some false) × (fs.can_open q ≡ true)
  unfolding prepare_file
  prepare_file-some q p h = elim (Option-cases (fs.is_directory q)) [
    | inl e ↦ absurd (ground (arith, e, h))
    | inr (true, e) ↦ absurd (ground (arith, e, h))
    | inr (false, e) ↦ ground (arith, e, h)
  ]

  send_canonical-Servable :
      (q p : Elements) → send_canonical fs doc_root q ≡ some (some p) → Servable fs doc_root p
  unfolding send_canonical
  send_canonical-Servable q p h = elim (Bool-cases (less_path q doc_root)) [
    | inl e ↦ absurd (ground (arith, e, h))
    | inr e ↦
        (let (b, k) = less_path-equal_prefix doc_root q e in
          elim (Bool-cases b) [
            | inl t ↦
                (let (s, d, o) = prepare_file-some q p (ground (arith, e, k, t, h)) in
                  subst (Servable fs doc_root) s
                    (equal_prefix-Inside doc_root q (ground (arith, k, t)), d, o))
            | inr t ↦ absurd (ground (arith, e, k, t, h))
          ])
  ]

  send_file_response-Servable :
      (path p : Elements)
      → send_file_response fs doc_root path ≡ some (some p)
      → Servable fs doc_root p
  unfolding send_file_response
  send_file_response-Servable path p h = elim (Option-cases (fs.canonical (join doc_root path))) [
    | inl e ↦ absurd (ground (arith, e, h))
    | inr (q, e) ↦ send_canonical-Servable q p (ground (arith, e, h))
  ]

  send_file_response_returns :
      (path : Elements) → (r : Option Elements) × (send_file_response fs doc_root path ≡ some r)
  unfolding send_file_response send_canonical
  send_file_response_returns path = elim (Option-cases (fs.canonical (join doc_root path))) [
    | inl e ↦ (none, ground (arith, e))
    | inr (q, e) ↦ elim (Bool-cases (less_path q doc_root)) [
      | inl l ↦ (none, ground (arith, e, l))
      | inr l ↦
          (let (b, k) = less_path-equal_prefix doc_root q l in
            (if b then prepare_file fs q else none, ground (arith, e, l, k)))
    ]
  ]

  or_else-Servable :
      (a b : Option (Option Elements))
      → ((p : Elements) → a ≡ some (some p) → Servable fs doc_root p)
      → ((p : Elements) → b ≡ some (some p) → Servable fs doc_root p)
      → (p : Elements) → or_else a b ≡ some (some p)
      → Servable fs doc_root p
  or_else-Servable none b f g p h = absurd cc
  or_else-Servable (some none) b f g p h = g p h
  or_else-Servable (some (some q)) b f g p h = f p h

  or_else_returns :
      (a b : Option (Option Elements))
      → ((r : Option Elements) × (a ≡ some r))
      → ((r : Option Elements) × (b ≡ some r))
      → (r : Option Elements) × (or_else a b ≡ some r)
  or_else_returns none b (r, e) k = absurd cc
  or_else_returns (some none) b h k = k
  or_else_returns (some (some q)) b h k = (some q, refl)

  serve_file-Servable :
      (path p : Elements) → serve_file fs doc_root path ≡ some (some p) → Servable fs doc_root p
  unfolding serve_file
  serve_file-Servable [] = send_file_response-Servable (index_html ∷ [])
  serve_file-Servable (e ∷ es) = or_else-Servable _ _ (send_file_response-Servable (e ∷ es)) (
      or_else-Servable _ _ (send_file_response-Servable (elements (e ++ html)))
        (send_file_response-Servable (index_html ∷ [])))

  serve_file_returns :
      (path : Elements) → (r : Option Elements) × (serve_file fs doc_root path ≡ some r)
  unfolding serve_file
  serve_file_returns [] = send_file_response_returns (index_html ∷ [])
  serve_file_returns (e ∷ es) = or_else_returns _ _ (send_file_response_returns (e ∷ es)) (
      or_else_returns _ _ (send_file_response_returns (elements (e ++ html)))
        (send_file_response_returns (index_html ∷ [])))

  respond_get-Servable :
      (target : List ℕ) (p : Elements)
      → respond_get fs doc_root target ≡ some (file p)
      → Servable fs doc_root p
  unfolding respond_get
  respond_get-Servable [] p h = absurd cc
  respond_get-Servable (c ∷ cs) p h =
      let (sent, e) = serve_file_returns (elements cs) in
      elim (Option-cases sent) [
        | inl n ↦ absurd (ground (arith, n, e, h))
        | inr (q, n) ↦ serve_file-Servable (elements cs) p (ground (arith, n, e, h))
      ]

  respond_get_returns :
      (target : List ℕ)
      → target ≢ []
      → (response : Response) × (respond_get fs doc_root target ≡ some response)
  unfolding respond_get
  respond_get_returns [] h = absurd (h refl)
  respond_get_returns (c ∷ cs) h =
      let (sent, e) = serve_file_returns (elements cs) in
      elim (Bool-cases (any_dots (elements cs))) [
        | inl d ↦ (not_found, simp d)
        | inr d ↦ (sent_or_not_found sent, simp (d, e))
      ]

  module _ (exists : (value token : List ℕ) → Bool) where
    -- Whatever the target of a request, links and absolute paths included, a file that is sent is in the
    -- document root, is not a directory and could be opened, and the request was a GET.
    pub respond-Servable :
        (r : Request) (p : Elements)
        → respond exists fs doc_root r ≡ some (file p)
        → Servable fs doc_root p × (r.method ≡ get)
    unfolding respond
    respond-Servable r p h = elim (Method-cases r.method) [
      | inr (inl m) ↦ absurd (ground (arith, m, h))
      | inr (inr m) ↦ absurd (ground (arith, m, h))
      | inl m ↦ elim (Bool-cases (is_websocket exists r)) [
        | inl w ↦ absurd (ground (arith, m, w, h))
        | inr w ↦ (respond_get-Servable r.target p (ground (arith, m, w, h)), m)
      ]
    ]

    -- A request with a target that is not empty has an answer: no read goes behind the end of a path.
    pub respond_returns :
        (r : Request)
        → r.target ≢ []
        → (response : Response) × (respond exists fs doc_root r ≡ some response)
    unfolding respond
    respond_returns r h = elim (Method-cases r.method) [
      | inr (inl m) ↦ (close, ground (arith, m))
      | inr (inr m) ↦ (method_not_allowed, ground (arith, m))
      | inl m ↦ elim (Bool-cases (is_websocket exists r)) [
        | inl w ↦ (accept_websocket, ground (arith, m, w))
        | inr w ↦
            (let (response, e) = respond_get_returns r.target h in
              (response, ground (arith, m, w, e)))
      ]
    ]
