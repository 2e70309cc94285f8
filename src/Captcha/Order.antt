-- ===== src/Captcha/Order.antt =====
-- CaptchaVerifier.hpp: the callbacks that are called and those that wait, in order.
use collab_vm_server.Base.{
  ℕ, ◌≡◌, refl, ap, ◌⊎◌, inl, inr, Bool, true, false, List, [], ◌∷◌, ◌++◌, map, Option, none, some,
  leb, ◌+◌, append-nil, Bool-cases, Option-cases, arith,
}
use collab_vm_server.Captcha.{
  VerifyRequest, Verifier, Effect, called, set_host, set_method, close_stream, resolve_and_connect,
  async_handshake, async_write, async_read, wait_for_retry_timer, connect, retry, send_request,
  verify, on_connect, on_handshake, on_write, on_read, set_settings, Event, asked, settings_changed,
  connected, shaken, was_written, was_read, retry_timer_fired, step, reject, is_empty, newest,
  enabled_in,
}

-- The callbacks that are called, in order.
abbrev pub calls : List Effect → List ℕ
calls [] = []
calls (called c b ∷ es) = c ∷ calls es
calls (set_host h ∷ es) = calls es
calls (set_method m ∷ es) = calls es
calls (close_stream ∷ es) = calls es
calls (resolve_and_connect h p s ∷ es) = calls es
calls (async_handshake ∷ es) = calls es
calls (async_write t b s ∷ es) = calls es
calls (async_read ∷ es) = calls es
calls (wait_for_retry_timer ∷ es) = calls es

abbrev pub callback_of : VerifyRequest → ℕ
callback_of r = r.callback

abbrev current : Option VerifyRequest → List ℕ
current none = []
current (some r) = r.callback ∷ []

-- The callbacks that wait for an answer, in order.
abbrev pub waiting : Verifier → List ℕ
waiting v = current v.request ++ map callback_of v.queue

-- Nothing is in the queue unless a request runs.
abbrev pub Queued : Verifier → Type 0
Queued v = v.request ≡ none → v.queue ≡ []

abbrev pub asks : Event → List ℕ
asks (asked is_open r) = r.callback ∷ []
asks _ = []

-- The step answers at once and changes nothing, or who waited first is answered first.
abbrev pub InOrder : Verifier → List ℕ → Verifier → List Effect → Type 0
InOrder v asked_now v' es =
    Queued v'
    × (((v' ≡ v) × (calls es ≡ asked_now)) ⊎ (calls es ++ waiting v' ≡ waiting v ++ asked_now))

pub calls-reject : (rs : List VerifyRequest) → calls (map reject rs) ≡ map callback_of rs
calls-reject [] = refl
calls-reject (r ∷ rs) = ap (λ l. r.callback ∷ l) (calls-reject rs)

callbacks-append :
    (rs : List VerifyRequest) (r : VerifyRequest)
    → map callback_of (rs ++ r ∷ []) ≡ map callback_of rs ++ r.callback ∷ []
callbacks-append [] r = refl
callbacks-append (s ∷ rs) r = ap (λ l. s.callback ∷ l) (callbacks-append rs r)

-- The requests stay as they are.
abbrev Same : Verifier → Verifier → List Effect → Type 0
Same v v' es = (v'.request ≡ v.request) × (v'.queue ≡ v.queue) × (calls es ≡ [])

connect-Same : (v v' : Verifier) (es : List Effect) → connect v ≡ some (v', es) → Same v v' es
unfolding connect
connect-Same v v' es h = ground (arith, h)

Same-InOrder : (v v' : Verifier) (es : List Effect) → Queued v → Same v v' es → InOrder v [] v' es
Same-InOrder v v' es q (request, queue, none_called) = (
  λ w. ground (arith, request, queue, w, q),
  inr (ground (arith, request, queue, none_called, append-nil (waiting v))),
)

retry-InOrder :
    (v v' : Verifier) (es : List Effect) → Queued v → retry v ≡ some (v', es) → InOrder v [] v' es
unfolding retry
retry-InOrder v v' es q h = elim (Bool-cases (leb 3 (v.failed_count + 1))) [
  | inr again ↦ Same-InOrder v v' es q (ground (arith, h, again))
  | inl over ↦ elim (Option-cases v.request) [
    | inl f ↦ absurd (ground (arith, h, over, f))
    | inr (r, f) ↦ (
      λ w. ground (arith, h, over, f),
      inr (
          ground (
            arith,
            h,
            over,
            f,
            calls-reject v.queue,
            append-nil (waiting v),
            append-nil (calls es),
          )),
    )
  ]
]

module _ (replace_all : List ℕ → List ℕ → List ℕ → List ℕ) (token_name ip_name : List ℕ) where
  send-Same :
      (v v' : Verifier) (es : List Effect)
      → send_request replace_all token_name ip_name v ≡ some (v', es)
      → Same v v' es
  unfolding send_request
  send-Same v v' es h = ground (arith, h)

  verify-InOrder :
      (v v' : Verifier) (is_open : Bool) (r : VerifyRequest) (es : List Effect)
      → Queued v
      → verify replace_all token_name ip_name v is_open r ≡ some (v', es)
      → InOrder v (r.callback ∷ []) v' es
  unfolding verify
  verify-InOrder v v' is_open r es q h = elim (Option-cases v.request) [
    | inr (c, f) ↦ (λ w. ground (arith, h, f, w), ground (arith, h, f, callbacks-append v.queue r))
    | inl f ↦
        let asked_first = record v { request = some r } in
        let empty : v.queue ≡ [] = q f in
        let starts : Same asked_first v' es → InOrder v (r.callback ∷ []) v' es =
          λ (request, queue, none_called). (
            λ w. ground (arith, request, w),
            inr (ground (arith, request, queue, none_called, empty, f)),
          ) in
        elim (Bool-cases (enabled_in (newest v.pending_settings v.settings))) [
          | inr off ↦ (
            λ w. ground (arith, h, f, off, empty),
            inl (ground (arith, h, off), ground (arith, h, off)),
          )
          | inl on ↦ elim (Bool-cases (is_empty r.response_token)) [
            | inl no_token ↦ (
              λ w. ground (arith, h, f, on, no_token, empty),
              inl (ground (arith, h, on, no_token), ground (arith, h, on, no_token)),
            )
            | inr token ↦ elim (Bool-cases is_open) [
              | inl o ↦ starts (send-Same asked_first v' es (ground (arith, h, f, on, token, o)))
              | inr o ↦ starts (connect-Same asked_first v' es (ground (arith, h, f, on, token, o)))
            ]
          ]
        ]
  ]

  read-InOrder :
      (v v' : Verifier) (failed is_valid : Bool) (es : List Effect)
      → Queued v
      → on_read replace_all token_name ip_name v failed is_valid ≡ some (v', es)
      → InOrder v [] v' es
  unfolding on_read
  read-InOrder v v' true is_valid es q h = retry-InOrder v v' es q h
  read-InOrder v v' false is_valid es q h = elim (Option-cases v.request) [
    | inl f ↦ absurd (ground (arith, h, f))
    | inr (r, f) ↦ by_queue r f v.queue refl
  ]
    where
      by_queue :
          (r : VerifyRequest)
          → v.request ≡ some r
          → (rs : List VerifyRequest) → v.queue ≡ rs
          → InOrder v [] v' es
      by_queue r f [] g = (λ w. ground (arith, h, f, g), inr (ground (arith, h, f, g)))
      by_queue r f (next ∷ rs) g =
          let then_next = record v { request = some next; queue = rs } in
          elim (Option-cases (send_request replace_all token_name ip_name then_next)) [
            | inl e ↦ absurd (ground (arith, h, f, g, e))
            | inr ((w, fs), e) ↦
                let (request, queue, none_called) = send-Same then_next w fs e in
                (
                  λ x. absurd (ground (arith, h, f, g, e, request, x)),
                  inr (
                      ground (
                        arith,
                        h,
                        f,
                        g,
                        e,
                        request,
                        queue,
                        none_called,
                        append-nil (r.callback ∷ next.callback ∷ map callback_of rs),
                      )),
                )
          ]

  -- Where nothing is queued unless a request runs, a step that succeeds keeps it so, and either it answers a new
  -- request at once and changes nothing, or the callbacks that it calls and those that wait after it are in
  -- order those that waited before and that of a new request: none is lost, called twice or overtaken.
  pub step-InOrder :
      (v v' : Verifier) (e : Event) (es : List Effect)
      → Queued v
      → step replace_all token_name ip_name v e ≡ some (v', es)
      → InOrder v (asks e) v' es
  unfolding step on_connect on_handshake on_write set_settings
  step-InOrder v v' (asked is_open r) es q h = verify-InOrder v v' is_open r es q h
  step-InOrder v v' (settings_changed s) es q h =
      Same-InOrder v v' es q (ground (arith, h), ground (arith, h), ground (arith, h))
  step-InOrder v v' (connected use_ssl true) es q h = retry-InOrder v v' es q h
  step-InOrder v v' (connected true false) es q h =
      Same-InOrder v v' es q (ground (arith, h), ground (arith, h), ground (arith, h))
  step-InOrder v v' (connected false false) es q h = Same-InOrder v v' es q (send-Same v v' es h)
  step-InOrder v v' (shaken true) es q h = retry-InOrder v v' es q h
  step-InOrder v v' (shaken false) es q h = Same-InOrder v v' es q (send-Same v v' es h)
  step-InOrder v v' (was_written true) es q h = retry-InOrder v v' es q h
  step-InOrder v v' (was_written false) es q h =
      Same-InOrder v v' es q (ground (arith, h), ground (arith, h), ground (arith, h))
  step-InOrder v v' (was_read failed is_valid) es q h = read-InOrder v v' failed is_valid es q h
  step-InOrder v v' retry_timer_fired es q h = Same-InOrder v v' es q (connect-Same v v' es h)
