-- ===== src/Captcha/Tests.antt =====
-- Two requests with tokens, of which one is sent to the service. The variables stand for themselves.
use collab_vm_server.Base.{ℕ, ◌≡◌, refl, List, [], ◌∷◌, some, true, false}
use collab_vm_server.Captcha.{
  VerifyRequest, Settings, Verifier, Effect, was_read, on_read, send_request, async_write, called,
  step, run,
}
use collab_vm_server.Captcha.Order.{InOrder, asks, calls, waiting, step-InOrder}
use collab_vm_server.Captcha.Failures.{busy, failing_writes, failing_writes_never_reject}

abbrev kept : List ℕ → List ℕ → List ℕ → List ℕ
kept body name value = body

abbrev service : Settings
service = record {
  enabled = true;
  https = false;
  url_host = 104 ∷ [];
  url_port = 80;
  url_path = 47 ∷ [];
  post_params = [];
}

abbrev first : VerifyRequest
first = record { callback = 1; response_token = 5 ∷ []; remote_ip = 9 ∷ [] }

abbrev second : VerifyRequest
second = record { callback = 2; response_token = 6 ∷ []; remote_ip = 9 ∷ [] }

abbrev answered : List Effect
answered = called 1 true ∷ async_write (47 ∷ []) [] false ∷ []

step-InOrder_example :
    InOrder
      (busy service first (second ∷ []) 0)
      (asks (was_read false true))
      (busy service second [] 0)
      answered
unfolding step on_read send_request
step-InOrder_example =
    step-InOrder kept [] [] (busy service first (second ∷ []) 0) (busy service second [] 0)
      (was_read false true) answered (λ w. absurd cc) refl

failing_writes_never_reject_example :
    (v' : Verifier) × (es : List Effect) × (run kept [] []
        (busy service first [] 0)
        (failing_writes 7)
      ≡ some (v', es))
    × (calls es ≡ [])
    × (waiting v' ≡ waiting (busy service first [] 0))
failing_writes_never_reject_example = failing_writes_never_reject kept [] [] 7 0 service first []
