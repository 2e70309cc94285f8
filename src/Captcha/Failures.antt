-- ===== src/Captcha/Failures.antt =====
-- CaptchaVerifier.hpp: how often a failure is tried again.
use collab_vm_server.Base.{
  ℕ, zero, suc, ◌≡◌, refl, ap, ◌∙◌, true, false, List, [], ◌∷◌, ◌++◌, map, none, some, append-nil,
}
use collab_vm_server.Captcha.{
  VerifyRequest, Settings, Verifier, Effect, connect, retry, send_request, on_connect, on_write,
  Event, connected, was_written, retry_timer_fired, step, run, reject, write_of,
  wait_for_retry_timer, resolve_and_connect,
}
use collab_vm_server.Captcha.Order.{calls, waiting, calls-reject}

-- The service accepts a connection, the write of the request fails, and the timer fires, again and again.
abbrev pub failing_writes : ℕ → List Event
failing_writes zero = []
failing_writes (suc n) =
    connected false false ∷ was_written true ∷ retry_timer_fired ∷ failing_writes n

-- Connections are refused until the verifier gives up.
abbrev pub refused_connections : List Event
refused_connections =
    connected false true
    ∷ retry_timer_fired
    ∷ connected false true
    ∷ retry_timer_fired
    ∷ connected false true
    ∷ []

-- A verifier with settings that are in use, a request that runs and others that wait.
abbrev pub busy : Settings → VerifyRequest → List VerifyRequest → ℕ → Verifier
busy s r queue n = record {
  request = some r;
  queue = queue;
  settings = some s;
  pending_settings = none;
  failed_count = n;
}

module _ (replace_all : List ℕ → List ℕ → List ℕ → List ℕ) (token_name ip_name : List ℕ) where
  -- After three refused connections in a row, with no failure before, every callback that waits is called in
  -- its turn, and nothing waits any more.
  pub refused_connections_reject :
      (s : Settings) (r : VerifyRequest) (queue : List VerifyRequest)
      → (v' : Verifier) × (es : List Effect) × (run replace_all token_name ip_name
            (busy s r queue 0)
            refused_connections
          ≡ some (v', es))
        × (calls es ≡ waiting (busy s r queue 0))
        × (waiting v' ≡ [])
  unfolding run step on_connect retry connect
  refused_connections_reject s r queue = (
    record {
      request = none;
      queue = [];
      settings = some s;
      pending_settings = none;
      failed_count = 3;
    },
    wait_for_retry_timer
        ∷ resolve_and_connect s.url_host s.url_port s.https
        ∷ wait_for_retry_timer
        ∷ resolve_and_connect s.url_host s.url_port s.https
        ∷ reject r
        ∷ (map reject queue ++ []),
    refl,
    ap (λ l. r.callback ∷ l) (ap calls (append-nil (map reject queue)) ∙ calls-reject queue),
    refl,
  )

  -- However often the write of the request fails after a connection, no callback is called and all that
  -- waited wait still: the request and its queue never reach the limit of failures.
  pub failing_writes_never_reject :
      (k n : ℕ) (s : Settings) (r : VerifyRequest) (queue : List VerifyRequest)
      → (v' : Verifier) × (es : List Effect) × (run replace_all token_name ip_name
            (busy s r queue n)
            (failing_writes k)
          ≡ some (v', es))
        × (calls es ≡ [])
        × (waiting v' ≡ waiting (busy s r queue n))
  unfolding run step on_connect on_write retry connect send_request
  failing_writes_never_reject zero n s r queue = (busy s r queue n, [], refl, refl, refl)
  failing_writes_never_reject (suc k) n s r queue =
      let (v', more, ran, none_called, same) = failing_writes_never_reject k 1 s r queue in
      (
        v',
        write_of replace_all token_name ip_name s r
            ∷ wait_for_retry_timer
            ∷ resolve_and_connect s.url_host s.url_port s.https
            ∷ more,
        rw ran refl,
        none_called,
        same,
      )
