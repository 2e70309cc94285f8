-- ===== src/Captcha.antt =====
-- CaptchaVerifier.hpp: requests to a captcha service, one at a time, with a queue of those that wait. The
-- completions of its asynchronous calls are events. A callback is the number that identifies it. `none` is
-- the use of a request or of settings that are not there.
pub mod Order
pub mod Failures
pub mod Tests
use collab_vm_server.Base.{
  ℕ, ◌+◌, Bool, true, false, not, ◌||◌, List, [], ◌∷◌, ◌++◌, map, Option, none, some, leb,
  if◌then◌else◌,
}

pub record VerifyRequest : Type 0 where
  pub callback : ℕ
  pub response_token : List ℕ
  pub remote_ip : List ℕ

-- The settings of the captcha service.
pub record Settings : Type 0 where
  pub enabled : Bool
  pub https : Bool
  pub url_host : List ℕ
  pub url_port : ℕ
  pub url_path : List ℕ
  pub post_params : List ℕ

pub record Verifier : Type 0 where
  pub request : Option VerifyRequest
  pub queue : List VerifyRequest
  pub settings : Option Settings
  pub pending_settings : Option Settings
  pub failed_count : ℕ

pub data Method : Type 0 where
  get post : Method

pub data Effect : Type 0 where
  called : ℕ → Bool → Effect
  set_method : Method → Effect
  set_host : List ℕ → Effect
  close_stream : Effect
  resolve_and_connect : (host : List ℕ) → (port : ℕ) → (https : Bool) → Effect
  async_handshake : Effect
  async_write : (target body : List ℕ) → (https : Bool) → Effect
  async_read : Effect
  wait_for_retry_timer : Effect

abbrev pub is_empty : List ℕ → Bool
is_empty [] = true
is_empty (c ∷ cs) = false

unfoldable pub set_settings : Verifier → Settings → Verifier × List Effect
set_settings v new_settings = (
  record v { pending_settings = some new_settings },
  set_host new_settings.url_host
      ∷ set_method (if is_empty new_settings.post_params then get else post)
      ∷ close_stream
      ∷ [],
)

-- The settings of the next connection.
abbrev pub newest : Option Settings → Option Settings → Option Settings
newest none settings = settings
newest (some p) settings = some p

abbrev pub enabled_in : Option Settings → Bool
enabled_in none = false
enabled_in (some s) = s.enabled

abbrev connect_by : Verifier → Option Settings → Option (Verifier × List Effect)
connect_by v none = none
connect_by v (some s) = some (v, resolve_and_connect s.url_host s.url_port s.https ∷ [])

abbrev adopt : Verifier → Option Settings → Verifier
adopt v none = v
adopt v (some p) = record v { settings = some p; pending_settings = none; failed_count = 0 }

unfoldable pub connect : Verifier → Option (Verifier × List Effect)
connect v = connect_by (adopt v v.pending_settings) (newest v.pending_settings v.settings)

abbrev pub max_fail_count : ℕ
max_fail_count = 3

abbrev pub reject : VerifyRequest → Effect
reject r = called r.callback false

unfoldable pub retry : Verifier → Option (Verifier × List Effect)
retry v =
    let failed = v.failed_count + 1 in
    if leb max_fail_count failed
    then elim v.request [
      | none ↦ none
      | some r ↦ some (
        record v { failed_count = failed; request = none; queue = [] },
        reject r ∷ map reject v.queue,
      )
    ]
    else some (record v { failed_count = failed }, wait_for_retry_timer ∷ [])

-- `boost::algorithm::replace_all` of a text, what to look for and what to put there, and the texts of
-- the two variables.
module _ (replace_all : List ℕ → List ℕ → List ℕ → List ℕ) (token_name ip_name : List ℕ) where
  unfoldable pub replace_variables : List ℕ → VerifyRequest → List ℕ
  replace_variables body r =
      replace_all (replace_all body token_name r.response_token) ip_name r.remote_ip

  abbrev pub write_of : Settings → VerifyRequest → Effect
  write_of s r =
      async_write (replace_variables s.url_path r)
        (if is_empty s.post_params then [] else replace_variables s.post_params r) s.https

  unfoldable pub send_request : Verifier → Option (Verifier × List Effect)
  unfolding replace_variables
  send_request v = elim v.settings [
    | none ↦ none
    | some s ↦ elim v.request [
      | none ↦ none
      | some r ↦ some (record v { failed_count = 0 }, write_of s r ∷ [])
    ]
  ]

  -- `is_open` says if the stream's socket is open.
  unfoldable pub verify :
      Verifier → (is_open : Bool) → VerifyRequest → Option (Verifier × List Effect)
  unfolding connect send_request
  verify v is_open r =
      if not (enabled_in (newest v.pending_settings v.settings))
      then some (v, called r.callback true ∷ [])
      else if is_empty r.response_token
      then some (v, called r.callback false ∷ [])
      else elim v.request [
        | some current ↦ some (record v { queue = v.queue ++ r ∷ [] }, [])
        | none ↦
            let v' = record v { request = some r } in
            if is_open then send_request v' else connect v'
      ]

  -- The completion of `async_connect`.
  unfoldable pub on_connect : Verifier → (use_ssl failed : Bool) → Option (Verifier × List Effect)
  unfolding retry send_request
  on_connect v use_ssl failed =
      if failed then retry v else if use_ssl then some (v, async_handshake ∷ []) else send_request v

  unfoldable pub on_handshake : Verifier → (failed : Bool) → Option (Verifier × List Effect)
  unfolding retry send_request
  on_handshake v failed = if failed then retry v else send_request v

  unfoldable pub on_write : Verifier → (failed : Bool) → Option (Verifier × List Effect)
  unfolding retry
  on_write v failed = if failed then retry v else some (v, async_read ∷ [])

  abbrev answer_then : Effect → Option (Verifier × List Effect) → Option (Verifier × List Effect)
  answer_then e none = none
  answer_then e (some (v, es)) = some (v, e ∷ es)

  -- `is_valid` is the variable of the response, or false if it could not be parsed.
  unfoldable pub on_read : Verifier → (failed is_valid : Bool) → Option (Verifier × List Effect)
  unfolding retry send_request
  on_read v failed is_valid = if failed then retry v else elim v.request [
    | none ↦ none
    | some r ↦ elim v.queue [
      | [] ↦ some (record v { request = none }, called r.callback is_valid ∷ [])
      | next ∷ queue ↦
          answer_then (called r.callback is_valid)
            (send_request (record v { request = some next; queue = queue }))
    ]
  ]

pub data Event : Type 0 where
  asked : (is_open : Bool) → VerifyRequest → Event
  settings_changed : Settings → Event
  connected : (use_ssl failed : Bool) → Event
  shaken : (failed : Bool) → Event
  was_written : (failed : Bool) → Event
  was_read : (failed is_valid : Bool) → Event
  retry_timer_fired : Event

module _ (replace_all : List ℕ → List ℕ → List ℕ → List ℕ) (token_name ip_name : List ℕ) where
  unfoldable pub step : Verifier → Event → Option (Verifier × List Effect)
  step v (asked is_open r) = verify replace_all token_name ip_name v is_open r
  step v (settings_changed s) = some (set_settings v s)
  step v (connected use_ssl failed) = on_connect replace_all token_name ip_name v use_ssl failed
  step v (shaken failed) = on_handshake replace_all token_name ip_name v failed
  step v (was_written failed) = on_write replace_all token_name ip_name v failed
  step v (was_read failed is_valid) = on_read replace_all token_name ip_name v failed is_valid
  step v retry_timer_fired = connect v

  abbrev before : List Effect → Option (Verifier × List Effect) → Option (Verifier × List Effect)
  before es none = none
  before es (some (v, more)) = some (v, es ++ more)

  unfoldable pub run : Verifier → List Event → Option (Verifier × List Effect)
  unfolding step
  run v [] = some (v, [])
  run v (e ∷ events) = elim (step v e) [ none ↦ none | some (v', es) ↦ before es (run v' events) ]
