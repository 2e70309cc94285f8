-- ===== src/SendQueue/Order.antt =====
-- The messages of a socket are sent in the order in which they are queued.
use collab_vm_server.Base.{
  ℕ, ◌≡◌, refl, sym, ap, ◌∙◌, Bool, true, false, not, ◌&&◌, if◌then◌else◌, List, [], ◌∷◌, ◌++◌,
  append-nil, append_assoc, arith,
}
use collab_vm_server.SendQueue.{
  Sender, Effect, write, close, Event, queued, batched, completed, present, new_sender, is_empty,
  step, run, queue_message, queue_message_batch, send_message_callback,
}

-- The messages of all writes.
abbrev pub written : List Effect → List ℕ
written [] = []
written (write ms ∷ es) = ms ++ written es
written (close ∷ es) = written es

-- The messages that were to be sent.
abbrev pub wanted : List Event → List ℕ
wanted [] = []
wanted (queued m ∷ es) = m ∷ wanted es
wanted (batched ms ∷ es) = present ms ++ wanted es
wanted (completed failed ∷ es) = wanted es

-- Nothing waits while nothing is being sent.
abbrev pub Ready : Sender → Type 0
Ready s = s.sending ≡ false → s.send_queue ≡ []

written-append : (es fs : List Effect) → written (es ++ fs) ≡ written es ++ written fs
written-append [] fs = refl
written-append (write ms ∷ es) fs =
    ap (λ r. ms ++ r) (written-append es fs) ∙ sym (append_assoc ms (written es) (written fs))
written-append (close ∷ es) fs = written-append es fs

pub step-Ready : (s : Sender) (e : Event) → Ready s → Ready (step s e).0
unfolding step queue_message queue_message_batch send_message_callback
step-Ready s (queued m) h = ground (arith, h)
step-Ready s (batched ms) h = by_queue (s.send_queue ++ present ms) s.sending
  where
    by_queue :
        (q : List ℕ) (b : Bool)
        → Ready
            (if◌then◌else◌ {A = Sender × List Effect}
              (not (is_empty q) && not b)
              (record { sending = true; send_queue = [] }, write q ∷ [])
              (record { sending = b; send_queue = q }, [])).0
    by_queue [] b = λ w. refl
    by_queue (m ∷ q) true = λ w. absurd (ground arith)
    by_queue (m ∷ q) false = λ w. refl
step-Ready s (completed failed) h = ground (arith, h)

step_sends :
    (s : Sender) (e : Event)
    → Ready s
    → written (step s e).1 ++ (step s e).0.send_queue ≡ s.send_queue ++ wanted (e ∷ [])
unfolding step queue_message queue_message_batch send_message_callback
step_sends s (queued m) h = ground (arith, h)
step_sends s (batched ms) h = ground (
  arith,
  h,
  append-nil s.send_queue,
  append-nil (present ms),
  append-nil (s.send_queue ++ present ms),
)
step_sends s (completed failed) h = ground (arith, h, append-nil s.send_queue)

wanted_first : (e : Event) (es : List Event) → wanted (e ∷ []) ++ wanted es ≡ wanted (e ∷ es)
wanted_first (queued m) es = refl
wanted_first (batched ms) es = ap (λ l. l ++ wanted es) (append-nil (present ms))
wanted_first (completed failed) es = refl

-- What has been written and what still waits is, in order, what waited before and what has been queued.
pub run_delivers :
    (s : Sender) (es : List Event)
    → Ready s
    → written (run s es).1 ++ (run s es).0.send_queue ≡ s.send_queue ++ wanted es
unfolding run
run_delivers s [] h = sym (append-nil s.send_queue)
run_delivers s (e ∷ es) h =
    let s' = (step s e).0 in
    let out = (step s e).1 in
    let more = (run s' es).1 in
    let last = (run s' es).0.send_queue in
    ap (λ l. l ++ last) (written-append out more)
    ∙ append_assoc (written out) (written more) last
    ∙ ap (λ l. written out ++ l) (run_delivers s' es (step-Ready s e h))
    ∙ sym (append_assoc (written out) s'.send_queue (wanted es))
    ∙ ap (λ l. l ++ wanted es) (step_sends s e h)
    ∙ append_assoc s.send_queue (wanted (e ∷ [])) (wanted es)
    ∙ ap (λ l. s.send_queue ++ l) (wanted_first e es)

callback_flushes : (s : Sender) → written (send_message_callback s false).1 ≡ s.send_queue
unfolding send_message_callback
callback_flushes s = ground (arith, append-nil s.send_queue)

-- Whatever is queued in whatever order with completions, one successful completion more and all messages
-- have been written, each once, in the order in which they were queued.
pub send_message_callback-run :
    (es : List Event)
    → written (run new_sender es).1 ++ written (send_message_callback (run new_sender es).0 false).1
      ≡ wanted es
send_message_callback-run es =
    ap (λ l. written (run new_sender es).1 ++ l) (callback_flushes (run new_sender es).0)
    ∙ run_delivers new_sender es (λ w. refl)
