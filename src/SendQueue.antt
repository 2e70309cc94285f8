-- ===== src/SendQueue.antt =====
-- CollabVmServer.hpp: the queue of the messages that a socket sends. At most one write of the socket runs
-- at a time; `write` hands a batch of messages to it, and its completion calls `send_message_callback`.
pub mod Order
pub mod Serial
pub mod Tests
use collab_vm_server.Base.{
  ℕ, ◌+◌, Bool, true, false, not, ◌&&◌, List, [], ◌∷◌, ◌++◌, Option, none, some, length,
  if◌then◌else◌,
}

-- A message is the number that identifies it.
pub record Sender : Type 0 where
  pub sending : Bool
  pub send_queue : List ℕ

pub data Effect : Type 0 where
  write : List ℕ → Effect
  close : Effect

abbrev pub new_sender : Sender
new_sender = record { sending = false; send_queue = [] }

abbrev pub is_empty : List ℕ → Bool
is_empty [] = true
is_empty (m ∷ ms) = false

unfoldable pub queue_message : Sender → ℕ → Sender × List Effect
queue_message s m =
    if s.sending
    then (record s { send_queue = s.send_queue ++ m ∷ [] }, [])
    else (record s { sending = true }, write (m ∷ []) ∷ [])

-- The callback of `QueueMessageBatch` may pass null pointers, which are left out.
abbrev pub present : List (Option ℕ) → List ℕ
present [] = []
present (none ∷ ms) = present ms
present (some m ∷ ms) = m ∷ present ms

unfoldable pub queue_message_batch : Sender → List (Option ℕ) → Sender × List Effect
queue_message_batch s ms =
    let queue = s.send_queue ++ present ms in
    if not (is_empty queue) && not s.sending
    then (record { sending = true; send_queue = [] }, write queue ∷ [])
    else (record s { send_queue = queue }, [])

-- One message or all that wait are written next.
unfoldable pub send_message_callback : Sender → (failed : Bool) → Sender × List Effect
send_message_callback s failed =
    if failed
    then (s, close ∷ [])
    else if is_empty s.send_queue
    then (record s { sending = false }, [])
    else (record s { send_queue = [] }, write s.send_queue ∷ [])

pub data Event : Type 0 where
  queued : ℕ → Event
  batched : List (Option ℕ) → Event
  completed : (failed : Bool) → Event

unfoldable pub step : Sender → Event → Sender × List Effect
unfolding queue_message queue_message_batch send_message_callback
step s (queued m) = queue_message s m
step s (batched ms) = queue_message_batch s ms
step s (completed failed) = send_message_callback s failed

unfoldable pub run : Sender → List Event → Sender × List Effect
unfolding step
run s [] = (s, [])
run s (e ∷ es) = let (s', out) = step s e in let (s'', more) = run s' es in (s'', out ++ more)
