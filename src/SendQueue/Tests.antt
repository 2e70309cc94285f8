-- ===== src/SendQueue/Tests.antt =====
-- A message, a batch while it is written, and the completion.
use collab_vm_server.Base.{◌≡◌, ◌++◌, List, [], ◌∷◌, none, some, false}
use collab_vm_server.SendQueue.{
  Event, queued, batched, completed, new_sender, run, step, send_message_callback, queue_message,
}
use collab_vm_server.SendQueue.Order.{written, wanted, send_message_callback-run}
use collab_vm_server.SendQueue.Serial.{new, queues, Serial, Reachable-Serial}

abbrev some_events : List Event
some_events = queued 1 ∷ batched (some 2 ∷ none ∷ some 3 ∷ []) ∷ completed false ∷ queued 4 ∷ []

send_message_callback-run_example :
    written (run new_sender some_events).1
      ++ written (send_message_callback (run new_sender some_events).0 false).1
    ≡ wanted some_events
send_message_callback-run_example = send_message_callback-run some_events

Reachable-Serial_example : Serial (step new_sender (queued 5)).0 1
unfolding step queue_message
Reachable-Serial_example = Reachable-Serial (step new_sender (queued 5)).0 1 (queues new 5)
