-- ===== src/SendQueue/Serial.antt =====
-- A socket has one write at most: the calls that queue messages and the completions of writes, which
-- come only while a write runs.
use collab_vm_server.Base.{
  ℕ, suc, ◌+◌, ◌≡◌, refl, ◌⊎◌, inl, Bool, true, List, [], ◌∷◌, Option, arith,
}
use collab_vm_server.SendQueue.{
  Sender, Effect, write, close, queued, batched, completed, new_sender, step, queue_message,
  queue_message_batch, send_message_callback,
}

-- How many writes a step starts.
abbrev pub started : List Effect → ℕ
started [] = 0
started (write ms ∷ es) = suc (started es)
started (close ∷ es) = started es

-- The states of a sender with the number of its writes that run.
pub data Reachable : Sender → ℕ → Type 0 where
  new : Reachable new_sender 0
  queues :
      {s : Sender} {n : ℕ}
      → Reachable s n
      → (m : ℕ) → Reachable (step s (queued m)).0 (n + started (step s (queued m)).1)
  batches :
      {s : Sender} {n : ℕ}
      → Reachable s n
      → (ms : List (Option ℕ))
      → Reachable (step s (batched ms)).0 (n + started (step s (batched ms)).1)
  completes :
      {s : Sender} {n : ℕ}
      → Reachable s (suc n)
      → (failed : Bool)
      → Reachable (step s (completed failed)).0 (n + started (step s (completed failed)).1)

-- A running write is known to the sender.
abbrev pub Serial : Sender → ℕ → Type 0
Serial s n = (n ≡ 0) ⊎ ((n ≡ 1) × (s.sending ≡ true))

-- At most one write of a socket runs at a time, and while one does the socket knows it.
pub Reachable-Serial : (s : Sender) (n : ℕ) → Reachable s n → Serial s n
unfolding step queue_message queue_message_batch send_message_callback
Reachable-Serial _ _ new = inl refl
Reachable-Serial _ _ (queues {s} {n} r m) = ground (arith, Reachable-Serial s n r)
Reachable-Serial _ _ (batches {s} {n} r ms) = ground (arith, Reachable-Serial s n r)
Reachable-Serial _ _ (completes {s} {n} r failed) = ground (arith, Reachable-Serial s (suc n) r)
