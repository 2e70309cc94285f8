-- ===== src/Chat/Ring.antt =====
-- The ring buffer of CollabVmChatRoom.hpp against the list of all messages ever added.
use collab_vm_server.Base.{
  ℕ, zero, suc, ◌+◌, ◌-◌, ◌%◌, ◌≤◌, ◌<◌, ◌≡◌, refl, sym, ap, ◌∙◌, List, [], ◌∷◌, ◌++◌, some, length,
  get_elem?, drop, if◌then◌else◌, ◌==◌, arith,
}
use collab_vm_server.Chat.{ChatMessage, ChatRoom, read_messages, get_chat_history, min}

pub get_elem?-in {ℓ} :
    {A : Type ℓ} (xs : List A) (i : ℕ) → i < length xs → (x : A) × (get_elem? xs i ≡ some x)
get_elem?-in [] i h = elim h [ ]
get_elem?-in (x ∷ xs) zero h = (x, refl)
get_elem?-in (x ∷ xs) (suc i) h = get_elem?-in xs i (omega arith)

pub get_elem?-append_left {ℓ} :
    {A : Type ℓ} (xs ys : List A) (i : ℕ) → i < length xs → get_elem? (xs ++ ys) i ≡ get_elem? xs i
get_elem?-append_left [] ys i h = elim h [ ]
get_elem?-append_left (x ∷ xs) ys zero h = refl
get_elem?-append_left (x ∷ xs) ys (suc i) h = get_elem?-append_left xs ys i (omega arith)

pub get_elem?-append_last {ℓ} :
    {A : Type ℓ} (xs : List A) (x : A) → get_elem? (xs ++ x ∷ []) (length xs) ≡ some x
get_elem?-append_last [] x = refl
get_elem?-append_last (y ∷ xs) x = get_elem?-append_last xs x

drop-step {ℓ} :
    {A : Type ℓ} (xs : List A) (i : ℕ) (x : A)
    → get_elem? xs i ≡ some x
    → drop i xs ≡ x ∷ drop (suc i) xs
drop-step [] i x e = cc
drop-step (y ∷ xs) zero x e = ground arith
drop-step (y ∷ xs) (suc i) x e = drop-step xs i x e

drop_all {ℓ} : {A : Type ℓ} (xs : List A) → drop (length xs) xs ≡ []
drop_all [] = refl
drop_all (x ∷ xs) = drop_all xs

-- The room holds the last messages of the log, each in the slot of its index modulo the size.
pub record Holds (room : ChatRoom) (log : List ChatMessage) : Type 0 where
  pub size : length room.messages ≡ 100
  pub offset : room.next_message_offset ≡ length log % 100
  pub counted : room.count ≡ min (length log) 100
  pub slots :
      (k : ℕ)
      → k < length log
      → length log ≤ k + 100
      → get_elem? room.messages (k % 100) ≡ get_elem? log k

read_messages_lem :
    (messages log : List ChatMessage) (left k : ℕ)
    → length messages ≡ 100
    → k + left ≡ length log
    → left ≤ 100
    → ((j : ℕ)
        → j < length log
        → length log ≤ j + 100
        → get_elem? messages (j % 100) ≡ get_elem? log j)
    → read_messages messages (k % 100) left ≡ some (drop k log)
unfolding read_messages
read_messages_lem messages log zero k size e l h =
    ap some (sym (drop_all log) ∙ ap (λ i. drop i log) (omega arith))
read_messages_lem messages log (suc left) k size e l h =
    let (x, at) = get_elem?-in log k (omega arith) in
    let here = h k (omega arith) (omega arith) ∙ at in
    let next : (k % 100 + 1) % length messages ≡ suc k % 100 = rw size (omega arith) in
    rw (here, next)
      (rw (read_messages_lem messages log left (suc k) size (omega arith) (omega arith) h)
        (ap some (sym (drop-step log k x at))))

-- The history is the last hundred messages of the log, oldest first.
pub get_chat_history-Holds :
    (room : ChatRoom) (log : List ChatMessage)
    → Holds room log
    → get_chat_history room ≡ some (drop (length log - 100) log)
unfolding get_chat_history
get_chat_history-Holds room log h =
    let start : (if room.count == 100 then room.next_message_offset else 0)
        ≡ (length log - 100) % 100 =
      ground (arith, h.offset, h.counted) in
    let amount : (length log - 100) + room.count ≡ length log = ground (arith, h.counted) in
    rw start (
      read_messages_lem room.messages log room.count (length log - 100) h.size amount
        (ground (arith, h.counted)) h.slots)
