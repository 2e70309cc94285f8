-- ===== src/Client/Rate.antt =====
-- The limit of the rate of chat messages, over runs of a client.
use collab_vm_server.Base.{
  ℕ, suc, ◌+◌, ◌-◌, ◌*◌, ◌≤◌, ◌≡◌, ◌⊎◌, inl, inr, ap, subst, refl, Bool, true, false, not, List, [],
  ◌∷◌, ◌++◌, Option, arith,
}
use native.Mathlib.Nat.{suc-mul}
use collab_vm_server.Client.{Rules, Socket, ClientMessage, Task, chat}
use collab_vm_server.Client.Runs.{
  Event, connected, received, captcha_checked, captcha_demanded, session_created, joined,
  joined_global_chat, list_viewed, step, run, if_viewing,
}
use collab_vm_server.Client.Handle.{
  on_message, handle_message, tasks_of, handle_chat, is_chat_refused, handle_config_request,
  leave_config, read_input, handle_change_username, handle_registration,
}

abbrev pub chats : List Task → ℕ
chats [] = 0
chats (chat destination message ∷ ts) = suc (chats ts)
chats (t ∷ ts) = chats ts

-- The messages arrive in the order of their times, from `start` to `end`.
abbrev pub Timed : ℕ → List Event → ℕ → Type 0
Timed start [] end = start ≤ end
Timed start (received now m ∷ es) end = (start ≤ now) × Timed now es end
Timed start (e ∷ es) end = Timed start es end

-- A message is accepted only after the limit, and its time is then remembered.
on_message-rate :
    (rules : Rules) (c : Socket) (now : ℕ) (m : Option ClientMessage)
    → c.last_chat_message ≤ now
    → (chats (on_message rules c now m).1 ≡ 0)
        × ((on_message rules c now m).0.last_chat_message ≡ c.last_chat_message)
      ⊎ (chats (on_message rules c now m).1 ≡ 1)
        × ((on_message rules c now m).0.last_chat_message ≡ now)
        × (rules.chat_rate_limit ≤ now - c.last_chat_message)
unfolding on_message handle_message tasks_of handle_chat is_chat_refused handle_config_request
    leave_config read_input handle_change_username handle_registration
on_message-rate rules c now m h = ground arith

chats-append : (ts us : List Task) → chats (ts ++ us) ≡ chats ts + chats us
chats-append [] us = omega arith
chats-append (t ∷ ts) us = ground (arith, chats-append ts us)

Timed-le : (start : ℕ) (es : List Event) (end : ℕ) → Timed start es end → start ≤ end
Timed-le start [] end h = h
Timed-le start (received now m ∷ es) end h = omega (arith, h.0, Timed-le now es end h.1)
Timed-le start (connected b ∷ es) end h = Timed-le start es end h
Timed-le start (captcha_checked b ∷ es) end h = Timed-le start es end h
Timed-le start (captcha_demanded ∷ es) end h = Timed-le start es end h
Timed-le start (session_created b ∷ es) end h = Timed-le start es end h
Timed-le start (joined vm_id ∷ es) end h = Timed-le start es end h
Timed-le start (joined_global_chat ∷ es) end h = Timed-le start es end h
Timed-le start (list_viewed ∷ es) end h = Timed-le start es end h

-- The tasks of an event in front of those of a run.
add_none :
    (limit end : ℕ) (ts us : List Task) (last : ℕ)
    → chats ts ≡ 0
    → chats us * limit ≤ end - last
    → chats (ts ++ us) * limit ≤ end - last
add_none limit end ts us last h k =
    let same : chats (ts ++ us) ≡ chats us = omega (arith, chats-append ts us, h) in
    omega (arith, ap (λ n. n * limit) same, k)

add_one :
    (limit end now : ℕ) (ts us : List Task) (last : ℕ)
    → chats ts ≡ 1
    → limit ≤ now - last
    → last ≤ now
    → now ≤ end
    → chats us * limit ≤ end - now
    → chats (ts ++ us) * limit ≤ end - last
add_one limit end now ts us last h near ordered early k =
    let more : chats (ts ++ us) ≡ suc (chats us) = omega (arith, chats-append ts us, h) in
    omega (arith, ap (λ n. n * limit) more, suc-mul (chats us) limit, k, near, ordered, early)

if_viewing-chats : (b : Bool) → chats (if_viewing b) ≡ 0
if_viewing-chats true = refl
if_viewing-chats false = refl

-- Of the messages of a client that arrive until `end`, so many are accepted as chat messages that their
-- number times the limit of the rate fits into the time since the last message before them. The times
-- of the messages do not decrease.
pub chat_rate_bound :
    (rules : Rules) (c : Socket) (es : List Event) (start end : ℕ)
    → c.last_chat_message ≤ start
    → Timed start es end
    → chats (run c rules es) * rules.chat_rate_limit ≤ end - c.last_chat_message
unfolding run step
chat_rate_bound rules c [] start end h timed = omega arith
chat_rate_bound rules c (received now m ∷ es) start end h timed =
    let out = on_message rules c now m in
    let rest = run out.0 rules es in
    elim (on_message-rate rules c now m (omega (arith, h, timed.0))) [
      | inl (quiet, same) ↦
          let bound =
            chat_rate_bound rules out.0 es now end (omega (arith, same, h, timed.0)) timed.1 in
          add_none rules.chat_rate_limit end out.1 rest c.last_chat_message quiet
            (subst (λ l. chats rest * rules.chat_rate_limit ≤ end - l) same bound)
      | inr (spoken, same, near) ↦
          let bound = chat_rate_bound rules out.0 es now end (omega (arith, same)) timed.1 in
          add_one rules.chat_rate_limit end now out.1 rest c.last_chat_message spoken near
            (omega (arith, h, timed.0)) (Timed-le now es end timed.1)
            (subst (λ l. chats rest * rules.chat_rate_limit ≤ end - l) same bound)
    ]
chat_rate_bound rules c (connected b ∷ es) start end h timed =
    chat_rate_bound rules (record c { is_captcha_required = b }) es start end h timed
chat_rate_bound rules c (captcha_checked b ∷ es) start end h timed =
    chat_rate_bound rules (record c { is_captcha_required = not b }) es start end h timed
chat_rate_bound rules c (captcha_demanded ∷ es) start end h timed =
    chat_rate_bound rules (record c { is_captcha_required = true }) es start end h timed
chat_rate_bound rules c (session_created b ∷ es) start end h timed =
    chat_rate_bound rules (record c { is_logged_in = true; is_admin = b }) es start end h timed
chat_rate_bound rules c (joined vm_id ∷ es) start end h timed =
    let c' = (step c rules (joined vm_id)).0 in
    add_none rules.chat_rate_limit end (if_viewing c.is_viewing_vm_list) (run c' rules es)
      c.last_chat_message (if_viewing-chats c.is_viewing_vm_list)
      (chat_rate_bound rules c' es start end h timed)
chat_rate_bound rules c (joined_global_chat ∷ es) start end h timed =
    let c' = (step c rules joined_global_chat).0 in
    add_none rules.chat_rate_limit end (if_viewing c.is_viewing_vm_list) (run c' rules es)
      c.last_chat_message (if_viewing-chats c.is_viewing_vm_list)
      (chat_rate_bound rules c' es start end h timed)
chat_rate_bound rules c (list_viewed ∷ es) start end h timed =
    chat_rate_bound rules (record c { is_viewing_vm_list = true }) es start end h timed
