-- ===== src/Chat/History.antt =====
-- What CollabVmChatRoom.hpp shows of the messages of users: the last hundred of them.
use collab_vm_server.Base.{
  ℕ, zero, suc, ◌+◌, ◌-◌, ◌%◌, ◌≤◌, ◌<◌, ◌≡◌, refl, sym, ap, ◌∙◌, ◌≢◌, inl, inr, List, [], ◌∷◌,
  ◌++◌, Option, some, length, get_elem?, set, drop, replicate, map, ◌==◌, arith, length-set,
  length-append, get_elem?-set_self, get_elem?-set_ne, Bool-cases, ==→≡, subst, append_assoc,
  append-nil, ◌>>=◌,
}
use collab_vm_server.User.{UserType}
use collab_vm_server.Chat.{
  ChatMessage, ChatRoom, ChannelChatMessage, new_room, add_user_message, get_chat_history,
  copy_string_to_text_builder, min,
}
use collab_vm_server.Chat.Ring.{
  Holds, get_elem?-in, get_elem?-append_left, get_elem?-append_last, get_chat_history-Holds,
}

-- What a user says.
pub record Said : Type 0 where
  pub username : List ℕ
  pub user_type : UserType
  pub message : List ℕ
  pub timestamp : ℕ

abbrev pub pad : ℕ → List ℕ → List ℕ
pad size text = text ++ replicate (size - length text) 0

module _ (max_username_len max_message_len : ℕ) (default_type : UserType) where
  -- The lengths that the callers check.
  abbrev pub Fits : Said → Type 0
  Fits m = (length m.username ≤ max_username_len) × (length m.message ≤ max_message_len)

  abbrev pub AllFit : List Said → Type 0
  AllFit [] = Unit {0}
  AllFit (m ∷ ms) = Fits m × AllFit ms

  -- The message as the history shows it: padded, and with the default user type.
  abbrev pub stored : Said → ChatMessage
  stored m = record {
    sender = pad max_username_len m.username;
    user_type = default_type;
    message = pad max_message_len m.message;
    timestamp = m.timestamp;
  }

  abbrev pub broadcast : ℕ → Said → ChannelChatMessage
  broadcast id m = record {
    channel = id;
    content = record {
      sender = m.username;
      user_type = m.user_type;
      message = m.message;
      timestamp = m.timestamp;
    };
  }

  abbrev pub Untyped : ChatRoom → Type 0
  Untyped room =
      (i : ℕ) (m : ChatMessage) → get_elem? room.messages i ≡ some m → m.user_type ≡ default_type

  abbrev pub say : ChatRoom → Said → Option (ChannelChatMessage × ChatRoom)
  say room m =
      add_user_message max_username_len max_message_len room m.username m.user_type m.message
        m.timestamp

  -- The room after a message in the slot of the next offset.
  abbrev after_message : ChatRoom → Said → ChatRoom
  after_message room m = record room {
    count = min (room.count + 1) 100;
    next_message_offset = (room.next_message_offset + 1) % 100;
    messages = set room.messages room.next_message_offset (stored m);
  }

  say_lem :
      (room : ChatRoom) (m : Said)
      → Fits m
      → Untyped room
      → room.next_message_offset < length room.messages
      → say room m ≡ some (broadcast room.id m, after_message room m)
  unfolding add_user_message copy_string_to_text_builder
  say_lem room m (fu, fm) typed inside =
      let (slot, at) = get_elem?-in room.messages room.next_message_offset inside in
      ground (arith, at, typed room.next_message_offset slot)

  Holds-after :
      (room : ChatRoom) (log : List ChatMessage) (m : Said)
      → Holds room log
      → Holds (after_message room m) (log ++ stored m ∷ [])
  Holds-after room log m h = record {
    size = length-set room.messages room.next_message_offset (stored m) ∙ h.size;
    offset = ground (arith, h.offset, length-append log (stored m ∷ []));
    counted = ground (arith, h.counted, length-append log (stored m ∷ []));
    slots = slots;
  }
    where
      at_end : length (log ++ stored m ∷ []) ≡ length log + 1
      at_end = length-append log (stored m ∷ [])

      slots :
          (k : ℕ)
          → k < length (log ++ stored m ∷ [])
          → length (log ++ stored m ∷ []) ≤ k + 100
          → get_elem? (set room.messages room.next_message_offset (stored m)) (k % 100)
            ≡ get_elem? (log ++ stored m ∷ []) k
      slots k below recent = elim (Bool-cases (k == length log)) [
        | inl last ↦
            let here : k ≡ length log = ==→≡ k (length log) last in
            let slot : k % 100 ≡ room.next_message_offset = ap (λ n. n % 100) here ∙ sym h.offset in
            rw slot (
              get_elem?-set_self room.messages room.next_message_offset (stored m)
                (omega (arith, h.offset, h.size))
              ∙ sym (
                  ap (get_elem? (log ++ stored m ∷ [])) here
                  ∙ get_elem?-append_last log (stored m)))
        | inr old ↦
            let ne : k ≢ length log = λ e. ground (arith, e, old) in
            let before : k < length log = omega (arith, at_end) in
            let other : room.next_message_offset ≢ k % 100 = omega (arith, at_end, h.offset) in
            get_elem?-set_ne room.messages room.next_message_offset (k % 100) (stored m) other
            ∙ h.slots k before (omega (arith, at_end))
            ∙ sym (get_elem?-append_left log (stored m ∷ []) k before)
      ]

  Untyped-after :
      (room : ChatRoom) (m : Said)
      → room.next_message_offset < length room.messages
      → Untyped room
      → Untyped (after_message room m)
  Untyped-after room m inside h i x e = elim (Bool-cases (room.next_message_offset == i)) [
    | inl same ↦
        let new : get_elem? (set room.messages room.next_message_offset (stored m)) i
            ≡ some (stored m) =
          subst
            (λ j.
              get_elem? (set room.messages room.next_message_offset (stored m)) j ≡ some (stored m))
            (==→≡ room.next_message_offset i same)
            (get_elem?-set_self room.messages room.next_message_offset (stored m) inside) in
        ground (arith, e, new)
    | inr other ↦
        let ne : room.next_message_offset ≢ i = λ q. ground (arith, q, other) in
        h i x (sym (get_elem?-set_ne room.messages room.next_message_offset i (stored m) ne) ∙ e)
  ]

  unfoldable pub say_all : ChatRoom → List Said → Option ChatRoom
  say_all room [] = some room
  say_all room (m ∷ ms) = say room m >>= λ said. say_all said.1 ms

  Holds-say_all :
      (room : ChatRoom) (log : List ChatMessage) (ms : List Said)
      → Holds room log
      → Untyped room
      → AllFit ms
      → (room' : ChatRoom) × (say_all room ms ≡ some room') × Holds room' (log ++ map stored ms)
  unfolding say_all
  Holds-say_all room log [] h u f = (room, refl, rw append-nil h)
  Holds-say_all room log (m ∷ ms) h u f =
      let inside : room.next_message_offset < length room.messages =
        omega (arith, h.offset, h.size) in
      let (room', ran, done) =
        Holds-say_all (after_message room m) (log ++ stored m ∷ []) ms (Holds-after room log m h)
          (Untyped-after room m inside u) f.1 in
      (
        room',
        rw (say_lem room m f.0 u inside) ran,
        subst (Holds room') (append_assoc log (stored m ∷ []) (map stored ms)) done,
      )

  get_elem?-replicate : (n i : ℕ) (x y : ChatMessage) → get_elem? (replicate n x) i ≡ some y → y ≡ x
  get_elem?-replicate zero i x y e = cc
  get_elem?-replicate (suc n) zero x y e = cc
  get_elem?-replicate (suc n) (suc i) x y e = get_elem?-replicate n i x y e

  Holds-new : (id : ℕ) → Holds (new_room max_username_len max_message_len default_type id) []
  unfolding new_room
  Holds-new id = record {
    size = refl;
    offset = refl;
    counted = refl;
    slots = λ k below. elim below [ ];
  }

  Untyped-new : (id : ℕ) → Untyped (new_room max_username_len max_message_len default_type id)
  unfolding new_room
  Untyped-new id i m e = ap (λ (x : ChatMessage). x.user_type) (get_elem?-replicate 100 i _ m e)

  -- In a new room any messages of permitted length can be said. The history then shows the last hundred
  -- of them, oldest first, with padded texts and the default user type in place of the sender's.
  pub get_chat_history-say_all :
      (id : ℕ) (ms : List Said)
      → AllFit ms
      → (room : ChatRoom) × (say_all (new_room max_username_len max_message_len default_type id) ms
          ≡ some room)
        × (get_chat_history room ≡ some (drop (length (map stored ms) - 100) (map stored ms)))
  get_chat_history-say_all id ms f =
      let (room, ran, h) =
        Holds-say_all (new_room max_username_len max_message_len default_type id) [] ms
          (Holds-new id) (Untyped-new id) f in
      (room, ran, get_chat_history-Holds room (map stored ms) h)
