-- ===== src/Address/Limit.antt =====
-- The limit of the connections of an address while the setting stays the same.
use collab_vm_server.Base.{
  ℕ, ◌+◌, ◌≤◌, ◌<◌, ◌≡◌, refl, Bool, true, List, [], ◌∷◌, leb, length, arith,
}
use collab_vm_server.Base.Dict.{has_key, remove, count}
use collab_vm_server.Address.{
  IpData, Address, new_address, connects, closes, step, on_pre_connect, on_disconnect,
}

-- How many sockets that were accepted are not closed.
abbrev pub accepted : Address → ℕ
accepted a = count (λ is_accepted. is_accepted) a.sockets

-- The states of an address while the limit is on and 255 of its sockets at most are not closed at once,
-- those that wait for their closing after a refusal included.
pub data Reachable (max_connections : ℕ) : Address → Type 0 where
  start : Reachable max_connections new_address
  connected :
      {a : Address}
      → Reachable max_connections a
      → (socket : ℕ) → length a.sockets < 255
      → Reachable max_connections (step a (connects socket true max_connections))
  closed :
      {a : Address}
      → Reachable max_connections a
      → (socket : ℕ) → Reachable max_connections (step a (closes socket))

length-remove_present :
    (k : ℕ) (m : List (ℕ × Bool)) → has_key k m ≡ true → length (remove k m) + 1 ≡ length m
length-remove_present k [] h = cc
length-remove_present k ((j, v) ∷ m) h = ground (arith, length-remove_present k m)

count-remove :
    (k : ℕ) (m : List (ℕ × Bool))
    → count (λ is_accepted. is_accepted) (remove k m) ≤ count (λ is_accepted. is_accepted) m
count-remove k [] = omega arith
count-remove k ((j, v) ∷ m) = ground (arith, count-remove k m)

count-le-length : (m : List (ℕ × Bool)) → count (λ is_accepted. is_accepted) m ≤ length m
count-le-length [] = omega arith
count-le-length ((j, v) ∷ m) = ground (arith, count-le-length m)

on_pre_connect-cases :
    (d : IpData) (max_connections : ℕ)
    → d.connections < 255
    → ((on_pre_connect true max_connections d).0.connections ≡ d.connections + 1)
      × ((on_pre_connect true max_connections d).1 ≡ leb (d.connections + 1) max_connections)
unfolding on_pre_connect
on_pre_connect-cases d max_connections h = ground arith

-- While the limit stays on and at most 255 sockets of the address are not closed at once, the counter is
-- the number of these sockets, and no more of them are accepted than the limit.
pub Reachable-limited :
    (max_connections : ℕ) (a : Address)
    → Reachable max_connections a
    → (a.ip_data.connections ≡ length a.sockets) × (accepted a ≤ max_connections)
unfolding step on_disconnect
Reachable-limited max_connections _ start = (refl, omega arith)
Reachable-limited max_connections _ (connected {a} r socket h) = ground (
  arith,
  Reachable-limited max_connections a r,
  h,
  on_pre_connect-cases a.ip_data max_connections,
  count-le-length a.sockets,
)
Reachable-limited max_connections _ (closed {a} r socket) = ground (
  arith,
  Reachable-limited max_connections a r,
  length-remove_present socket a.sockets,
  count-remove socket a.sockets,
)

-- A limit of 255 or more refuses nobody, since the counter wraps around before it passes the limit.
pub large_limit_accepts :
    (d : IpData) (max_connections : ℕ)
    → 255 ≤ max_connections
    → (on_pre_connect true max_connections d).1 ≡ true
unfolding on_pre_connect
large_limit_accepts d max_connections h = ground arith
