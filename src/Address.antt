-- ===== src/Address.antt =====
-- IPData.hpp with `OnPreConnect` and `OnDisconnect` of CollabVmServer.hpp: how many connections an
-- address has. A settings dispatch comes before each of them is counted, so that the settings are
-- those of that moment.
pub mod Limit
pub mod Tests
use collab_vm_server.Base.{
  ℕ, ◌+◌, ◌-◌, ◌%◌, ◌^◌, Bool, true, false, List, [], ◌∷◌, none, some, ltb, if◌then◌else◌,
}
use collab_vm_server.Base.Dict.{lookup, emplace, remove, has_key}

-- `connections` is an 8-bit counter.
pub record IpData : Type 0 where
  pub connections : ℕ

abbrev pub new_ip_data : IpData
new_ip_data = record { connections = 0 }

-- The data of an address, made when the address is first seen.
unfoldable pub get_ip_data : (address : ℕ) → List (ℕ × IpData) → List (ℕ × IpData) × IpData
get_ip_data address m = elim (lookup address m) [
  | none ↦ (emplace address new_ip_data m, new_ip_data)
  | some d ↦ (m, d)
]

-- The new data, and whether the connection is accepted; it is closed otherwise.
unfoldable pub on_pre_connect :
    (max_connections_enabled : Bool) (max_connections : ℕ) → IpData → IpData × Bool
on_pre_connect max_connections_enabled max_connections d =
    if max_connections_enabled
    then (let c = (d.connections + 1) % 2 ^ 8 in
        if ltb max_connections c
        then (record { connections = c }, false)
        else (record { connections = c }, true))
    else (d, true)

-- The last part of `OnDisconnect`.
unfoldable pub on_disconnect : IpData → IpData
on_disconnect d = if ltb 0 d.connections then record { connections = d.connections - 1 } else d

-- An address with its sockets that are not closed, and which of them were accepted.
pub record Address : Type 0 where
  pub ip_data : IpData
  pub sockets : List (ℕ × Bool)

abbrev pub new_address : Address
new_address = record { ip_data = new_ip_data; sockets = [] }

pub data Event : Type 0 where
  connects : (socket : ℕ) (max_connections_enabled : Bool) (max_connections : ℕ) → Event
  -- `Close` of a socket, which calls `OnDisconnect` the first time only.
  closes : (socket : ℕ) → Event

unfoldable pub step : Address → Event → Address
unfolding on_pre_connect on_disconnect
step a (connects socket max_connections_enabled max_connections) =
    let (d, is_accepted) = on_pre_connect max_connections_enabled max_connections a.ip_data in
    record { ip_data = d; sockets = (socket, is_accepted) ∷ a.sockets }
step a (closes socket) =
    if has_key socket a.sockets
    then record { ip_data = on_disconnect a.ip_data; sockets = remove socket a.sockets }
    else a
