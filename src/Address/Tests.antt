-- ===== src/Address/Tests.antt =====
-- An address whose limit is one connection.
use collab_vm_server.Base.{◌≡◌, refl, ◌≤◌, true, false, length, arith}
use collab_vm_server.Address.{
  Address, new_address, step, connects, closes, on_pre_connect, on_disconnect,
}
use collab_vm_server.Address.Limit.{
  Reachable, start, connected, closed, Reachable-limited, accepted,
}

-- The second socket is refused and closed, then the first one is closed and a third one accepted.
abbrev one_of_two : Address
unfolding step
one_of_two = step (step new_address (connects 1 true 1)) (connects 2 true 1)

abbrev third : Address
unfolding step
third = step (step (step one_of_two (closes 2)) (closes 1)) (connects 3 true 1)

third_accepted : accepted third ≡ 1
unfolding step on_pre_connect on_disconnect
third_accepted = refl

-- With the limit turned on after the first socket, its closing is not matched by its opening: two
-- sockets are accepted under a limit of one.
abbrev late_limit : Address
unfolding step
late_limit =
    step (step (step (step new_address (connects 1 false 1)) (connects 2 true 1)) (closes 1))
      (connects 3 true 1)

late_limit_exceeded : accepted late_limit ≡ 2
unfolding step on_pre_connect on_disconnect
late_limit_exceeded = refl

third-Reachable : Reachable 1 third
unfolding step on_pre_connect on_disconnect
third-Reachable =
    connected (closed (closed (connected (connected start 1 (omega arith)) 2 (omega arith)) 2) 1) 3
      (omega arith)

Reachable-limited_example :
    (third.ip_data.connections ≡ length third.sockets) × (accepted third ≤ 1)
Reachable-limited_example = Reachable-limited 1 third third-Reachable
