-- ===== src/Tests/AssociationTests.antt =====
-- Examples for UDP associations (socks5.go).
use tunnel.Prelude.{Bytes, true, false, List, [], ◌∷◌, ◌≡◌, refl, none, some, codes, bytes_eq}
use tunnel.Prelude.Map.{lookup, insert, bytes_key, nat_eq}
use tunnel.Wire.{udp_connect_message, udp_data_message}
use tunnel.Pool.State.{Pool, Effect, write_ws, new_ech_pool, set_channel, unassigned, socket_of}
use tunnel.Pool.Send.{first_channel, assign_udp, send_udp_connect, send_udp_data, register_udp}
use tunnel.Socks.Association.{Association, data_failed, send_datagram, send_datagrams}
use tunnel.Socks.Address.{Host, domain}
use tunnel.Socks.Association.Targets.{send_datagrams-targets}
use tunnel.Socks.Association.Stuck.{
  Course, behind, goes_on, sends, Reach, here, next, IsUnlucky, send_datagram-stuck,
}
use tunnel.Pool.Invariant.{new_ech_pool-Inv, Step-Inv}
use tunnel.Pool.Steps.{redials, registers_udp}

abbrev fresh : Association
fresh = record { conn_id = codes "u"; client = none; closed = false; receiving = false }

abbrev connecting : Association
connecting = record fresh { receiving = true }

abbrev unconnected : Pool
unfolding new_ech_pool
unconnected = new_ech_pool (codes "wss://h/") 2

-- The second channel is connected.
abbrev ready : Pool
ready = record unconnected { ws_conns = none ∷ some 71 ∷ [] }

abbrev datagrams : List (Bytes × Bytes)
datagrams = (codes "a:53", codes "x") ∷ (codes "b:53", codes "y") ∷ []

abbrev frames : List Effect
frames =
    write_ws 71 (udp_connect_message (codes "u") (codes "a:53"))
    ∷ write_ws 71 (udp_data_message (codes "u") (codes "x"))
    ∷ write_ws 71 (udp_data_message (codes "u") (codes "y"))
    ∷ []

-- The second target is sent nowhere.
one_connect : (send_datagrams datagrams fresh ready).2 ≡ frames
unfolding send_datagrams send_datagram send_udp_connect first_channel assign_udp send_udp_data
    socket_of insert lookup bytes_eq unconnected
one_connect = refl

send_datagrams-targets_example : (send_datagrams datagrams fresh ready).2 ≡ frames
unfolding first_channel unconnected
send_datagrams-targets_example =
    send_datagrams-targets fresh (codes "a:53") (codes "x") ((codes "b:53", codes "y") ∷ []) 1 71
      ready refl refl refl

-- Both datagrams are lost, though the second channel is dialled between them.
abbrev registered : Pool
registered = register_udp (codes "u") 4 unconnected

abbrev course : Course
course =
    behind (record { assoc = fresh; pool = registered; effects = [] })
      (send_datagram (codes "a:53") (codes "x") true true fresh registered)

abbrev dialled : Course
dialled = record course { pool = set_channel 1 71 course.pool }

abbrev sent_again : Course
sent_again =
    behind dialled (send_datagram (codes "a:53") (codes "y") true true dialled.assoc dialled.pool)

unlucky : IsUnlucky fresh 4 registered
unfolding register_udp lookup unconnected insert bytes_eq first_channel
unlucky = (
  refl,
  refl,
  Step-Inv (new_ech_pool-Inv (codes "wss://h/") 2) (registers_udp (codes "u") 4 refl) (codes "u"),
  refl,
  refl,
  refl,
)

redial_then_send : Reach course sent_again
redial_then_send =
    next (next here (goes_on (redials 1 71) (λ e. e))) (sends (codes "a:53") (codes "y") true true)

send_datagram-stuck_example :
    (sent_again.effects ≡ [])
    × (lookup (codes "u") sent_again.pool.channel_map ≡ none)
    × (send_datagram (codes "b:53") (codes "z") true true sent_again.assoc sent_again.pool
        ≡ (sent_again.assoc, sent_again.pool, [], some (data_failed unassigned)))
send_datagram-stuck_example =
    send_datagram-stuck fresh 4 registered (codes "a:53", codes "x") (codes "b:53", codes "z") true
      true true true unlucky redial_then_send

abbrev site : Host
site = domain (codes "a.io")
