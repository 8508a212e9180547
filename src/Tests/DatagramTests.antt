-- ===== src/Tests/DatagramTests.antt =====
-- Examples for UDP through the tunnel (socks5.go, pool.go, websocket_server.go).
use tunnel.Prelude.{
  ◌⊎◌, bytes_eq, Bytes, true, false, List, [], ◌∷◌, ◌≡◌, refl, none, some, arith, codes, map,
}
use tunnel.Prelude.Map.{lookup, bytes_key}
use tunnel.Wire.{Frame, udp_connected_message}
use tunnel.Server.Handler
use tunnel.Server.Udp
use tunnel.Server.Udp.{relay_udp, run_udp}
use tunnel.Server.Steps.{forget_udp}
use tunnel.Pool.State.{Effect, socket_of, Pool, write_ws}
use tunnel.Pool.Send.{register_udp, send_udp_close, first_channel}
use tunnel.Socks.Address.{v4, ipv4}
use tunnel.Socks.Packet.Laws.{packet_wire}
use tunnel.Socks.Association.{admit, handle_udp_packet, close, Association, send_datagram}
use tunnel.Socks.Packet.{parse_udp_packet}
use tunnel.Socks.Association.Setup.{
  UdpNet, associated, Event, datagram, done, new_association, udp_response_bytes,
  handle_socks5_udp_associate, relay_datagram, run_association,
}
use tunnel.Socks.Association.Setup.Course.{IsReleased, run_association-ends}
use tunnel.EndToEnd.Upstream.{serve_frames}
use tunnel.EndToEnd.Downstream.{sent, handle_frames}
use tunnel.EndToEnd.Datagrams.{Datagram, round_of, packets_of, send_datagram-packets_of}
use tunnel.Tests.PoolTests.{ready}
use tunnel.Tests.ServerTests.{id_a, network, serving}
use tunnel.Tests.SocksTests.{text}

-- An association of the client at `c`, which is number 4 of the pool.
abbrev association : Association
association = record {
  conn_id = id_a;
  client = some (codes "c");
  closed = false;
  receiving = false;
}

abbrev registered : Pool
registered = record ready { udp_map = (id_a, 4) ∷ [] }

abbrev datagrams : List Datagram
datagrams =
    record { ip = 10 ∷ 0 ∷ 0 ∷ 2 ∷ []; port = 53; payload = codes "q|:r" }
    ∷ record { ip = 10 ∷ 0 ∷ 0 ∷ 3 ∷ []; port = 65535; payload = [] }
    ∷ []

send_datagram-packets_of_example :
    (b : Association) × (q : Pool) × (frames : List Frame) × (send_datagram
        (codes "h:1")
        (codes "ask")
        true
        true
        association
        registered
      ≡ (b, q, map (write_ws 70) frames, none))
    × ((serve_frames network frames serving).1
        ≡ Handler.go_udp id_a 8
          ∷ Handler.send (udp_connected_message id_a)
          ∷ Handler.write_udp 8 (codes "ask") (codes "h:1")
          ∷ [])
    × (packets_of text b 4
          (handle_frames 0 70
            (sent (relay_udp {Addr = Bytes} id_a 8 (map (round_of text) datagrams)).0)
            q).1
        ≡ (packet_wire (ipv4 (10 ∷ 0 ∷ 0 ∷ 2 ∷ [])) 53 (codes "q|:r"), codes "c")
          ∷ (packet_wire (ipv4 (10 ∷ 0 ∷ 0 ∷ 3 ∷ [])) 65535 [], codes "c")
          ∷ [])
unfolding lookup first_channel bytes_eq
send_datagram-packets_of_example =
    send_datagram-packets_of network text association 4 (codes "c") (codes "h:1") (codes "ask")
      (codes "h:1") 8 0 70 registered serving datagrams refl refl refl (omega arith) refl refl refl
      refl
      (
        refl,
        omega arith,
        omega arith,
        omega arith,
        (refl, omega arith, omega arith, omega arith, tt),
      )

-- A socket that fails is forgotten and closed.
socket_failed :
    (run_udp (codes "u") 8 (Udp.timed_out ∷ Udp.failed ∷ []) serving)
    ≡ (record serving { udp_conns = []; udp_targets = [] }, Handler.close_udp 8 ∷ [])
unfolding run_udp relay_udp forget_udp bytes_eq
socket_failed = refl

-- The proxy listens on its own address; addresses are their texts.
abbrev udp_net : UdpNet Bytes
udp_net = record {
  split_host_port = λ s. some (s, []);
  join_host_port = λ host port. host;
  resolve = λ s. some s;
  listen = λ addr. some (v4 (127 ∷ 0 ∷ 0 ∷ 1 ∷ []), 40000);
}

set_up :
    handle_socks5_udp_associate udp_net (codes "h") id_a 4 true ready
    ≡ associated
        (5 ∷ 0 ∷ 0 ∷ 1 ∷ 127 ∷ 0 ∷ 0 ∷ 1 ∷ 156 ∷ 64 ∷ [])
        (new_association id_a)
        (register_udp id_a 4 ready)
unfolding handle_socks5_udp_associate udp_response_bytes
set_up = refl

-- A datagram that is too short, then the end.
abbrev short_course : List Event
short_course = datagram (codes "c") (1 ∷ []) true true ∷ done true ∷ []

run_association-ends_example :
    (b : Association) × (r : Pool) × (effects : List Effect) × (run_association text short_course
        (new_association id_a)
        (register_udp id_a 4 ready)
      ≡ some (b, r, effects))
    × (b.closed ≡ true)
    × (IsReleased id_a r effects ⊎ ((effects ≡ []) × (lookup id_a r.udp_map ≡ some 4)))
run_association-ends_example =
    run_association-ends udp_net text (codes "h") id_a 4 true ready
      (5 ∷ 0 ∷ 0 ∷ 1 ∷ 127 ∷ 0 ∷ 0 ∷ 1 ∷ 156 ∷ 64 ∷ []) (new_association id_a)
      (register_udp id_a 4 ready) short_course set_up refl

-- The entry of an association that wrote nothing stays behind.
left_over :
    run_association text short_course (new_association id_a) (register_udp id_a 4 ready)
    ≡ some (
      record { conn_id = id_a; client = some (codes "c"); closed = true; receiving = false },
      register_udp id_a 4 ready,
      [],
    )
unfolding run_association relay_datagram admit handle_udp_packet parse_udp_packet close
    send_udp_close socket_of lookup register_udp
left_over = refl
