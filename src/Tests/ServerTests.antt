-- ===== src/Tests/ServerTests.antt =====
-- Examples for the server (websocket_server.go), the messages, and the two ends together.
use tunnel.Prelude.{
  Bytes, Bool, true, false, List, [], ◌∷◌, ◌≡◌, refl, some, none, arith, codes, bytes_eq, Within,
}
use tunnel.Prelude.Map.{lookup, bytes_key, nat_eq}
use tunnel.Wire.{claim_message, tcp_message, udp_connect_message, udp_data_message}
use tunnel.Wire.RoundTrip.{read_request-tcp_message}
use tunnel.Server.Request
use tunnel.Server.Request.{read_request}
use tunnel.Server.Handler.{
  Server, Network, write_udp, close_tcp, close_udp, close_ws, initial, handle_frame, cleanup,
}
use tunnel.Server.Steps.{Reach, here, next, frame, Reach-datagram}
use tunnel.Server.Isolation.{IsClosed, cleanup_closes}
use tunnel.Server.Tcp.{Round, timed_out, failed, received, relay}
use tunnel.Pool.State
use tunnel.Pool.State.{Pool, wait_connected}
use tunnel.Pool.Claim.{register_and_claim}
use tunnel.EndToEnd.Opening.{exchange}
use tunnel.EndToEnd.Tunnel.{Carries, register_and_claim-Carries}
use tunnel.Local.{socks_connect}
use tunnel.EndToEnd.Opening.Connects.{IsForgotten, register_and_claim-exchange}
use tunnel.Tests.PoolTests.{ready, ssh}
use tunnel.EndToEnd.Downstream.{sent, handle_frames, seen, relay-handle_frames}

abbrev pub id_a : Bytes
id_a = codes "a"

-- A resolver whose addresses are the texts themselves.
abbrev pub network : Network Bytes
network = record { resolve = λ target. some target; listen = some 8 }

abbrev pub serving : Server Bytes
serving = record {
  conns = (id_a, 5) ∷ [];
  udp_conns = (codes "u", 8) ∷ [];
  udp_targets = (codes "u", codes "h:1") ∷ [];
}

abbrev only_udp : Server Bytes
only_udp = record serving { conns = [] }

-- A target with `|` is not read as it was sent.
read_request-tcp_message_example :
    read_request (tcp_message id_a (codes "h:1") (codes "hi"))
    ≡ Request.tcp id_a (codes "h:1") (codes "hi")
read_request-tcp_message_example =
    (read_request-tcp_message id_a (codes "h:1") (codes "hi") (omega arith)).1 (omega arith)

tcp_target_with_bar :
    read_request (tcp_message id_a (codes "h|i:1") (codes "hi"))
    ≡ Request.tcp id_a (codes "h") (codes "i:1|hi")
unfolding read_request tcp_message
tcp_target_with_bar = refl

udp_reached : Reach {Addr = Bytes} initial only_udp
unfolding initial handle_frame udp_connect_message bytes_eq
udp_reached = next here (frame network (udp_connect_message (codes "u") (codes "h:1")))

Reach-datagram_example :
    (addr : Bytes) × (lookup (codes "u") only_udp.udp_targets ≡ some addr)
    × (handle_frame network (udp_data_message (codes "u") (codes "q")) only_udp
        ≡ (only_udp, write_udp 8 (codes "q") addr ∷ []))
unfolding lookup bytes_eq
Reach-datagram_example =
    Reach-datagram network (codes "u") (codes "q") 8 (omega arith) udp_reached refl

-- A session with a UDP socket alone.
cleanup_closes_example :
    IsClosed close_tcp (lookup id_a only_udp.conns) (cleanup only_udp).1
    × IsClosed close_udp (lookup (codes "u") only_udp.udp_conns) (cleanup only_udp).1
    × Within close_ws (cleanup only_udp).1
    × ((cleanup only_udp).0 ≡ initial)
cleanup_closes_example = cleanup_closes only_udp id_a (codes "u")

-- The connection `a` of the client has channel 1.
abbrev pub pool : Pool
pool = record {
  ws_server_addr = codes "wss://h/";
  connection_num = 2;
  ws_conns = some 70 ∷ some 71 ∷ [];
  tcp_map = (id_a, 3) ∷ [];
  udp_map = [];
  channel_map = (id_a, 1) ∷ [];
  conn_info = [];
  claim_times = [];
  connected = (id_a, false) ∷ [];
  bound_by_channel = (1, id_a) ∷ [];
  pending_by_channel = [];
}

abbrev chunks : List Bytes
chunks = codes "one" ∷ codes "|two" ∷ []

abbrev rounds : List Round
rounds = received (codes "one") true ∷ timed_out ∷ received (codes "|two") true ∷ failed ∷ []

relay-handle_frames_example :
    (handle_frames 1 71 (sent (relay {Addr = Bytes} id_a 5 rounds).0) pool).1 ≡ seen 3 rounds
unfolding lookup bytes_eq
relay-handle_frames_example = relay-handle_frames Bytes id_a 1 71 5 3 rounds pool (omega arith) refl

-- The connection `a` comes to be on channel 1; a failed dial leaves `connected` alone.
register_and_claim-exchange_example :
    (q : Pool) × (claims : List State.Effect) × (register_and_claim id_a ssh 5 (λ i. 9) ready
      ≡ some (q, claims))
    × Within (State.write_ws 71 (claim_message id_a 1)) claims
    × (let (r, t, frames) =
          exchange network (some 6) 2 1 71 (claim_message id_a 1 ∷ []) q only_udp in
        (frames ≡ [])
        × ((wait_connected id_a false r).1 ≡ true)
        × (lookup id_a r.channel_map ≡ some 1)
        × (lookup id_a r.tcp_map ≡ some 5)
        × (lookup id_a t.conns ≡ some 6))
    × (let (r, t, frames) = exchange network none 2 1 71 (claim_message id_a 1 ∷ []) q only_udp in
        (frames ≡ [])
        × IsForgotten id_a 1 r
        × ((full : Bool) × (lookup id_a r.connected ≡ some full))
        × (t ≡ only_udp))
unfolding lookup
register_and_claim-exchange_example =
    register_and_claim-exchange network 6 id_a ssh 5 1 71 (λ i. 9) ready only_udp (omega arith)
      (omega arith) refl refl

register_and_claim-Carries_example :
    (q : Pool) × (claims : List State.Effect) × (register_and_claim id_a ssh 5 (λ i. 9) ready
      ≡ some (q, claims))
    × (let (r, t, frames) =
          exchange network (some 6) 2 1 71 (claim_message id_a 1 ∷ []) q only_udp in
        let (w, connected) = wait_connected id_a false r in
        (frames ≡ [])
        × (connected ≡ true)
        × Carries network socks_connect id_a 5 1 71 6 chunks rounds w t)
unfolding lookup
register_and_claim-Carries_example =
    register_and_claim-Carries network socks_connect 6 id_a ssh 5 1 71 (λ i. 9) ready only_udp
      chunks rounds (omega arith) (omega arith) refl refl
