-- ===== src/EndToEnd/Datagrams.antt =====
-- UDP through the tunnel: a datagram of a SOCKS5 client to its target, and what comes back (socks5.go,
-- pool.go and websocket_server.go).
use tunnel.Prelude.{
  ℕ, Bytes, true, false, List, [], ◌∷◌, ◌++◌, ◌≡◌, refl, Option, none, some, ◌==◌, ◌<◌,
  if◌then◌else◌, arith, map, length,
}
use tunnel.Prelude.Map.{lookup, bytes_key, lookup-insert_self}
use tunnel.Text.{Lacks}
use tunnel.Text.Decimal.{decimal, Lacks-decimal}
use tunnel.Wire.{
  Frame, udp_connect_message, udp_data_message, udp_connected_message, udp_response_message,
}
use tunnel.Wire.RoundTrip.{read_request-udp_connect, read_request-udp_data}
use tunnel.Wire.Replies.{read_reply-udp_response}
use tunnel.Server.Handler
use tunnel.Server.Handler.{Server, Network, send, write_udp, go_udp, start_udp, serve}
use tunnel.Server.Udp
use tunnel.Server.Udp.{relay_udp}
use tunnel.Pool.State.{Pool, Effect, write_ws, udp_response}
use tunnel.Pool.Send.{first_channel, assign_udp}
use tunnel.Pool.Channel.{handle_frame, handle_reply}
use tunnel.Socks.Address.{IpText, ipv4}
use tunnel.Socks.Packet.Laws.{packet_wire}
use tunnel.Socks.Association.{Association, send_datagram}
use tunnel.Socks.Association.Targets.{asked, send_datagram-first}
use tunnel.Socks.Association.Response.{handle_udp_response, handle_udp_response-ipv4}
use tunnel.EndToEnd.Upstream.{serve_frames}
use tunnel.EndToEnd.Downstream.{sent, handle_frames}

-- A datagram that the server's socket receives from an IPv4 address.
pub record Datagram : Type 0 where
  pub ip : Bytes
  pub port : ℕ
  pub payload : Bytes

abbrev pub round_of : IpText → Datagram → Udp.Round
round_of t x = Udp.received (t.to_string x.ip) (decimal x.port) x.payload

abbrev pub AreIpv4 : IpText → List Datagram → Type 0
AreIpv4 t [] = Unit {0}
AreIpv4 t (x ∷ xs) =
    (length x.ip ≡ 4)
    × Lacks b':' (t.to_string x.ip)
    × Lacks b'|' (t.to_string x.ip)
    × (x.port < 65536)
    × AreIpv4 t xs

abbrev and_packet : Option (Bytes × Bytes) → List (Bytes × Bytes) → List (Bytes × Bytes)
and_packet none packets = packets
and_packet (some packet) packets = packet ∷ packets

-- The packets that the association `n` writes, with their addresses, for the client's effects.
unfoldable pub packets_of : IpText → Association → ℕ → List Effect → List (Bytes × Bytes)
packets_of t a n [] = []
packets_of t a n (udp_response m addr_data payload ∷ effects) =
    let rest = packets_of t a n effects in
    if m == n then and_packet (handle_udp_response t a addr_data payload) rest else rest
packets_of t a n (_ ∷ effects) = packets_of t a n effects

handle_frame-udp_response :
    (i ws : ℕ) (id host port payload : Bytes) (n : ℕ) (p : Pool)
    → Lacks b'|' id
    → Lacks b'|' host
    → Lacks b'|' port
    → lookup id p.udp_map ≡ some n
    → handle_frame i ws true (udp_response_message id host port payload) p
      ≡ (p, udp_response n (host ++ b':' ∷ port) payload ∷ [])
unfolding handle_frame
handle_frame-udp_response i ws id host port payload n p h k l e =
    rw (read_reply-udp_response id h host port payload k l, handle_reply, e)

-- What the server's socket receives reaches the client as one packet of RFC 1928 for each datagram,
-- with its address, port and data, in order, whatever the data holds.
relay_udp-packets_of :
    (Addr : Type 0) (t : IpText) (a : Association) (n : ℕ) (client id : Bytes) (uc i ws : ℕ)
    (p : Pool) (xs : List Datagram)
    → Lacks b'|' id
    → lookup id p.udp_map ≡ some n
    → a.client ≡ some client
    → AreIpv4 t xs
    → packets_of t a n
        (handle_frames i ws (sent (relay_udp {Addr = Addr} id uc (map (round_of t) xs)).0) p).1
      ≡ map (λ x. (packet_wire (ipv4 x.ip) x.port x.payload, client)) xs
unfolding handle_frames sent relay_udp packets_of
relay_udp-packets_of Addr t a n client id uc i ws p [] h e c v = refl
relay_udp-packets_of Addr t a n client id uc i ws p (x ∷ xs) h e c (four, colon, bar, port, vs) =
    let same : (n == n) ≡ true = ground arith in
    rw (
      handle_frame-udp_response i ws id (t.to_string x.ip) (decimal x.port) x.payload n p h bar
          (Lacks-decimal b'|' x.port (omega arith)) e,
      same,
      handle_udp_response-ipv4 t a client x.ip x.payload x.port c four colon port,
      relay_udp-packets_of Addr t a n client id uc i ws p xs h e c vs,
    )

serve_frames-datagram :
    {Addr : Type 0} (net : Network Addr) (id target payload : Bytes) (addr : Addr) (uc : ℕ)
    (s : Server Addr)
    → Lacks b'|' id
    → net.resolve target ≡ some addr
    → net.listen ≡ some uc
    → (serve_frames net (udp_connect_message id target ∷ udp_data_message id payload ∷ []) s).1
      ≡ go_udp id uc ∷ send (udp_connected_message id) ∷ write_udp uc payload addr ∷ []
unfolding serve_frames Handler.handle_frame serve start_udp
serve_frames-datagram net id target payload addr uc s h e k = rw (
  read_request-udp_connect id h target,
  e,
  k,
  read_request-udp_data id h payload,
  lookup-insert_self id uc s.udp_conns,
  lookup-insert_self id addr s.udp_targets,
)

-- The first datagram of an open association on a pool with a connected channel goes out, with every
-- frame written, and the server starts a socket for the association and sends it to the address that
-- its target resolves to. Whatever datagrams then come in from IPv4 addresses, the client gets one
-- packet for each, with its address, port and data, in order.
pub send_datagram-packets_of :
    {Addr : Type 0} (net : Network Addr) (t : IpText) (a : Association) (n : ℕ)
    (client target payload : Bytes) (addr : Addr) (uc i ws : ℕ) (p : Pool) (s : Server Addr)
    (xs : List Datagram)
    → a.closed ≡ false
    → a.receiving ≡ false
    → a.client ≡ some client
    → Lacks b'|' a.conn_id
    → first_channel 0 p.ws_conns ≡ some (i, ws)
    → lookup a.conn_id p.udp_map ≡ some n
    → net.resolve target ≡ some addr
    → net.listen ≡ some uc
    → AreIpv4 t xs
    → (b : Association) × (q : Pool) × (frames : List Frame) × (send_datagram target payload true
          true a p
        ≡ (b, q, map (write_ws ws) frames, none))
      × ((serve_frames net frames s).1
          ≡ go_udp a.conn_id uc
            ∷ send (udp_connected_message a.conn_id)
            ∷ write_udp uc payload addr
            ∷ [])
      × (packets_of t b n
            (handle_frames i ws
              (sent (relay_udp {Addr = Addr} a.conn_id uc (map (round_of t) xs)).0)
              q).1
          ≡ map (λ x. (packet_wire (ipv4 x.ip) x.port x.payload, client)) xs)
unfolding assign_udp
send_datagram-packets_of {Addr = Addr} net t a n client target payload addr uc i ws p s xs o r c h f
      e k l v =
    (
      asked a,
      assign_udp a.conn_id i p,
      udp_connect_message a.conn_id target ∷ udp_data_message a.conn_id payload ∷ [],
      send_datagram-first a target payload i ws p o r f,
      serve_frames-datagram net a.conn_id target payload addr uc s h k l,
      relay_udp-packets_of Addr t (asked a) n client a.conn_id uc i ws (assign_udp a.conn_id i p) xs
          h e c v,
    )
