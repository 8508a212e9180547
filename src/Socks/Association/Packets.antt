-- ===== src/Socks/Association/Packets.antt =====
-- The packets that `handleUDPPacket` (socks5.go) sends on.
use tunnel.Prelude.{ℕ, Bytes, Bool, false, ◌≡◌, some, ltb, length, ◌<◌, ◌≤◌}
use tunnel.Pool.State.{Pool}
use tunnel.Socks.Address.{IpText, Host, target_text}
use tunnel.Socks.Packet.Laws.{IsHost, packet_wire}
use tunnel.Socks.Packet.RoundTrip.{not_less, parse_udp_packet-fragment_wire}
use tunnel.Socks.Association.{Association, send_datagram, handle_udp_packet}

-- A packet of RFC 1928 with ten bytes or more is sent on as its data for its target.
handle_udp_packet-packet_wire :
    (t : IpText) (host : Host) (port : ℕ) (payload : Bytes) (asked_for written : Bool)
    (a : Association) (p : Pool)
    → IsHost host
    → port < 65536
    → 10 ≤ length (packet_wire host port payload)
    → handle_udp_packet t (packet_wire host port payload) asked_for written a p
      ≡ some (send_datagram (target_text t host port) payload asked_for written a p)
unfolding handle_udp_packet
handle_udp_packet-packet_wire t host port payload asked_for written a p v h l =
    let enough : ltb (length (packet_wire host port payload)) 10 ≡ false =
      not_less (length (packet_wire host port payload)) l in
    rw (parse_udp_packet-fragment_wire t 0 host port payload v h, enough)
