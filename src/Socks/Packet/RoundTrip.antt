-- ===== src/Socks/Packet/RoundTrip.antt =====
-- Packets of RFC 1928 through `parseSOCKS5UDPPacket` and from `buildSOCKS5UDPPacket` (socks5.go).
use tunnel.Prelude.{
  ℕ, Bytes, Bool, false, ◌∷◌, ◌++◌, ◌≡◌, refl, ◌∙◌, Option, none, some, ◌+◌, ◌≤◌, ◌<◌,
  if◌then◌else◌, ltb, length, arith, Bool-cases, ◌==◌, inl, inr, subst,
}
use tunnel.Octets.{word}
use tunnel.Octets.Position.{At, At-start, At-append, At-cons, length-At, get_elem?-At, slice-At}
use tunnel.Socks.Address.{IpText, Ip, v4, v6, Host, ipv4, domain, ipv6, target_text}
use tunnel.Socks.Packet.{
  Parsed, refused, parsed, short, fragmented, parse_address, parse_udp_packet, build_udp_packet,
}
use tunnel.Socks.Packet.Laws.{host_wire, IsHost, packet_wire, fragment_wire, parse_rest-At}

-- The address type that stands in the packet.
abbrev type_of : Host → ℕ
type_of (ipv4 ip) = 1
type_of (domain name) = 3
type_of (ipv6 ip) = 4

abbrev after_type : Host → Bytes
after_type (ipv4 ip) = ip
after_type (domain name) = length name ∷ name
after_type (ipv6 ip) = ip

host_wire-type_of : (host : Host) → host_wire host ≡ type_of host ∷ after_type host
host_wire-type_of (ipv4 ip) = refl
host_wire-type_of (domain name) = refl
host_wire-type_of (ipv6 ip) = refl

parse_address-At :
    (t : IpText) (host : Host) (packet : Bytes) (port : ℕ) (payload : Bytes)
    → IsHost host
    → port < 65536
    → At packet 4 (after_type host ++ (word port ++ payload))
    → parse_address t (type_of host) packet ≡ some (parsed (target_text t host port) payload)
unfolding parse_address
parse_address-At t (ipv4 ip) packet port payload v h a =
    let rest =
      subst (λ o. At packet o (word port ++ payload)) (omega arith)
        (At-append ip (word port ++ payload) a) in
    let whole : ltb (length packet) 8 ≡ false = ground (arith, length-At rest) in
    rw (whole, slice-At {hi = 8} ip (word port ++ payload) a (omega arith))
      (parse_rest-At t (ipv4 ip) packet 8 port payload h rest)
parse_address-At t (ipv6 ip) packet port payload v h a =
    let rest =
      subst (λ o. At packet o (word port ++ payload)) (omega arith)
        (At-append ip (word port ++ payload) a) in
    let whole : ltb (length packet) 20 ≡ false = ground (arith, length-At rest) in
    rw (whole, slice-At {hi = 20} ip (word port ++ payload) a (omega arith))
      (parse_rest-At t (ipv6 ip) packet 20 port payload h rest)
parse_address-At t (domain name) packet port payload v h a =
    let name_at = At-cons (length name) (name ++ (word port ++ payload)) a in
    let rest = At-append name (word port ++ payload) name_at in
    let sized : ltb (length packet) 5 ≡ false = ground (arith, length-At rest) in
    let whole : ltb (length packet) (5 + length name) ≡ false = ground (arith, length-At rest) in
    rw (sized, get_elem?-At a, whole, slice-At name (word port ++ payload) name_at refl)
      (parse_rest-At t (domain name) packet (5 + length name) port payload h rest)

parse_udp_packet-At :
    (t : IpText) (frag : ℕ) (host : Host) (packet : Bytes) (port : ℕ) (payload : Bytes)
    → IsHost host
    → port < 65536
    → At packet 0 (0 ∷ 0 ∷ frag ∷ type_of host ∷ (after_type host ++ (word port ++ payload)))
    → parse_udp_packet t packet ≡ (
        if ltb (length packet) 10
        then some (refused short)
        else if frag == 0
        then some (parsed (target_text t host port) payload)
        else some (refused fragmented))
unfolding parse_udp_packet
parse_udp_packet-At t number host packet port payload v h a =
    let address = after_type host ++ (word port ++ payload) in
    let second = At-cons 0 (0 ∷ number ∷ type_of host ∷ address) a in
    let frag = At-cons 0 (number ∷ type_of host ∷ address) second in
    let atyp = At-cons number (type_of host ∷ address) frag in
    let rest = At-cons (type_of host) address atyp in
    elim (Bool-cases (ltb (length packet) 10)) [
      | inl cut ↦ rw cut
      | inr whole ↦ elim (Bool-cases (number == 0)) [
        | inr part ↦ rw (whole, get_elem?-At a, get_elem?-At second, get_elem?-At frag, part)
        | inl complete ↦ rw (
          whole,
          get_elem?-At a,
          get_elem?-At second,
          get_elem?-At frag,
          complete,
          get_elem?-At atyp,
          parse_address-At t host packet port payload v h rest,
        )
      ]
    ]

fragment_wire-At :
    (frag : ℕ) (host : Host) (port : ℕ) (payload : Bytes)
    → At
        (fragment_wire frag host port payload)
        0
        (0 ∷ 0 ∷ frag ∷ type_of host ∷ (after_type host ++ (word port ++ payload)))
fragment_wire-At frag (ipv4 ip) port payload = At-start (fragment_wire frag (ipv4 ip) port payload)
fragment_wire-At frag (domain name) port payload =
    At-start (fragment_wire frag (domain name) port payload)
fragment_wire-At frag (ipv6 ip) port payload = At-start (fragment_wire frag (ipv6 ip) port payload)

pub not_less : (n : ℕ) → 10 ≤ n → ltb n 10 ≡ false
not_less n h = ground arith

if_false : {b : Bool} (x y : Option Parsed) → b ≡ false → (if b then x else y) ≡ y
if_false x y e = rw e

-- A packet of RFC 1928 with any fragment number, an address of any type, a port and data: one that
-- stands alone (number 0) is read as its target and its data; a fragment is refused, as the RFC
-- allows; and one of fewer than ten bytes is refused as too short, although the RFC admits it (a name
-- of one or two bytes with almost no data).
pub parse_udp_packet-fragment_wire :
    (t : IpText) (frag : ℕ) (host : Host) (port : ℕ) (payload : Bytes)
    → IsHost host
    → port < 65536
    → parse_udp_packet t (fragment_wire frag host port payload) ≡ (
        if ltb (length (fragment_wire frag host port payload)) 10
        then some (refused short)
        else if frag == 0
        then some (parsed (target_text t host port) payload)
        else some (refused fragmented))
parse_udp_packet-fragment_wire t frag host port payload v h =
    parse_udp_packet-At t frag host (fragment_wire frag host port payload) port payload v h
      (fragment_wire-At frag host port payload)

-- The destination that `buildSOCKS5UDPPacket` takes a host's text for.
abbrev pub host_of : Option Ip → Bytes → Host
host_of (some (v4 ip)) text = ipv4 ip
host_of (some (v6 ip)) text = ipv6 ip
host_of none text = domain text

pub build_udp_packet-host_of :
    (t : IpText) (text : Bytes) (found : Option Ip) (port : ℕ) (payload : Bytes)
    → t.parse text ≡ found
    → IsHost (host_of found text)
    → build_udp_packet t text port payload ≡ some (packet_wire (host_of found text) port payload)
unfolding build_udp_packet
build_udp_packet-host_of t text (some (v4 ip)) port payload e v = rw e
build_udp_packet-host_of t text (some (v6 ip)) port payload e v = rw e
build_udp_packet-host_of t text none port payload e v =
    let fits : ltb 255 (length text) ≡ false = ground arith in rw (e, fits)

-- For a host's text that Go reads as an IP address or that has at most 255 bytes, the built packet
-- is the one of RFC 1928 for that address or name, and the parser reads from it the same target and
-- the same data, whatever bytes the data holds, if the packet has ten bytes or more.
pub build-parse_udp_packet :
    (t : IpText) (text : Bytes) (port : ℕ) (payload : Bytes)
    → IsHost (host_of (t.parse text) text)
    → port < 65536
    → 10 ≤ length (packet_wire (host_of (t.parse text) text) port payload)
    → (packet : Bytes) × (build_udp_packet t text port payload ≡ some packet)
      × (packet ≡ packet_wire (host_of (t.parse text) text) port payload)
      × (parse_udp_packet t packet
          ≡ some (parsed (target_text t (host_of (t.parse text) text) port) payload))
build-parse_udp_packet t text port payload v h l =
    let host = host_of (t.parse text) text in
    let enough : ltb (length (packet_wire host port payload)) 10 ≡ false =
      not_less (length (packet_wire host port payload)) l in
    (
      packet_wire host port payload,
      build_udp_packet-host_of t text (t.parse text) port payload refl v,
      refl,
      parse_udp_packet-fragment_wire t 0 host port payload v h ∙ if_false _ _ enough,
    )
