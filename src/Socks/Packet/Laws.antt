-- ===== src/Socks/Packet/Laws.antt =====
-- `parseSOCKS5UDPPacket` (socks5.go) against RFC 1928, section 7, and against
-- `buildSOCKS5UDPPacket`.
use tunnel.Prelude.{
  ℕ, Bytes, false, [], ◌∷◌, ◌++◌, ◌≡◌, some, ◌+◌, ◌-◌, ◌<◌, ltb, ◌==◌, length, arith, Bool-cases,
  inl, inr, get_elem?-lt, append-nil, take, drop, not, ◌||◌, sym, subst,
}
use tunnel.Octets.{word}
use tunnel.Octets.{word_at-lt, slice-le}
use tunnel.Octets.Position.{At, At-append, length-At, word_at-At, slice-At}
use tunnel.Socks.Address.{IpText, Host, ipv4, domain, ipv6, target_text}
use tunnel.Socks.Packet.{
  short, bad_reserved, fragmented, no_port, short_ipv4, no_domain_length, short_domain, short_ipv6,
  bad_address_type, Parsed, refused, parsed, parse_rest, parse_address, parse_udp_packet,
}

parse_rest-defined :
    (t : IpText) (host : Host) (packet : Bytes) (offset : ℕ)
    → (p : Parsed) × (parse_rest t host packet offset ≡ some p)
unfolding parse_rest
parse_rest-defined t host packet offset = elim (Bool-cases (ltb (length packet) (offset + 2))) [
  | inl cut ↦ (refused no_port, rw cut)
  | inr whole ↦
      let (port, p) = word_at-lt packet offset (ground arith) in
      let q = slice-le packet (offset + 2) (length packet) (ground arith) (omega arith) in
      (
        parsed (target_text t host port)
            (take (length packet - (offset + 2)) (drop (offset + 2) packet)),
        rw (whole, p, q),
      )
]

parse_address-defined :
    (t : IpText) (atyp : ℕ) (packet : Bytes) → (p : Parsed) × (parse_address t atyp packet ≡ some p)
unfolding parse_address
parse_address-defined t atyp packet = elim (Bool-cases (atyp == 1)) [
  | inl is_ipv4 ↦ elim (Bool-cases (ltb (length packet) 8)) [
    | inl cut ↦ (refused short_ipv4, rw (is_ipv4, cut))
    | inr whole ↦
        let (p, e) = parse_rest-defined t (ipv4 (take (8 - 4) (drop 4 packet))) packet 8 in
        (p, rw (is_ipv4, whole, slice-le packet 4 8 (omega arith) (ground arith)) e)
  ]
  | inr not_ipv4 ↦ elim (Bool-cases (atyp == 3)) [
    | inl is_domain ↦ elim (Bool-cases (ltb (length packet) 5)) [
      | inl cut ↦ (refused no_domain_length, rw (not_ipv4, is_domain, cut))
      | inr sized ↦
          let (size, q) = get_elem?-lt packet 4 (ground arith) in
          elim (Bool-cases (ltb (length packet) (5 + size))) [
            | inl cut ↦ (refused short_domain, rw (not_ipv4, is_domain, sized, q, cut))
            | inr whole ↦
                let name = take (5 + size - 5) (drop 5 packet) in
                let (p, e) = parse_rest-defined t (domain name) packet (5 + size) in
                let part = slice-le packet 5 (5 + size) (omega arith) (ground arith) in
                (p, rw (not_ipv4, is_domain, sized, q, whole, part) e)
          ]
    ]
    | inr not_domain ↦ elim (Bool-cases (atyp == 4)) [
      | inr unknown ↦ (refused (bad_address_type atyp), rw (not_ipv4, not_domain, unknown))
      | inl is_ipv6 ↦ elim (Bool-cases (ltb (length packet) 20)) [
        | inl cut ↦ (refused short_ipv6, rw (not_ipv4, not_domain, is_ipv6, cut))
        | inr whole ↦
            let (p, e) = parse_rest-defined t (ipv6 (take (20 - 4) (drop 4 packet))) packet 20 in
            let part = slice-le packet 4 20 (omega arith) (ground arith) in
            (p, rw (not_ipv4, not_domain, is_ipv6, whole, part) e)
      ]
    ]
  ]
]

-- On any packet that a client may send, the parser stays inside the packet, and gives a target with
-- data or one of its errors.
pub parse_udp_packet-defined :
    (t : IpText) (packet : Bytes) → (p : Parsed) × (parse_udp_packet t packet ≡ some p)
unfolding parse_udp_packet
parse_udp_packet-defined t packet = elim (Bool-cases (ltb (length packet) 10)) [
  | inl cut ↦ (refused short, rw cut)
  | inr whole ↦
      let (first, p) = get_elem?-lt packet 0 (ground arith) in
      let (second, q) = get_elem?-lt packet 1 (ground arith) in
      let (frag, r) = get_elem?-lt packet 2 (ground arith) in
      let (atyp, u) = get_elem?-lt packet 3 (ground arith) in
      let (result, e) = parse_address-defined t atyp packet in
      elim (Bool-cases (not (first == 0) || not (second == 0))) [
        | inl reserved ↦ (refused bad_reserved, rw (whole, p, q, reserved))
        | inr clear ↦ elim (Bool-cases (not (frag == 0))) [
          | inl part ↦ (refused fragmented, rw (whole, p, q, clear, r, part))
          | inr complete ↦ (result, rw (whole, p, q, clear, r, complete, u) e)
        ]
      ]
]

-- The address of a request on the wire, by RFC 1928: type, address.
abbrev pub host_wire : Host → Bytes
host_wire (ipv4 ip) = 1 ∷ ip
host_wire (domain name) = 3 ∷ length name ∷ name
host_wire (ipv6 ip) = 4 ∷ ip

abbrev pub IsHost : Host → Type 0
IsHost (ipv4 ip) = length ip ≡ 4
IsHost (domain name) = length name < 256
IsHost (ipv6 ip) = length ip ≡ 16

-- A packet: two reserved bytes, the number of the fragment, address, port, data.
abbrev pub fragment_wire : ℕ → Host → ℕ → Bytes → Bytes
fragment_wire frag host port payload = 0 ∷ 0 ∷ frag ∷ (host_wire host ++ (word port ++ payload))

-- A whole packet: no fragment.
abbrev pub packet_wire : Host → ℕ → Bytes → Bytes
packet_wire host port payload = fragment_wire 0 host port payload

pub parse_rest-At :
    (t : IpText) (host : Host) (packet : Bytes) (offset port : ℕ) (payload : Bytes)
    → port < 65536
    → At packet offset (word port ++ payload)
    → parse_rest t host packet offset ≡ some (parsed (target_text t host port) payload)
unfolding parse_rest
parse_rest-At t host packet offset port payload h a =
    let whole : ltb (length packet) (offset + 2) ≡ false = ground (arith, length-At a) in
    let payload_at = At-append (word port) payload a in
    let to_end : At packet (offset + 2) (payload ++ []) =
      subst (At packet (offset + 2)) (sym (append-nil payload)) payload_at in
    rw (whole, word_at-At port payload h a, slice-At payload [] to_end (length-At payload_at))
