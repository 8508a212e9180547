-- ===== src/Socks/Packet.antt =====
-- The packets between a SOCKS5 client and the UDP relay: `parseSOCKS5UDPPacket` and
-- `buildSOCKS5UDPPacket` (socks5.go). `none` is an index or a slice out of range.
pub mod Laws
pub mod RoundTrip
use tunnel.Prelude.{
  ℕ, Bytes, Bool, List, [], ◌∷◌, ◌++◌, Option, none, some, ◌>>=◌, ◌+◌, ◌-◌, ◌*◌, if◌then◌else◌, ltb,
  ◌==◌, not, ◌||◌, length, get_elem?, drop,
}
use tunnel.Octets.{word}
use tunnel.Octets.{slice, word_at}
use tunnel.Socks.Address.{IpText, Ip, v4, v6, Host, ipv4, domain, ipv6, target_text}

pub data Refusal : Type 0 where
  short bad_reserved fragmented short_ipv4 no_domain_length short_domain short_ipv6 no_port :
      Refusal
  bad_address_type : ℕ → Refusal

pub data Parsed : Type 0 where
  refused : Refusal → Parsed
  parsed : Bytes → Bytes → Parsed

-- The port and the data, behind the address.
unfoldable pub parse_rest : IpText → Host → Bytes → ℕ → Option Parsed
parse_rest t host packet offset =
    if ltb (length packet) (offset + 2)
    then some (refused no_port)
    else (word_at packet offset >>= λ port. slice packet (offset + 2) (length packet) >>= λ payload.
        some (parsed (target_text t host port) payload))

-- The switch over the address type.
unfoldable pub parse_address : IpText → ℕ → Bytes → Option Parsed
parse_address t atyp packet =
    if atyp == 1
    then (if ltb (length packet) 8
        then some (refused short_ipv4)
        else (slice packet 4 8 >>= λ ip. parse_rest t (ipv4 ip) packet 8))
    else if atyp == 3
    then (if ltb (length packet) 5
        then some (refused no_domain_length)
        else (get_elem? packet 4 >>= λ size.
            if ltb (length packet) (5 + size)
            then some (refused short_domain)
            else (slice packet 5 (5 + size) >>= λ name.
                parse_rest t (domain name) packet (5 + size))))
    else if atyp == 4
    then (if ltb (length packet) 20
        then some (refused short_ipv6)
        else (slice packet 4 20 >>= λ ip. parse_rest t (ipv6 ip) packet 20))
    else some (refused (bad_address_type atyp))

unfoldable pub parse_udp_packet : IpText → Bytes → Option Parsed
parse_udp_packet t packet =
    if ltb (length packet) 10
    then some (refused short)
    else (get_elem? packet 0 >>= λ first. get_elem? packet 1 >>= λ second.
        if not (first == 0) || not (second == 0)
        then some (refused bad_reserved)
        else get_elem? packet 2 >>= λ frag.
            if not (frag == 0)
            then some (refused fragmented)
            else (get_elem? packet 3 >>= λ atyp. parse_address t atyp packet))

abbrev address_bytes : Option Ip → Bytes → Option Bytes
address_bytes (some (v4 ip)) host = some (1 ∷ ip)
address_bytes (some (v6 ip)) host = some (4 ∷ ip)
address_bytes none host = if ltb 255 (length host) then none else some (3 ∷ length host ∷ host)

-- `none` is the error for a name of more than 255 bytes. The port is cut to 16 bits.
unfoldable pub build_udp_packet : IpText → Bytes → ℕ → Bytes → Option Bytes
build_udp_packet t host port payload = address_bytes (t.parse host) host >>= λ address.
    some (0 ∷ 0 ∷ 0 ∷ (address ++ (word port ++ payload)))
