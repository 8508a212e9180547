-- ===== src/Socks/Association/Response.antt =====
-- `handleUDPResponse` (socks5.go): what comes back from the server, as a packet for the client.
use tunnel.Prelude.{
  ℕ, Bytes, Bool, true, false, List, [], ◌∷◌, ◌++◌, ◌≡◌, refl, Option, none, some, ◌-◌, ◌%◌, ◌≤◌,
  ◌<◌, ◌==◌, length, length-append, arith, Bool-cases, inl, inr, ltb,
}
use tunnel.Text.{split, split-join, grow_first, Lacks}
use tunnel.Text.Decimal.{decimal, Lacks-decimal}
use tunnel.Text.Scan.{sscanf_int, sscanf_int-decimal}
use tunnel.Octets.{word}
use tunnel.Socks.Address.{IpText, v4, ipv4, target_text}
use tunnel.Socks.Packet.{parsed, parse_udp_packet, build_udp_packet}
use tunnel.Socks.Packet.Laws.{packet_wire}
use tunnel.Socks.Packet.RoundTrip.{build_udp_packet-host_of, parse_udp_packet-fragment_wire}
use tunnel.Socks.Association.{Association}

-- The bits of `port`, which stays 0 where it is not scanned; `uint16` takes the lowest 16.
unfoldable pub port_of : Option (Bool × ℕ) → ℕ
port_of none = 0
port_of (some (false, n)) = n
port_of (some (true, n)) = 65536 - n % 65536

-- The packet goes to the client, where there is one.
abbrev pub to_client : Option Bytes → Option Bytes → Option (Bytes × Bytes)
to_client none client = none
to_client (some packet) none = none
to_client (some packet) (some client) = some (packet, client)

unfoldable pub respond_parts : IpText → Association → List Bytes → Bytes → Option (Bytes × Bytes)
respond_parts t a (host ∷ port ∷ []) payload =
    to_client (build_udp_packet t host (port_of (sscanf_int port)) payload) a.client
respond_parts t a _ payload = none

-- The packet that is written with the address that it is written to; `none` where nothing is.
unfoldable pub handle_udp_response : IpText → Association → Bytes → Bytes → Option (Bytes × Bytes)
handle_udp_response t a addr_data payload = respond_parts t a (split b':' addr_data) payload

length-grow_first : (c : ℕ) (parts : List Bytes) → length parts ≤ length (grow_first c parts)
length-grow_first c [] = omega arith
length-grow_first c (part ∷ parts) = omega arith

length-split : (sep : ℕ) (a s : Bytes) → length (split sep s) < length (split sep (a ++ sep ∷ s))
unfolding split
length-split sep [] s = ground arith
length-split sep (c ∷ a) s = elim (Bool-cases (c == sep)) [
  | inl hit ↦ rw hit (omega (arith, length-split sep a s))
  | inr miss ↦
      rw miss (omega (arith, length-split sep a s, length-grow_first c (split sep (a ++ sep ∷ s))))
]

some_parts : (sep : ℕ) (s : Bytes) → 0 < length (split sep s)
unfolding split
some_parts sep [] = omega arith
some_parts sep (c ∷ s) = elim (Bool-cases (c == sep)) [
  | inl hit ↦ rw hit (omega arith)
  | inr miss ↦ rw miss (omega (arith, some_parts sep s, length-grow_first c (split sep s)))
]

respond_parts-many :
    (t : IpText) (a : Association) (parts : List Bytes) (payload : Bytes)
    → 2 < length parts
    → respond_parts t a parts payload ≡ none
unfolding respond_parts
respond_parts-many t a [] payload h = refl
respond_parts-many t a (p ∷ []) payload h = refl
respond_parts-many t a (p ∷ q ∷ []) payload h = absurd (omega arith)
respond_parts-many t a (p ∷ q ∷ r ∷ parts) payload h = refl

-- A packet with an IPv4 address is not too short.
ten :
    (ip payload : Bytes) (port : ℕ)
    → length ip ≡ 4
    → ltb (length (packet_wire (ipv4 ip) port payload)) 10 ≡ false
ten ip payload port h = ground (arith, length-append ip (word port ++ payload))

pub handle_udp_response-ipv4 :
    (t : IpText) (a : Association) (client ip payload : Bytes) (port : ℕ)
    → a.client ≡ some client
    → length ip ≡ 4
    → Lacks b':' (t.to_string ip)
    → port < 65536
    → (handle_udp_response t a (t.to_string ip ++ b':' ∷ decimal port) payload
        ≡ some (packet_wire (ipv4 ip) port payload, client))
unfolding handle_udp_response respond_parts port_of
handle_udp_response-ipv4 t a client ip payload port c v l h =
    let built =
      build_udp_packet-host_of t (t.to_string ip) (some (v4 ip)) port payload
        (t.parse-to_string ip v) v in
    rw (
      split-join b':' (t.to_string ip) (decimal port ∷ []) l
          (Lacks-decimal b':' port (omega arith), tt),
      sscanf_int-decimal port (omega arith),
      built,
      c,
    )

-- A response from an IPv4 address reaches the client as a packet of RFC 1928 with just its address,
-- its port and its data. One whose address has a colon of its own, as an IPv6 address has, is
-- dropped.
pub handle_udp_response-packet :
    (t : IpText) (a : Association) (client ip payload before behind port_text : Bytes) (port : ℕ)
    → a.client ≡ some client
    → length ip ≡ 4
    → Lacks b':' (t.to_string ip)
    → port < 65536
    → (handle_udp_response t a (t.to_string ip ++ b':' ∷ decimal port) payload
        ≡ some (packet_wire (ipv4 ip) port payload, client))
      × (parse_udp_packet t (packet_wire (ipv4 ip) port payload)
          ≡ some (parsed (target_text t (ipv4 ip) port) payload))
      × (handle_udp_response t a (before ++ b':' ∷ (behind ++ b':' ∷ port_text)) payload ≡ none)
unfolding handle_udp_response
handle_udp_response-packet t a client ip payload before behind port_text port c v l h = (
  handle_udp_response-ipv4 t a client ip payload port c v l h,
  rw (parse_udp_packet-fragment_wire t 0 (ipv4 ip) port payload v h, ten ip payload port v),
  respond_parts-many t a (split b':' (before ++ b':' ∷ (behind ++ b':' ∷ port_text))) payload (
      omega (
        arith,
        some_parts b':' port_text,
        length-split b':' behind port_text,
        length-split b':' before (behind ++ b':' ∷ port_text),
      )),
)
