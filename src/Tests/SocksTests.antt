-- ===== src/Tests/SocksTests.antt =====
-- Examples for the SOCKS5 front end (socks5.go).
use tunnel.Prelude.{
  Bytes, true, [], ◌∷◌, ◌++◌, ◌≡◌, refl, Option, none, some, length, zero, ◌==◌, if◌then◌else◌,
  bytes_eq, arith, codes,
}
use tunnel.Socks.Address.{IpText, Ip, v4, v6, Host, ipv4, domain, target_text}
use tunnel.Socks.Packet.{
  refused, parsed, short, bad_address_type, parse_address, parse_udp_packet, build_udp_packet,
}
use tunnel.Socks.Packet.Laws.{packet_wire, fragment_wire}
use tunnel.Socks.Packet.RoundTrip.{parse_udp_packet-fragment_wire, build-parse_udp_packet}
use tunnel.Socks.Handshake.{
  Config, ended, connects, read_full, with_first, use_field, with_sized, offers, has_credentials,
  select_method, answer_methods, follow_method, handle_user_pass, finish_auth, error_response,
  read_command, read_target, handle_request, handle_socks5,
}
use tunnel.Socks.Handshake.Authentication.{login_wire}
use tunnel.Socks.Handshake.Request.{request_wire, handle_socks5-connect}
use tunnel.Text.Decimal.{decimal}

-- A text of an address that starts with a byte no name has.
abbrev parse : Bytes → Option Ip
parse (zero ∷ ip) = if length ip == 4 then some (v4 ip) else some (v6 ip)
parse _ = none

abbrev pub text : IpText
text = record { to_string = λ ip. 0 ∷ ip; parse = parse; parse-to_string = λ ip h. rw h }

abbrev config : Config
config = record { username = codes "ann"; password = codes "pw"; host = codes ":1080" }

abbrev site : Host
site = domain (codes "a.io")

accepted :
    handle_socks5 config text true true
      (login_wire (0 ∷ 2 ∷ []) config (request_wire 1 site 443 (7 ∷ [])))
    ≡ connects ((5 ∷ 2 ∷ []) ∷ (1 ∷ 0 ∷ []) ∷ []) (codes "a.io:443") (7 ∷ [])
unfolding handle_socks5 read_full with_first use_field with_sized offers has_credentials
    select_method answer_methods follow_method handle_user_pass finish_auth read_command read_target
    handle_request target_text bytes_eq decimal
accepted = refl

-- A wrong password.
rejected :
    handle_socks5 config text true true (1 ∷ 2 ∷ 1 ∷ 3 ∷ (codes "ann" ++ (2 ∷ codes "px")))
    ≡ ended ((5 ∷ 2 ∷ []) ∷ (1 ∷ 1 ∷ []) ∷ [])
unfolding handle_socks5 read_full with_first use_field with_sized offers has_credentials
    select_method answer_methods follow_method handle_user_pass finish_auth read_command read_target
    handle_request target_text bytes_eq decimal
rejected = refl

no_method : handle_socks5 config text true true (1 ∷ 0 ∷ []) ≡ ended ((5 ∷ 255 ∷ []) ∷ [])
unfolding handle_socks5 read_full with_first use_field with_sized offers has_credentials
    select_method answer_methods follow_method
no_method = refl

open_proxy :
    handle_socks5
      (record { username = codes "ann"; password = []; host = [] })
      text
      true
      true
      (0 ∷ request_wire 2 (ipv4 (1 ∷ 2 ∷ 3 ∷ 4 ∷ [])) 80 [])
    ≡ ended ((5 ∷ 0 ∷ []) ∷ (5 ∷ 7 ∷ 0 ∷ 1 ∷ 0 ∷ 0 ∷ 0 ∷ 0 ∷ 0 ∷ 0 ∷ []) ∷ [])
unfolding handle_socks5 read_full with_first use_field with_sized offers has_credentials
    select_method answer_methods follow_method handle_request read_target read_command
    error_response
open_proxy = refl

-- A packet of RFC 1928 with nine bytes.
short_packet :
    parse_udp_packet text (packet_wire (domain (codes "a")) 53 (9 ∷ [])) ≡ some (refused short)
unfolding parse_udp_packet
short_packet = refl

unknown_type :
    parse_udp_packet text (0 ∷ 0 ∷ 0 ∷ 9 ∷ 1 ∷ 2 ∷ 3 ∷ 4 ∷ 5 ∷ 6 ∷ [])
    ≡ some (refused (bad_address_type 9))
unfolding parse_udp_packet parse_address
unknown_type = refl

parse_udp_packet-fragment_wire_example :
    parse_udp_packet text (fragment_wire 0 site 53 (9 ∷ []))
    ≡ some (parsed (codes "a.io:53") (9 ∷ []))
unfolding target_text decimal
parse_udp_packet-fragment_wire_example =
    parse_udp_packet-fragment_wire text 0 site 53 (9 ∷ []) (omega arith) (omega arith)

build-parse_udp_packet_example :
    (packet : Bytes) × (build_udp_packet text (codes "a.io") 53 (9 ∷ []) ≡ some packet)
    × (packet ≡ packet_wire site 53 (9 ∷ []))
    × (parse_udp_packet text packet ≡ some (parsed (codes "a.io:53") (9 ∷ [])))
unfolding target_text decimal
build-parse_udp_packet_example =
    build-parse_udp_packet text (codes "a.io") 53 (9 ∷ []) (omega arith) (omega arith) (omega arith)

handle_socks5-connect_example :
    handle_socks5 config text true true
      (login_wire (0 ∷ 2 ∷ []) config (request_wire 1 site 443 (7 ∷ [])))
    ≡ connects ((5 ∷ 2 ∷ []) ∷ (1 ∷ 0 ∷ []) ∷ []) (codes "a.io:443") (7 ∷ [])
unfolding target_text has_credentials offers decimal
handle_socks5-connect_example =
    handle_socks5-connect config text (0 ∷ 2 ∷ []) site 443 (7 ∷ []) refl refl (omega arith)
      (omega arith)
