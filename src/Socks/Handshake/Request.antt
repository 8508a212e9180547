-- ===== src/Socks/Handshake/Request.antt =====
-- Requests of RFC 1928 through `handleSOCKS5Request` (socks5.go).
use tunnel.Prelude.{
  ℕ, Bytes, true, [], ◌∷◌, ◌++◌, ◌≡◌, ap, ◌∙◌, some, if◌then◌else◌, ◌==◌, length, ◌<◌, ◌+◌, ◌*◌,
  ◌/◌, ◌%◌, arith, subst,
}
use tunnel.Octets.{word}
use tunnel.Socks.Address.{IpText, Host, ipv4, domain, ipv6, target_text}
use tunnel.Socks.Packet.Laws.{host_wire, IsHost}
use tunnel.Socks.Handshake.{
  Config, Session, ended, connects, associates, after, read_full, use_field, offers,
  has_credentials, error_response, read_command, read_target, handle_request, handle_socks5,
}
use tunnel.Socks.Handshake.Authentication.{
  login_wire, read_full-append, with_sized-append, handle_socks5-login_wire,
}

-- RFC 1928, section 4: the version, the command, a reserved byte, the address and the port.
abbrev pub request_wire : ℕ → Host → ℕ → Bytes → Bytes
request_wire command host port rest = 5 ∷ command ∷ 0 ∷ (host_wire host ++ (word port ++ rest))

-- What a command comes to: CONNECT and UDP ASSOCIATE are carried out, all else is refused with
-- status 7.
abbrev pub outcome : ℕ → Bytes → Bytes → Session
outcome command target rest =
    if command == 1
    then connects [] target rest
    else if command == 3
    then associates [] rest
    else ended (error_response 7 ∷ [])

word-value : (port : ℕ) → port < 65536 → (port / 256) % 256 * 256 + port % 256 ≡ port
word-value port h = omega arith

read_command-word :
    (t : IpText) (command : ℕ) (host : Host) (port : ℕ) (rest : Bytes)
    → port < 65536
    → read_command t command host (word port ++ rest)
      ≡ outcome command (target_text t host port) rest
unfolding read_command
read_command-word t command host port rest h =
    ap (λ p. outcome command (target_text t host p) rest) (word-value port h)

read_full_of :
    (n : ℕ) (bytes rest : Bytes)
    → length bytes ≡ n
    → read_full n (bytes ++ rest) ≡ some (bytes, rest)
read_full_of n bytes rest e =
    subst (λ k. read_full k (bytes ++ rest) ≡ some (bytes, rest)) e (read_full-append bytes rest)

-- A request of RFC 1928 with an address of any type and a port comes to its command: CONNECT with
-- the target and the bytes behind the request, UDP ASSOCIATE with these bytes, any other with the
-- refusal 7.
handle_request-request_wire :
    (t : IpText) (command : ℕ) (host : Host) (port : ℕ) (rest : Bytes)
    → IsHost host
    → port < 65536
    → handle_request t (request_wire command host port rest)
      ≡ outcome command (target_text t host port) rest
unfolding handle_request read_target use_field
handle_request-request_wire t command (ipv4 ip) port rest v h =
    ap (use_field (λ ip rest. read_command t command (ipv4 ip) rest))
      (read_full_of 4 ip (word port ++ rest) v)
    ∙ read_command-word t command (ipv4 ip) port rest h
handle_request-request_wire t command (domain name) port rest v h =
    with_sized-append name (word port ++ rest)
      (λ name rest. read_command t command (domain name) rest)
    ∙ read_command-word t command (domain name) port rest h
handle_request-request_wire t command (ipv6 ip) port rest v h =
    ap (use_field (λ ip rest. read_command t command (ipv6 ip) rest))
      (read_full_of 16 ip (word port ++ rest) v)
    ∙ read_command-word t command (ipv6 ip) port rest h

-- With a user name and a password configured, a client that offers the method among any others, logs
-- in and asks for a connection gets the replies 5 2 and 1 0, if they can be written, and the
-- connection to its target is carried out on what it sent behind.
pub handle_socks5-connect :
    (c : Config) (t : IpText) (methods : Bytes) (host : Host) (port : ℕ) (rest : Bytes)
    → has_credentials c ≡ true
    → offers 2 methods ≡ true
    → IsHost host
    → port < 65536
    → handle_socks5 c t true true (login_wire methods c (request_wire 1 host port rest))
      ≡ connects ((5 ∷ 2 ∷ []) ∷ (1 ∷ 0 ∷ []) ∷ []) (target_text t host port) rest
handle_socks5-connect c t methods host port rest k o v h =
    handle_socks5-login_wire c t methods (request_wire 1 host port rest) k o
    ∙ ap (λ s. after (5 ∷ 2 ∷ []) (after (1 ∷ 0 ∷ []) s))
        (handle_request-request_wire t 1 host port rest v h)
