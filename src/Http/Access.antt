-- ===== src/Http/Access.antt =====
-- Who gets through the HTTP front end (http_proxy.go).
use tunnel.Prelude.{
  Bytes, Bool, true, false, List, [], ◌∷◌, ◌++◌, ◌≡◌, refl, ap, Option, none, some, arith,
  Option-cases, Bool-cases, inl, inr, bytes_eq, codes,
}
use tunnel.Prelude.Map.{Map, lookup, bytes_key}
use tunnel.Text.{split_n}
use tunnel.Text.Space.{trim_space}
use tunnel.Dns.Base64.{decode}
use tunnel.Socks.Handshake.{Config, has_credentials}
use tunnel.Http.Auth.{credentials, validate_proxy_auth-exact}
use tunnel.Http.Headers.{Headers, failed, out_of_fuel, read, read_line, read_http_headers}
use tunnel.Http.Request.{
  Url, Runtime, Outcome, connects, forwards, or_empty, is_authorized, with_headers,
  handle_http_connect, handle_http_forward, handle_request_line, handle_http_protocol, forward_to,
}

-- Whether a target is asked for.
abbrev pub is_opened : Outcome → Bool
is_opened (connects target) = true
is_opened (forwards target frame) = true
is_opened _ = false

-- The headers in front of the input hold the credentials, as RFC 7617 writes them.
abbrev pub HoldsLogin : Config → Bytes → Type 0
HoldsLogin c reader =
    (headers : Map Bytes Bytes) × (rest : Bytes) × (encoded : Bytes) × (read_http_headers reader
      ≡ read headers rest)
    × (lookup (codes "Proxy-Authorization") headers ≡ some (codes "Basic " ++ encoded))
    × (decode encoded ≡ some (credentials c.username c.password))

or_empty-Basic :
    (o : Option Bytes) (encoded : Bytes)
    → or_empty o ≡ codes "Basic " ++ encoded
    → o ≡ some (codes "Basic " ++ encoded)
or_empty-Basic none encoded e = cc
or_empty-Basic (some value) encoded e = ap some e

is_authorized-login :
    (c : Config) (headers : Map Bytes Bytes)
    → has_credentials c ≡ true
    → is_authorized c headers ≡ true
    → (encoded : Bytes) × (lookup (codes "Proxy-Authorization") headers
        ≡ some (codes "Basic " ++ encoded))
      × (decode encoded ≡ some (credentials c.username c.password))
unfolding is_authorized
is_authorized-login c headers h e =
    let found = lookup (codes "Proxy-Authorization") headers in
    let (encoded, p, q) =
      validate_proxy_auth-exact (or_empty found) c.username c.password (rw h at e) in
    (encoded, or_empty-Basic found encoded p, q)

with_headers-HoldsLogin :
    (c : Config) (reader : Bytes) (h : Headers) (next : Map Bytes Bytes → Bytes → Outcome)
    → read_http_headers reader ≡ h
    → has_credentials c ≡ true
    → is_opened (with_headers c h next) ≡ true
    → HoldsLogin c reader
unfolding with_headers
with_headers-HoldsLogin c reader failed next e k o = cc
with_headers-HoldsLogin c reader out_of_fuel next e k o = cc
with_headers-HoldsLogin c reader (read headers rest) next e k o =
    elim (Bool-cases (is_authorized c headers)) [
      | inl accepted ↦
          let (encoded, p, q) = is_authorized-login c headers k accepted in
          (headers, rest, encoded, e, p, q)
      | inr refused ↦ absurd (ground (arith, o, refused))
    ]

forward_to-HoldsLogin :
    (c : Config) (r : Runtime) (method reader : Bytes) (found : Option Url)
    → has_credentials c ≡ true
    → is_opened (forward_to c r method reader found) ≡ true
    → HoldsLogin c reader
forward_to-HoldsLogin c r method reader none k o = cc
forward_to-HoldsLogin c r method reader (some u) k o =
    with_headers-HoldsLogin c reader (read_http_headers reader) _ refl k o

handle_request_line-HoldsLogin :
    (c : Config) (r : Runtime) (parts : List Bytes) (reader : Bytes)
    → has_credentials c ≡ true
    → is_opened (handle_request_line c r parts reader) ≡ true
    → HoldsLogin c reader
unfolding handle_request_line handle_http_connect handle_http_forward
handle_request_line-HoldsLogin c r (method ∷ url ∷ version ∷ []) reader k o =
    elim (Bool-cases (bytes_eq method (codes "CONNECT"))) [
      | inl tunnel ↦
          with_headers-HoldsLogin c reader (read_http_headers reader) (λ headers rest. connects url)
            refl k (rw tunnel at o)
      | inr other ↦ forward_to-HoldsLogin c r method reader (r.parse_url url) k (rw other at o)
    ]
handle_request_line-HoldsLogin c r [] reader k o = cc
handle_request_line-HoldsLogin c r (a ∷ []) reader k o = cc
handle_request_line-HoldsLogin c r (a ∷ b ∷ []) reader k o = cc
handle_request_line-HoldsLogin c r (a ∷ b ∷ d ∷ e ∷ parts) reader k o = cc

-- With a user name and a password configured, a target is asked for only if the headers behind the
-- request line hold them.
pub handle_http_protocol-HoldsLogin :
    (c : Config) (r : Runtime) (input : Bytes)
    → has_credentials c ≡ true
    → is_opened (handle_http_protocol c r input) ≡ true
    → (line : Bytes) × (reader : Bytes) × (read_line input ≡ some (line, reader))
      × HoldsLogin c reader
unfolding handle_http_protocol
handle_http_protocol-HoldsLogin c r input k o = elim (Option-cases (read_line input)) [
  | inl missing ↦ absurd (ground (arith, o, missing))
  | inr ((line, reader), e) ↦ (
    line,
    reader,
    e,
    handle_request_line-HoldsLogin c r (split_n 3 b' ' (trim_space line)) reader k (rw e at o),
  )
]
