-- ===== src/Http/Request.antt =====
-- `handleHTTPProtocol`, `handleHTTPConnect` and `handleHTTPForward` (http_proxy.go), up to the call of
-- `RegisterAndClaim`. `url.Parse` of Go's package net/url is a parameter, and so is the order in which
-- `range` visits a map.
use tunnel.Prelude.{
  ℕ, Bytes, Bool, true, not, List, [], ◌∷◌, ◌++◌, Option, none, some, ◌&&◌, ◌||◌, bytes_eq,
  if◌then◌else◌, codes, ltb,
}
use tunnel.Prelude.Map.{Map, lookup, bytes_key}
use tunnel.Text.{split_n}
use tunnel.Text.Space.{trim_space}
use tunnel.Text.Scan.{sscanf_int}
use tunnel.Socks.Handshake.{Config, has_credentials, read_full}
use tunnel.Proxy.{contains}
use tunnel.Http.{validate_proxy_auth}
use tunnel.Http.Headers.{Headers, failed, out_of_fuel, read, read_line, read_http_headers}

-- `url.URL`
pub record Url : Type 0 where
  pub scheme : Bytes
  pub host : Bytes
  pub path : Bytes
  pub raw_query : Bytes

pub record Runtime : Type 0 where
  pub parse_url : Bytes → Option Url
  pub visit : Map Bytes Bytes → Map Bytes Bytes

-- The connection is dropped, answered with an error, or a target is asked for: by CONNECT, or with a
-- first frame. `endless` stands for a header loop without end.
pub data Outcome : Type 0 where
  dropped endless : Outcome
  answered connects : Bytes → Outcome
  forwards : Bytes → Bytes → Outcome

abbrev pub bad_request : Bytes
bad_request = codes "HTTP/1.1 400 Bad Request\r\n\r\n"

abbrev pub auth_required : Bytes
auth_required =
    codes
      "HTTP/1.1 407 Proxy Authentication Required\r\nProxy-Authenticate: Basic realm=\"Proxy\"\r\n\r\n"

-- `headers[key]`, the empty string for a missing key
abbrev pub or_empty : Option Bytes → Bytes
or_empty none = []
or_empty (some value) = value

unfoldable pub is_authorized : Config → Map Bytes Bytes → Bool
unfolding lookup
is_authorized c headers =
    if has_credentials c
    then validate_proxy_auth (or_empty (lookup (codes "Proxy-Authorization") headers)) c.username
        c.password
    else true

-- The headers, then the authentication, then what the request asks for.
unfoldable pub with_headers : Config → Headers → (Map Bytes Bytes → Bytes → Outcome) → Outcome
with_headers c failed next = answered bad_request
with_headers c out_of_fuel next = endless
with_headers c (read headers rest) next =
    if is_authorized c headers then next headers rest else answered auth_required

unfoldable pub handle_http_connect : Config → Bytes → Bytes → Outcome
handle_http_connect c target reader =
    with_headers c (read_http_headers reader) (λ headers rest. connects target)

unfoldable pub target_of : Url → Bytes
target_of u =
    if contains b':' u.host
    then u.host
    else if bytes_eq u.scheme (codes "https")
    then u.host ++ codes ":443"
    else u.host ++ codes ":80"

-- The body of `length` bytes, between 1 and 10 MiB; any other length reads none.
abbrev body_of_length : Option (Bool × ℕ) → Bytes → Option (Bytes × Bytes)
body_of_length none reader = some ([], reader)
body_of_length (some (negative, n)) reader =
    if not negative && ltb 0 n && ltb n 10485760 then read_full n reader else some ([], reader)

-- `none` is the error of `io.ReadFull`.
unfoldable pub read_body : Option Bytes → Bytes → Option (Bytes × Bytes)
read_body none reader = some ([], reader)
read_body (some content_length) reader = body_of_length (sscanf_int content_length) reader

unfoldable pub path_of : Url → Bytes
path_of u =
    let path = if bytes_eq u.path [] then codes "/" else u.path in
    if bytes_eq u.raw_query [] then path else path ++ codes "?" ++ u.raw_query

-- `Proxy-Authorization` and `Proxy-Connection` stay behind.
unfoldable pub is_proxy_header : Bytes → Bool
is_proxy_header key =
    bytes_eq key (codes "Proxy-Authorization") || bytes_eq key (codes "Proxy-Connection")

abbrev pub header_line : Bytes → Bytes → Bytes
header_line key value = key ++ (codes ": " ++ (value ++ codes "\r\n"))

unfoldable pub header_lines : Map Bytes Bytes → Bytes
header_lines [] = []
header_lines ((key, value) ∷ headers) =
    let rest = header_lines headers in
    if is_proxy_header key then rest else header_line key value ++ rest

abbrev pub host_line : Option Bytes → Url → Bytes
host_line (some host) u = []
host_line none u = header_line (codes "Host") u.host

unfoldable pub rebuilt : Runtime → Bytes → Url → Map Bytes Bytes → Bytes → Bytes
unfolding lookup
rebuilt r method u headers body =
    method
    ++ (codes " "
        ++ (path_of u
            ++ (codes " HTTP/1.1\r\n"
                ++ (header_lines (r.visit headers)
                    ++ (host_line (lookup (codes "Host") headers) u ++ (codes "\r\n" ++ body))))))

abbrev pub with_body : Option (Bytes × Bytes) → (Bytes → Outcome) → Outcome
with_body none next = answered bad_request
with_body (some (body, rest)) next = next body

abbrev pub forward_to : Config → Runtime → Bytes → Bytes → Option Url → Outcome
forward_to c r method reader none = answered bad_request
forward_to c r method reader (some u) = with_headers c (read_http_headers reader) λ headers rest.
    with_body (read_body (lookup (codes "Content-Length") headers) rest)
      λ body. forwards (target_of u) (rebuilt r method u headers body)

unfoldable pub handle_http_forward : Config → Runtime → Bytes → Bytes → Bytes → Outcome
unfolding lookup
handle_http_forward c r method url reader = forward_to c r method reader (r.parse_url url)

-- The parts of the request line.
unfoldable pub handle_request_line : Config → Runtime → List Bytes → Bytes → Outcome
handle_request_line c r (method ∷ url ∷ version ∷ []) reader =
    if bytes_eq method (codes "CONNECT")
    then handle_http_connect c url reader
    else handle_http_forward c r method url reader
handle_request_line c r _ reader = dropped

abbrev after_request_line : Config → Runtime → Option (Bytes × Bytes) → Outcome
after_request_line c r none = dropped
after_request_line c r (some (line, reader)) =
    handle_request_line c r (split_n 3 b' ' (trim_space line)) reader

-- `handleHTTPProtocol`; the input holds the first byte too, as its `MultiReader` does.
unfoldable pub handle_http_protocol : Config → Runtime → Bytes → Outcome
handle_http_protocol c r input = after_request_line c r (read_line input)
