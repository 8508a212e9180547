-- ===== src/Http/Forwarding.antt =====
-- What `handleHTTPProtocol` (http_proxy.go) makes of a request of RFC 9112.
pub mod Fields
use tunnel.Prelude.{
  Bytes, true, false, [], ◌∷◌, ◌++◌, ◌≡◌, ◌≢◌, refl, sym, ap, ◌∙◌, Option, none, some, arith, ◌<◌,
  Bool-cases, inl, inr, bytes_eq, bytes_eq_ne, codes, if◌then◌else◌, length, append_assoc, subst,
  ltb, lt→ltb, ◌⊎◌,
}
use tunnel.Prelude.Map.{Map, lookup, bytes_key}
use tunnel.Text.{Lacks, Lacks-append, split_n-three}
use tunnel.Text.Space.{
  trim_space, IsField, IsVisible, last_of, AreSpaces, trim_space-IsField, is_ascii_space,
}
use tunnel.Text.Fields.{IsField-append, last_of-append, last_of-IsField}
use tunnel.Text.Decimal.{decimal}
use tunnel.Text.Scan.{sscanf_int-decimal}
use tunnel.Socks.Handshake.{Config}
use tunnel.Socks.Handshake.Authentication.{read_full-append}
use tunnel.Http.Headers.{read_http_headers}
use tunnel.Http.Headers.RoundTrip.{
  AreHeaders, headers_wire, read_line-append, read_http_headers-headers_wire,
}
use tunnel.Http.RequestLine.{IsRequestLine, request_wire, handle_http_protocol-request_line}
use tunnel.Http.Request.{
  Url, Runtime, Outcome, connects, forwards, is_authorized, with_headers, handle_http_connect,
  handle_http_forward, handle_request_line, handle_http_protocol, forward_to, with_body, read_body,
  target_of, path_of, is_proxy_header, header_line, header_lines, host_line, rebuilt,
}

with_headers-headers_wire :
    (c : Config) (fields : Map Bytes Bytes) (body : Bytes)
    (next : Map Bytes Bytes → Bytes → Outcome)
    → AreHeaders fields
    → is_authorized c fields ≡ true
    → with_headers c (read_http_headers (headers_wire fields body)) next ≡ next fields body
unfolding with_headers
with_headers-headers_wire c fields body next h a =
    rw (read_http_headers-headers_wire fields body h, a)

-- An authorized CONNECT request asks for its target.
handle_http_protocol-connect :
    (c : Config) (r : Runtime) (target version : Bytes) (fields : Map Bytes Bytes) (rest : Bytes)
    → IsRequestLine (codes "CONNECT") target version
    → AreHeaders fields
    → is_authorized c fields ≡ true
    → handle_http_protocol c r (request_wire (codes "CONNECT") target version fields rest)
      ≡ connects target
unfolding handle_request_line handle_http_connect bytes_eq
handle_http_protocol-connect c r target version fields rest l h a =
    handle_http_protocol-request_line c r (codes "CONNECT") target version fields rest l
    ∙ with_headers-headers_wire c fields rest _ h a

-- The headers that are sent on, and the one that is added where there is no Host.
abbrev pub kept : Map Bytes Bytes → Map Bytes Bytes
kept [] = []
kept ((key, value) ∷ fields) =
    if is_proxy_header key then kept fields else (key, value) ∷ kept fields

abbrev pub host_field : Option Bytes → Bytes → Map Bytes Bytes
host_field (some value) host = []
host_field none host = (codes "Host", host) ∷ []

host_line-host_field :
    (o : Option Bytes) (u : Url) (body : Bytes)
    → host_line o u ++ (codes "\r\n" ++ body) ≡ headers_wire (host_field o u.host) body
host_line-host_field none u body = refl
host_line-host_field (some value) u body = refl

header_lines-kept :
    (fields last : Map Bytes Bytes) (body : Bytes)
    → header_lines fields ++ headers_wire last body ≡ headers_wire (kept fields ++ last) body
unfolding header_lines
header_lines-kept [] last body = refl
header_lines-kept ((key, value) ∷ fields) last body = elim (Bool-cases (is_proxy_header key)) [
  | inl left_out ↦ rw left_out (header_lines-kept fields last body)
  | inr sent ↦ rw sent (
      append_assoc (header_line key value) (header_lines fields) (headers_wire last body)
      ∙ ap (λ s. header_line key value ++ s) (header_lines-kept fields last body))
]

-- A request as the target gets it: with the path for the URL, without the headers for the proxy.
abbrev pub forwarded : Runtime → Bytes → Url → Map Bytes Bytes → Bytes → Bytes
forwarded r method u fields body =
    request_wire method (path_of u) (codes "HTTP/1.1")
      (kept (r.visit fields) ++ host_field (lookup (codes "Host") fields) u.host) body

rebuilt-forwarded :
    (r : Runtime) (method : Bytes) (u : Url) (fields : Map Bytes Bytes) (body : Bytes)
    → rebuilt r method u fields body ≡ forwarded r method u fields body
unfolding rebuilt
rebuilt-forwarded r method u fields body =
    let host = lookup (codes "Host") fields in
    ap
      (λ s.
        method
        ++ b' ' ∷ (path_of u ++ (codes " HTTP/1.1\r\n" ++ (header_lines (r.visit fields) ++ s))))
      (host_line-host_field host u body)
    ∙ ap (λ s. method ++ b' ' ∷ (path_of u ++ (codes " HTTP/1.1\r\n" ++ s)))
        (header_lines-kept (r.visit fields) (host_field host u.host) body)

-- The body that the headers announce: none without a length, else as many bytes as the length says.
abbrev pub IsBody : Map Bytes Bytes → Bytes → Type 0
IsBody fields body =
    ((lookup (codes "Content-Length") fields ≡ none) × (body ≡ []))
    ⊎ ((lookup (codes "Content-Length") fields ≡ some (decimal (length body)))
        × (0 < length body)
        × (length body < 10485760))

read_body-length :
    (body rest : Bytes)
    → 0 < length body
    → length body < 10485760
    → read_body (some (decimal (length body))) (body ++ rest) ≡ some (body, rest)
unfolding read_body
read_body-length body rest lo hi =
    let filled : ltb 0 (length body) ≡ true = lt→ltb 0 (length body) lo in
    let small : ltb (length body) 10485760 ≡ true = lt→ltb (length body) 10485760 hi in
    rw (sscanf_int-decimal (length body) (omega arith), filled, small) (read_full-append body rest)

read_body-IsBody :
    (fields : Map Bytes Bytes) (body rest : Bytes)
    → IsBody fields body
    → (more : Bytes) × (read_body (lookup (codes "Content-Length") fields) (body ++ rest)
        ≡ some (body, more))
unfolding read_body
read_body-IsBody fields body rest (inl (e, n)) = (rest, rw (e, n))
read_body-IsBody fields body rest (inr (e, lo, hi)) =
    (rest, rw e (read_body-length body rest lo hi))

forward_to-headers_wire :
    (c : Config) (r : Runtime) (method : Bytes) (u : Url) (fields : Map Bytes Bytes)
    (body rest : Bytes)
    → AreHeaders fields
    → is_authorized c fields ≡ true
    → IsBody fields body
    → forward_to c r method (headers_wire fields (body ++ rest)) (some u)
      ≡ forwards (target_of u) (forwarded r method u fields body)
forward_to-headers_wire c r method u fields body rest h a b =
    let (more, e) = read_body-IsBody fields body rest b in
    with_headers-headers_wire c fields (body ++ rest) _ h a
    ∙ ap (λ o. with_body o (λ s. forwards (target_of u) (rebuilt r method u fields s))) e
    ∙ ap (forwards (target_of u)) (rebuilt-forwarded r method u fields body)

-- An authorized request with any other method goes to the target of its URL as a request with the
-- same method, headers and body.
pub handle_http_protocol-forward :
    (c : Config) (r : Runtime) (method url version : Bytes) (u : Url) (fields : Map Bytes Bytes)
    (body rest : Bytes)
    → IsRequestLine method url version
    → method ≢ codes "CONNECT"
    → r.parse_url url ≡ some u
    → AreHeaders fields
    → is_authorized c fields ≡ true
    → IsBody fields body
    → handle_http_protocol c r (request_wire method url version fields (body ++ rest))
      ≡ forwards (target_of u) (forwarded r method u fields body)
unfolding handle_request_line handle_http_forward
handle_http_protocol-forward c r method url version u fields body rest l n p h a b =
    let other : bytes_eq method (codes "CONNECT") ≡ false =
      bytes_eq_ne method (codes "CONNECT") n in
    handle_http_protocol-request_line c r method url version fields (body ++ rest) l
    ∙ (rw (other, p) (forward_to-headers_wire c r method u fields body rest h a b))
