-- ===== src/Tests/ProxyTests.antt =====
-- Examples for the proxy's address and its HTTP authentication (proxy.go, http_proxy.go).
use tunnel.Prelude.{Bytes, true, false, ◌++◌, ◌≡◌, ◌↔◌, refl, some, arith, codes, bytes_eq}
use tunnel.Text.{has_prefix, split_n, cut, trim_prefix, Lacks}
use tunnel.Dns.Base64.{decode}
use tunnel.Socks.Handshake.{Config}
use tunnel.Proxy.{valid, contains, read_login, read_parts, parse_proxy_addr}
use tunnel.Http.{validate_proxy_auth}
use tunnel.Http.Auth.{validate_proxy_auth-parse_proxy_addr}

abbrev config : Config
config = record { username = codes "ann"; password = codes "p:w"; host = codes ":80" }

reads : parse_proxy_addr (codes "proxy://ann:p:w@:80") ≡ some (valid config)
unfolding parse_proxy_addr contains trim_prefix has_prefix split_n cut read_parts read_login
reads = refl

-- The password is cut at its first `@`.
cuts :
    parse_proxy_addr (codes "proxy://ann:p@w@:80")
    ≡ some (valid (record { username = codes "ann"; password = codes "p"; host = codes "w@:80" }))
unfolding parse_proxy_addr contains trim_prefix has_prefix split_n cut read_parts read_login
cuts = refl

-- The scheme's case matters.
refuses : validate_proxy_auth (codes "basic YW5uOnA6dw==") (codes "ann") (codes "p:w") ≡ false
unfolding validate_proxy_auth bytes_eq has_prefix
refuses = refl

ann-Lacks_colon : Lacks b':' (codes "ann")
ann-Lacks_colon =
    (λ e. absurd (omega arith), (λ e. absurd (omega arith), (λ e. absurd (omega arith), tt)))

ann-Lacks_at : Lacks b'@' (codes "ann")
ann-Lacks_at =
    (λ e. absurd (omega arith), (λ e. absurd (omega arith), (λ e. absurd (omega arith), tt)))

validate_proxy_auth-parse_proxy_addr_example :
    (validate_proxy_auth (codes "Basic YW5uOnA6dw==") (codes "ann") (codes "p:w") ≡ true) ↔ (
      (encoded : Bytes) × (codes "Basic YW5uOnA6dw==" ≡ codes "Basic " ++ encoded)
      × (decode encoded ≡ some (codes "ann:p:w")))
validate_proxy_auth-parse_proxy_addr_example =
    validate_proxy_auth-parse_proxy_addr (codes "proxy://ann:p:w@:80") config
      (codes "Basic YW5uOnA6dw==") reads
