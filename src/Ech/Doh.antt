-- ===== src/Ech/Doh.antt =====
-- `queryHTTPSRecord` and the question of `queryDoH` (ech.go): the server's URL and the parameter `dns`,
-- which is in `base64.RawURLEncoding` of Go's library.
use tunnel.Prelude.{
  ℕ, Bytes, List, [], ◌∷◌, ◌++◌, ◌≡◌, refl, ap, ◌∙◌, Option, none, some, arith, ◌+◌, ◌-◌, ◌*◌, ◌/◌,
  ◌%◌, ◌<◌, ltb, leb, ◌==◌, ◌&&◌, ◌||◌, if◌then◌else◌, ◌>>=◌, codes,
}
use tunnel.Text.{has_prefix, Lacks, AllLack, join}
use tunnel.Dns.Base64.RoundTrip.{AreOctets}
use tunnel.Dns.Query.{build_dns_query}
use tunnel.Dns.Response.{type_https}
use tunnel.Dns.Format.Records.{IsName}
use tunnel.Dns.Format.Question.{query_bytes, build_dns_query-query_bytes}

-- `dohURL`
unfoldable pub doh_url : Bytes → Bytes
doh_url dns_server =
    if has_prefix dns_server (codes "https://") || has_prefix dns_server (codes "http://")
    then dns_server
    else codes "https://" ++ dns_server

-- The character of six bits.
unfoldable pub url_symbol : ℕ → ℕ
url_symbol n =
    if ltb n 26
    then b'A' + n
    else if ltb n 52
    then b'a' + (n - 26)
    else if ltb n 62
    then b'0' + (n - 52)
    else if n == 62
    then b'-'
    else b'_'

-- `EncodeToString`, without padding
unfoldable pub raw_url_encode : Bytes → Bytes
raw_url_encode [] = []
raw_url_encode (a ∷ []) = url_symbol (a / 4) ∷ url_symbol (a % 4 * 16) ∷ []
raw_url_encode (a ∷ b ∷ []) =
    url_symbol (a / 4) ∷ url_symbol (a % 4 * 16 + b / 16) ∷ url_symbol (b % 16 * 4) ∷ []
raw_url_encode (a ∷ b ∷ c ∷ rest) =
    url_symbol (a / 4)
    ∷ url_symbol (a % 4 * 16 + b / 16)
    ∷ url_symbol (b % 16 * 4 + c / 64)
    ∷ url_symbol (c % 64)
    ∷ raw_url_encode rest

-- `dnsBase64`
unfoldable pub dns_parameter : Bytes → Bytes
dns_parameter domain = raw_url_encode (build_dns_query domain type_https)

-- The six bits of a character, by RFC 4648.
unfoldable pub url_value : ℕ → Option ℕ
url_value c =
    if leb b'A' c && leb c b'Z'
    then some (c - b'A')
    else if leb b'a' c && leb c b'z'
    then some (c - b'a' + 26)
    else if leb b'0' c && leb c b'9'
    then some (c - b'0' + 52)
    else if c == b'-'
    then some 62
    else if c == b'_'
    then some 63
    else none

-- What a DoH server reads in the parameter.
unfoldable pub raw_url_decode : Bytes → Option Bytes
raw_url_decode [] = some []
raw_url_decode (p ∷ []) = none
raw_url_decode (p ∷ q ∷ []) = do a ← url_value p; b ← url_value q; some ((a * 4 + b / 16) ∷ [])
raw_url_decode (p ∷ q ∷ r ∷ []) = do
  a ← url_value p
  b ← url_value q
  c ← url_value r
  some ((a * 4 + b / 16) ∷ (b % 16 * 16 + c / 4) ∷ [])
raw_url_decode (p ∷ q ∷ r ∷ s ∷ rest) = do
  a ← url_value p
  b ← url_value q
  c ← url_value r
  d ← url_value s
  bytes ← raw_url_decode rest
  some ((a * 4 + b / 16) ∷ (b % 16 * 16 + c / 4) ∷ (c % 4 * 64 + d) ∷ bytes)

url_value-url_symbol : (n : ℕ) → n < 64 → url_value (url_symbol n) ≡ some n
unfolding url_value url_symbol
url_value-url_symbol n h = ground arith

same_octet : (x y : ℕ) (xs ys : Bytes) → x ≡ y → xs ≡ ys → ◌≡◌ {A = Bytes} (x ∷ xs) (y ∷ ys)
same_octet x y xs ys p q = rw (p, q)

raw_url_decode-encode : (x : Bytes) → AreOctets x → raw_url_decode (raw_url_encode x) ≡ some x
unfolding raw_url_decode raw_url_encode
raw_url_decode-encode [] h = refl
raw_url_decode-encode (a ∷ []) h =
    rw (url_value-url_symbol (a / 4) (omega arith), url_value-url_symbol (a % 4 * 16) (omega arith))
      (ap some (same_octet _ _ _ _ (omega arith) refl))
raw_url_decode-encode (a ∷ b ∷ []) h =
    rw
      (
        url_value-url_symbol (a / 4) (omega arith),
        url_value-url_symbol (a % 4 * 16 + b / 16) (omega arith),
        url_value-url_symbol (b % 16 * 4) (omega arith),
      )
      (ap some (same_octet _ _ _ _ (omega arith) (same_octet _ _ _ _ (omega arith) refl)))
raw_url_decode-encode (a ∷ b ∷ c ∷ rest) h =
    rw
      (
        url_value-url_symbol (a / 4) (omega arith),
        url_value-url_symbol (a % 4 * 16 + b / 16) (omega arith),
        url_value-url_symbol (b % 16 * 4 + c / 64) (omega arith),
        url_value-url_symbol (c % 64) (omega arith),
        raw_url_decode-encode rest h.1.1.1,
      )
      (ap some (
        same_octet _ _ _ _ (omega arith)
          (same_octet _ _ _ _ (omega arith) (same_octet _ _ _ _ (omega arith) refl))))

-- A DoH server that decodes the parameter `dns` by RFC 4648 reads the question of RFC 1035 for the
-- HTTPS record of just the labels of the domain, if each has 1 to 63 bytes and no dot.
pub dns_parameter-query_bytes :
    (label : Bytes) (labels : List Bytes)
    → Lacks b'.' label
    → AllLack b'.' labels
    → IsName (label ∷ labels)
    → AreOctets (query_bytes (label ∷ labels) 65)
    → raw_url_decode (dns_parameter (join b'.' label labels))
      ≡ some (query_bytes (label ∷ labels) 65)
unfolding dns_parameter
dns_parameter-query_bytes label labels h k n o =
    ap (λ q. raw_url_decode (raw_url_encode q))
      (build_dns_query-query_bytes label labels type_https h k n)
    ∙ raw_url_decode-encode (query_bytes (label ∷ labels) 65) o
