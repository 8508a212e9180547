-- ===== src/Http/Forwarding/Fields.antt =====
-- The headers of a forwarded request (`handleHTTPForward`, http_proxy.go), for any order in which
-- `range` visits them.
use tunnel.Prelude.{Bytes, ◌≡◌, ◌≢◌, Option, none, some, codes}
use tunnel.Prelude.Map.{Map, lookup, bytes_key}

abbrev proxy_login : Bytes
proxy_login = codes "Proxy-Authorization"

abbrev proxy_connection : Bytes
proxy_connection = codes "Proxy-Connection"

abbrev host_name : Bytes
host_name = codes "Host"

abbrev or_value : Option Bytes → Bytes → Bytes
or_value none host = host
or_value (some value) host = value

-- The fields of a request for the target against the client's: none for the proxy, a Host in any case,
-- which is the URL's where the client gives none, and every other field as it was.
abbrev pub AreForwarded : Map Bytes Bytes → Bytes → Map Bytes Bytes → Type 0
AreForwarded fields host sent =
    (lookup proxy_login sent ≡ none)
    × (lookup proxy_connection sent ≡ none)
    × (lookup host_name sent ≡ some (or_value (lookup host_name fields) host))
    × ((key : Bytes)
        → key ≢ proxy_login
        → key ≢ proxy_connection
        → key ≢ host_name
        → lookup key sent ≡ lookup key fields)

abbrev or_else : Option Bytes → Option Bytes → Option Bytes
or_else none o = o
or_else (some value) o = some value
