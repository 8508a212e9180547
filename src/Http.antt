-- ===== src/Http.antt =====
-- http_proxy.go: the HTTP front end of the client.
pub mod Auth
pub mod Headers
pub mod Request
pub mod RequestLine
pub mod Termination
pub mod Access
pub mod Forwarding
use tunnel.Prelude.{
  Bytes, Bool, true, false, not, List, [], ◌∷◌, Option, none, some, ◌&&◌, if◌then◌else◌, codes,
  bytes_eq,
}
use tunnel.Text.{has_prefix, split_n, trim_prefix}
use tunnel.Dns.Base64.{decode}

-- The parts of the decoded credentials against the configured ones.
unfoldable pub is_login : Bytes → Bytes → List Bytes → Bool
is_login username password (u ∷ p ∷ []) = bytes_eq u username && bytes_eq p password
is_login username password _ = false

unfoldable pub check_credentials : Bytes → Bytes → Option Bytes → Bool
check_credentials username password none = false
check_credentials username password (some credentials) =
    is_login username password (split_n 2 b':' credentials)

unfoldable pub validate_proxy_auth : Bytes → Bytes → Bytes → Bool
validate_proxy_auth header username password =
    if bytes_eq header []
    then false
    else if not (has_prefix header (codes "Basic "))
    then false
    else check_credentials username password (decode (trim_prefix header (codes "Basic ")))
