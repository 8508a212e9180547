-- ===== src/Proxy/Connection.antt =====
-- `handleProxyConnection` (proxy.go): the protocol by the first byte of the client.
pub mod Access
use tunnel.Prelude.{ℕ, Bytes, Bool, true, false, List, [], ◌∷◌, ◌==◌, ◌||◌, if◌then◌else◌}
use tunnel.Socks.Address.{IpText}
use tunnel.Socks.Handshake.{Config, Session, handle_socks5}
use tunnel.Http.Request.{Runtime, Outcome, handle_http_protocol}

-- The connection is closed, or one of the two front ends takes it.
pub data Handled : Type 0 where
  closed : Handled
  socks : Session → Handled
  http : Outcome → Handled

-- The first letters of the methods that the comment lists.
unfoldable pub is_http_letter : ℕ → Bool
is_http_letter c = c == b'G' || c == b'P' || c == b'C' || c == b'H' || c == b'D' || c == b'O'

-- The flags tell whether the two replies of the SOCKS5 negotiation can be written.
unfoldable pub handle_proxy_connection : Config → IpText → Runtime → Bool → Bool → Bytes → Handled
handle_proxy_connection c t r sent replied [] = closed
handle_proxy_connection c t r sent replied (first ∷ rest) =
    if first == 5
    then socks (handle_socks5 c t sent replied rest)
    else if is_http_letter first
    then http (handle_http_protocol c r (first ∷ rest))
    else closed
