-- ===== src/Proxy/Connection/Access.antt =====
-- Who gets through the proxy (proxy.go, socks5.go, http_proxy.go).
use tunnel.Prelude.{
  Bytes, Bool, true, false, [], ◌∷◌, ◌≡◌, some, arith, ◌==◌, ==_iff, Bool-cases, inl, inr, ◌⊎◌,
}
use tunnel.Socks.Address.{IpText}
use tunnel.Socks.Handshake.{Config, has_credentials, offers}
use tunnel.Socks.Handshake.Authentication.{is_served, login_wire, handle_socks5-is_served}
use tunnel.Http.Request.{Runtime}
use tunnel.Http.Headers.{read_line}
use tunnel.Http.Access.{is_opened, HoldsLogin, handle_http_protocol-HoldsLogin}
use tunnel.Proxy.Connection.{Handled, closed, socks, http, is_http_letter, handle_proxy_connection}

-- Whether the connection comes to a target or to a UDP association.
abbrev pub is_tunnelled : Handled → Bool
is_tunnelled closed = false
is_tunnelled (socks session) = is_served session
is_tunnelled (http outcome) = is_opened outcome

-- A login by RFC 1929, or one by RFC 7617 in the headers behind the first line.
abbrev pub IsLogin : Config → Bytes → Type 0
IsLogin c input =
    ((methods : Bytes) × (rest : Bytes) × (offers 2 methods ≡ true)
      × (input ≡ 5 ∷ login_wire methods c rest))
    ⊎ ((line : Bytes) × (reader : Bytes) × (read_line input ≡ some (line, reader))
        × HoldsLogin c reader)

-- With a user name and a password configured, whatever a client sends: only a login with both of
-- them brings its connection to a target.
pub handle_proxy_connection-IsLogin :
    (c : Config) (t : IpText) (r : Runtime) (sent replied : Bool) (input : Bytes)
    → has_credentials c ≡ true
    → is_tunnelled (handle_proxy_connection c t r sent replied input) ≡ true
    → IsLogin c input
unfolding handle_proxy_connection
handle_proxy_connection-IsLogin c t r sent replied [] k e = cc
handle_proxy_connection-IsLogin c t r sent replied (first ∷ rest) k e =
    elim (Bool-cases (first == 5)) [
      | inl socks5 ↦
          let (methods, behind, offered, p) =
            handle_socks5-is_served c t sent replied rest k (rw socks5 at e) in
          inl (methods, behind, offered, rw ((==_iff first 5).0 socks5, p))
      | inr other ↦ elim (Bool-cases (is_http_letter first)) [
        | inl letter ↦
            inr (handle_http_protocol-HoldsLogin c r (first ∷ rest) k (rw (other, letter) at e))
        | inr unknown ↦ absurd (ground (arith, e, other, unknown))
      ]
    ]
