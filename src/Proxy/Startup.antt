-- ===== src/Proxy/Startup.antt =====
-- `runProxyServer` (proxy.go): how the proxy starts, and whom it then serves.
use tunnel.Prelude.{
  Bytes, Bool, true, false, [], ◌∷◌, ◌++◌, ◌≡◌, ◌≢◌, refl, sym, ap, ◌∙◌, Option, none, some,
  if◌then◌else◌, bytes_eq, codes,
}
use tunnel.Text.{Lacks}
use tunnel.Socks.Address.{IpText}
use tunnel.Socks.Handshake.{Config, is_set, has_credentials}
use tunnel.Http.Request.{Url, Runtime}
use tunnel.Proxy.{Read, invalid, valid, parse_proxy_addr}
use tunnel.Proxy.Address.{parse_proxy_addr-login}
use tunnel.Proxy.Connection.{handle_proxy_connection}
use tunnel.Proxy.Connection.Access.{is_tunnelled, IsLogin, handle_proxy_connection-IsLogin}

-- The program stops with an error, or the proxy serves every connection with its configuration.
pub data Start : Type 0 where
  refused : Start
  serves : Config → Start

-- The address is read, then listened on; `none` is a panic of `parseProxyAddr`.
abbrev pub listen_as : (Bytes → Bool) → Option Read → Option Start
listen_as listens none = none
listen_as listens (some invalid) = some refused
listen_as listens (some (valid c)) = some (if listens c.host then serves c else refused)

abbrev pub check_server : (Bytes → Bool) → Bytes → Option Url → Option Start
check_server listens addr none = some refused
check_server listens addr (some u) =
    if bytes_eq u.scheme (codes "wss")
    then listen_as listens (parse_proxy_addr addr)
    else some refused

-- `url.Parse`, and whether `net.Listen` succeeds on an address, are parameters.
unfoldable pub run_proxy_server :
    (Bytes → Option Url) → (Bytes → Bool) → Bytes → Bytes → Option Start
run_proxy_server parse_url listens addr ws_server_addr =
    if bytes_eq ws_server_addr []
    then some refused
    else check_server listens addr (parse_url ws_server_addr)

choice-serves :
    (b : Bool) (c d : Config)
    → ◌≡◌ {A = Option Start} (some (if b then serves c else refused)) (some (serves d))
    → c ≡ d
choice-serves true c d e = cc
choice-serves false c d e = cc

guard-serves :
    (b : Bool) (rest : Option Start) (d : Config)
    → (if b then rest else some refused) ≡ some (serves d)
    → rest ≡ some (serves d)
guard-serves true rest d e = e
guard-serves false rest d e = cc

check_server-serves :
    (listens : Bytes → Bool) (addr : Bytes) (o : Option Url) (d : Config)
    → check_server listens addr o ≡ some (serves d)
    → listen_as listens (parse_proxy_addr addr) ≡ some (serves d)
check_server-serves listens addr none d e = cc
check_server-serves listens addr (some u) d e =
    guard-serves (bytes_eq u.scheme (codes "wss")) (listen_as listens (parse_proxy_addr addr)) d e

first_guard-serves :
    (b : Bool) (rest : Option Start) (d : Config)
    → (if b then some refused else rest) ≡ some (serves d)
    → rest ≡ some (serves d)
first_guard-serves true rest d e = cc
first_guard-serves false rest d e = e

-- A proxy that serves has read its configuration from its address.
run_proxy_server-serves :
    (parse_url : Bytes → Option Url) (listens : Bytes → Bool) (addr ws_server_addr : Bytes)
    (c d : Config)
    → parse_proxy_addr addr ≡ some (valid c)
    → run_proxy_server parse_url listens addr ws_server_addr ≡ some (serves d)
    → c ≡ d
unfolding run_proxy_server
run_proxy_server-serves parse_url listens addr ws_server_addr c d r e =
    let checked =
      first_guard-serves (bytes_eq ws_server_addr [])
        (check_server listens addr (parse_url ws_server_addr)) d e in
    let listening = check_server-serves listens addr (parse_url ws_server_addr) d checked in
    choice-serves (listens c.host) c d (sym (ap (listen_as listens) r) ∙ listening)

is_set-filled : (s : Bytes) → s ≢ [] → is_set s ≡ true
is_set-filled [] n = absurd (n refl)
is_set-filled (b ∷ s) n = refl

has_credentials-filled : (c : Config) → c.username ≢ [] → c.password ≢ [] → has_credentials c ≡ true
unfolding has_credentials
has_credentials-filled c n m = rw (is_set-filled c.username n, is_set-filled c.password m)

-- A proxy that was started with a user name and a password in its address, neither of them empty, and
-- that serves: only a client that logs in with just these two, in either protocol, is brought to a
-- target, whatever the clients send.
pub run_proxy_server-IsLogin :
    (parse_url : Bytes → Option Url) (listens : Bytes → Bool)
    (username password host ws_server_addr : Bytes) (c : Config) (t : IpText) (r : Runtime)
    (sent replied : Bool) (input : Bytes)
    → username ≢ []
    → password ≢ []
    → Lacks b':' username
    → Lacks b'@' username
    → Lacks b'@' password
    → run_proxy_server parse_url listens
        (codes "proxy://" ++ ((username ++ b':' ∷ password) ++ b'@' ∷ host))
        ws_server_addr
      ≡ some (serves c)
    → is_tunnelled (handle_proxy_connection c t r sent replied input) ≡ true
    → IsLogin (record { username = username; password = password; host = host }) input
run_proxy_server-IsLogin parse_url listens username password host ws_server_addr c t r sent replied
      input n m colon at at_password e h =
    let configured : Config = record { username = username; password = password; host = host } in
    let addr = codes "proxy://" ++ ((username ++ b':' ∷ password) ++ b'@' ∷ host) in
    let same : configured ≡ c =
      run_proxy_server-serves parse_url listens addr ws_server_addr configured c
        (parse_proxy_addr-login username password host colon at at_password) e in
    handle_proxy_connection-IsLogin configured t r sent replied input
      (has_credentials-filled configured n m)
      (ap (λ d. is_tunnelled (handle_proxy_connection d t r sent replied input)) same ∙ h)
