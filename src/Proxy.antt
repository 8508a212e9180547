-- ===== src/Proxy.antt =====
-- proxy.go: `parseProxyAddr` and the choice of the protocol in `handleProxyConnection`.
pub mod Address
pub mod Connection
pub mod Startup
use tunnel.Prelude.{
  ℕ, Bytes, Bool, true, false, List, [], ◌∷◌, Option, none, some, ◌==◌, ◌||◌, if◌then◌else◌, codes,
  ◌>>=◌,
}
use tunnel.Text.{split_n, trim_prefix}
use tunnel.Socks.Handshake.{Config}

-- `strings.Contains` with one byte
unfoldable pub contains : ℕ → Bytes → Bool
contains sep [] = false
contains sep (c ∷ s) = if c == sep then true else contains sep s

-- What `parseProxyAddr` returns.
pub data Read : Type 0 where
  invalid : Read
  valid : Config → Read

-- `config.Username` and `config.Password`; `none` is an index out of range.
abbrev pub login_of : List Bytes → Option (Bytes × Bytes)
login_of (username ∷ password ∷ parts) = some (username, password)
login_of _ = none

-- The user information in front of the `@`, without a `:` it is passed over.
unfoldable pub read_login : Bytes → Option (Bytes × Bytes)
read_login auth = if contains b':' auth then login_of (split_n 2 b':' auth) else some ([], [])

abbrev pub with_host : Bytes → Bytes × Bytes → Read
with_host host (username, password) =
    valid (record { username = username; password = password; host = host })

unfoldable pub read_parts : List Bytes → Option Read
read_parts (auth ∷ host ∷ []) = read_login auth >>= λ login. some (with_host host login)
read_parts _ = some invalid

unfoldable pub parse_proxy_addr : Bytes → Option Read
parse_proxy_addr addr =
    let rest = trim_prefix addr (codes "proxy://") in
    if contains b'@' rest then read_parts (split_n 2 b'@' rest) else some (with_host rest ([], []))
