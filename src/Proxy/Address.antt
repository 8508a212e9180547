-- ===== src/Proxy/Address.antt =====
-- What `parseProxyAddr` (proxy.go) makes of an address.
use tunnel.Prelude.{
  ℕ, Bytes, true, [], ◌∷◌, ◌++◌, ◌≡◌, some, ◌==◌, codes, arith, Bool-cases, inl, inr,
}
use tunnel.Text.{
  trim_prefix-append, split_n, cut, trim_prefix, Lacks, Lacks-append, split_n-two, cut-Lacks,
}
use tunnel.Socks.Handshake.{Config}
use tunnel.Proxy.{contains, valid, read_login, read_parts, parse_proxy_addr}

contains-append : (sep : ℕ) (a b : Bytes) → contains sep (a ++ sep ∷ b) ≡ true
unfolding contains
contains-append sep [] b = ground arith
contains-append sep (c ∷ a) b = ground (arith, contains-append sep a b)

-- A string with the separator is cut there.
contains-cut :
    (sep : ℕ) (s : Bytes)
    → contains sep s ≡ true
    → (a : Bytes) × (b : Bytes) × (cut sep s ≡ some (a, b))
unfolding contains cut
contains-cut sep [] e = absurd (ground (arith, e))
contains-cut sep (c ∷ s) e = elim (Bool-cases (c == sep)) [
  | inl hit ↦ ([], s, rw hit)
  | inr miss ↦ let (a, b, p) = contains-cut sep s (rw miss at e) in (c ∷ a, b, rw (miss, p))
]

pub split_n-cut : (sep : ℕ) (s a b : Bytes) → cut sep s ≡ some (a, b) → split_n 2 sep s ≡ a ∷ b ∷ []
unfolding split_n
split_n-cut sep s a b e = rw (split_n, e)

read_login-Lacks :
    (auth : Bytes)
    → (username : Bytes) × (password : Bytes) × (read_login auth ≡ some (username, password))
      × Lacks b':' username
unfolding read_login
read_login-Lacks auth = elim (Bool-cases (contains b':' auth)) [
  | inr lacks_it ↦ ([], [], rw lacks_it, tt)
  | inl has_it ↦
      let (username, password, p) = contains-cut b':' auth has_it in
      (
        username,
        password,
        rw (has_it, split_n-cut b':' auth username password p),
        cut-Lacks b':' auth username password p,
      )
]

-- Every address is read, without an error and without an index out of range, and its user name
-- holds no `:`.
pub parse_proxy_addr-valid :
    (addr : Bytes) → (c : Config) × (parse_proxy_addr addr ≡ some (valid c)) × Lacks b':' c.username
unfolding parse_proxy_addr read_parts
parse_proxy_addr-valid addr =
    elim (Bool-cases (contains b'@' (trim_prefix addr (codes "proxy://")))) [
      | inr lacks_it ↦ (
        record { username = []; password = []; host = trim_prefix addr (codes "proxy://") },
        rw lacks_it,
        tt,
      )
      | inl has_it ↦
          let (auth, host, p) = contains-cut b'@' (trim_prefix addr (codes "proxy://")) has_it in
          let (username, password, q, lacks) = read_login-Lacks auth in
          (
            record { username = username; password = password; host = host },
            rw (has_it, split_n-cut b'@' (trim_prefix addr (codes "proxy://")) auth host p, q),
            lacks,
          )
    ]

-- An address with a user name, a password and a host is read as these three, if the user name holds no
-- `:` and neither it nor the password an `@`.
pub parse_proxy_addr-login :
    (username password host : Bytes)
    → Lacks b':' username
    → Lacks b'@' username
    → Lacks b'@' password
    → parse_proxy_addr (codes "proxy://" ++ ((username ++ b':' ∷ password) ++ b'@' ∷ host))
      ≡ some (valid (record { username = username; password = password; host = host }))
unfolding parse_proxy_addr read_parts read_login
parse_proxy_addr-login username password host u v w =
    let auth = username ++ b':' ∷ password in
    let clean : Lacks b'@' auth =
      Lacks-append b'@' username (b':' ∷ password) v (λ e. absurd (omega arith), w) in
    rw (
      trim_prefix-append (codes "proxy://") (auth ++ b'@' ∷ host),
      contains-append b'@' auth host,
      split_n-two b'@' auth host clean,
      contains-append b':' username password,
      split_n-two b':' username password u,
    )
