-- ===== src/Socks/Address.antt =====
-- Addresses as socks5.go writes them. The text form of IP addresses belongs to Go's package net and
-- is a parameter.
use tunnel.Prelude.{ℕ, Bytes, ◌++◌, ◌≡◌, Option, some, length, codes}
use tunnel.Text.Decimal.{decimal}

-- What `net.ParseIP` and `To4` give: four bytes or sixteen.
pub data Ip : Type 0 where
  v4 v6 : Bytes → Ip

-- `net.IP.String` and `net.ParseIP`, with what the program relies on: the text of four bytes is
-- read as these bytes.
pub record IpText : Type 0 where
  pub to_string : Bytes → Bytes
  pub parse : Bytes → Option Ip
  pub parse-to_string : (ip : Bytes) → length ip ≡ 4 → parse (to_string ip) ≡ some (v4 ip)

-- A destination as a SOCKS5 message holds it, by its address type.
pub data Host : Type 0 where
  ipv4 domain ipv6 : Bytes → Host

-- `host`, by the address type
abbrev pub host_text : IpText → Host → Bytes
host_text t (ipv4 ip) = t.to_string ip
host_text t (domain name) = name
host_text t (ipv6 ip) = t.to_string ip

-- `fmt.Sprintf("%s:%d", host, port)`, and with brackets for IPv6.
unfoldable pub target_text : IpText → Host → ℕ → Bytes
target_text t (ipv6 ip) port = codes "[" ++ (t.to_string ip ++ (codes "]:" ++ decimal port))
target_text t host port = host_text t host ++ (codes ":" ++ decimal port)
