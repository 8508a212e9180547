-- ===== src/Entry/Main.antt =====
-- `main` and the flags (main.go), with what it runs. The command line itself is read by package flag.
pub mod Strict
pub mod Forwards
pub mod Admission
pub mod Login
use tunnel.Prelude.{Bytes, Bool, List, [], Option, none, some, ℤ, pos, codes}
use tunnel.Ech.Cache.{Attempt, prepare_ech}
use tunnel.Http.Request.{Url}
use tunnel.Pool.State.{Pool}
use tunnel.Pool.Start.{make_pool}
use tunnel.Server.Access.{NetText, Listening}
use tunnel.Server.Listen
use tunnel.Server.Listen.{run_web_socket_server}
use tunnel.Socks.Handshake.{Config}
use tunnel.Proxy.Startup
use tunnel.Proxy.Startup.{run_proxy_server}
use tunnel.TcpClient.Rules
use tunnel.TcpClient.Rules.{run_tcp_client}
use tunnel.Entry.{Mode, server, tcp_client, proxy, no_mode, mode_of}

-- The global variables that the flags set.
pub record Flags : Type 0 where
  pub listen_addr : Bytes
  pub forward_addr : Bytes
  pub ip_addr : Bytes
  pub cert_file : Bytes
  pub key_file : Bytes
  pub token : Bytes
  pub cidrs : Bytes
  pub dns_server : Bytes
  pub ech_domain : Bytes
  pub connection_num : ℤ

abbrev pub or_default : {A : Type 0} → Option A → A → A
or_default none value = value
or_default (some given) value = given

-- `init` and `flag.Parse`, on the value that the command line has for each name, if any.
unfoldable pub flags_of : (Bytes → Option Bytes) → Option ℤ → Flags
flags_of given n = record {
  listen_addr = or_default (given (codes "l")) [];
  forward_addr = or_default (given (codes "f")) [];
  ip_addr = or_default (given (codes "ip")) [];
  cert_file = or_default (given (codes "cert")) [];
  key_file = or_default (given (codes "key")) [];
  token = or_default (given (codes "token")) [];
  cidrs = or_default (given (codes "cidr")) (codes "0.0.0.0/0,::/0");
  dns_server = or_default (given (codes "dns")) (codes "dns.alidns.com/dns-query");
  ech_domain = or_default (given (codes "ech")) (codes "cloudflare-ech.com");
  connection_num = or_default n (pos 3);
}

-- What the program comes to: it ends with an error or a panic, `prepareECH` is still at it, or it
-- serves. A client has its pool, not started yet, and the ECH list.
pub data Run (Cidr : Type 0) : Type 0 where
  fatal panics resolving : Run Cidr
  serving : List Cidr → Bytes → Bytes → Listening → Run Cidr
  forwarding : Pool → Bytes → List (Bytes × Bytes) → Bool → Run Cidr
  proxying : Pool → Bytes → Config → Run Cidr

-- The outside: package url and net, whether the server's certificate can be made, whether
-- `net.Listen` succeeds on an address, and what each DoH request gives.
pub record Outside (Cidr : Type 0) : Type 0 where
  pub parse_url : Bytes → Option Url
  pub net : NetText Cidr
  pub made : Bool
  pub listens : Bytes → Bool
  pub attempts : List Attempt

module _ {Cidr : Type 0} where
  abbrev pub as_server : Listen.Start Cidr → Run Cidr
  as_server Listen.refused = fatal
  as_server (Listen.serves nets host path l) = serving nets host path l

  -- `NewECHPool` comes behind the checks, and in front of the rules.
  abbrev pub as_forwarder : Option Pool → Bytes → Rules.Start → Run Cidr
  as_forwarder p cache Rules.refused = fatal
  as_forwarder none cache (Rules.starts forwards stopped) = panics
  as_forwarder (some p) cache (Rules.starts forwards stopped) = forwarding p cache forwards stopped

  abbrev pub as_proxy : Option Pool → Bytes → Option Startup.Start → Run Cidr
  as_proxy p cache none = panics
  as_proxy p cache (some Startup.refused) = fatal
  as_proxy none cache (some (Startup.serves c)) = panics
  as_proxy (some p) cache (some (Startup.serves c)) = proxying p cache c

  abbrev pub behind_prepare : Option Bytes → (Bytes → Run Cidr) → Run Cidr
  behind_prepare none next = resolving
  behind_prepare (some cache) next = next cache

  unfoldable pub run_mode : Outside Cidr → Flags → Mode → Run Cidr
  run_mode o f server =
      as_server (
        run_web_socket_server o.net o.parse_url o.made f.cidrs f.cert_file f.key_file f.listen_addr)
  run_mode o f tcp_client = behind_prepare (prepare_ech o.attempts) (λ cache.
      as_forwarder (make_pool f.forward_addr f.connection_num) cache
        (run_tcp_client o.parse_url f.listen_addr f.forward_addr))
  run_mode o f proxy = behind_prepare (prepare_ech o.attempts) (λ cache.
      as_proxy (make_pool f.forward_addr f.connection_num) cache
        (run_proxy_server o.parse_url o.listens f.listen_addr f.forward_addr))
  run_mode o f no_mode = fatal

  unfoldable pub main : Outside Cidr → Flags → Run Cidr
  main o f = run_mode o f (mode_of f.listen_addr)
