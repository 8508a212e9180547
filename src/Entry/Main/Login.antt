-- ===== src/Entry/Main/Login.antt =====
-- Whom a proxy serves, from its command line on (main.go, proxy.go, socks5.go and http_proxy.go).
use tunnel.Prelude.{
  Bytes, Bool, true, [], ◌∷◌, ◌++◌, ◌≡◌, ◌≢◌, refl, sym, ap, ◌∙◌, Option, none, some, codes, ℤ,
}
use tunnel.Text.{Lacks, has_prefix}
use tunnel.Ech.Cache.{prepare_ech}
use tunnel.Http.Request.{Runtime}
use tunnel.Pool.State.{Pool}
use tunnel.Pool.Start.{make_pool}
use tunnel.Socks.Address.{IpText}
use tunnel.Socks.Handshake.{Config}
use tunnel.Proxy.Startup
use tunnel.Proxy.Startup.{run_proxy_server, run_proxy_server-IsLogin}
use tunnel.Proxy.Connection.{handle_proxy_connection}
use tunnel.Proxy.Connection.Access.{is_tunnelled, IsLogin}
use tunnel.Entry.{proxy, mode_of}
use tunnel.Entry.Main.{
  Flags, flags_of, or_default, proxying, Outside, as_proxy, behind_prepare, run_mode, main,
}

as_proxy-proxying :
    (Cidr : Type 0) (made : Option Pool) (found : Bytes) (r : Option Startup.Start) (p : Pool)
    (cache : Bytes) (c : Config)
    → as_proxy {Cidr = Cidr} made found r ≡ proxying p cache c
    → r ≡ some (Startup.serves c)
as_proxy-proxying Cidr made found none p cache c e = cc
as_proxy-proxying Cidr made found (some Startup.refused) p cache c e = cc
as_proxy-proxying Cidr none found (some (Startup.serves d)) p cache c e = cc
as_proxy-proxying Cidr (some q) found (some (Startup.serves d)) p cache c e = cc

module _ {Cidr : Type 0} (o : Outside Cidr) where
  prepared-proxying :
      (made : Option Pool) (r : Option Startup.Start) (list : Option Bytes) (p : Pool)
      (cache : Bytes) (c : Config)
      → behind_prepare list (λ found. as_proxy {Cidr = Cidr} made found r) ≡ proxying p cache c
      → r ≡ some (Startup.serves c)
  prepared-proxying made r none p cache c e = cc
  prepared-proxying made r (some found) p cache c e =
      as_proxy-proxying Cidr made found r p cache c e

  mode_of-proxy : (rest : Bytes) → mode_of (codes "proxy://" ++ rest) ≡ proxy
  unfolding mode_of has_prefix
  mode_of-proxy rest = refl

  main-proxying :
      (f : Flags) (rest : Bytes) (p : Pool) (cache : Bytes) (c : Config)
      → f.listen_addr ≡ codes "proxy://" ++ rest
      → main o f ≡ proxying p cache c
      → run_proxy_server o.parse_url o.listens (codes "proxy://" ++ rest) f.forward_addr
        ≡ some (Startup.serves c)
  unfolding main run_mode
  main-proxying f rest p cache c l e =
      let r = run_proxy_server o.parse_url o.listens (codes "proxy://" ++ rest) f.forward_addr in
      let made = make_pool f.forward_addr f.connection_num in
      let runs : main o f
          ≡ behind_prepare (prepare_ech o.attempts) (λ found. as_proxy made found r) =
        rw (l, mode_of-proxy rest) in
      prepared-proxying made r (prepare_ech o.attempts) p cache c (sym runs ∙ e)

  -- A proxy that was started with a user name and a password in its flag -l, neither of them empty, and
  -- that has come to serve: only a client that logs in with just these two, by SOCKS5 or HTTP, is brought
  -- to a target, whatever the clients send.
  pub main-IsLogin :
      (given : Bytes → Option Bytes) (n : Option ℤ) (username password host : Bytes) (p : Pool)
      (cache : Bytes) (c : Config) (t : IpText) (r : Runtime) (sent replied : Bool) (input : Bytes)
      → username ≢ []
      → password ≢ []
      → Lacks b':' username
      → Lacks b'@' username
      → Lacks b'@' password
      → given (codes "l")
        ≡ some (codes "proxy://" ++ ((username ++ b':' ∷ password) ++ b'@' ∷ host))
      → main o (flags_of given n) ≡ proxying p cache c
      → is_tunnelled (handle_proxy_connection c t r sent replied input) ≡ true
      → IsLogin (record { username = username; password = password; host = host }) input
  unfolding flags_of
  main-IsLogin given n username password host p cache c t r sent replied input ne ne_password colon
        at at_password l e h =
      let f = flags_of given n in
      run_proxy_server-IsLogin o.parse_url o.listens username password host f.forward_addr c t r
        sent replied input ne ne_password colon at at_password
        (main-proxying f ((username ++ b':' ∷ password) ++ b'@' ∷ host) p cache c
          (ap (λ v. or_default v []) l) e)
        h
