-- ===== src/Entry/Main/Strict.antt =====
-- That a client never goes without ECH (main.go, tcp_client.go, proxy.go, pool.go).
use tunnel.Prelude.{
  ℕ, Bytes, Bool, List, [], ◌≡◌, refl, ap, ◌∙◌, Option, none, some, ℤ, pos, negsuc, codes,
  Bool-cases, inl, inr, bytes_eq, bytes_eq_iff,
}
use tunnel.Ech.Cache.{prepare_ech}
use tunnel.Http.Request.{Url}
use tunnel.Pool.State.{Pool, new_ech_pool}
use tunnel.Pool.Start.WithEch.{start-AllWithEch, redial_channel-AllWithEch}
use tunnel.Pool.Dial.{redial_channel}
use tunnel.Pool.Start.{make_pool, start}
use tunnel.TcpClient.Dial.{Round}
use tunnel.TcpClient.Dial.Bounds.{AllWithEch}
use tunnel.Server.Listen
use tunnel.Server.Listen.{run_web_socket_server}
use tunnel.Proxy.Startup
use tunnel.Proxy.Startup.{run_proxy_server, check_server}
use tunnel.Socks.Handshake.{Config}
use tunnel.TcpClient.Rules
use tunnel.TcpClient.Rules.{run_tcp_client, check_url}
use tunnel.Entry.{Mode, server, tcp_client, proxy, no_mode, mode_of}
use tunnel.Entry.Main.{
  Flags, Run, forwarding, proxying, Outside, as_server, as_forwarder, as_proxy, behind_prepare,
  run_mode, main,
}

-- The pool and the ECH list of a run that is a client's.
abbrev pub client_of : {Cidr : Type 0} → Run Cidr → Option (Pool × Bytes)
client_of (forwarding p cache forwards stopped) = some (p, cache)
client_of (proxying p cache c) = some (p, cache)
client_of _ = none

-- The address is one that is read, of a WebSocket over TLS.
abbrev pub IsSecure : (Bytes → Option Url) → Bytes → Type 0
IsSecure parse_url addr = (u : Url) × (parse_url addr ≡ some u) × (u.scheme ≡ codes "wss")

check_url-secure :
    (found : Option Url) (r : Rules.Start)
    → ¬ (check_url found r ≡ Rules.refused)
    → (u : Url) × (found ≡ some u) × (u.scheme ≡ codes "wss")
check_url-secure none r n = absurd (n refl)
check_url-secure (some u) r n = elim (Bool-cases (bytes_eq u.scheme (codes "wss"))) [
  | inl same ↦ (u, refl, (bytes_eq_iff u.scheme (codes "wss")).0 same)
  | inr other ↦ absurd (n (rw other))
]

run_tcp_client-IsSecure :
    (parse_url : Bytes → Option Url) (listen addr : Bytes)
    → ¬ (run_tcp_client parse_url listen addr ≡ Rules.refused)
    → IsSecure parse_url addr
unfolding run_tcp_client
run_tcp_client-IsSecure parse_url listen addr n = elim (Bool-cases (bytes_eq addr [])) [
  | inl empty ↦ absurd (n (rw empty))
  | inr filled ↦ check_url-secure (parse_url addr) _ (λ e. n (rw filled e))
]

check_server-secure :
    (listens : Bytes → Bool) (addr : Bytes) (found : Option Url) (c : Config)
    → check_server listens addr found ≡ some (Startup.serves c)
    → (u : Url) × (found ≡ some u) × (u.scheme ≡ codes "wss")
check_server-secure listens addr none c e = cc
check_server-secure listens addr (some u) c e =
    elim (Bool-cases (bytes_eq u.scheme (codes "wss"))) [
      | inl same ↦ (u, refl, (bytes_eq_iff u.scheme (codes "wss")).0 same)
      | inr other ↦
          (let refused : some Startup.refused ≡ some (Startup.serves c) = rw other at e in
            absurd cc)
    ]

run_proxy_server-IsSecure :
    (parse_url : Bytes → Option Url) (listens : Bytes → Bool) (listen addr : Bytes) (c : Config)
    → run_proxy_server parse_url listens listen addr ≡ some (Startup.serves c)
    → IsSecure parse_url addr
unfolding run_proxy_server
run_proxy_server-IsSecure parse_url listens listen addr c e = elim (Bool-cases (bytes_eq addr [])) [
  | inl empty ↦
      (let refused : some Startup.refused ≡ some (Startup.serves c) = rw empty at e in absurd cc)
  | inr filled ↦ check_server-secure listens listen (parse_url addr) c (rw filled at e)
]

make_pool-pos :
    (addr : Bytes) (n : ℤ) (p : Pool)
    → make_pool addr n ≡ some p
    → (k : ℕ) × (n ≡ pos k) × (p ≡ new_ech_pool addr k)
unfolding make_pool
make_pool-pos addr (pos k) p e = (k, refl, cc)
make_pool-pos addr (negsuc k) p e = cc

as_forwarder-client :
    (Cidr : Type 0) (made : Option Pool) (found : Bytes) (r : Rules.Start) (p : Pool)
    (cache : Bytes)
    → client_of {Cidr = Cidr} (as_forwarder made found r) ≡ some (p, cache)
    → ¬ (r ≡ Rules.refused) × (made ≡ some p) × (found ≡ cache)
as_forwarder-client Cidr made found Rules.refused p cache e = cc
as_forwarder-client Cidr none found (Rules.starts forwards stopped) p cache e = cc
as_forwarder-client Cidr (some q) found (Rules.starts forwards stopped) p cache e =
    (λ k. cc, cc, cc)

as_proxy-client :
    (Cidr : Type 0) (made : Option Pool) (found : Bytes) (r : Option Startup.Start) (p : Pool)
    (cache : Bytes)
    → client_of {Cidr = Cidr} (as_proxy made found r) ≡ some (p, cache)
    → ((c : Config) × (r ≡ some (Startup.serves c))) × (made ≡ some p) × (found ≡ cache)
as_proxy-client Cidr made found none p cache e = cc
as_proxy-client Cidr made found (some Startup.refused) p cache e = cc
as_proxy-client Cidr none found (some (Startup.serves c)) p cache e = cc
as_proxy-client Cidr (some q) found (some (Startup.serves c)) p cache e = ((c, refl), cc, cc)

module _ {Cidr : Type 0} where
  as_server-client :
      (r : Listen.Start Cidr) (p : Pool) (cache : Bytes)
      → ¬ (client_of (as_server r) ≡ some (p, cache))
  as_server-client Listen.refused p cache e = cc
  as_server-client (Listen.serves nets host path l) p cache e = cc

  -- What is shown of a client.
  abbrev IsStrict : Outside Cidr → Flags → Pool → Bytes → Type 0
  IsStrict o f p cache =
      (prepare_ech o.attempts ≡ some cache)
      × IsSecure o.parse_url f.forward_addr
      × ((n : ℕ) × (f.connection_num ≡ pos n) × (p ≡ new_ech_pool f.forward_addr n))

  module _ (o : Outside Cidr) (f : Flags) where
    tcp_client-IsStrict :
        (found : Option Bytes) (p : Pool) (cache : Bytes)
        → prepare_ech o.attempts ≡ found
        → client_of {Cidr = Cidr} (
            behind_prepare found (λ c.
              as_forwarder
                (make_pool f.forward_addr f.connection_num)
                c
                (run_tcp_client o.parse_url f.listen_addr f.forward_addr)))
          ≡ some (p, cache)
        → IsStrict o f p cache
    tcp_client-IsStrict none p cache a e = cc
    tcp_client-IsStrict (some c) p cache a e =
        let (ok, made, same) =
          as_forwarder-client Cidr (make_pool f.forward_addr f.connection_num) c
            (run_tcp_client o.parse_url f.listen_addr f.forward_addr) p cache e in
        (
          a ∙ ap some same,
          run_tcp_client-IsSecure o.parse_url f.listen_addr f.forward_addr ok,
          make_pool-pos f.forward_addr f.connection_num p made,
        )

    proxy-IsStrict :
        (found : Option Bytes) (p : Pool) (cache : Bytes)
        → prepare_ech o.attempts ≡ found
        → client_of {Cidr = Cidr} (
            behind_prepare found (λ c.
              as_proxy
                (make_pool f.forward_addr f.connection_num)
                c
                (run_proxy_server o.parse_url o.listens f.listen_addr f.forward_addr)))
          ≡ some (p, cache)
        → IsStrict o f p cache
    proxy-IsStrict none p cache a e = cc
    proxy-IsStrict (some c) p cache a e =
        let ((config, ok), made, same) =
          as_proxy-client Cidr (make_pool f.forward_addr f.connection_num) c
            (run_proxy_server o.parse_url o.listens f.listen_addr f.forward_addr) p cache e in
        (
          a ∙ ap some same,
          run_proxy_server-IsSecure o.parse_url o.listens f.listen_addr f.forward_addr config ok,
          make_pool-pos f.forward_addr f.connection_num p made,
        )

    run_mode-IsStrict :
        (mode : Mode) (p : Pool) (cache : Bytes)
        → client_of (run_mode o f mode) ≡ some (p, cache)
        → IsStrict o f p cache
    unfolding run_mode
    run_mode-IsStrict server p cache e = absurd (
        as_server-client
          (run_web_socket_server o.net o.parse_url o.made f.cidrs f.cert_file f.key_file
            f.listen_addr)
          p cache e)
    run_mode-IsStrict tcp_client p cache e =
        tcp_client-IsStrict (prepare_ech o.attempts) p cache refl e
    run_mode-IsStrict proxy p cache e = proxy-IsStrict (prepare_ech o.attempts) p cache refl e
    run_mode-IsStrict no_mode p cache e = cc

-- Whatever the command line and the outside: a client that comes to serve, as a forwarder or as a
-- proxy, has taken an ECH list from a DoH response first, and has a wss:// address for its server. Its
-- pool is new, with as many channels as the flag says. Whichever rounds follow, every dial of `Start`,
-- one goroutine after the other, is given an ECH list, and so is every dial by which a channel is
-- dialled again, of any pool, with any ECH list in the cache, and for as many rounds as there are.
pub main-IsStrict :
    {Cidr : Type 0} (o : Outside Cidr) (f : Flags) (p : Pool) (cache : Bytes)
    → client_of (main o f) ≡ some (p, cache)
    → (prepare_ech o.attempts ≡ some cache)
      × IsSecure o.parse_url f.forward_addr
      × ((n : ℕ) × (f.connection_num ≡ pos n) × (p ≡ new_ech_pool f.forward_addr n))
      × ((world : ℕ → ℕ → ℕ → Round) (rounds : ℕ → ℕ) (order : List ℕ)
          → AllWithEch (start world rounds order p cache).0)
      × ((n : ℕ) (world : ℕ → ℕ → Round) (channel : ℕ) (q : Pool) (after : Bytes)
          → AllWithEch (redial_channel n world channel q after).0)
unfolding main
main-IsStrict o f p cache e =
    let (prepared, secure, made) = run_mode-IsStrict o f (mode_of f.listen_addr) p cache e in
    (
      prepared,
      secure,
      made,
      λ world rounds order. start-AllWithEch world rounds order p cache,
      redial_channel-AllWithEch,
    )
