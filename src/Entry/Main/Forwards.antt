-- ===== src/Entry/Main/Forwards.antt =====
-- The client of the mode tcp:// from its command line on (main.go, tcp_client.go, pool.go).
use tunnel.Prelude.{
  ℕ, Bytes, false, List, [], ◌∷◌, ◌++◌, map, ◌≡◌, ◌≢◌, refl, sym, ap, ◌∙◌, Option, some, ◌<◌, pos,
  codes,
}
use tunnel.Text.{Lacks, join, has_prefix}
use tunnel.Ech.Cache.{prepare_ech}
use tunnel.Http.Request.{Url}
use tunnel.Pool.State.{Pool, Info, new_ech_pool}
use tunnel.Pool.Start.{make_pool, start, channels, IsOrder}
use tunnel.Pool.Dial.Liveness.{Answers}
use tunnel.TcpClient.Dial
use tunnel.TcpClient.Dial.Bounds.{AllWithEch}
use tunnel.TcpClient.Rules.{Rule, rule_text, AreRules, forward_of, run_tcp_client-rules}
use tunnel.Server.Handler.{Server, Network}
use tunnel.Server.Tcp.{Round}
use tunnel.Local.{tcp_forward}
use tunnel.EndToEnd.Startup.{Opens, start-Opens}
use tunnel.Entry.{tcp_client, mode_of}
use tunnel.Entry.Main.{Flags, flags_of, forwarding, Outside, or_default, run_mode, main}

mode_of-tcp : (rest : Bytes) → mode_of (codes "tcp://" ++ rest) ≡ tcp_client
unfolding mode_of has_prefix
mode_of-tcp rest = refl

module _ {Cidr : Type 0} (o : Outside Cidr) (f : Flags) where
  main-forwarding :
      (n : ℕ) (r : Rule) (rules : List Rule) (u : Url) (cache : Bytes)
      → f.listen_addr ≡ codes "tcp://" ++ join b',' (rule_text r) (map rule_text rules)
      → AreRules (r ∷ rules)
      → f.forward_addr ≢ []
      → o.parse_url f.forward_addr ≡ some u
      → u.scheme ≡ codes "wss"
      → f.connection_num ≡ pos n
      → prepare_ech o.attempts ≡ some cache
      → main o f
        ≡ forwarding (new_ech_pool f.forward_addr n) cache (map forward_of (r ∷ rules)) false
  unfolding main run_mode make_pool
  main-forwarding n r rules u cache l h ne p s c e = rw (
    l,
    mode_of-tcp (join b',' (rule_text r) (map rule_text rules)),
    e,
    c,
    run_tcp_client-rules o.parse_url r rules f.forward_addr u h ne p s,
  )

-- A client that is started with rules as the flag's documentation writes them, with a WebSocket server at
-- a wss:// address and with a number of channels that is not negative, once its ECH list has come in: it
-- forwards for just these rules. Where each channel comes to a round in which the resolver answers and
-- the server takes the dial, the pool is started, in whatever order the channels connect, and every dial
-- was given an ECH list. A new connection then opens over any of the channels in two rounds of frames if
-- the server can dial its target, which holds no `|`, and the tunnel carries its bytes both ways.
pub main-Opens :
    {Cidr Addr : Type 0} (o : Outside Cidr) (given : Bytes → Option Bytes) (n : ℕ) (r : Rule)
    (rules : List Rule) (addr : Bytes) (u : Url) (cache : Bytes) (world : ℕ → ℕ → ℕ → Dial.Round)
    (tries sockets : ℕ → ℕ) (order : List ℕ)
    → given (codes "l") ≡ some (codes "tcp://" ++ join b',' (rule_text r) (map rule_text rules))
    → given (codes "f") ≡ some addr
    → AreRules (r ∷ rules)
    → addr ≢ []
    → o.parse_url addr ≡ some u
    → u.scheme ≡ codes "wss"
    → prepare_ech o.attempts ≡ some cache
    → IsOrder order (channels n 0)
    → ((i : ℕ) → i < n → Answers (world i (tries i)) (sockets i))
    → (main o (flags_of given (some (pos n)))
        ≡ forwarding (new_ech_pool addr n) cache (map forward_of (r ∷ rules)) false)
      × ((q : Pool) × ((start world tries order (new_ech_pool addr n) cache).2 ≡ some q)
          × AllWithEch (start world tries order (new_ech_pool addr n) cache).0
          × ((net : Network Addr) (d : ℕ) (id : Bytes) (info : Info) (conn i : ℕ) (clock : ℕ → ℕ)
                (s : Server Addr) (chunks : List Bytes) (rounds : List Round)
              → i < n
              → Lacks b'|' id
              → Lacks b'|' info.target_addr
              → Opens net tcp_forward d id info conn i clock q s chunks rounds))
unfolding flags_of
main-Opens o given n r rules addr u cache world tries sockets order l g h ne p s e order_of a =
    let f = flags_of given (some (pos n)) in
    let same : f.forward_addr ≡ addr = ap (λ v. or_default v []) g in
    let runs =
      main-forwarding o f n r rules u cache (ap (λ v. or_default v []) l) h
        (λ none_given. ne (sym same ∙ none_given)) (ap o.parse_url same ∙ p) s refl e in
    let (q, started, with_ech, opens) =
      start-Opens addr n world tries sockets order cache order_of a in
    (
      runs ∙ ap (λ v. forwarding (new_ech_pool v n) cache (map forward_of (r ∷ rules)) false) same,
      (
        q,
        started,
        with_ech,
        λ net d id info conn i clock t chunks rounds lt k m.
            opens net tcp_forward d id info conn i clock t chunks rounds lt k m,
      ),
    )
