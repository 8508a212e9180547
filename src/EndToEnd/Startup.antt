-- ===== src/EndToEnd/Startup.antt =====
-- The tunnel from the start of the client's pool (pool.go) on.
use tunnel.Prelude.{ℕ, Bytes, false, true, List, [], ◌∷◌, ◌≡◌, ap, some, ◌<◌}
use tunnel.Prelude.Map.{lookup, bytes_key}
use tunnel.Text.{Lacks}
use tunnel.Wire.{claim_message}
use tunnel.Server.Handler.{Server, Network}
use tunnel.Server.Tcp.{Round}
use tunnel.Pool.State.{Pool, Info, Effect, new_ech_pool, wait_connected}
use tunnel.Pool.Claim.{register_and_claim}
use tunnel.Pool.Start.{start, channels, IsOrder, start-IsConnected}
use tunnel.Pool.Dial.Liveness.{Answers}
use tunnel.TcpClient.Dial
use tunnel.TcpClient.Dial.Bounds.{AllWithEch}
use tunnel.Local.{Caller}
use tunnel.EndToEnd.Opening.{exchange}
use tunnel.EndToEnd.Tunnel.{Carries, register_and_claim-Carries}

-- A new connection opens over channel `i` in two rounds of frames, and then the tunnel carries its
-- bytes.
abbrev pub Opens :
    {Addr : Type 0}
    → Network Addr
    → Caller
    → ℕ
    → Bytes
    → Info
    → ℕ
    → ℕ
    → (ℕ → ℕ)
    → Pool
    → Server Addr
    → List Bytes
    → List Round
    → Type 0
Opens net caller d id info conn i clock p s chunks rounds =
    (ws : ℕ) × (q : Pool) × (claims : List Effect) × (register_and_claim id info conn clock p
      ≡ some (q, claims))
    × (let (r, t, frames) = exchange net (some d) 2 i ws (claim_message id i ∷ []) q s in
        let (w, connected) = wait_connected id false r in
        (frames ≡ []) × (connected ≡ true) × Carries net caller id conn i ws d chunks rounds w t)

-- In a pool that has been started, where each channel comes to a round in which the resolver answers
-- and the server takes the dial.
pub start-Opens :
    {Addr : Type 0} (addr : Bytes) (n : ℕ) (world : ℕ → ℕ → ℕ → Dial.Round) (tries sockets : ℕ → ℕ)
    (order : List ℕ) (cache : Bytes)
    → IsOrder order (channels n 0)
    → ((i : ℕ) → i < n → Answers (world i (tries i)) (sockets i))
    → (q : Pool) × ((start world tries order (new_ech_pool addr n) cache).2 ≡ some q)
      × AllWithEch (start world tries order (new_ech_pool addr n) cache).0
      × ((net : Network Addr) (caller : Caller) (d : ℕ) (id : Bytes) (info : Info) (conn i : ℕ)
            (clock : ℕ → ℕ) (s : Server Addr) (chunks : List Bytes) (rounds : List Round)
          → i < n
          → Lacks b'|' id
          → Lacks b'|' info.target_addr
          → Opens net caller d id info conn i clock q s chunks rounds)
unfolding lookup
start-Opens addr n world tries sockets order cache o a =
    let (q, e, empty, all, with_ech) =
      start-IsConnected addr n world tries sockets order cache o a in
    (
      q,
      e,
      with_ech,
      λ net caller d id info conn i clock s chunks rounds lt h k.
          (let (ws, found) = all i lt in
            let (r, claims, run, carried) =
              register_and_claim-Carries net caller d id info conn i ws clock q s chunks rounds h k
                (ap (lookup id) empty) found in
            (ws, r, claims, run, carried)),
    )
