-- ===== src/Local/Session.antt =====
-- A local connection from the moment its target is known: `handleSOCKS5Connect` (socks5.go),
-- `handleHTTPConnect` and `handleHTTPForward` (http_proxy.go), and the forwarder's (tcp_client.go).
use tunnel.Prelude.{ℕ, Bytes, Bool, List, ◌++◌, Option, some, ◌>>=◌}
use tunnel.Pool.State.{Pool, Info, Effect, wait_connected}
use tunnel.Pool.Claim.{register_and_claim}
use tunnel.Local.{Caller, Read, run_session}

-- The connection `conn` gets the id `id`, and `info` has its target and the first frame that was read
-- from it. `others` is what the pool's other goroutines do until the wait is decided, which the timer may
-- be; from then on they leave the pool as it is.
unfoldable pub session :
    Caller
    → Bytes
    → Info
    → ℕ
    → (ℕ → ℕ)
    → (Pool → Pool)
    → Bool
    → Bool
    → Bool
    → List Read
    → Pool
    → Option (Pool × List Effect)
session caller id info conn clock others timer replied closed rounds p = do
  (q, claims) ← register_and_claim id info conn clock p
  let (r, connected) = wait_connected id timer (others q)
  let (s, effects) = run_session caller id conn connected replied closed rounds r
  some (s, claims ++ effects)
