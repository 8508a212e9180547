-- ===== src/Pool/Dial.antt =====
-- `dialOnce` and `redialChannel` (pool.go): the loops that connect a channel.
pub mod Liveness
use tunnel.Prelude.{ℕ, zero, suc, Bytes, List, [], ◌++◌, Option, none, some}
use tunnel.Pool.State.{Pool, set_channel}
use tunnel.TcpClient.Dial.{Round, Action, Ended, dialled, dial_websocket_with_ech}

-- What a loop has done: its actions, the cache of the ECH list, and the pool once the channel is
-- connected.
abbrev pub Dialling : Type 0
Dialling = List Action × Bytes × Option Pool

-- The actions of a round in front of those of the rounds after it.
abbrev pub behind : List Action → Dialling → Dialling
behind actions (more, cache, q) = (actions ++ more, cache, q)

-- The end of a round: the WebSocket is stored, or the loop goes on with the cache as it is then.
abbrev pub after_round : ℕ → Pool → List Action × Bytes × Ended → (Bytes → Dialling) → Dialling
after_round index p (actions, cache, dialled ws) retry =
    (actions, cache, some (set_channel index ws p))
after_round index p (actions, cache, _) retry = behind actions (retry cache)

-- The loop from this round on, while no other goroutine changes the pool or the cache. Without fuel the
-- channel is not connected yet.
unfoldable pub dial_once : ℕ → ℕ → (ℕ → ℕ → Round) → ℕ → Pool → Bytes → Dialling
dial_once zero round world index p cache = ([], cache, none)
dial_once (suc n) round world index p cache =
    after_round index p (dial_websocket_with_ech 2 (world round) cache)
      (dial_once n (suc round) world index p)

-- Behind a read that failed, the same loop.
unfoldable pub redial_channel : ℕ → (ℕ → ℕ → Round) → ℕ → Pool → Bytes → Dialling
redial_channel n world channel_id p cache = dial_once n 0 world channel_id p cache
