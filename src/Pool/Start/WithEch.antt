-- ===== src/Pool/Start/WithEch.antt =====
-- That every goroutine of `Start` (pool.go) dials with ECH.
use tunnel.Prelude.{ℕ, zero, suc, Bytes, List, [], ◌∷◌, none, some, arith}
use tunnel.Pool.State.{Pool}
use tunnel.Pool.Start.{start, then_next}
use tunnel.Pool.Dial.{Dialling, after_round, dial_once, redial_channel}
use tunnel.Pool.Dial.Liveness.{AllWithEch-append}
use tunnel.TcpClient.Dial.{Round, Action, Ended, dialled, dial_websocket_with_ech}
use tunnel.TcpClient.Dial.Bounds.{AllWithEch, dial_websocket_with_ech-Bounded}

after_round-AllWithEch :
    (index : ℕ) (p : Pool) (r : List Action × Bytes × Ended) (retry : Bytes → Dialling)
    → AllWithEch r.0
    → ((cache : Bytes) → AllWithEch (retry cache).0)
    → AllWithEch (after_round index p r retry).0
after_round-AllWithEch index p (actions, cache, dialled ws) retry h k = h
after_round-AllWithEch index p (actions, cache, _) retry h k =
    AllWithEch-append actions (retry cache).0 h (k cache)

dial_once-AllWithEch :
    (n round : ℕ) (world : ℕ → ℕ → Round) (index : ℕ) (p : Pool) (cache : Bytes)
    → AllWithEch (dial_once n round world index p cache).0
unfolding dial_once
dial_once-AllWithEch zero round world index p cache = _
dial_once-AllWithEch (suc n) round world index p cache =
    after_round-AllWithEch index p (dial_websocket_with_ech 2 (world round) cache) _
      (dial_websocket_with_ech-Bounded 2 (world round) cache (omega arith)).0
      (λ after. dial_once-AllWithEch n (suc round) world index p after)

pub redial_channel-AllWithEch :
    (n : ℕ) (world : ℕ → ℕ → Round) (channel : ℕ) (p : Pool) (cache : Bytes)
    → AllWithEch (redial_channel n world channel p cache).0
unfolding redial_channel
redial_channel-AllWithEch n world channel p cache = dial_once-AllWithEch n 0 world channel p cache

then_next-AllWithEch :
    (d : Dialling) (next : Pool → Bytes → Dialling)
    → AllWithEch d.0
    → ((q : Pool) (cache : Bytes) → AllWithEch (next q cache).0)
    → AllWithEch (then_next d next).0
then_next-AllWithEch (actions, cache, none) next h k = h
then_next-AllWithEch (actions, cache, some q) next h k =
    AllWithEch-append actions (next q cache).0 h (k q cache)

pub start-AllWithEch :
    (world : ℕ → ℕ → ℕ → Round) (rounds : ℕ → ℕ) (order : List ℕ) (p : Pool) (cache : Bytes)
    → AllWithEch (start world rounds order p cache).0
unfolding start
start-AllWithEch world rounds [] p cache = _
start-AllWithEch world rounds (i ∷ order) p cache =
    then_next-AllWithEch (dial_once (suc (rounds i)) 0 (world i) i p cache)
      (start world rounds order) (dial_once-AllWithEch (suc (rounds i)) 0 (world i) i p cache)
      (λ q after. start-AllWithEch world rounds order q after)
