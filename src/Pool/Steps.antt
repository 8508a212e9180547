-- ===== src/Pool/Steps.antt =====
-- The pool (pool.go) under every interleaving of its goroutines: one step for each locked region.
use tunnel.Prelude.{ℕ, Bytes, Bool, List, [], ◌∷◌, ◌≡◌, none, some, length, ◌<◌}
use tunnel.Prelude.Map.{lookup, bytes_key}
use tunnel.Pool.State.{Pool, Info, set_channel, signal, wait_connected}
use tunnel.Pool.Claim.{register, record_claim, bind_channel, unbind_channel}
use tunnel.Pool.Send.{register_udp, assign_udp, release_udp}
use tunnel.Pool.Channel.{forget_tcp, peer_closed}

-- A connection id is fresh if it was never registered: entries of `connected` are never removed.
abbrev pub IsFresh : Bytes → Pool → Type 0
IsFresh id p = lookup id p.connected ≡ none

-- `binds` is the one step that leads to a TCP request. What starts a step is taken from the callers:
-- an id is new when it is registered (`uuid.New`), channels are numbered below the size of the pool,
-- and only a registered UDP association connects.
pub data Step (p : Pool) : Pool → Type 0 where
  redials : (i ws : ℕ) → Step p (set_channel i ws p)
  registers :
      (id : Bytes) (info : Info) (conn : ℕ) → IsFresh id p → Step p (register id info conn p)
  claims : (id : Bytes) (i now : ℕ) {q : Pool} → record_claim id i now p ≡ some q → Step p q
  binds :
      (id : Bytes) (i : ℕ) (info : Info) {q : Pool}
      → i < length p.ws_conns
      → bind_channel i id p ≡ some (info, q)
      → Step p q
  unbinds : (id : Bytes) (i : ℕ) → Step p (unbind_channel i id p).0
  signals : (id : Bytes) → Step p (signal id p)
  waits : (id : Bytes) (timer : Bool) → Step p (wait_connected id timer p).0
  forgets : (id : Bytes) → Step p (forget_tcp id p)
  closes : (id : Bytes) (i : ℕ) → Step p (peer_closed i id p).0
  registers_udp : (id : Bytes) (assoc : ℕ) → IsFresh id p → Step p (register_udp id assoc p)
  assigns_udp :
      (id : Bytes) (i : ℕ) {assoc : ℕ}
      → i < length p.ws_conns
      → lookup id p.udp_map ≡ some assoc
      → Step p (assign_udp id i p)
  releases_udp : (id : Bytes) (i : ℕ) → Step p (release_udp id i p)

-- The connection that a step binds, with its channel.
abbrev pub winner : {p q : Pool} → Step p q → List (Bytes × ℕ)
winner (binds id i info h e) = (id, i) ∷ []
winner _ = []
