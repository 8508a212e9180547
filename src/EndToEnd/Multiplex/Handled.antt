-- ===== src/EndToEnd/Multiplex/Handled.antt =====
-- What the client's channel loop and the pool's other goroutines (pool.go) do to one of its connections.
use tunnel.Prelude.{ℕ, Bytes, Bool, ◌≡◌, ◌≢◌, sym, ap, ◌∙◌, some, arith, ◌⊎◌, inl, inr}
use tunnel.Prelude.Map.{lookup, bytes_key, nat_eq}
use tunnel.Pool.State.{Pool, Info, set_channel, signal, wait_connected}
use tunnel.Pool.Reply.{Reply, stream, raw, claim_ack, closed}
use tunnel.Pool.Claim.{register, record_claim, bind_channel, unbind_channel}
use tunnel.Pool.Send.{register_udp, assign_udp, release_udp}
use tunnel.Pool.Channel.{forget_tcp, peer_closed}
use tunnel.Pool.Steps.{Step, registers, binds, unbinds, forgets, closes, claims, signals, waits}
use tunnel.EndToEnd.Multiplex.{HasLocal, insert-IsSole, erase-IsSole}

-- The reply is not about the connection `id`.
abbrev pub IsApart : Reply → Bytes → Type 0
IsApart (stream k b) id = k ≢ id
IsApart (raw msg) id = ⊥
IsApart (claim_ack k) id = k ≢ id
IsApart (closed k) id = k ≢ id
IsApart _ id = Unit {0}

-- The step takes the entry of the connection `id` away, or gives its local connection to another.
abbrev pub Takes : {p q : Pool} → Bytes → ℕ → Step p q → Type 0
Takes id c (registers k info e n) = (k ≡ id) ⊎ (e ≡ c)
Takes id c (unbinds k i) = k ≡ id
Takes id c (forgets k) = k ≡ id
Takes id c (closes k i) = k ≡ id
Takes id c _ = ⊥

pub same-HasLocal :
    (id : Bytes) (c : ℕ) (p q : Pool) → q.tcp_map ≡ p.tcp_map → HasLocal id c p → HasLocal id c q
same-HasLocal id c p q e (h, only) =
    (ap (lookup id) e ∙ h, λ j found. only j (sym (ap (lookup j) e) ∙ found))

record_claim-tcp_map :
    (id : Bytes) (i now : ℕ) (p q : Pool) → record_claim id i now p ≡ some q → q.tcp_map ≡ p.tcp_map
unfolding record_claim
record_claim-tcp_map id i now p q e = ground arith

pub bind_channel-tcp_map :
    (i : ℕ) (id : Bytes) (info : Info) (p q : Pool)
    → bind_channel i id p ≡ some (info, q)
    → q.tcp_map ≡ p.tcp_map
unfolding bind_channel
bind_channel-tcp_map i id info p q e = ground arith

pub signal-tcp_map : (id : Bytes) (p : Pool) → (signal id p).tcp_map ≡ p.tcp_map
unfolding signal
signal-tcp_map id p = ground arith

wait_connected-tcp_map :
    (id : Bytes) (timer : Bool) (p : Pool) → (wait_connected id timer p).0.tcp_map ≡ p.tcp_map
unfolding wait_connected
wait_connected-tcp_map id timer p = ground arith

-- A step that does not take it leaves a connection its own.
pub Step-HasLocal :
    {p q : Pool} (id : Bytes) (c : ℕ) (st : Step p q)
    → ¬ Takes id c st
    → HasLocal id c p
    → HasLocal id c q
unfolding register unbind_channel peer_closed forget_tcp set_channel wait_connected register_udp
    assign_udp release_udp
Step-HasLocal {p} {q} id c (registers k info e n) h l =
    insert-IsSole id k c e p.tcp_map (λ x. h (inl x)) (λ x. h (inr x)) l
Step-HasLocal {p} {q} id c (unbinds k i) h l = erase-IsSole id k c p.tcp_map h l
Step-HasLocal {p} {q} id c (forgets k) h l = erase-IsSole id k c p.tcp_map h l
Step-HasLocal {p} {q} id c (closes k i) h l = erase-IsSole id k c p.tcp_map h l
Step-HasLocal {p} {q} id c (claims k i now e) h l =
    same-HasLocal id c p q (record_claim-tcp_map k i now p q e) l
Step-HasLocal {p} {q} id c (binds k i info e b) h l =
    same-HasLocal id c p q (bind_channel-tcp_map i k info p q b) l
Step-HasLocal {p} {q} id c (signals k) h l = same-HasLocal id c p q (signal-tcp_map k p) l
Step-HasLocal {p} {q} id c (waits k timer) h l =
    same-HasLocal id c p q (wait_connected-tcp_map k timer p) l
Step-HasLocal id c _ h l = l
