-- ===== src/Pool/Race.antt =====
-- The race of the channels for a connection (pool.go) has one winner, however the goroutines
-- interleave.
use tunnel.Prelude.{
  ℕ, Bytes, true, false, List, [], ◌∷◌, ◌++◌, ◌≡◌, ◌≢◌, none, some, arith, ◌⊎◌, inl, inr,
  bytes_eq_iff, subst, sym,
}
use tunnel.Prelude.Map.{lookup, bytes_key, nat_eq, lookup-insert, lookup-erase}
use tunnel.Pool.State.{Pool, Info, new_ech_pool, set_channel, signal, wait_connected}
use tunnel.Pool.Claim.{register, record_claim, bind_channel, unbind_channel}
use tunnel.Pool.Send.{register_udp, assign_udp, release_udp}
use tunnel.Pool.Channel.{forget_tcp, peer_closed}
use tunnel.Pool.Steps.{
  Step, winner, redials, registers, claims, binds, unbinds, signals, waits, forgets, closes,
  registers_udp, assigns_udp, releases_udp,
}
use tunnel.Pool.Invariant.{Inv, IsSound, Step-Inv, new_ech_pool-Inv}

-- The id was registered and waits for no channel: its race is over, or it never had one.
abbrev pub IsSettled : Bytes → Pool → Type 0
IsSettled id p = (lookup id p.connected ≢ none) × (lookup id p.conn_info ≡ none)

-- Once over, the race does not start again.
Step-IsSettled : {p q : Pool} (id : Bytes) → IsSettled id p → Step p q → IsSettled id q
unfolding set_channel register record_claim bind_channel unbind_channel signal wait_connected
    forget_tcp peer_closed register_udp assign_udp release_udp
Step-IsSettled id h (redials i ws) = h
Step-IsSettled {p} id h (registers k info conn f) = ground (
  arith,
  lookup-insert k id info p.conn_info,
  lookup-insert k id false p.connected,
  bytes_eq_iff k id,
)
Step-IsSettled id h (claims k i now e) = ground arith
Step-IsSettled {p} id h (binds k i info r e) = ground (arith, lookup-erase k id p.conn_info)
Step-IsSettled {p} id h (unbinds k i) = ground (arith, lookup-erase k id p.conn_info)
Step-IsSettled {p} id h (signals k) = ground (arith, lookup-insert k id true p.connected)
Step-IsSettled {p} id h (waits k timer) = ground (arith, lookup-insert k id false p.connected)
Step-IsSettled id h (forgets k) = h
Step-IsSettled {p} id h (closes k i) = ground (arith, lookup-erase k id p.conn_info)
Step-IsSettled {p} id h (registers_udp k assoc f) =
    ground (arith, lookup-insert k id false p.connected)
Step-IsSettled id h (assigns_udp k i r e) = h
Step-IsSettled id h (releases_udp k i) = h

-- The id is in the log of winners.
abbrev pub Won : Bytes → List (Bytes × ℕ) → Type 0
Won id [] = ⊥
Won id ((k, i) ∷ log) = (k ≡ id) ⊎ Won id log

-- No id is in the log twice.
abbrev pub Once : List (Bytes × ℕ) → Type 0
Once [] = Unit {0}
Once ((k, i) ∷ log) = (¬ Won k log) × Once log

-- A sequence of steps with the log of the connections that it binds.
pub data Run : Pool → List (Bytes × ℕ) → Pool → Type 0 where
  stop : {p : Pool} → Run p [] p
  more :
      {p q r : Pool} {log all : List (Bytes × ℕ)} (st : Step p q)
      → Run q log r
      → all ≡ winner st ++ log
      → Run p all r

bind_channel-IsSettled :
    (id : Bytes) (i : ℕ) (info : Info) (p : Pool) {q : Pool}
    → IsSound p id
    → bind_channel i id p ≡ some (info, q)
    → (¬ IsSettled id p) × IsSettled id q
unfolding bind_channel
bind_channel-IsSettled id i info p v e =
    (λ s. ground arith, ground (arith, lookup-erase id id p.conn_info, bytes_eq_iff id id))

-- A settled id does not win.
settled_step :
    {p q : Pool} (id : Bytes) → Inv p → IsSettled id p → (st : Step p q) → ¬ Won id (winner st)
settled_step {p} id v h (binds k i info r e) (inl same) =
    (bind_channel-IsSettled k i info p (v k) e).0 (subst (λ j. IsSettled j p) (sym same) h)
settled_step id v h (binds k i info r e) (inr w) = w
settled_step id v h (redials i ws) w = w
settled_step id v h (registers k info conn f) w = w
settled_step id v h (claims k i now e) w = w
settled_step id v h (unbinds k i) w = w
settled_step id v h (signals k) w = w
settled_step id v h (waits k timer) w = w
settled_step id v h (forgets k) w = w
settled_step id v h (closes k i) w = w
settled_step id v h (registers_udp k assoc f) w = w
settled_step id v h (assigns_udp k i r e) w = w
settled_step id v h (releases_udp k i) w = w

Won-append : (id : Bytes) (xs ys : List (Bytes × ℕ)) → Won id (xs ++ ys) → Won id xs ⊎ Won id ys
Won-append id [] ys w = inr w
Won-append id ((k, i) ∷ xs) ys (inl e) = inl (inl e)
Won-append id ((k, i) ∷ xs) ys (inr w) = elim (Won-append id xs ys w) [
  | inl a ↦ inl (inr a)
  | inr b ↦ inr b
]

settled-Run :
    {p r : Pool} {log : List (Bytes × ℕ)} (id : Bytes)
    → Inv p
    → IsSettled id p
    → Run p log r
    → ¬ Won id log
settled-Run id v h stop w = w
settled-Run id v h (more {log} st run e) w =
    elim (Won-append id (winner st) log (subst (Won id) e w)) [
      | inl now ↦ settled_step id v h st now
      | inr later ↦ settled-Run id (Step-Inv v st) (Step-IsSettled id h st) run later
    ]

step-Once :
    {p q r : Pool} {log : List (Bytes × ℕ)}
    → Inv p
    → (st : Step p q) → Run q log r
    → Once log
    → Once (winner st ++ log)
step-Once v (binds k i info b e) run o = (
  settled-Run k (Step-Inv v (binds k i info b e)) (bind_channel-IsSettled k i info _ (v k) e).1 run,
  o,
)
step-Once v (redials i ws) run o = o
step-Once v (registers k info conn f) run o = o
step-Once v (claims k i now e) run o = o
step-Once v (unbinds k i) run o = o
step-Once v (signals k) run o = o
step-Once v (waits k timer) run o = o
step-Once v (forgets k) run o = o
step-Once v (closes k i) run o = o
step-Once v (registers_udp k assoc f) run o = o
step-Once v (assigns_udp k i r e) run o = o
step-Once v (releases_udp k i) run o = o

Run-Once : {p r : Pool} {log : List (Bytes × ℕ)} → Inv p → Run p log r → Once log
Run-Once v stop = tt
Run-Once v (more {log} st run e) =
    subst Once (sym e) (step-Once v st run (Run-Once (Step-Inv v st) run))

-- From a new pool of any size, however its goroutines interleave, a connection wins a channel at
-- most once: no two channels send a TCP request for it.
pub new_ech_pool-Once :
    (addr : Bytes) (n : ℕ) {r : Pool} {log : List (Bytes × ℕ)}
    → Run (new_ech_pool addr n) log r
    → Once log
new_ech_pool-Once addr n run = Run-Once (new_ech_pool-Inv addr n) run
