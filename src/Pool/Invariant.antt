-- ===== src/Pool/Invariant.antt =====
-- What holds of the pool (pool.go) between any two locked regions, id by id.
use tunnel.Prelude.{
  ℕ, Bytes, Bool, true, false, ◌≡◌, ◌≢◌, Option, none, some, arith, length, ◌<◌, ◌⊎◌, length-set,
  refl, bytes_eq_iff, [], ◌∷◌, Option-cases, inl, inr,
}
use tunnel.Prelude.Map.{
  Map, lookup, insert, erase, bytes_key, nat_eq, lookup-insert, lookup-erase, lookup-erase-none,
  lookup-insert-none,
}
use tunnel.Pool.State.{Pool, Info, new_ech_pool, set_channel, signal, wait_connected}
use tunnel.Pool.Claim.{register, record_claim, drop_time, keep_times, bind_channel, unbind_channel}
use tunnel.Pool.Send.{register_udp, assign_udp, release_udp}
use tunnel.Pool.Channel.{forget_tcp, peer_closed}
use tunnel.Pool.Steps.{
  Step, IsFresh, redials, registers, claims, binds, unbinds, signals, waits, forgets, closes,
  registers_udp, assigns_udp, releases_udp,
}

abbrev pub InRange : Option ℕ → ℕ → Type 0
InRange none n = Unit {0}
InRange (some i) n = i < n

-- The entries at one id: its channel is a channel of the pool; it does not wait for a channel while
-- it has one, nor while it is a UDP association; and an id that was never registered has no
-- entries.
pub record IsSound (p : Pool) (j : Bytes) : Type 0 where
  pub in_range : InRange (lookup j p.channel_map) (length p.ws_conns)
  pub waiting : (lookup j p.conn_info ≡ none) ⊎ (lookup j p.channel_map ≡ none)
  pub udp_apart : (lookup j p.conn_info ≡ none) ⊎ (lookup j p.udp_map ≡ none)
  pub known :
      (lookup j p.connected ≢ none)
      ⊎ ((lookup j p.conn_info ≡ none)
          × (lookup j p.channel_map ≡ none)
          × (lookup j p.udp_map ≡ none)
          × (lookup j p.tcp_map ≡ none)
          × (lookup j p.claim_times ≡ none))

abbrev pub Inv : Pool → Type 0
Inv p = (j : Bytes) → IsSound p j

pub new_ech_pool-Inv : (addr : Bytes) (n : ℕ) → Inv (new_ech_pool addr n)
unfolding new_ech_pool lookup
new_ech_pool-Inv addr n j = ground arith

set_channel-IsSound :
    (i ws : ℕ) (p : Pool) (j : Bytes) → IsSound p j → IsSound (set_channel i ws p) j
unfolding set_channel
set_channel-IsSound i ws p j v = ground (arith, length-set p.ws_conns i (some ws))

register-IsSound :
    (id : Bytes) (info : Info) (conn : ℕ) (p : Pool) (j : Bytes)
    → IsFresh id p
    → IsSound p id
    → IsSound p j
    → IsSound (register id info conn p) j
unfolding register
register-IsSound id info conn p j f u v = ground (
  arith,
  lookup-insert id j info p.conn_info,
  lookup-insert id j conn p.tcp_map,
  lookup-insert id j [] p.claim_times,
  lookup-insert id j false p.connected,
  bytes_eq_iff id j,
)

record_claim-IsSound :
    (id : Bytes) (i now : ℕ) (p : Pool) (j : Bytes) {q : Pool}
    → record_claim id i now p ≡ some q
    → IsSound p j
    → IsSound q j
unfolding record_claim
record_claim-IsSound id i now p j e v = elim (Option-cases (lookup id p.claim_times)) [
  | inl nil ↦ (let stuck : record_claim id i now p ≡ none = rw nil refl in absurd cc)
  | inr (times, found) ↦
      ground (arith, lookup-insert-none id j (insert i now times) times p.claim_times found)
]

keep_times-none :
    (id j : Bytes) (left times : Map ℕ ℕ) (m : Map Bytes (Map ℕ ℕ))
    → lookup id m ≡ some times
    → lookup j m ≡ none
    → lookup j (keep_times id left m) ≡ none
keep_times-none id j [] times m e h = lookup-erase-none id j m h
keep_times-none id j (t ∷ left) times m e h = lookup-insert-none id j (t ∷ left) times m e h

lookup-drop_time :
    (id : Bytes) (i : ℕ) (j : Bytes) (m : Map Bytes (Map ℕ ℕ))
    → lookup j m ≡ none
    → lookup j (drop_time id i (lookup id m) m) ≡ none
lookup-drop_time id i j m h = elim (Option-cases (lookup id m)) [
  | inl nil ↦ rw nil h
  | inr (times, found) ↦ elim (Option-cases (lookup i times)) [
    | inl other ↦ rw (found, other) h
    | inr (t, asked) ↦ rw (found, asked) (keep_times-none id j (erase i times) times m found h)
  ]
]

bind_channel-IsSound :
    (id : Bytes) (i : ℕ) (info : Info) (p : Pool) (j : Bytes) {q : Pool}
    → i < length p.ws_conns
    → bind_channel i id p ≡ some (info, q)
    → IsSound p id
    → IsSound p j
    → IsSound q j
unfolding bind_channel
bind_channel-IsSound id i info p j h e u v = ground (
  arith,
  lookup-insert id j i p.channel_map,
  lookup-erase id j p.conn_info,
  lookup-drop_time id i j p.claim_times,
  bytes_eq_iff id j,
)

unbind_channel-IsSound :
    (id : Bytes) (i : ℕ) (p : Pool) (j : Bytes) → IsSound p j → IsSound (unbind_channel i id p).0 j
unfolding unbind_channel
unbind_channel-IsSound id i p j v = ground (
  arith,
  lookup-erase id j p.channel_map,
  lookup-erase id j p.conn_info,
  lookup-erase-none id j p.tcp_map,
  lookup-erase-none id j p.claim_times,
)

peer_closed-IsSound :
    (id : Bytes) (i : ℕ) (p : Pool) (j : Bytes) → IsSound p j → IsSound (peer_closed i id p).0 j
unfolding peer_closed
peer_closed-IsSound id i p j v = ground (
  arith,
  lookup-erase id j p.channel_map,
  lookup-erase id j p.conn_info,
  lookup-erase-none id j p.tcp_map,
  lookup-erase-none id j p.claim_times,
)

signal-IsSound : (id : Bytes) (p : Pool) (j : Bytes) → IsSound p j → IsSound (signal id p) j
unfolding signal
signal-IsSound id p j v = ground (arith, lookup-insert id j true p.connected)

wait_connected-IsSound :
    (id : Bytes) (timer : Bool) (p : Pool) (j : Bytes)
    → IsSound p j
    → IsSound (wait_connected id timer p).0 j
unfolding wait_connected
wait_connected-IsSound id timer p j v = ground (arith, lookup-insert id j false p.connected)

register_udp-IsSound :
    (id : Bytes) (assoc : ℕ) (p : Pool) (j : Bytes)
    → IsFresh id p
    → IsSound p id
    → IsSound p j
    → IsSound (register_udp id assoc p) j
unfolding register_udp
register_udp-IsSound id assoc p j f u v = ground (
  arith,
  lookup-insert id j assoc p.udp_map,
  lookup-insert id j false p.connected,
  bytes_eq_iff id j,
)

assign_udp-IsSound :
    (id : Bytes) (i : ℕ) {assoc : ℕ} (p : Pool) (j : Bytes)
    → i < length p.ws_conns
    → lookup id p.udp_map ≡ some assoc
    → IsSound p id
    → IsSound p j
    → IsSound (assign_udp id i p) j
unfolding assign_udp
assign_udp-IsSound id i p j h e u v =
    ground (arith, lookup-insert id j i p.channel_map, bytes_eq_iff id j)

release_udp-IsSound :
    (id : Bytes) (i : ℕ) (p : Pool) (j : Bytes) → IsSound p j → IsSound (release_udp id i p) j
unfolding release_udp
release_udp-IsSound id i p j v =
    ground (arith, lookup-erase id j p.channel_map, lookup-erase id j p.udp_map)

-- Every step of every goroutine, where the channels that the steps name are channels of the pool, keeps
-- the pool sound at every id: a channel in channelMap is one of the pool, an id that waits for a channel
-- in connInfo has neither a channel nor a UDP association, and an id that was never registered has no
-- entry in connInfo, channelMap, udpMap, tcpMap and claimTimes.
pub Step-Inv : {p q : Pool} → Inv p → Step p q → Inv q
unfolding forget_tcp
Step-Inv {p} v (redials i ws) j = set_channel-IsSound i ws p j (v j)
Step-Inv {p} v (registers id info conn f) j = register-IsSound id info conn p j f (v id) (v j)
Step-Inv {p} v (claims id i now e) j = record_claim-IsSound id i now p j e (v j)
Step-Inv {p} v (binds id i info h e) j = bind_channel-IsSound id i info p j h e (v id) (v j)
Step-Inv {p} v (unbinds id i) j = unbind_channel-IsSound id i p j (v j)
Step-Inv {p} v (signals id) j = signal-IsSound id p j (v j)
Step-Inv {p} v (waits id timer) j = wait_connected-IsSound id timer p j (v j)
Step-Inv {p} v (forgets id) j = ground (arith, lookup-erase-none id j p.tcp_map, v j)
Step-Inv {p} v (closes id i) j = peer_closed-IsSound id i p j (v j)
Step-Inv {p} v (registers_udp id assoc f) j = register_udp-IsSound id assoc p j f (v id) (v j)
Step-Inv {p} v (assigns_udp id i h e) j = assign_udp-IsSound id i p j h e (v id) (v j)
Step-Inv {p} v (releases_udp id i) j = release_udp-IsSound id i p j (v j)
