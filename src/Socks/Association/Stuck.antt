-- ===== src/Socks/Association/Stuck.antt =====
-- An association whose first datagram finds no WebSocket (socks5.go), beside all the other
-- goroutines of the pool (pool.go).
use tunnel.Prelude.{
  ℕ, Bytes, Bool, true, false, List, [], ◌++◌, ◌≡◌, ◌≢◌, refl, ap, ◌∙◌, Option, none, some, arith,
  bytes_eq_iff, subst,
}
use tunnel.Prelude.Map.{lookup, bytes_key, nat_eq, lookup-insert, lookup-erase, lookup-erase-none}
use tunnel.Pool.State.{
  Pool, Info, Effect, set_channel, signal, wait_connected, socket_of, unassigned, no_websocket,
}
use tunnel.Pool.Claim.{register, record_claim, bind_channel, unbind_channel}
use tunnel.Pool.Send.{
  first_channel, register_udp, assign_udp, release_udp, send_udp_connect, send_udp_data,
}
use tunnel.Pool.Channel.{forget_tcp, peer_closed}
use tunnel.Pool.Steps.{
  Step, redials, registers, claims, binds, unbinds, signals, waits, forgets, closes, registers_udp,
  assigns_udp, releases_udp,
}
use tunnel.Pool.Invariant.{IsSound}
use tunnel.Socks.Association.{Association, Failure, connect_failed, data_failed, send_datagram}

-- The step is the assignment in `SendUDPConnect` for this id. Only `sendUDPData` of the association that
-- has the id calls that, so it comes with a datagram of it (`sends`), and from no other goroutine.
abbrev pub Asks : {p q : Pool} → Bytes → Step p q → Type 0
Asks id (assigns_udp j i h e) = j ≡ id
Asks id _ = ⊥

-- The association, the pool, and what was sent for the association until now.
pub record Course : Type 0 where
  pub assoc : Association
  pub pool : Pool
  pub effects : List Effect

abbrev pub behind : Course → Association × Pool × List Effect × Option Failure → Course
behind c (a, p, effects, e) = record { assoc = a; pool = p; effects = c.effects ++ effects }

-- A locked region of another goroutine, or a datagram of the association.
pub data Turn (b : Course) : Course → Type 0 where
  goes_on :
      {q : Pool} (st : Step b.pool q) → ¬ Asks b.assoc.conn_id st → Turn b (record b { pool = q })
  sends :
      (target payload : Bytes) (asked written : Bool)
      → Turn b (behind b (send_datagram target payload asked written b.assoc b.pool))

pub data Reach (b : Course) : Course → Type 0 where
  here : Reach b b
  next : {c d : Course} → Reach b c → Turn c d → Reach b d

-- The id is known to the pool, waits for no channel and has none.
abbrev IsIdle : Bytes → Pool → Type 0
IsIdle id p =
    (lookup id p.connected ≢ none)
    × (lookup id p.conn_info ≡ none)
    × (lookup id p.channel_map ≡ none)

bind_channel-IsIdle :
    (id j : Bytes) (i : ℕ) {info : Info} (p : Pool) {q : Pool}
    → bind_channel i j p ≡ some (info, q)
    → IsIdle id p
    → IsIdle id q
unfolding bind_channel
bind_channel-IsIdle id j i p e v =
    ground
      (arith, lookup-insert j id i p.channel_map, lookup-erase j id p.conn_info, bytes_eq_iff j id)

record_claim-IsIdle :
    (id j : Bytes) (i now : ℕ) (p : Pool) {q : Pool}
    → record_claim j i now p ≡ some q
    → IsIdle id p
    → IsIdle id q
unfolding record_claim
record_claim-IsIdle id j i now p e v = ground arith

Step-IsIdle : (id : Bytes) {p q : Pool} (st : Step p q) → ¬ Asks id st → IsIdle id p → IsIdle id q
unfolding set_channel register unbind_channel signal wait_connected forget_tcp peer_closed
    register_udp assign_udp release_udp
Step-IsIdle id (redials i ws) n v = v
Step-IsIdle id {p} (registers j info conn f) n v = ground (
  arith,
  lookup-insert j id info p.conn_info,
  lookup-insert j id false p.connected,
  bytes_eq_iff j id,
  v,
)
Step-IsIdle id {p} (claims j i now e) n v = record_claim-IsIdle id j i now p e v
Step-IsIdle id {p} (binds j i info h e) n v = bind_channel-IsIdle id j i p e v
Step-IsIdle id {p} (unbinds j i) n v =
    ground (arith, lookup-erase-none j id p.channel_map, lookup-erase-none j id p.conn_info, v)
Step-IsIdle id {p} (signals j) n v = ground (arith, lookup-insert j id true p.connected, v)
Step-IsIdle id {p} (waits j timer) n v = ground (arith, lookup-insert j id false p.connected, v)
Step-IsIdle id (forgets j) n v = v
Step-IsIdle id {p} (closes j i) n v =
    ground (arith, lookup-erase-none j id p.channel_map, lookup-erase-none j id p.conn_info, v)
Step-IsIdle id {p} (registers_udp j assoc f) n v =
    ground (arith, lookup-insert j id false p.connected, v)
Step-IsIdle id {p} (assigns_udp j i h e) n v =
    ground (arith, lookup-insert j id i p.channel_map, bytes_eq_iff j id, v)
Step-IsIdle id {p} (releases_udp j i) n v = ground (arith, lookup-erase-none j id p.channel_map, v)

socket_of-IsIdle : (id : Bytes) (p : Pool) → IsIdle id p → socket_of id p ≡ none
unfolding socket_of
socket_of-IsIdle id p v = rw (v.2) refl

-- An association that has asked for its connection and got none.
record IsStuck (id : Bytes) (c : Course) : Type 0 where
  own : c.assoc.conn_id ≡ id
  opened : c.assoc.closed ≡ false
  asked : c.assoc.receiving ≡ true
  idle : IsIdle id c.pool
  silent : c.effects ≡ []

send_datagram-IsStuck :
    (id target payload : Bytes) (asked written : Bool) (c : Course)
    → IsStuck id c
    → send_datagram target payload asked written c.assoc c.pool
      ≡ (c.assoc, c.pool, [], some (data_failed unassigned))
unfolding send_datagram send_udp_data
send_datagram-IsStuck id target payload asked written c v =
    let alone : socket_of c.assoc.conn_id c.pool ≡ none =
      ap (λ k. socket_of k c.pool) v.own ∙ socket_of-IsIdle id c.pool v.idle in
    rw (v.opened, v.asked, alone) refl

Turn-IsStuck : (id : Bytes) {b c : Course} → IsStuck id b → Turn b c → IsStuck id c
Turn-IsStuck id {b} v (goes_on st n) = record {
  own = v.own;
  opened = v.opened;
  asked = v.asked;
  idle = Step-IsIdle id st (subst (λ k. ¬ Asks k st) v.own n) v.idle;
  silent = v.silent;
}
Turn-IsStuck id {b} v (sends target payload asked written) =
    rw (send_datagram-IsStuck id target payload asked written b v) (record {
      own = v.own;
      opened = v.opened;
      asked = v.asked;
      idle = v.idle;
      silent = ap (λ l. l ++ []) v.silent;
    })

Reach-IsStuck : (id : Bytes) {b c : Course} → IsStuck id b → Reach b c → IsStuck id c
Reach-IsStuck id v here = v
Reach-IsStuck id v (next r t) = Turn-IsStuck id (Reach-IsStuck id v r) t

-- A registered association of a sound pool gets its first datagram while no channel has a WebSocket.
abbrev pub IsUnlucky : Association → ℕ → Pool → Type 0
IsUnlucky a assoc p =
    (a.closed ≡ false)
    × (a.receiving ≡ false)
    × IsSound p a.conn_id
    × (lookup a.conn_id p.udp_map ≡ some assoc)
    × (lookup a.conn_id p.channel_map ≡ none)
    × (first_channel 0 p.ws_conns ≡ none)

send_datagram-first_none :
    (a : Association) (assoc : ℕ) (p : Pool) (target payload : Bytes) (asked written : Bool)
    → IsUnlucky a assoc p
    → send_datagram target payload asked written a p
      ≡ (record a { receiving = true }, p, [], some (connect_failed no_websocket))
unfolding send_datagram send_udp_connect
send_datagram-first_none a assoc p target payload asked written (o, r, v, u, c, f) =
    rw (o, r, f) refl

IsUnlucky-IsIdle :
    (a : Association) (assoc : ℕ) (p : Pool) → IsUnlucky a assoc p → IsIdle a.conn_id p
IsUnlucky-IsIdle a assoc p (o, r, v, u, c, f) =
    let known = v.known in let apart = v.udp_apart in ground (arith, known, apart, u, c)

-- An open association that is registered in a sound pool and has no channel gets its first datagram
-- while no channel has a WebSocket. From then on, until it is closed, whatever datagrams of it follow,
-- and whatever locked regions the other goroutines of the pool go through before and between them, the
-- dials of all channels included: nothing is ever sent for it, it gets no channel, and its next
-- datagram fails too, for want of one.
pub send_datagram-stuck :
    (a : Association) (assoc : ℕ) (p : Pool) (first later : Bytes × Bytes)
    (asked written asked_later written_later : Bool) {c : Course}
    → IsUnlucky a assoc p
    → Reach
        (behind
          (record { assoc = a; pool = p; effects = [] })
          (send_datagram first.0 first.1 asked written a p))
        c
    → (c.effects ≡ [])
      × (lookup a.conn_id c.pool.channel_map ≡ none)
      × (send_datagram later.0 later.1 asked_later written_later c.assoc c.pool
          ≡ (c.assoc, c.pool, [], some (data_failed unassigned)))
send_datagram-stuck a assoc p first later asked written asked_later written_later {c} u r =
    let e = send_datagram-first_none a assoc p first.0 first.1 asked written u in
    let start : IsStuck a.conn_id (
        behind (record { assoc = a; pool = p; effects = [] })
          (send_datagram first.0 first.1 asked written a p)) =
      rw e (record {
        own = refl;
        opened = u.0;
        asked = refl;
        idle = IsUnlucky-IsIdle a assoc p u;
        silent = refl;
      }) in
    let v = Reach-IsStuck a.conn_id start r in
    (
      v.silent,
      v.idle.2,
      send_datagram-IsStuck a.conn_id later.0 later.1 asked_later written_later c v,
    )
