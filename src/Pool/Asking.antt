-- ===== src/Pool/Asking.antt =====
-- How a connection asks for a channel (pool.go, `RegisterAndClaim`), alone and in a race with the
-- acknowledgement of one of its own claims.
use tunnel.Prelude.{
  ℕ, Bytes, List, [], ◌∷◌, ◌≡◌, refl, Option, none, some, arith, ◌+◌, ap, ◌∙◌, ◌≢◌, inl, inr,
  Option-cases, bytes_eq_refl, ==_iff,
}
use tunnel.Prelude.Map.{
  Map, lookup, insert, erase, bytes_key, nat_eq, lookup-insert, lookup-insert_self,
  lookup-insert_ne, lookup-erase_self,
}
use tunnel.Wire.{claim_message}
use tunnel.Pool.State.{Pool, Info, Effect, write_ws}
use tunnel.Pool.Claim.{register, record_claim, claim_loop, register_and_claim, bind_channel}

-- One CLAIM for each channel that has a WebSocket, with the channel's number, in order.
abbrev pub asks : Bytes → ℕ → List (Option ℕ) → List Effect
asks id i [] = []
asks id i (none ∷ rest) = asks id (i + 1) rest
asks id i (some ws ∷ rest) = write_ws ws (claim_message id i) ∷ asks id (i + 1) rest

record_claim_waiting :
    (id : Bytes) (i now : ℕ) (times : Map ℕ ℕ) (p : Pool)
    → lookup id p.claim_times ≡ some times
    → record_claim id i now p
      ≡ some (record p { claim_times = insert id (insert i now times) p.claim_times })
unfolding record_claim
record_claim_waiting id i now times p e = rw e

-- The pools that the loop passes through differ in their claim times alone.
pub record SameButTimes (p q : Pool) : Type 0 where
  pub ws_conns : q.ws_conns ≡ p.ws_conns
  pub tcp_map : q.tcp_map ≡ p.tcp_map
  pub udp_map : q.udp_map ≡ p.udp_map
  pub channel_map : q.channel_map ≡ p.channel_map
  pub conn_info : q.conn_info ≡ p.conn_info
  pub connected : q.connected ≡ p.connected
  pub bound_by_channel : q.bound_by_channel ≡ p.bound_by_channel

register-times :
    (id : Bytes) (info : Info) (conn : ℕ) (p : Pool)
    → (times : Map ℕ ℕ) × (lookup id (register id info conn p).claim_times ≡ some times)
unfolding register
register-times id info conn p = elim (Option-cases (lookup id p.claim_times)) [
  | inl e ↦ ([], ground (arith, lookup-insert id id [] p.claim_times, bytes_eq_refl id))
  | inr (times, e) ↦ (times, ground arith)
]

claim_loop-asks :
    (id : Bytes) (clock : ℕ → ℕ) (i : ℕ) (ws_conns : List (Option ℕ)) (times : Map ℕ ℕ) (p : Pool)
    → lookup id p.claim_times ≡ some times
    → (q : Pool) × (claim_loop id clock i ws_conns p ≡ some (q, asks id i ws_conns))
      × SameButTimes p q
unfolding claim_loop
claim_loop-asks id clock i [] times p e = (p, refl, ground arith)
claim_loop-asks id clock i (none ∷ rest) times p e = claim_loop-asks id clock (i + 1) rest times p e
claim_loop-asks id clock i (some ws ∷ rest) times p e =
    let q = record p { claim_times = insert id (insert i (clock i) times) p.claim_times } in
    let waiting : lookup id q.claim_times ≡ some (insert i (clock i) times) =
      ground
        (arith, lookup-insert id id (insert i (clock i) times) p.claim_times, bytes_eq_refl id) in
    let (r, run, same) =
      claim_loop-asks id clock (i + 1) rest (insert i (clock i) times) q waiting in
    (r, rw (record_claim_waiting id i (clock i) times p e, run), ground arith)

-- `RegisterAndClaim` alone: its claims, and the pool behind it but for the claim times.
pub register_and_claim-SameButTimes :
    (id : Bytes) (info : Info) (conn : ℕ) (clock : ℕ → ℕ) (p : Pool)
    → (q : Pool) × (register_and_claim id info conn clock p ≡ some (q, asks id 0 p.ws_conns))
      × SameButTimes (register id info conn p) q
unfolding register_and_claim
register_and_claim-SameButTimes id info conn clock p =
    let (times, ready) = register-times id info conn p in
    claim_loop-asks id clock 0 p.ws_conns times (register id info conn p) ready

-- With no other goroutine between its regions, `RegisterAndClaim` does not panic, whether the id is
-- new or not. It sends one CLAIM on each connected channel, in order, and the connection then waits
-- with its target and first frame; it binds none, and every other connection `j` keeps its target
-- and its local connection.
pub register_and_claim-asks :
    (id j : Bytes) (info : Info) (conn : ℕ) (clock : ℕ → ℕ) (p : Pool)
    → j ≢ id
    → (q : Pool) × (register_and_claim id info conn clock p ≡ some (q, asks id 0 p.ws_conns))
      × (lookup id q.conn_info ≡ some info)
      × (lookup id q.tcp_map ≡ some conn)
      × (q.channel_map ≡ p.channel_map)
      × (lookup j q.conn_info ≡ lookup j p.conn_info)
      × (lookup j q.tcp_map ≡ lookup j p.tcp_map)
unfolding register
register_and_claim-asks id j info conn clock p h =
    let (q, run, same) = register_and_claim-SameButTimes id info conn clock p in
    (
      q,
      run,
      ap (lookup id) same.conn_info ∙ lookup-insert_self id info p.conn_info,
      ap (lookup id) same.tcp_map ∙ lookup-insert_self id conn p.tcp_map,
      same.channel_map,
      ap (lookup j) same.conn_info ∙ lookup-insert_ne id j info p.conn_info h,
      ap (lookup j) same.tcp_map ∙ lookup-insert_ne id j conn p.tcp_map h,
    )

-- The race: an id is registered, asks channel `i`, and the acknowledgement on channel `i` comes in
-- before the loop is at its next channel `j`. The acknowledgement is taken: the connection gets channel
-- `i`, and its target and first frame come out of connInfo. But the binding deletes the id's claim
-- times, so that the loop's next write `p.claimTimes[connID][j] = …` is to a nil map, a panic that ends the client.
pub late_claim_panics :
    (id : Bytes) (info : Info) (conn i j now later : ℕ) (p : Pool)
    → lookup id p.claim_times ≡ none
    → lookup id p.channel_map ≡ none
    → (q : Pool) × (r : Pool) × (record_claim id i now (register id info conn p) ≡ some q)
      × (bind_channel i id q ≡ some (info, r))
      × (lookup id r.channel_map ≡ some i)
      × (record_claim id j later r ≡ none)
unfolding record_claim bind_channel register
late_claim_panics id info conn i j now later p t c =
    let asked = insert i now [] in
    let times = insert id [] p.claim_times in
    let gone : erase i asked ≡ [] = unfold erase insert in ground (arith, ==_iff i i) in
    let stamped : lookup i asked ≡ some now = lookup-insert_self i now [] in
    let fresh = lookup-insert_self id [] p.claim_times in
    let waits = lookup-insert_self id asked times in
    let known = lookup-insert_self id info p.conn_info in
    let p0 = register id info conn p in
    let q = record p0 { claim_times = insert id asked times } in
    let r = record q {
      claim_times = erase id (insert id asked times);
      channel_map = insert id i p.channel_map;
      bound_by_channel = insert i id p.bound_by_channel;
      conn_info = erase id (insert id info p.conn_info);
    } in
    (
      q,
      r,
      rw (t, fresh) refl,
      rw (c, known, waits, stamped, gone) refl,
      lookup-insert_self id i p.channel_map,
      rw (lookup-erase_self id (insert id asked times)) refl,
    )
