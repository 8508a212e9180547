-- ===== src/Pool/Binding.antt =====
-- What the winning of a channel gives a connection (pool.go): the TCP request, and a channel that
-- stays.
use tunnel.Prelude.{
  ℕ, Bytes, Bool, true, [], ◌∷◌, ◌≡◌, none, some, arith, bytes_eq_iff, bytes_eq_refl,
}
use tunnel.Prelude.Map.{lookup, erase, bytes_key, nat_eq, lookup-insert, lookup-erase}
use tunnel.Wire.{tcp_message}
use tunnel.Pool.State.{Pool, Info, write_ws, set_channel, signal, wait_connected}
use tunnel.Pool.Claim.{register, record_claim, bind_channel, unbind_channel, claim_acked}
use tunnel.Pool.Send.{register_udp, assign_udp, release_udp}
use tunnel.Pool.Channel.{forget_tcp, peer_closed}
use tunnel.Pool.Steps.{Step, claims, binds, unbinds, closes, assigns_udp, releases_udp}

-- The steps that take the channel of a TCP connection away: the peer closes it or its TCP request
-- could not be written. The two steps of UDP associations are for ids of their own.
abbrev pub Releases : {p q : Pool} → Bytes → Step p q → Type 0
Releases id (unbinds k i) = k ≡ id
Releases id (closes k i) = k ≡ id
Releases id (assigns_udp k i r e) = k ≡ id
Releases id (releases_udp k i) = k ≡ id
Releases id _ = ⊥

record_claim-bound :
    (k : Bytes) (c now : ℕ) (id : Bytes) (i : ℕ) (p : Pool) {q : Pool}
    → record_claim k c now p ≡ some q
    → lookup id p.channel_map ≡ some i
    → lookup id q.channel_map ≡ some i
unfolding record_claim
record_claim-bound k c now id i p e b = ground arith

-- A connection that has a channel keeps it under every step that does not release it, whichever
-- other acknowledgements come in and whichever channels are dialled again.
pub Step-bound :
    {p q : Pool} (id : Bytes) (i : ℕ) (st : Step p q)
    → lookup id p.channel_map ≡ some i
    → ¬ Releases id st
    → lookup id q.channel_map ≡ some i
unfolding set_channel register record_claim bind_channel unbind_channel signal wait_connected
    forget_tcp peer_closed register_udp assign_udp release_udp
Step-bound {p} id i (binds k c info r e) b h =
    ground (arith, lookup-insert k id c p.channel_map, bytes_eq_iff k id)
Step-bound {p} id i (unbinds k c) b h =
    ground (arith, lookup-erase k id p.channel_map, bytes_eq_iff k id)
Step-bound {p} id i (closes k c) b h =
    ground (arith, lookup-erase k id p.channel_map, bytes_eq_iff k id)
Step-bound {p} id i (assigns_udp k c r e) b h =
    ground (arith, lookup-insert k id c p.channel_map, bytes_eq_iff k id)
Step-bound {p} id i (releases_udp k c) b h =
    ground (arith, lookup-erase k id p.channel_map, bytes_eq_iff k id)
Step-bound {p} id i (claims k c now e) b h = record_claim-bound k c now id i p e b
Step-bound id i _ b h = ground arith

-- The first acknowledgement for a waiting connection, on any channel, sends the server the target
-- and the first frame that the connection was registered with, and binds the connection to that
-- channel.
pub claim_acked-waiting :
    (i ws : ℕ) (id : Bytes) (info : Info) (p : Pool)
    → lookup id p.channel_map ≡ none
    → lookup id p.conn_info ≡ some info
    → let (q, effects) = claim_acked i ws id true p in
      (effects ≡ write_ws ws (tcp_message id info.target_addr info.first_frame_data) ∷ [])
      × (lookup id q.channel_map ≡ some i)
      × (lookup id q.conn_info ≡ none)
      × (q.tcp_map ≡ p.tcp_map)
unfolding claim_acked bind_channel
claim_acked-waiting i ws id info p c e =
    ground
      (arith, lookup-insert id id i p.channel_map, lookup-erase id id p.conn_info, bytes_eq_refl id)

-- Behind an acknowledgement the connection does not wait for a channel.
claim_acked-bind_channel :
    (i j ws : ℕ) (id : Bytes) (written : Bool) (p : Pool)
    → bind_channel j id (claim_acked i ws id written p).0 ≡ none
unfolding claim_acked bind_channel unbind_channel
claim_acked-bind_channel i j ws id written p = ground (
  arith,
  lookup-insert id id i p.channel_map,
  lookup-erase id id p.conn_info,
  lookup-erase id id (erase id p.conn_info),
  bytes_eq_refl id,
)

-- Whatever the first acknowledgement led to, written or not, a later one for the same connection, on
-- any channel, changes nothing and sends nothing.
claim_acked_again :
    (i j ws xs : ℕ) (id : Bytes) (written taken : Bool) (p : Pool)
    → let q = (claim_acked i ws id written p).0 in claim_acked j xs id taken q ≡ (q, [])
unfolding claim_acked
claim_acked_again i j ws xs id written taken p =
    rw (claim_acked, claim_acked-bind_channel i j ws id written p)
