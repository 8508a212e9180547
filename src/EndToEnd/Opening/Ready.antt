-- ===== src/EndToEnd/Opening/Ready.antt =====
-- A connection behind the acknowledgement of its claim (pool.go).
use tunnel.Prelude.{
  ℕ, Bytes, Bool, true, false, [], ◌∷◌, ◌≡◌, ap, ◌∙◌, none, some, arith, get_elem?, Option-cases,
  inl, inr,
}
use tunnel.Prelude.Map.{lookup, bytes_key, lookup-insert_self}
use tunnel.Wire.{tcp_message}
use tunnel.Pool.State.{Pool, Info, write_ws, signal, wait_connected}
use tunnel.Pool.Claim.{register, register_and_claim, claim_acked, bind_channel}
use tunnel.Pool.Asking.{asks, register_and_claim-SameButTimes}
use tunnel.Pool.Binding.{claim_acked-waiting}

-- A connection that is ready: with its channel, its WebSocket and its local end.
abbrev pub IsReady : Bytes → ℕ → ℕ → ℕ → Pool → Type 0
IsReady id conn i ws p =
    (lookup id p.channel_map ≡ some i)
    × (get_elem? p.ws_conns i ≡ some (some ws))
    × (lookup id p.tcp_map ≡ some conn)

claim_acked-ws_conns :
    (i ws : ℕ) (id : Bytes) (p : Pool) → (claim_acked i ws id true p).0.ws_conns ≡ p.ws_conns
unfolding claim_acked bind_channel
claim_acked-ws_conns i ws id p = ground arith

-- `WaitConnected` behind the signal.
pub wait_connected-IsReady :
    (id : Bytes) (conn i ws : ℕ) (full : Bool) (p : Pool)
    → lookup id p.connected ≡ some full
    → IsReady id conn i ws p
    → ((wait_connected id false (signal id p)).1 ≡ true)
      × IsReady id conn i ws (wait_connected id false (signal id p)).0
unfolding wait_connected signal
wait_connected-IsReady id conn i ws full p e (a, b, c) =
    ground (arith, lookup-insert_self id true p.connected)

register-connected :
    (id : Bytes) (info : Info) (conn : ℕ) (p : Pool)
    → (full : Bool) × (lookup id (register id info conn p).connected ≡ some full)
unfolding register
register-connected id info conn p = elim (Option-cases (lookup id p.connected)) [
  | inl e ↦ (false, ground (arith, lookup-insert_self id false p.connected))
  | inr (full, e) ↦ (full, ground arith)
]

claim_acked-connected :
    (i ws : ℕ) (id : Bytes) (p : Pool) → (claim_acked i ws id true p).0.connected ≡ p.connected
unfolding claim_acked bind_channel
claim_acked-connected i ws id p = ground arith

-- Behind the acknowledgement on channel `i`, the connection is ready, and its signal can be given.
pub claim_acked-IsReady :
    (id : Bytes) (info : Info) (conn i ws : ℕ) (clock : ℕ → ℕ) (p : Pool)
    → lookup id p.channel_map ≡ none
    → get_elem? p.ws_conns i ≡ some (some ws)
    → (q : Pool) × (full : Bool) × (register_and_claim id info conn clock p
        ≡ some (q, asks id 0 p.ws_conns))
      × ((claim_acked i ws id true q).1
          ≡ write_ws ws (tcp_message id info.target_addr info.first_frame_data) ∷ [])
      × (lookup id (claim_acked i ws id true q).0.connected ≡ some full)
      × IsReady id conn i ws (claim_acked i ws id true q).0
unfolding register
claim_acked-IsReady id info conn i ws clock p n e =
    let (q, run, same) = register_and_claim-SameButTimes id info conn clock p in
    let (full, signalled) = register-connected id info conn p in
    let (request, bound, _, tcp) =
      claim_acked-waiting i ws id info q (ap (lookup id) same.channel_map ∙ n)
        (ap (lookup id) same.conn_info ∙ lookup-insert_self id info p.conn_info) in
    (
      q,
      full,
      run,
      request,
      ap (lookup id) (claim_acked-connected i ws id q ∙ same.connected) ∙ signalled,
      (
        bound,
        ap (λ conns. get_elem? conns i) (claim_acked-ws_conns i ws id q ∙ same.ws_conns) ∙ e,
        ap (lookup id) (tcp ∙ same.tcp_map) ∙ lookup-insert_self id conn p.tcp_map,
      ),
    )

pub wait_connected-signal :
    (id : Bytes) (full : Bool) (p : Pool)
    → lookup id p.connected ≡ some full
    → ((wait_connected id false (signal id p)).1 ≡ true)
      × ((signal id p).channel_map ≡ p.channel_map)
      × ((signal id p).tcp_map ≡ p.tcp_map)
unfolding wait_connected signal
wait_connected-signal id full p e = ground (arith, lookup-insert_self id true p.connected)
