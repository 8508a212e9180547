-- ===== src/EndToEnd/Tunnel.antt =====
-- A TCP connection from its registration to its end, through both ends (socks5.go, http_proxy.go,
-- tcp_client.go, pool.go and websocket_server.go).
use tunnel.Prelude.{
  ℕ, Bytes, true, false, List, [], ◌∷◌, ◌++◌, ◌≡◌, refl, ap, ◌∙◌, none, some, map, get_elem?,
}
use tunnel.Prelude.Map.{lookup, bytes_key, lookup-insert_self}
use tunnel.Text.{Lacks}
use tunnel.Wire.{Frame, claim_message}
use tunnel.Server.Handler
use tunnel.Server.Handler.{Server, Network}
use tunnel.Server.Tcp.{Round, relay, save_tcp}
use tunnel.Pool.State.{Pool, Info, Effect, write_ws, close_tcp, signal, wait_connected}
use tunnel.Pool.Claim.{register_and_claim, claim_acked}
use tunnel.Pool.Asking.{asks}
use tunnel.Local.{Caller, success_reply, carry, forget}
use tunnel.Local.Course.{rounds_of, reply_effects, carry-serve_frames}
use tunnel.EndToEnd.Upstream.{serve_frames}
use tunnel.EndToEnd.Downstream.{sent, handle_frames, seen, relay-handle_frames}
use tunnel.EndToEnd.Opening.{exchange}
use tunnel.EndToEnd.Opening.Ready.{IsReady, wait_connected-IsReady, claim_acked-IsReady}
use tunnel.EndToEnd.Opening.Connects.{exchange-claim, exchange-tcp}

-- What a tunnel is to carry: the local connection's chunks to the target `d`, and what the target's
-- reads give to the local connection `conn`.
abbrev pub Carries :
    {Addr : Type 0}
    → Network Addr
    → Caller
    → Bytes
    → ℕ
    → ℕ
    → ℕ
    → ℕ
    → List Bytes
    → List Round
    → Pool
    → Server Addr
    → Type 0
Carries {Addr = Addr} net caller id conn i ws d chunks rounds p s =
    ((up : List Frame) × (carry caller id conn true true (rounds_of chunks) p ≡ (
      forget caller id p,
      reply_effects (success_reply caller) conn ++ (map (write_ws ws) up ++ close_tcp conn ∷ []),
    ))
      × ((serve_frames net up s).1 ≡ map (Handler.write_tcp d) chunks ++ Handler.close_tcp d ∷ []))
    × ((handle_frames i ws (sent (relay {Addr = Addr} id d rounds).0) p).1 ≡ seen conn rounds)

pub ready-Carries :
    {Addr : Type 0} (net : Network Addr) (caller : Caller) (id : Bytes) (conn i ws d : ℕ)
    (chunks : List Bytes) (rounds : List Round) (p : Pool) (s : Server Addr)
    → Lacks b'|' id
    → IsReady id conn i ws p
    → lookup id s.conns ≡ some d
    → Carries net caller id conn i ws d chunks rounds p s
ready-Carries {Addr = Addr} net caller id conn i ws d chunks rounds p s h (a, b, c) e =
    let (up, course, served) = carry-serve_frames net caller id conn i ws d p s chunks h a b e in
    ((up, course, ap (λ x. x.1) served), relay-handle_frames Addr id i ws d conn rounds p h c)

-- Two rounds of frames behind `RegisterAndClaim`, the connection is ready and the server holds its
-- target.
pub register_and_claim-IsReady :
    {Addr : Type 0} (net : Network Addr) (d : ℕ) (id : Bytes) (info : Info) (conn i ws : ℕ)
    (clock : ℕ → ℕ) (p : Pool) (s : Server Addr)
    → Lacks b'|' id
    → Lacks b'|' info.target_addr
    → lookup id p.channel_map ≡ none
    → get_elem? p.ws_conns i ≡ some (some ws)
    → (q : Pool) × (claims : List Effect) × (register_and_claim id info conn clock p
        ≡ some (q, claims))
      × (let (r, t, frames) = exchange net (some d) 2 i ws (claim_message id i ∷ []) q s in
          let (w, connected) = wait_connected id false r in
          (frames ≡ [])
          × (connected ≡ true)
          × (IsReady id conn i ws w × (lookup id t.conns ≡ some d)))
unfolding save_tcp
register_and_claim-IsReady net d id info conn i ws clock p s h k n e =
    let (q, full, run, request, signalled, ready) =
      claim_acked-IsReady id info conn i ws clock p n e in
    let r = (claim_acked i ws id true q).0 in
    let (woken, still) = wait_connected-IsReady id conn i ws full r signalled ready in
    let opened : exchange net (some d) 2 i ws (claim_message id i ∷ []) q s
        ≡ (signal id r, save_tcp id d s, []) =
      exchange-claim net (some d) 1 id info i ws q s h request
      ∙ exchange-tcp net d id info.target_addr info.first_frame_data i ws r s h k in
    (
      q,
      asks id 0 p.ws_conns,
      run,
      rw opened (refl, woken, (still, lookup-insert_self id d s.conns)),
    )

-- A new connection on a pool with a WebSocket in channel `i`, for a target without a `|` that the server
-- can dial: two rounds of frames after `RegisterAndClaim`, no frame is on its way and `WaitConnected`
-- returns true. From then on the server writes exactly the chunks of the local connection to the
-- target, in order, and closes it behind them; and what the target sends is written to the local
-- connection, unchanged and in order, until a read fails.
pub register_and_claim-Carries :
    {Addr : Type 0} (net : Network Addr) (caller : Caller) (d : ℕ) (id : Bytes) (info : Info)
    (conn i ws : ℕ) (clock : ℕ → ℕ) (p : Pool) (s : Server Addr) (chunks : List Bytes)
    (rounds : List Round)
    → Lacks b'|' id
    → Lacks b'|' info.target_addr
    → lookup id p.channel_map ≡ none
    → get_elem? p.ws_conns i ≡ some (some ws)
    → (q : Pool) × (claims : List Effect) × (register_and_claim id info conn clock p
        ≡ some (q, claims))
      × (let (r, t, frames) = exchange net (some d) 2 i ws (claim_message id i ∷ []) q s in
          let (w, connected) = wait_connected id false r in
          (frames ≡ []) × (connected ≡ true) × Carries net caller id conn i ws d chunks rounds w t)
register_and_claim-Carries net caller d id info conn i ws clock p s chunks rounds h k n e =
    let (q, claims, run, (frames, connected, (ready, held))) =
      register_and_claim-IsReady net d id info conn i ws clock p s h k n e in
    (
      q,
      claims,
      run,
      (frames, connected, ready-Carries net caller id conn i ws d chunks rounds _ _ h ready held),
    )
