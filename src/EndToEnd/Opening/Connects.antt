-- ===== src/EndToEnd/Opening/Connects.antt =====
-- That a connection comes to be: pool.go and websocket_server.go over the frames of its opening.
use tunnel.Prelude.{
  ℕ, zero, suc, Bytes, Bool, true, false, List, [], ◌∷◌, ◌++◌, ◌≡◌, refl, ap, ◌∙◌, Option, none,
  some, ◌==◌, arith, inl, inr, get_elem?, ◌+◌, Within,
}
use tunnel.Prelude.Map.{lookup, bytes_key, nat_eq, lookup-insert_self, lookup-erase_self}
use tunnel.Text.{Lacks}
use tunnel.Text.Decimal.{decimal}
use tunnel.Wire.{claim_message, tcp_message}
use tunnel.Server.Handler.{Server, Network}
use tunnel.Server.Tcp.{save_tcp}
use tunnel.Pool.State.{Pool, Info, Effect, write_ws, signal, wait_connected}
use tunnel.Pool.Claim.{register_and_claim, claim_acked}
use tunnel.Pool.Channel.{peer_closed, close_found}
use tunnel.Pool.Asking.{asks}
use tunnel.EndToEnd.Opening.Ready.{claim_acked-IsReady, wait_connected-signal}
use tunnel.EndToEnd.Opening.{
  frames_on, exchange, answers-claim, handle_frames-claim_ack, answers-tcp, answers-tcp-failed,
  handle_frames-connected, handle_frames-close,
}

-- Behind the first round the TCP request is on its way.
pub exchange-claim :
    {Addr : Type 0} (net : Network Addr) (dialled : Option ℕ) (n : ℕ) (id : Bytes) (info : Info)
    (i ws : ℕ) (p : Pool) (s : Server Addr)
    → Lacks b'|' id
    → (claim_acked i ws id true p).1
      ≡ write_ws ws (tcp_message id info.target_addr info.first_frame_data) ∷ []
    → exchange net dialled (suc n) i ws (claim_message id i ∷ []) p s
      ≡ exchange net dialled n i ws
          (tcp_message id info.target_addr info.first_frame_data ∷ [])
          (claim_acked i ws id true p).0
          s
unfolding exchange frames_on
exchange-claim net dialled n id info i ws p s h e =
    let same : (ws == ws) ≡ true = ground arith in
    rw
      (answers-claim net dialled id i s h, handle_frames-claim_ack id (decimal i) i ws p h, e, same)

pub exchange-tcp :
    {Addr : Type 0} (net : Network Addr) (d : ℕ) (id target first : Bytes) (i ws : ℕ) (p : Pool)
    (s : Server Addr)
    → Lacks b'|' id
    → Lacks b'|' target
    → exchange net (some d) 1 i ws (tcp_message id target first ∷ []) p s
      ≡ (signal id p, save_tcp id d s, [])
unfolding exchange frames_on
exchange-tcp net d id target first i ws p s h k =
    rw (answers-tcp net d id target first s h k, handle_frames-connected id i ws p h)

frames_on-close_found : (ws : ℕ) (o : Option ℕ) → frames_on ws (close_found o ++ []) ≡ []
unfolding frames_on
frames_on-close_found ws none = refl
frames_on-close_found ws (some c) = refl

exchange-tcp-failed :
    {Addr : Type 0} (net : Network Addr) (id target first : Bytes) (i ws : ℕ) (p : Pool)
    (s : Server Addr)
    → Lacks b'|' id
    → Lacks b'|' target
    → exchange net none 1 i ws (tcp_message id target first ∷ []) p s
      ≡ ((peer_closed i id p).0, s, [])
unfolding exchange peer_closed
exchange-tcp-failed net id target first i ws p s h k = rw (
  answers-tcp-failed net id target first s h k,
  handle_frames-close id i ws p h,
  frames_on-close_found ws (lookup id p.tcp_map),
)

-- The claim on channel `i` is among those of `RegisterAndClaim`.
asks-Within :
    (id : Bytes) (ws_conns : List (Option ℕ)) (first i number ws : ℕ)
    → get_elem? ws_conns i ≡ some (some ws)
    → number ≡ first + i
    → Within (write_ws ws (claim_message id number)) (asks id first ws_conns)
asks-Within id [] first i number ws e n = cc
asks-Within id (none ∷ rest) first zero number ws e n = absurd (ground (arith, e))
asks-Within id (some w ∷ rest) first zero number ws e n =
    let same : w ≡ ws = ground (arith, e) in
    let channel : first ≡ number = omega arith in inl (rw (same, channel))
asks-Within id (none ∷ rest) first (suc i) number ws e n =
    asks-Within id rest (first + 1) i number ws e (omega arith)
asks-Within id (some w ∷ rest) first (suc i) number ws e n =
    inr (asks-Within id rest (first + 1) i number ws e (omega arith))

-- The pool has no entry for a TCP connection on channel `i`, but perhaps the one in `connected`.
abbrev pub IsForgotten : Bytes → ℕ → Pool → Type 0
IsForgotten id i p =
    (lookup id p.tcp_map ≡ none)
    × (lookup id p.channel_map ≡ none)
    × (lookup id p.conn_info ≡ none)
    × (lookup id p.claim_times ≡ none)
    × (lookup i p.bound_by_channel ≡ none)

-- A new connection whose target holds no `|`, on a pool with a WebSocket in channel `i`, comes to be:
-- `RegisterAndClaim` asks channel `i`, and two rounds of frames later none is on its way. If the server's
-- dial succeeds, `WaitConnected` returns true, the connection has channel `i`, and the server holds its
-- target. If it fails, the client has no entry for the connection in tcpMap, channelMap, connInfo and
-- claimTimes and channel `i` is bound to none, but its entry in `connected` is still there; the server
-- is as before.
pub register_and_claim-exchange :
    {Addr : Type 0} (net : Network Addr) (d : ℕ) (id : Bytes) (info : Info) (conn i ws : ℕ)
    (clock : ℕ → ℕ) (p : Pool) (s : Server Addr)
    → Lacks b'|' id
    → Lacks b'|' info.target_addr
    → lookup id p.channel_map ≡ none
    → get_elem? p.ws_conns i ≡ some (some ws)
    → (q : Pool) × (claims : List Effect) × (register_and_claim id info conn clock p
        ≡ some (q, claims))
      × Within (write_ws ws (claim_message id i)) claims
      × (let (r, t, frames) = exchange net (some d) 2 i ws (claim_message id i ∷ []) q s in
          (frames ≡ [])
          × ((wait_connected id false r).1 ≡ true)
          × (lookup id r.channel_map ≡ some i)
          × (lookup id r.tcp_map ≡ some conn)
          × (lookup id t.conns ≡ some d))
      × (let (r, t, frames) = exchange net none 2 i ws (claim_message id i ∷ []) q s in
          (frames ≡ [])
          × IsForgotten id i r
          × ((full : Bool) × (lookup id r.connected ≡ some full))
          × (t ≡ s))
unfolding save_tcp peer_closed
register_and_claim-exchange net d id info conn i ws clock p s h k n e =
    let (q, full, run, request, signalled, (bound, _, local)) =
      claim_acked-IsReady id info conn i ws clock p n e in
    let r = (claim_acked i ws id true q).0 in
    let (woken, channel, tcp) = wait_connected-signal id full r signalled in
    let opened : exchange net (some d) 2 i ws (claim_message id i ∷ []) q s
        ≡ (signal id r, save_tcp id d s, []) =
      exchange-claim net (some d) 1 id info i ws q s h request
      ∙ exchange-tcp net d id info.target_addr info.first_frame_data i ws r s h k in
    let refused : exchange net none 2 i ws (claim_message id i ∷ []) q s
        ≡ ((peer_closed i id r).0, s, []) =
      exchange-claim net none 1 id info i ws q s h request
      ∙ exchange-tcp-failed net id info.target_addr info.first_frame_data i ws r s h k in
    (
      q,
      asks id 0 p.ws_conns,
      run,
      asks-Within id p.ws_conns 0 i i ws e (omega arith),
      rw opened (
        refl,
        woken,
        ap (lookup id) channel ∙ bound,
        ap (lookup id) tcp ∙ local,
        lookup-insert_self id d s.conns,
      ),
      rw refused (
        refl,
        (
          lookup-erase_self id r.tcp_map,
          lookup-erase_self id r.channel_map,
          lookup-erase_self id r.conn_info,
          lookup-erase_self id r.claim_times,
          lookup-erase_self i r.bound_by_channel,
        ),
        (full, signalled),
        refl,
      ),
    )
