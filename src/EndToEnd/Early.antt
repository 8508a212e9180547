-- ===== src/EndToEnd/Early.antt =====
-- A target that speaks first (websocket_server.go, pool.go, socks5.go and http_proxy.go).
use tunnel.Prelude.{ℕ, Bytes, Bool, true, false, List, [], ◌∷◌, ◌++◌, ◌≡◌, refl, ap, ◌∙◌, some}
use tunnel.Prelude.Map.{lookup, bytes_key, lookup-insert_self}
use tunnel.Text.{Lacks}
use tunnel.Wire.{connected_message, tcp_data_message}
use tunnel.Wire.Replies.{read_reply-message}
use tunnel.EndToEnd.Multiplex.Handled.{signal-tcp_map}
use tunnel.Server.Handler.{Server}
use tunnel.Server.Tcp.{received, relay, run_tcp, handle_tcp_connection}
use tunnel.Pool.State.{Pool, Effect, write_tcp, signal, wait_connected}
use tunnel.Pool.Channel.{handle_frame, handle_reply}
use tunnel.Local.{Caller, success_reply, Read, with_reply, finish, read_loop, carry, run_session}
use tunnel.EndToEnd.Downstream.{sent, handle_frames, handle_frame-tcp_data}

frames_of-first :
    {Addr : Type 0} (id first b : Bytes) (d : ℕ) (s : Server Addr)
    → sent (handle_tcp_connection id first (some d) true (received b true ∷ []) s).1
      ≡ connected_message id ∷ tcp_data_message id b ∷ []
unfolding sent handle_tcp_connection run_tcp relay
frames_of-first id [] b d s = refl
frames_of-first id (c ∷ first) b d s = refl

handle_frame-connected :
    (i ws : ℕ) (taken : Bool) (id : Bytes) (p : Pool)
    → Lacks b'|' id
    → handle_frame i ws taken (connected_message id) p ≡ (signal id p, [])
unfolding handle_frame handle_reply
handle_frame-connected i ws taken id p h = rw (read_reply-message id [] [] [] h tt tt).1

signal-waits :
    (id : Bytes) (full : Bool) (p : Pool)
    → lookup id p.connected ≡ some full
    → (wait_connected id false (signal id p)).1 ≡ true
unfolding signal wait_connected
signal-waits id full p e = rw (e, lookup-insert_self id true p.connected)

handle_frames-first :
    (i ws : ℕ) (id b : Bytes) (c : ℕ) (p : Pool)
    → Lacks b'|' id
    → lookup id p.tcp_map ≡ some c
    → handle_frames i ws (connected_message id ∷ tcp_data_message id b ∷ []) p
      ≡ (signal id p, write_tcp c b ∷ [])
unfolding handle_frames
handle_frames-first i ws id b c p h e = rw (
  handle_frame-connected i ws true id p h,
  handle_frame-tcp_data i ws id b c (signal id p) h (ap (lookup id) (signal-tcp_map id p) ∙ e),
)

run_session-replies :
    (caller : Caller) (id reply : Bytes) (conn : ℕ) (closed : Bool) (rounds : List Read) (p : Pool)
    → success_reply caller ≡ some reply
    → (rest : List Effect) × ((run_session caller id conn true true closed rounds p).1
        ≡ write_tcp conn reply ∷ rest)
unfolding run_session carry
run_session-replies caller id reply conn closed rounds p e =
    let rest = finish caller id conn closed p (read_loop id p rounds) in
    (rest.1, ap (λ o. (with_reply o conn true p rest).1) e)

-- A target that speaks as soon as it is connected: its bytes come in right behind CONNECTED. When the
-- client's channel loop takes both frames before the caller goes on, the bytes are written to the local
-- connection, the caller's wait is over, and its answer to the client comes behind the bytes.
pub relay-first :
    {Addr : Type 0} (caller : Caller) (id first b reply : Bytes) (conn i ws d : ℕ)
    (full closed : Bool) (rounds : List Read) (p : Pool) (s : Server Addr)
    → Lacks b'|' id
    → lookup id p.tcp_map ≡ some conn
    → lookup id p.connected ≡ some full
    → success_reply caller ≡ some reply
    → (let (q, effects) =
          handle_frames i ws
            (sent (handle_tcp_connection id first (some d) true (received b true ∷ []) s).1)
            p in
        let (r, woken) = wait_connected id false q in
        (rest : List Effect) × (effects ++ (run_session caller id conn woken true closed rounds r).1
          ≡ write_tcp conn b ∷ write_tcp conn reply ∷ rest))
relay-first caller id first b reply conn i ws d full closed rounds p s h e waits answer =
    let (rest, replies) =
      run_session-replies caller id reply conn closed rounds
        (wait_connected id false (signal id p)).0 answer in
    rw
      (
        frames_of-first id first b d s,
        handle_frames-first i ws id b conn p h e,
        signal-waits id full p waits,
      )
      (rest, ap (◌∷◌ (write_tcp conn b)) replies)
