-- ===== src/EndToEnd/Downstream.antt =====
-- Bytes on their way from the target (websocket_server.go, the read goroutine) to a local
-- connection of the client (pool.go).
use tunnel.Prelude.{ℕ, Bytes, true, false, List, [], ◌∷◌, ◌++◌, ◌≡◌, refl, some, arith, ap}
use tunnel.Prelude.Map.{lookup, bytes_key}
use tunnel.Text.{Lacks}
use tunnel.Wire.{Frame, tcp_data_message, close_message}
use tunnel.Wire.Replies.{read_reply-tcp_data}
use tunnel.Server.Handler
use tunnel.Server.Tcp.{Round, cancelled, timed_out, failed, received, relay}
use tunnel.Pool.State.{Pool, Effect, write_tcp, close_tcp}
use tunnel.Pool.Channel.{handle_frame, handle_reply}

-- The frames among the server's effects.
unfoldable pub sent : {Addr : Type 0} → List (Handler.Effect Addr) → List Frame
sent [] = []
sent (Handler.send f ∷ effects) = f ∷ sent effects
sent (_ ∷ effects) = sent effects

-- The client's loop over the frames that arrive on channel `i`, where the local connections take
-- what is written to them.
unfoldable pub handle_frames : ℕ → ℕ → List Frame → Pool → Pool × List Effect
unfolding handle_frame
handle_frames i ws [] p = (p, [])
handle_frames i ws (f ∷ fs) p =
    let (q, effects) = handle_frame i ws true f p in
    let (r, more) = handle_frames i ws fs q in (r, effects ++ more)

-- What the local connection `c` should see of the rounds: the bytes of each, in order, and the end
-- of the connection if a read fails.
abbrev pub seen : ℕ → List Round → List Effect
seen c [] = []
seen c (cancelled ∷ rounds) = []
seen c (timed_out ∷ rounds) = seen c rounds
seen c (failed ∷ rounds) = close_tcp c ∷ []
seen c (received bytes true ∷ rounds) = write_tcp c bytes ∷ seen c rounds
seen c (received bytes false ∷ rounds) = write_tcp c bytes ∷ []

pub handle_frame-tcp_data :
    (i ws : ℕ) (id b : Bytes) (c : ℕ) (p : Pool)
    → Lacks b'|' id
    → lookup id p.tcp_map ≡ some c
    → handle_frame i ws true (tcp_data_message id b) p ≡ (p, write_tcp c b ∷ [])
unfolding handle_frame
handle_frame-tcp_data i ws id b c p h e = rw (read_reply-tcp_data id h b, handle_reply, e)

handle_frame-close :
    (i ws : ℕ) (id : Bytes) (c : ℕ) (p : Pool)
    → lookup id p.tcp_map ≡ some c
    → (handle_frame i ws true (close_message id) p).1 ≡ close_tcp c ∷ []
unfolding handle_frame close_message
handle_frame-close i ws id c p e = ground arith

-- Whatever rounds the read goroutine of a target goes through, the frames that it sends make the
-- client write the target's bytes to the local connection of the same id, unchanged and in order,
-- and close it when a read fails; it closes it for no other reason. The frames are those that the
-- goroutine hands to the WebSocket, the last one included where the WebSocket reports an error for
-- it.
pub relay-handle_frames :
    (Addr : Type 0) (id : Bytes) (i ws d c : ℕ) (rounds : List Round) (p : Pool)
    → Lacks b'|' id
    → lookup id p.tcp_map ≡ some c
    → (handle_frames i ws (sent (relay {Addr = Addr} id d rounds).0) p).1 ≡ seen c rounds
unfolding handle_frames sent relay
relay-handle_frames Addr id i ws d c [] p h e = refl
relay-handle_frames Addr id i ws d c (cancelled ∷ rounds) p h e = refl
relay-handle_frames Addr id i ws d c (timed_out ∷ rounds) p h e =
    relay-handle_frames Addr id i ws d c rounds p h e
relay-handle_frames Addr id i ws d c (failed ∷ rounds) p h e = rw (handle_frame-close i ws id c p e)
relay-handle_frames Addr id i ws d c (received bytes true ∷ rounds) p h e =
    rw (handle_frame-tcp_data i ws id bytes c p h e)
      (ap (◌∷◌ (write_tcp c bytes)) (relay-handle_frames Addr id i ws d c rounds p h e))
relay-handle_frames Addr id i ws d c (received bytes false ∷ rounds) p h e =
    rw (handle_frame-tcp_data i ws id bytes c p h e)
