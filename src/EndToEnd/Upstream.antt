-- ===== src/EndToEnd/Upstream.antt =====
-- Bytes on their way from a local connection of the client (pool.go, and the read loops of its
-- callers) to the target (websocket_server.go).
use tunnel.Prelude.{ℕ, Bytes, true, List, [], ◌∷◌, ◌++◌, map, ◌≡◌, refl, some, arith, get_elem?}
use tunnel.Prelude.Map.{lookup, bytes_key}
use tunnel.Text.{Lacks}
use tunnel.Wire.{Frame, data_message}
use tunnel.Wire.RoundTrip.{read_request-data}
use tunnel.Server.Handler
use tunnel.Server.Handler.{Server, Network, handle_frame, serve}
use tunnel.Pool.State.{Pool, Effect, write_ws}
use tunnel.Pool.Send.{send_data}

-- The loop `for { conn.Read; SendData }` over the chunks that the connection gives, while the
-- WebSocket takes the frames.
unfoldable pub send_chunks : Bytes → Pool → List Bytes → List Effect
unfolding send_data
send_chunks id p [] = []
send_chunks id p (b ∷ chunks) = (send_data id b true p).0 ++ send_chunks id p chunks

-- The server's loop over the frames that arrive.
unfoldable pub serve_frames :
    {Addr : Type 0}
    → Network Addr
    → List Frame
    → Server Addr
    → Server Addr × List (Handler.Effect Addr)
unfolding handle_frame
serve_frames net [] s = (s, [])
serve_frames net (f ∷ fs) s =
    let (t, effects) = handle_frame net f s in
    let (u, more) = serve_frames net fs t in (u, effects ++ more)

pub send_data-bound :
    (id b : Bytes) (i ws : ℕ) (p : Pool)
    → lookup id p.channel_map ≡ some i
    → get_elem? p.ws_conns i ≡ some (some ws)
    → (send_data id b true p).0 ≡ write_ws ws (data_message id b) ∷ []
unfolding send_data
send_data-bound id b i ws p c e = ground arith

pub send_chunks-bound :
    (id : Bytes) (i ws : ℕ) (p : Pool) (chunks : List Bytes)
    → lookup id p.channel_map ≡ some i
    → get_elem? p.ws_conns i ≡ some (some ws)
    → send_chunks id p chunks ≡ map (write_ws ws) (map (data_message id) chunks)
unfolding send_chunks
send_chunks-bound id i ws p [] c e = refl
send_chunks-bound id i ws p (b ∷ chunks) c e =
    rw (send_data-bound id b i ws p c e, send_chunks-bound id i ws p chunks c e)

pub handle_frame-data :
    {Addr : Type 0} (net : Network Addr) (id b : Bytes) (c : ℕ) (s : Server Addr)
    → Lacks b'|' id
    → lookup id s.conns ≡ some c
    → handle_frame net (data_message id b) s ≡ (s, Handler.write_tcp c b ∷ [])
unfolding handle_frame
handle_frame-data net id b c s h e = rw (read_request-data id h b, serve, e)

serve_frames-data :
    {Addr : Type 0} (net : Network Addr) (id : Bytes) (c : ℕ) (s : Server Addr)
    (chunks : List Bytes)
    → Lacks b'|' id
    → lookup id s.conns ≡ some c
    → serve_frames net (map (data_message id) chunks) s ≡ (s, map (Handler.write_tcp c) chunks)
unfolding serve_frames
serve_frames-data net id c s [] h e = refl
serve_frames-data net id c s (b ∷ chunks) h e =
    rw (handle_frame-data net id b c s h e, serve_frames-data net id c s chunks h e)

-- The chunks that a local connection with a channel gives go out on the WebSocket of that channel
-- as one frame each, and the server that holds the connection's target writes just these chunks to
-- it, in order, whatever bytes they hold.
send_chunks-serve_frames :
    {Addr : Type 0} (net : Network Addr) (id : Bytes) (i ws c : ℕ) (p : Pool) (s : Server Addr)
    (chunks : List Bytes)
    → Lacks b'|' id
    → lookup id p.channel_map ≡ some i
    → get_elem? p.ws_conns i ≡ some (some ws)
    → lookup id s.conns ≡ some c
    → (frames : List Frame) × (send_chunks id p chunks ≡ map (write_ws ws) frames)
      × (serve_frames net frames s ≡ (s, map (Handler.write_tcp c) chunks))
send_chunks-serve_frames net id i ws c p s chunks h b e k = (
  map (data_message id) chunks,
  send_chunks-bound id i ws p chunks b e,
  serve_frames-data net id c s chunks h k,
)
