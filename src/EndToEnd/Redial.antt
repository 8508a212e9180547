-- ===== src/EndToEnd/Redial.antt =====
-- A connection whose channel has lost its WebSocket (pool.go, websocket_server.go).
use tunnel.Prelude.{
  ℕ, suc, Bytes, true, List, [], ◌∷◌, map, ◌≡◌, refl, ap, none, some, ◌<◌, length, get_elem?, arith,
  subst,
}
use tunnel.Prelude.Map.{lookup, bytes_key}
use tunnel.Text.{Lacks}
use tunnel.Wire.{Frame, data_message}
use tunnel.Wire.RoundTrip.{read_request-data}
use tunnel.Server.Handler.{Network, initial, handle_frame, serve}
use tunnel.Pool.State.{Pool, set_channel, write_ws}
use tunnel.Pool.Send.{send_data}
use tunnel.Pool.Dial.{redial_channel}
use tunnel.Pool.Dial.Liveness.{Answers, dial_once-Connects, get_elem?-set}
use tunnel.TcpClient.Dial.{Round}
use tunnel.Local.Course.{send_data-taken}
use tunnel.EndToEnd.Upstream.{send_chunks, send_chunks-bound, serve_frames}

-- A new session of the server knows none of the connections that the client has.
serve_frames-initial :
    {Addr : Type 0} (net : Network Addr) (id : Bytes) (chunks : List Bytes)
    → Lacks b'|' id
    → serve_frames net (map (data_message id) chunks) initial ≡ (initial, [])
unfolding serve_frames handle_frame serve initial lookup
serve_frames-initial net id [] h = refl
serve_frames-initial net id (b ∷ chunks) h =
    rw (read_request-data id h b, serve_frames-initial net id chunks h)

-- When the WebSocket of a channel breaks and is dialled again, a connection with this channel stays as it
-- is: it keeps the channel and its entry in the pool. Whatever bytes it then gives are taken without an
-- error and go out on the new WebSocket, whose session at the server writes them nowhere, answers nothing
-- and stays as it began.
pub redial_channel-lost :
    {Addr : Type 0} (net : Network Addr) (m : ℕ) (world : ℕ → ℕ → Round) (i ws : ℕ) (p : Pool)
    (cache id : Bytes) (chunks : List Bytes)
    → Lacks b'|' id
    → lookup id p.channel_map ≡ some i
    → i < length p.ws_conns
    → Answers (world m) ws
    → (q : Pool) × (new_conn : ℕ) × (frames : List Frame) × ((redial_channel
          (suc m)
          world
          i
          p
          cache).2
        ≡ some q)
      × (lookup id q.channel_map ≡ some i)
      × (lookup id q.tcp_map ≡ lookup id p.tcp_map)
      × ((b : Bytes) → (send_data id b true q).1 ≡ none)
      × (send_chunks id q chunks ≡ map (write_ws new_conn) frames)
      × (serve_frames {Addr = Addr} net frames initial ≡ (initial, []))
unfolding redial_channel set_channel
redial_channel-lost net m world i ws p cache id chunks h c lt a =
    let (_, (new_conn, e)) =
      dial_once-Connects m 0 world i ws p cache
        (subst (λ n. Answers (world n) ws) (omega arith) a) in
    let q = set_channel i new_conn p in
    let socket : get_elem? q.ws_conns i ≡ some (some new_conn) =
      get_elem?-set p.ws_conns i (some new_conn) lt in
    (
      q,
      new_conn,
      map (data_message id) chunks,
      e,
      c,
      refl,
      λ b. ap (λ r. r.1) (send_data-taken id b i new_conn q c socket),
      send_chunks-bound id i new_conn q chunks c socket,
      serve_frames-initial net id chunks h,
    )
