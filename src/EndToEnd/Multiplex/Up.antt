-- ===== src/EndToEnd/Multiplex/Up.antt =====
-- Bytes on their way up, from a local connection (socks5.go, http_proxy.go, tcp_client.go) through the
-- pool (pool.go) to the server's message loop (websocket_server.go), while others share the channel.
pub mod Kept
use tunnel.Prelude.{
  ℕ, Bytes, Bool, true, false, List, [], ◌∷◌, ◌++◌, ◌≡◌, ◌≢◌, refl, sym, ap, ◌∙◌, Option, none,
  some, ==_iff, subst, get_elem?, arith, inl, inr, append_assoc, bytes_eq, bytes_eq_refl,
  bytes_eq_iff, append-nil,
}
use tunnel.Prelude.Map.{lookup, bytes_key, lookup-insert, lookup-erase}
use tunnel.Text.{Lacks}
use tunnel.Wire.{Frame, data_message}
use tunnel.Wire.RoundTrip.{read_request-data}
use tunnel.Server.Request.{
  Request, udp_datagram, stream, udp_connect, udp_close, claim, tcp, close, ignored, read_request,
}
use tunnel.Server.Handler.{Server, Network, Effect, handle_frame}
use tunnel.Server.Isolation.{Concerns}
use tunnel.Server.Tcp.{save_tcp, forget_tcp}
use tunnel.Server.Steps.{forget_udp}
use tunnel.Pool.State.{Pool, write_ws}
use tunnel.Pool.Send.{send_data}
use tunnel.Pool.Steps
use tunnel.Pool.Binding.{Releases, Step-bound}
use tunnel.EndToEnd.Upstream.{send_data-bound}
use tunnel.EndToEnd.Opening.{frames_on}
use tunnel.EndToEnd.Multiplex.{written, chunk, carried, HasOnly}
use tunnel.EndToEnd.Multiplex.Served.{IsOwn, written-append, handle_frame-HasOnly}

-- A channel, with the frames on their way to the server, and two histories: the chunks that the local
-- connection `id` has given, and what the message loop has done.
pub record Channel (Addr : Type 0) : Type 0 where
  pub pool : Pool
  pub frames : List Frame
  pub server : Server Addr
  pub given : List Bytes
  pub effects : List (Effect Addr)

module _ {Addr : Type 0} (id : Bytes) (i ws d : ℕ) where
  -- `reads` is a round of the read loop of `id`, `sends` any frame that another connection has the client
  -- write to the channel, `turns` any step of the pool's goroutines that leaves `id` and the channel's
  -- WebSocket as they are, and `serves` a round of the server's message loop. The others are the regions
  -- of the server's goroutines, for other connections, whose sockets are other sockets.
  pub data Step (c : Channel Addr) : Channel Addr → Type 0 where
    reads :
        (b : Bytes)
        → Step c (record c {
          frames = c.frames ++ frames_on ws (send_data id b true c.pool).0;
          given = c.given ++ b ∷ [];
        })
    sends :
        (f : Frame)
        → ¬ Concerns (read_request f) id
        → Step c (record c { frames = c.frames ++ f ∷ [] })
    turns :
        {q : Pool} (st : Steps.Step c.pool q)
        → ¬ Releases id st
        → get_elem? q.ws_conns i ≡ some (some ws)
        → Step c (record c { pool = q })
    serves :
        (net : Network Addr) (f : Frame) (rest : List Frame)
        → c.frames ≡ f ∷ rest
        → Step c (record c {
          frames = rest;
          server = (handle_frame net f c.server).0;
          effects = c.effects ++ (handle_frame net f c.server).1;
        })
    saves :
        (k : Bytes) (e : ℕ) → k ≢ id → e ≢ d → Step c (record c { server = save_tcp k e c.server })
    forgets : (k : Bytes) → k ≢ id → Step c (record c { server = forget_tcp k c.server })
    forgets_udp : (k : Bytes) → Step c (record c { server = forget_udp k c.server })

  pub data Reach (c : Channel Addr) : Channel Addr → Type 0 where
    here : Reach c c
    next : {b e : Channel Addr} → Reach c b → Step b e → Reach c e

-- A channel when `id` has just been given it.
pub record Opened {Addr : Type 0} (id : Bytes) (i ws d : ℕ) (c : Channel Addr) : Type 0 where
  pub bound : lookup id c.pool.channel_map ≡ some i
  pub socket : get_elem? c.pool.ws_conns i ≡ some (some ws)
  pub only : HasOnly id d c.server
  pub frames : c.frames ≡ []
  pub given : c.given ≡ []
  pub effects : c.effects ≡ []
