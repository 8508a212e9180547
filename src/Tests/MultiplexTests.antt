-- ===== src/Tests/MultiplexTests.antt =====
-- A channel that two connections share, and one that is dialled again (pool.go, websocket_server.go).
use tunnel.Prelude.{
  ℕ, true, false, List, map, some, none, Bytes, [], ◌∷◌, ◌++◌, ◌≡◌, refl, arith, codes, bytes_eq,
  bytes_eq_iff,
}
use tunnel.Prelude.Map.{lookup, bytes_key}
use tunnel.Wire.{data_message, tcp_data_message}
use tunnel.Server.Handler.{write_tcp, handle_frame, initial}
use tunnel.Server.Request.{read_request}
use tunnel.EndToEnd.Opening.{frames_on}
use tunnel.Pool.Send.{send_data}
use tunnel.EndToEnd.Multiplex.{written, carried, shown, coming}
use tunnel.EndToEnd.Multiplex.Down
use tunnel.EndToEnd.Multiplex.Down.Kept.{Reach-shown}
use tunnel.EndToEnd.Downstream.{sent, handle_frames}
use tunnel.Server.Tcp.{received, relay, handle_tcp_connection}
use tunnel.Local.{http_connect, run_session}
use tunnel.EndToEnd.Early.{relay-first}
use tunnel.Pool.Reply.{read_reply}
use tunnel.Pool.Channel
use tunnel.Pool.State
use tunnel.EndToEnd.Multiplex.Up.{Channel, Reach, here, next, reads, sends, serves, Opened}
use tunnel.EndToEnd.Multiplex.Up.Kept.{Reach-written}
use tunnel.Wire.{Frame}
use tunnel.Pool.State.{Pool, write_ws, wait_connected}
use tunnel.Pool.Dial.{redial_channel}
use tunnel.TcpClient.Dial
use tunnel.EndToEnd.Upstream.{send_chunks, serve_frames}
use tunnel.EndToEnd.Redial.{redial_channel-lost}
use tunnel.Tests.ServerTests.{id_a, network, serving, pool}

abbrev start : Channel Bytes
start = record { pool = pool; frames = []; server = serving; given = []; effects = [] }

serving-Opened : Opened id_a 1 71 5 start
unfolding lookup bytes_eq
serving-Opened = record {
  bound = refl;
  socket = refl;
  only = (refl, λ k e. ground (arith, bytes_eq_iff id_a k));
  frames = refl;
  given = refl;
  effects = refl;
}

-- The connection reads, another sends a frame, the server takes the first.
abbrev later : Channel Bytes
later = record start {
  frames = data_message (codes "b") (codes "x") ∷ [];
  given = codes "one" ∷ [];
  effects = write_tcp 5 (codes "one") ∷ [];
}

run : Reach id_a 1 71 5 start later
unfolding lookup bytes_eq handle_frame data_message read_request frames_on send_data
run =
    next
      (next (next here (reads (codes "one"))) (
        sends (data_message (codes "b") (codes "x"))
          (λ e. ground (arith, (bytes_eq_iff (codes "b") id_a).1 e))))
      (serves network (data_message id_a (codes "one")) (data_message (codes "b") (codes "x") ∷ [])
        refl)

Reach-written_example : written 5 later.effects ++ carried id_a later.frames ≡ codes "one" ∷ []
Reach-written_example = Reach-written id_a 1 71 5 (omega arith) run serving-Opened

-- Channel 1 is dialled again, and takes WebSocket 9 in the first round.
abbrev taking : ℕ → ℕ → Dial.Round
taking round attempt = record { roots = true; dial = Dial.connected 9; refreshed = codes "l" }

redial_channel-lost_example :
    (q : Pool) × (new_conn : ℕ) × (frames : List Frame) × ((redial_channel 1 taking 1 pool
        (codes "l")).2
      ≡ some q)
    × (lookup id_a q.channel_map ≡ some 1)
    × (lookup id_a q.tcp_map ≡ lookup id_a pool.tcp_map)
    × ((b : Bytes) → (send_data id_a b true q).1 ≡ none)
    × (send_chunks id_a q (codes "x" ∷ codes "y" ∷ []) ≡ map (write_ws new_conn) frames)
    × (serve_frames network frames initial ≡ (initial, []))
unfolding lookup bytes_eq
redial_channel-lost_example =
    redial_channel-lost network 0 taking 1 9 pool (codes "l") id_a (codes "x" ∷ codes "y" ∷ [])
      (omega arith) refl (omega arith) (refl, refl, refl, refl, λ e. cc)

-- The other direction: the target of `a` gives bytes, behind a frame of another connection.
abbrev quiet : Down.Channel
quiet = record { pool = pool; frames = []; given = []; effects = [] }

pool-Opened : Down.Opened id_a 3 quiet
unfolding lookup bytes_eq
pool-Opened = record {
  local = (refl, λ k e. ground (arith, bytes_eq_iff id_a k));
  frames = refl;
  given = refl;
  effects = refl;
}

abbrev answered : Down.Channel
answered = record quiet {
  frames = tcp_data_message id_a (codes "hello") ∷ [];
  given = codes "hello" ∷ [];
  effects = State.go_send_close (codes "b") ∷ [];
}

down : Down.Reach Bytes id_a 1 71 3 5 quiet answered
unfolding lookup bytes_eq Channel.handle_frame tcp_data_message read_reply sent relay
down =
    Down.next
      (Down.next
        (Down.next Down.here (
          Down.sends (tcp_data_message (codes "b") (codes "x"))
            (λ e. ground (arith, (bytes_eq_iff (codes "b") id_a).1 e))))
        (Down.relays (codes "hello")))
      (Down.handles true (tcp_data_message (codes "b") (codes "x"))
        (tcp_data_message id_a (codes "hello") ∷ []) refl (λ b e. refl))

Reach-shown_example : shown 3 answered.effects ++ coming id_a answered.frames ≡ codes "hello" ∷ []
Reach-shown_example = Reach-shown Bytes id_a 1 71 3 5 (omega arith) down pool-Opened

relay-first_example :
    (let (q, effects) =
        handle_frames 1 71
          (sent
            (handle_tcp_connection id_a []
              (some 5)
              true
              (received (codes "220") true ∷ [])
              serving).1)
          pool in
      let (r, woken) = wait_connected id_a false q in
      (rest : List State.Effect) × (effects
          ++ (run_session http_connect id_a 3 woken true true [] r).1
        ≡ State.write_tcp 3 (codes "220")
          ∷ State.write_tcp 3 (codes "HTTP/1.1 200 Connection Established\r\n\r\n")
          ∷ rest))
unfolding lookup bytes_eq
relay-first_example =
    relay-first http_connect id_a [] (codes "220")
      (codes "HTTP/1.1 200 Connection Established\r\n\r\n") 3 1 71 5 false true [] pool serving
      (omega arith) refl refl refl
