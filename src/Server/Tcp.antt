-- ===== src/Server/Tcp.antt =====
-- `handleTCPConnection` (websocket_server.go): the goroutine that dials a target and relays what it
-- sends. What the network answers enters as arguments, one event for each round of the read loop.
use tunnel.Prelude.{
  ℕ, Bytes, Bool, true, false, List, [], ◌∷◌, ◌++◌, Option, none, some, if◌then◌else◌,
}
use tunnel.Prelude.Map.{insert, erase, bytes_key}
use tunnel.Wire.{close_message, connected_message, tcp_data_message}
use tunnel.Server.Handler.{Server, Effect, send, write_tcp, close_tcp}

-- A round of the read loop: the context is cancelled, the read times out, it fails otherwise, or it
-- gives bytes, which the WebSocket then takes or refuses.
pub data Round : Type 0 where
  cancelled timed_out failed : Round
  received : Bytes → Bool → Round

module _ {Addr : Type 0} where
  -- The read goroutine over the rounds that happen; the flag tells that it has returned.
  unfoldable pub relay : Bytes → ℕ → List Round → List (Effect Addr) × Bool
  relay id c [] = ([], false)
  relay id c (cancelled ∷ rounds) = (close_tcp c ∷ [], true)
  relay id c (timed_out ∷ rounds) = relay id c rounds
  relay id c (failed ∷ rounds) = (send (close_message id) ∷ [], true)
  relay id c (received bytes true ∷ rounds) =
      let (effects, done) = relay id c rounds in (send (tcp_data_message id bytes) ∷ effects, done)
  relay id c (received bytes false ∷ rounds) = (send (tcp_data_message id bytes) ∷ [], true)

  -- The first locked region: the connection is saved.
  unfoldable pub save_tcp : Bytes → ℕ → Server Addr → Server Addr
  unfolding insert
  save_tcp id c s = record s { conns = insert id c s.conns }

  -- The deferred function's locked region.
  unfoldable pub forget_tcp : Bytes → Server Addr → Server Addr
  unfolding erase
  forget_tcp id s = record s { conns = erase id s.conns }

  -- Behind the read goroutine: if it has returned, the deferred function runs.
  abbrev finish : Bytes → ℕ → List (Effect Addr) × Bool → List (Effect Addr) × Bool
  finish id c (effects, false) = (effects, false)
  finish id c (effects, true) = (effects ++ close_tcp c ∷ [], true)

  -- The bytes of the first frame are written if there are any; then the client hears of the
  -- connection, and the relay runs. The flag tells that the function has returned.
  unfoldable pub run_tcp : Bytes → ℕ → Bytes → Bool → List Round → List (Effect Addr) × Bool
  unfolding relay
  run_tcp id c [] written rounds =
      let (effects, done) = finish id c (relay id c rounds) in
      (send (connected_message id) ∷ effects, done)
  run_tcp id c (b ∷ first) false rounds =
      (write_tcp c (b ∷ first) ∷ send (close_message id) ∷ close_tcp c ∷ [], true)
  run_tcp id c (b ∷ first) true rounds =
      let (effects, done) = finish id c (relay id c rounds) in
      (write_tcp c (b ∷ first) ∷ send (connected_message id) ∷ effects, done)

  -- The whole function, with no other goroutine between its steps.
  unfoldable pub handle_tcp_connection :
      Bytes
      → Bytes
      → Option ℕ
      → Bool
      → List Round
      → Server Addr
      → Server Addr × List (Effect Addr) × Bool
  unfolding run_tcp save_tcp forget_tcp
  handle_tcp_connection id first none written rounds s = (s, send (close_message id) ∷ [], true)
  handle_tcp_connection id first (some c) written rounds s =
      let (effects, done) = run_tcp id c first written rounds in
      (if done then forget_tcp id (save_tcp id c s) else save_tcp id c s, effects, done)
