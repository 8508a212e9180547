-- ===== src/Server/Udp.antt =====
-- The goroutine that `handleWebSocket` (websocket_server.go) starts for a UDP connection: what its
-- socket receives goes to the client. What the network gives enters as arguments, one event for each
-- round of the loop.
use tunnel.Prelude.{ℕ, Bytes, Bool, true, false, List, [], ◌∷◌}
use tunnel.Wire.{udp_response_message}
use tunnel.Server.Handler.{Server, Effect, send, close_udp}
use tunnel.Server.Steps.{forget_udp}

-- A round: the context is cancelled, the read times out, it fails otherwise, or it gives a datagram,
-- with the host and the port of its source, which are two texts.
pub data Round : Type 0 where
  cancelled timed_out failed : Round
  received : Bytes → Bytes → Bytes → Round

module _ {Addr : Type 0} where
  abbrev and_then : Effect Addr → List (Effect Addr) × Bool → List (Effect Addr) × Bool
  and_then e (effects, done) = (e ∷ effects, done)

  -- The loop over the rounds that happen, and the `Close` behind it; the flag tells that it has
  -- returned. An error of the WebSocket is passed over.
  unfoldable pub relay_udp : Bytes → ℕ → List Round → List (Effect Addr) × Bool
  relay_udp id uc [] = ([], false)
  relay_udp id uc (cancelled ∷ rounds) = (close_udp uc ∷ [], true)
  relay_udp id uc (timed_out ∷ rounds) = relay_udp id uc rounds
  relay_udp id uc (failed ∷ rounds) = (close_udp uc ∷ [], true)
  relay_udp id uc (received host port payload ∷ rounds) =
      and_then (send (udp_response_message id host port payload)) (relay_udp id uc rounds)

  abbrev after_udp :
      Bytes → Server Addr → List (Effect Addr) × Bool → Server Addr × List (Effect Addr)
  after_udp id s (effects, false) = (s, effects)
  after_udp id s (effects, true) = (forget_udp id s, effects)

  -- The goroutine, with its deferred function.
  unfoldable pub run_udp : Bytes → ℕ → List Round → Server Addr → Server Addr × List (Effect Addr)
  run_udp id uc rounds s = after_udp id s (relay_udp id uc rounds)
