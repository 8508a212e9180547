-- ===== src/Local.antt =====
-- What the front ends do with a local connection once its target is known: `handleSOCKS5Connect`
-- (socks5.go), `handleHTTPConnect` and `handleHTTPForward` (http_proxy.go) and the goroutine of
-- `startMultiChannelTCPForwarder` (tcp_client.go), behind `RegisterAndClaim` and `WaitConnected`.
pub mod Course
pub mod Session
pub mod Abandoned
use tunnel.Prelude.{ℕ, Bytes, Bool, true, false, List, [], ◌∷◌, ◌++◌, Option, none, some, codes}
use tunnel.Pool.State.{Pool, Effect, write_tcp, close_tcp, SendError}
use tunnel.Pool.Send.{send_data, send_close}
use tunnel.Pool.Channel.{forget_tcp}
use tunnel.Socks.Handshake.{error_response}

pub data Caller : Type 0 where
  socks_connect http_connect http_forward tcp_forward : Caller

-- What the caller writes when the target is connected: `sendSOCKS5SuccessResponse`, the answer to
-- CONNECT, or nothing.
abbrev pub success_reply : Caller → Option Bytes
success_reply socks_connect = some (5 ∷ 0 ∷ 0 ∷ 1 ∷ 0 ∷ 0 ∷ 0 ∷ 0 ∷ 0 ∷ 0 ∷ [])
success_reply http_connect = some (codes "HTTP/1.1 200 Connection Established\r\n\r\n")
success_reply http_forward = none
success_reply tcp_forward = none

-- What it does when `WaitConnected` gives up. The proxy closes its connection behind
-- `handleSOCKS5Protocol` and `handleHTTPProtocol`, by a `defer`.
abbrev pub give_up : Caller → ℕ → List Effect
give_up socks_connect conn = write_tcp conn (error_response 1) ∷ close_tcp conn ∷ []
give_up http_connect conn =
    write_tcp conn (codes "HTTP/1.1 504 Gateway Timeout\r\n\r\n") ∷ close_tcp conn ∷ []
give_up http_forward conn =
    write_tcp conn (codes "HTTP/1.1 504 Gateway Timeout\r\n\r\n") ∷ close_tcp conn ∷ []
give_up tcp_forward conn = close_tcp conn ∷ []

-- A round of the read loop: `conn.Read` fails, or gives bytes, which the WebSocket takes or not.
pub data Read : Type 0 where
  failed : Read
  received : Bytes → Bool → Read

-- `SendData` with an error ends the loop.
abbrev pub after_send : List Effect × Option SendError → List Effect × Bool → List Effect × Bool
after_send (effects, some e) rest = (effects, true)
after_send (effects, none) (more, ended) = (effects ++ more, ended)

-- The rounds that happen; the flag tells that the loop has ended.
unfoldable pub read_loop : Bytes → Pool → List Read → List Effect × Bool
read_loop id p [] = ([], false)
read_loop id p (failed ∷ rounds) = ([], true)
read_loop id p (received bytes written ∷ rounds) =
    after_send (send_data id bytes written p) (read_loop id p rounds)

-- The deferred function: `SendClose`, `conn.Close`, and the entry in `tcpMap`, which the forwarder
-- leaves.
abbrev pub forget : Caller → Bytes → Pool → Pool
forget tcp_forward id p = p
forget _ id p = forget_tcp id p

abbrev pub finish : Caller → Bytes → ℕ → Bool → Pool → List Effect × Bool → Pool × List Effect
finish caller id conn written p (effects, false) = (p, effects)
finish caller id conn written p (effects, true) =
    (forget caller id p, effects ++ ((send_close id written p).0 ++ close_tcp conn ∷ []))

-- The reply, then the loop. Where the reply cannot be written, the caller returns before it defers
-- anything; the proxy closes the connection.
abbrev pub with_reply : Option Bytes → ℕ → Bool → Pool → Pool × List Effect → Pool × List Effect
with_reply none conn replied p rest = rest
with_reply (some reply) conn false p rest = (p, write_tcp conn reply ∷ close_tcp conn ∷ [])
with_reply (some reply) conn true p (q, effects) = (q, write_tcp conn reply ∷ effects)

-- A connected session, while no other goroutine changes the pool. The flags tell whether the reply and
-- the CLOSE frame can be written.
unfoldable pub carry : Caller → Bytes → ℕ → Bool → Bool → List Read → Pool → Pool × List Effect
carry caller id conn replied closed rounds p =
    with_reply (success_reply caller) conn replied p
      (finish caller id conn closed p (read_loop id p rounds))

-- The session on the result of `WaitConnected`.
unfoldable pub run_session :
    Caller → Bytes → ℕ → Bool → Bool → Bool → List Read → Pool → Pool × List Effect
run_session caller id conn false replied closed rounds p = (p, give_up caller conn)
run_session caller id conn true replied closed rounds p =
    carry caller id conn replied closed rounds p
