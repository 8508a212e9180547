-- ===== src/EndToEnd/Opening.antt =====
-- The opening of a TCP connection (pool.go and websocket_server.go): CLAIM, CLAIM_ACK, TCP and
-- CONNECTED, between a channel of the client and the server.
pub mod Ready
pub mod Connects
use tunnel.Prelude.{
  ℕ, zero, suc, Bytes, Bool, true, false, List, [], ◌∷◌, ◌++◌, ◌≡◌, refl, sym, ap, ◌∙◌, Option,
  none, some, ◌==◌, if◌then◌else◌, arith, inl, inr, Option-cases, get_elem?, ◌+◌,
}
use tunnel.Prelude.Map.{lookup, bytes_key, lookup-insert_self, lookup-erase_self}
use tunnel.Text.{Lacks}
use tunnel.Text.Decimal.{decimal}
use tunnel.Wire.{
  Frame, claim_message, claim_ack_message, tcp_message, connected_message, close_message,
}
use tunnel.Wire.RoundTrip.{read_request-claim, read_request-tcp_message}
use tunnel.Wire.Replies.{read_reply-claim_ack, read_reply-message}
use tunnel.Server.Handler
use tunnel.Server.Handler.{Server, Network, serve}
use tunnel.Server.Tcp.{run_tcp, handle_tcp_connection, save_tcp}
use tunnel.Pool.State.{Pool, Info, Effect, write_ws, signal, wait_connected}
use tunnel.Pool.Claim.{register, register_and_claim, claim_acked, bind_channel}
use tunnel.Pool.Channel.{handle_frame, handle_reply, peer_closed, close_found}
use tunnel.Pool.Asking.{asks, SameButTimes, register_and_claim-SameButTimes}
use tunnel.Pool.Binding.{claim_acked-waiting}
use tunnel.EndToEnd.Downstream.{sent, handle_frames}

-- The frames that the client writes to a WebSocket.
unfoldable pub frames_on : ℕ → List Effect → List Frame
frames_on ws [] = []
frames_on ws (write_ws w f ∷ effects) =
    let rest = frames_on ws effects in if w == ws then f ∷ rest else rest
frames_on ws (_ ∷ effects) = frames_on ws effects

module _ {Addr : Type 0} (net : Network Addr) (dialled : Option ℕ) where
  -- The goroutine of a TCP request starts at once; `dialled` is what its dial gives, and the target
  -- takes the first frame.
  abbrev pub with_goroutine : Server Addr × List (Handler.Effect Addr) → Server Addr × List Frame
  with_goroutine (s, Handler.go_tcp id target first ∷ []) =
      let (t, effects, done) = handle_tcp_connection {Addr = Addr} id first dialled true [] s in
      (t, sent effects)
  with_goroutine (s, effects) = (s, sent effects)

  -- The server's answers to the frames that arrive.
  unfoldable pub answers : List Frame → Server Addr → Server Addr × List Frame
  answers [] s = (s, [])
  answers (f ∷ frames) s =
      let (t, first) = with_goroutine (Handler.handle_frame net f s) in
      let (u, rest) = answers frames t in (u, first ++ rest)

  -- Rounds of frames from the client on channel `i` and the server's answers to them.
  unfoldable pub exchange :
      ℕ → ℕ → ℕ → List Frame → Pool → Server Addr → Pool × Server Addr × List Frame
  exchange zero i ws frames p s = (p, s, frames)
  exchange (suc n) i ws frames p s =
      let (t, replies) = answers frames s in
      let (q, effects) = handle_frames i ws replies p in exchange n i ws (frames_on ws effects) q t

  pub answers-claim :
      (id : Bytes) (i : ℕ) (s : Server Addr)
      → Lacks b'|' id
      → answers (claim_message id i ∷ []) s ≡ (s, claim_ack_message id (decimal i) ∷ [])
  unfolding answers Handler.handle_frame serve sent
  answers-claim id i s h = rw (read_request-claim id h i)

pub handle_frames-claim_ack :
    (id c : Bytes) (i ws : ℕ) (p : Pool)
    → Lacks b'|' id
    → handle_frames i ws (claim_ack_message id c ∷ []) p
      ≡ ((claim_acked i ws id true p).0, (claim_acked i ws id true p).1 ++ [])
unfolding handle_frames handle_frame handle_reply
handle_frames-claim_ack id c i ws p h = rw (read_reply-claim_ack id h c)

pub answers-tcp :
    {Addr : Type 0} (net : Network Addr) (d : ℕ) (id target first : Bytes) (s : Server Addr)
    → Lacks b'|' id
    → Lacks b'|' target
    → answers net (some d) (tcp_message id target first ∷ []) s
      ≡ (save_tcp id d s, connected_message id ∷ [])
unfolding answers Handler.handle_frame serve sent handle_tcp_connection run_tcp
answers-tcp net d id target [] s h k = rw ((read_request-tcp_message id target [] h).1 k)
answers-tcp net d id target (b ∷ first) s h k =
    rw ((read_request-tcp_message id target (b ∷ first) h).1 k)

pub answers-tcp-failed :
    {Addr : Type 0} (net : Network Addr) (id target first : Bytes) (s : Server Addr)
    → Lacks b'|' id
    → Lacks b'|' target
    → answers net none (tcp_message id target first ∷ []) s ≡ (s, close_message id ∷ [])
unfolding answers Handler.handle_frame serve sent handle_tcp_connection
answers-tcp-failed net id target first s h k = rw ((read_request-tcp_message id target first h).1 k)

pub handle_frames-connected :
    (id : Bytes) (i ws : ℕ) (p : Pool)
    → Lacks b'|' id
    → handle_frames i ws (connected_message id ∷ []) p ≡ (signal id p, [])
unfolding handle_frames handle_frame handle_reply
handle_frames-connected id i ws p h = rw (read_reply-message id [] [] [] h tt tt).1

pub handle_frames-close :
    (id : Bytes) (i ws : ℕ) (p : Pool)
    → Lacks b'|' id
    → handle_frames i ws (close_message id ∷ []) p
      ≡ ((peer_closed i id p).0, (peer_closed i id p).1 ++ [])
unfolding handle_frames handle_frame handle_reply
handle_frames-close id i ws p h = rw (read_reply-message id [] [] [] h tt tt).3
