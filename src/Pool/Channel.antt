-- ===== src/Pool/Channel.antt =====
-- `handleChannel` (pool.go): what one frame does that arrives on a channel.
use tunnel.Prelude.{ℕ, Bytes, Bool, true, false, List, [], ◌∷◌, Option, none, some}
use tunnel.Prelude.Map.{lookup, erase, bytes_key, nat_eq}
use tunnel.Wire.{Frame}
use tunnel.Pool.State.{Pool, Effect, write_tcp, close_tcp, go_send_close, udp_response, signal}
use tunnel.Pool.Reply.{
  Reply, udp_packet, stream, raw, udp_connected, claim_ack, connected, closed, ignored, read_reply,
}
use tunnel.Pool.Claim.{claim_acked}

-- The region that forgets a local connection.
unfoldable pub forget_tcp : Bytes → Pool → Pool
unfolding erase
forget_tcp id p = record p { tcp_map = erase id p.tcp_map }

-- Bytes for a local connection; where it does not take them, it is closed and the server told.
abbrev write_local : Bytes → Bytes → Bool → ℕ → Pool → Pool × List Effect
write_local id payload true c p = (p, write_tcp c payload ∷ [])
write_local id payload false c p =
    (forget_tcp id p, write_tcp c payload ∷ go_send_close id ∷ close_tcp c ∷ [])

-- The case `DATA:<id>|<payload>`.
abbrev pub deliver : Bytes → Bytes → Bool → Option ℕ → Pool → Pool × List Effect
deliver id payload taken none p = (p, go_send_close id ∷ [])
deliver id payload taken (some c) p = write_local id payload taken c p

-- Any other binary frame goes to the connection that is bound to the channel.
abbrev deliver_raw : Bytes → Bool → Option Bytes → Pool → Pool × List Effect
deliver_raw msg taken none p = (p, [])
deliver_raw msg taken (some []) p = (p, [])
deliver_raw msg taken (some (b ∷ id)) p = elim (lookup (b ∷ id) p.tcp_map) [
  | none ↦ (p, [])
  | some c ↦ write_local (b ∷ id) msg taken c p
]

abbrev pub respond : Option ℕ → Bytes → Bytes → List Effect
respond none addr payload = []
respond (some assoc) addr payload = udp_response assoc addr payload ∷ []

abbrev pub close_found : Option ℕ → List Effect
close_found none = []
close_found (some c) = close_tcp c ∷ []

-- The case `CLOSE:<id>` on channel `i`.
unfoldable pub peer_closed : ℕ → Bytes → Pool → Pool × List Effect
unfolding lookup erase
peer_closed i id p = (
  record p {
    tcp_map = erase id p.tcp_map;
    channel_map = erase id p.channel_map;
    conn_info = erase id p.conn_info;
    claim_times = erase id p.claim_times;
    bound_by_channel = erase i p.bound_by_channel;
  },
  close_found (lookup id p.tcp_map),
)

-- The flag tells whether the write that the frame leads to succeeds: that of a TCP frame to `ws`, or
-- that to a local connection.
unfoldable pub handle_reply : ℕ → ℕ → Bool → Reply → Pool → Pool × List Effect
unfolding lookup signal forget_tcp claim_acked peer_closed
handle_reply i ws taken (udp_packet id addr payload) p =
    (p, respond (lookup id p.udp_map) addr payload)
handle_reply i ws taken (stream id payload) p = deliver id payload taken (lookup id p.tcp_map) p
handle_reply i ws taken (raw msg) p = deliver_raw msg taken (lookup i p.bound_by_channel) p
handle_reply i ws taken (udp_connected id) p = (signal id p, [])
handle_reply i ws taken (claim_ack id) p = claim_acked i ws id taken p
handle_reply i ws taken (connected id) p = (signal id p, [])
handle_reply i ws taken (closed id) p = peer_closed i id p
handle_reply i ws taken ignored p = (p, [])

-- One round of the read loop.
unfoldable pub handle_frame : ℕ → ℕ → Bool → Frame → Pool → Pool × List Effect
unfolding read_reply handle_reply
handle_frame i ws taken f p = handle_reply i ws taken (read_reply f) p
