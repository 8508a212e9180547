-- ===== src/Wire/Replies.antt =====
-- What the server sends (websocket_server.go) is what the client's channel loop (pool.go) reads.
use tunnel.Prelude.{Bytes, ◌∷◌, ◌++◌, ◌≡◌, refl, arith, ap, bytes_eq, length-append, append_assoc}
use tunnel.Text.{
  Lacks, has_prefix, starts_with, trim_prefix, split_n-two, split_n-three, Lacks-append,
}
use tunnel.Pool.Reply.{
  udp_packet, stream, udp_connected, claim_ack, connected, closed, ignored, read_reply, ack_parts,
}
use tunnel.Wire.{
  claim_ack_message, connected_message, tcp_data_message, udp_connected_message, udp_error_message,
  udp_response_message, close_message,
}

module _ (id : Bytes) (h : Lacks b'|' id) where
  pub read_reply-tcp_data : (p : Bytes) → read_reply (tcp_data_message id p) ≡ stream id p
  unfolding read_reply tcp_data_message starts_with bytes_eq
  read_reply-tcp_data p = ground (arith, split_n-two b'|' id p h, length-append id (b'|' ∷ p))

  pub read_reply-claim_ack : (c : Bytes) → read_reply (claim_ack_message id c) ≡ claim_ack id
  unfolding read_reply claim_ack_message has_prefix
  read_reply-claim_ack c = ap ack_parts (split_n-two b'|' id c h)

  pub read_reply-udp_response :
      (host port payload : Bytes)
      → Lacks b'|' host
      → Lacks b'|' port
      → read_reply (udp_response_message id host port payload)
        ≡ udp_packet id (host ++ b':' ∷ port) payload
  unfolding read_reply udp_response_message starts_with bytes_eq
  read_reply-udp_response host port payload k l =
      rw (← append_assoc host (b':' ∷ port) (b'|' ∷ payload)) (
        ground (
          arith,
          split_n-three b'|' id (host ++ b':' ∷ port) payload h
              (Lacks-append b'|' host (b':' ∷ port) k ((λ e. omega arith), l)),
          length-append id (b'|' ∷ ((host ++ b':' ∷ port) ++ b'|' ∷ payload)),
        ))

-- For a connection id without `|`, the client reads each frame of the server as what the server
-- told, with its id and its payload unchanged, whatever bytes the payload holds. A UDP response's
-- address holds no `|` either.
pub read_reply-message :
    (id host port rest : Bytes)
    → Lacks b'|' id
    → Lacks b'|' host
    → Lacks b'|' port
    → (read_reply (claim_ack_message id rest) ≡ claim_ack id)
      × (read_reply (connected_message id) ≡ connected id)
      × (read_reply (tcp_data_message id rest) ≡ stream id rest)
      × (read_reply (close_message id) ≡ closed id)
      × (read_reply (udp_connected_message id) ≡ udp_connected id)
      × (read_reply (udp_error_message id rest) ≡ ignored)
      × (read_reply (udp_response_message id host port rest)
          ≡ udp_packet id (host ++ b':' ∷ port) rest)
unfolding read_reply connected_message close_message udp_connected_message udp_error_message
    has_prefix trim_prefix
read_reply-message id host port rest h k l = (
  read_reply-claim_ack id h rest,
  refl,
  read_reply-tcp_data id h rest,
  refl,
  refl,
  refl,
  read_reply-udp_response id h host port rest k l,
)
