-- ===== src/Wire/RoundTrip.antt =====
-- What the client sends (pool.go) is what the server's message loop (websocket_server.go) reads.
use tunnel.Prelude.{
  ℕ, Bytes, [], ◌∷◌, ◌++◌, ◌≡◌, refl, ◌↔◌, arith, ap, some, bytes_eq, length-append, subst,
}
use tunnel.Text.Decimal.{decimal}
use tunnel.Text.{
  Lacks, has_prefix, starts_with, trim_prefix, split_n, cut, split_n-two, split_n-three,
  cut-eq-some, cut-append, cut-Lacks,
}
use tunnel.Server.Request.{
  udp_datagram, stream, udp_connect, udp_close, claim, tcp, close, read_request, two_parts,
  tcp_parts,
}
use tunnel.Wire.{
  claim_message, tcp_message, data_message, close_message, udp_connect_message, udp_data_message,
  udp_close_message,
}

module _ (id : Bytes) (h : Lacks b'|' id) where
  pub read_request-data : (p : Bytes) → read_request (data_message id p) ≡ stream id p
  unfolding read_request data_message has_prefix
  read_request-data p = ap (two_parts stream) (split_n-two b'|' id p h)

  pub read_request-claim : (c : ℕ) → read_request (claim_message id c) ≡ claim id (decimal c)
  unfolding read_request claim_message has_prefix
  read_request-claim c = ap (two_parts claim) (split_n-two b'|' id (decimal c) h)

  pub read_request-udp_connect :
      (target : Bytes) → read_request (udp_connect_message id target) ≡ udp_connect id target
  unfolding read_request udp_connect_message has_prefix
  read_request-udp_connect target = ap (two_parts udp_connect) (split_n-two b'|' id target h)

  pub read_request-udp_data : (p : Bytes) → read_request (udp_data_message id p) ≡ udp_datagram id p
  unfolding read_request udp_data_message starts_with bytes_eq
  read_request-udp_data p = ground (arith, split_n-two b'|' id p h, length-append id (b'|' ∷ p))

  read_request-tcp :
      (target first : Bytes)
      → Lacks b'|' target
      → read_request (tcp_message id target first) ≡ tcp id target first
  unfolding read_request tcp_message has_prefix
  read_request-tcp target first k = ap tcp_parts (split_n-three b'|' id target first h k)

-- The server takes the part before the first `|` behind the id for the target.
read_request-tcp_cut :
    (id target first a b : Bytes)
    → Lacks b'|' id
    → cut b'|' (target ++ b'|' ∷ first) ≡ some (a, b)
    → read_request (tcp_message id target first) ≡ tcp id a b
unfolding read_request tcp_message has_prefix
read_request-tcp_cut id target first a b h e =
    let split : split_n 3 b'|' (id ++ b'|' ∷ (target ++ b'|' ∷ first)) ≡ id ∷ a ∷ b ∷ [] =
      rw (split_n, cut-append b'|' id (target ++ b'|' ∷ first) h, split_n, e) in
    ap tcp_parts split

read_request-tcp_only :
    (id target first : Bytes)
    → Lacks b'|' id
    → read_request (tcp_message id target first) ≡ tcp id target first
    → Lacks b'|' target
read_request-tcp_only id target first h e =
    let (a, b, split) = cut-eq-some b'|' target first in
    let found = read_request-tcp_cut id target first a b h split in
    let same : a ≡ target = cc in
    subst (Lacks b'|') same (cut-Lacks b'|' (target ++ b'|' ∷ first) a b split)

pub read_request-close : (id : Bytes) → read_request (close_message id) ≡ close id
unfolding read_request close_message has_prefix trim_prefix
read_request-close id = refl

read_request-udp_close : (id : Bytes) → read_request (udp_close_message id) ≡ udp_close id
unfolding read_request udp_close_message has_prefix trim_prefix
read_request-udp_close id = refl

-- For a connection id without `|`, the server reads each of the six kinds of frame that carry no
-- target of a TCP connection as the request that the client made, with its id and its other part
-- unchanged, whatever bytes that part holds.
pub read_request-message :
    (id rest : Bytes) (channel : ℕ)
    → Lacks b'|' id
    → (read_request (claim_message id channel) ≡ claim id (decimal channel))
      × (read_request (data_message id rest) ≡ stream id rest)
      × (read_request (close_message id) ≡ close id)
      × (read_request (udp_connect_message id rest) ≡ udp_connect id rest)
      × (read_request (udp_data_message id rest) ≡ udp_datagram id rest)
      × (read_request (udp_close_message id) ≡ udp_close id)
read_request-message id rest channel h = (
  read_request-claim id h channel,
  read_request-data id h rest,
  read_request-close id,
  read_request-udp_connect id h rest,
  read_request-udp_data id h rest,
  read_request-udp_close id,
)

-- The server reads a TCP request as it was sent, for every first frame, exactly when the target
-- holds no `|`.
pub read_request-tcp_message :
    (id target first : Bytes)
    → Lacks b'|' id
    → (read_request (tcp_message id target first) ≡ tcp id target first) ↔ Lacks b'|' target
read_request-tcp_message id target first h =
    (read_request-tcp_only id target first h, read_request-tcp id h target first)
