-- ===== src/Pool/Claim.antt =====
-- The race for a connection (pool.go): `RegisterAndClaim` asks every channel, and the first
-- CLAIM_ACK binds the connection to its channel.
use tunnel.Prelude.{ℕ, Bytes, Bool, true, false, List, [], ◌∷◌, Option, none, some, ◌>>=◌, ◌+◌}
use tunnel.Prelude.Map.{Map, lookup, insert, erase, bytes_key, nat_eq}
use tunnel.Wire.{claim_message, tcp_message}
use tunnel.Pool.State.{Pool, Info, Effect, write_ws, close_tcp, with_signal}

-- `if p.claimTimes[connID] == nil { p.claimTimes[connID] = make(…) }`
abbrev with_times : Bytes → Option (Map ℕ ℕ) → Map Bytes (Map ℕ ℕ) → Map Bytes (Map ℕ ℕ)
with_times id none m = insert id [] m
with_times id (some times) m = m

-- The first locked region of `RegisterAndClaim`.
unfoldable pub register : Bytes → Info → ℕ → Pool → Pool
unfolding lookup insert
register id info conn p = record p {
  tcp_map = insert id conn p.tcp_map;
  conn_info = insert id info p.conn_info;
  claim_times = with_times id (lookup id p.claim_times) p.claim_times;
  connected = with_signal id (lookup id p.connected) p.connected;
}

abbrev record_time : Bytes → ℕ → ℕ → Option (Map ℕ ℕ) → Pool → Option Pool
record_time id i now none p = none
record_time id i now (some times) p =
    some (record p { claim_times = insert id (insert i now times) p.claim_times })

-- The locked region of the loop, `p.claimTimes[connID][i] = time.Now()`. It panics where the inner
-- map is nil.
unfoldable pub record_claim : Bytes → ℕ → ℕ → Pool → Option Pool
unfolding lookup insert
record_claim id i now p = record_time id i now (lookup id p.claim_times) p

-- The loop over the channels from number `i` on. The clock is a parameter.
unfoldable pub claim_loop :
    Bytes → (ℕ → ℕ) → ℕ → List (Option ℕ) → Pool → Option (Pool × List Effect)
unfolding record_claim
claim_loop id clock i [] p = some (p, [])
claim_loop id clock i (none ∷ rest) p = claim_loop id clock (i + 1) rest p
claim_loop id clock i (some ws ∷ rest) p = do
  q ← record_claim id i (clock i) p
  (r, effects) ← claim_loop id clock (i + 1) rest q
  some (r, write_ws ws (claim_message id i) ∷ effects)

-- `RegisterAndClaim`, with no other goroutine between its regions.
unfoldable pub register_and_claim : Bytes → Info → ℕ → (ℕ → ℕ) → Pool → Option (Pool × List Effect)
unfolding register claim_loop
register_and_claim id info conn clock p = claim_loop id clock 0 p.ws_conns (register id info conn p)

-- `delete(chTimes, channelID); if len(chTimes) == 0 { delete(p.claimTimes, connID) }`
abbrev pub keep_times : Bytes → Map ℕ ℕ → Map Bytes (Map ℕ ℕ) → Map Bytes (Map ℕ ℕ)
keep_times id [] m = erase id m
keep_times id (t ∷ times) m = insert id (t ∷ times) m

abbrev drop_claim : Bytes → ℕ → Map ℕ ℕ → Option ℕ → Map Bytes (Map ℕ ℕ) → Map Bytes (Map ℕ ℕ)
drop_claim id i times none m = m
drop_claim id i times (some t) m = keep_times id (erase i times) m

abbrev pub drop_time : Bytes → ℕ → Option (Map ℕ ℕ) → Map Bytes (Map ℕ ℕ) → Map Bytes (Map ℕ ℕ)
drop_time id i none m = m
drop_time id i (some times) m = drop_claim id i times (lookup i times) m

abbrev bind_found : ℕ → Bytes → Option ℕ → Option Info → Pool → Option (Info × Pool)
bind_found i id (some other) info p = none
bind_found i id none none p = none
bind_found i id none (some info) p = some (
  info,
  record p {
    claim_times = drop_time id i (lookup id p.claim_times) p.claim_times;
    channel_map = insert id i p.channel_map;
    bound_by_channel = insert i id p.bound_by_channel;
    conn_info = erase id p.conn_info;
  },
)

-- The first locked region of CLAIM_ACK on channel `i`: `none` where the acknowledgement is passed
-- over, since the connection has a channel already or is not waiting for one.
unfoldable pub bind_channel : ℕ → Bytes → Pool → Option (Info × Pool)
unfolding lookup insert erase
bind_channel i id p = bind_found i id (lookup id p.channel_map) (lookup id p.conn_info) p

abbrev pub close_found : Option ℕ → List Effect
close_found none = []
close_found (some c) = close_tcp c ∷ []

-- The second locked region of CLAIM_ACK, where the TCP frame could not be written.
unfoldable pub unbind_channel : ℕ → Bytes → Pool → Pool × List Effect
unfolding lookup erase
unbind_channel i id p = (
  record p {
    tcp_map = erase id p.tcp_map;
    channel_map = erase id p.channel_map;
    bound_by_channel = erase i p.bound_by_channel;
    conn_info = erase id p.conn_info;
    claim_times = erase id p.claim_times;
  },
  close_found (lookup id p.tcp_map),
)

abbrev pub request_channel : ℕ → ℕ → Bytes → Bool → Option (Info × Pool) → Pool → Pool × List Effect
request_channel i ws id written none p = (p, [])
request_channel i ws id true (some (info, q)) p =
    (q, write_ws ws (tcp_message id info.target_addr info.first_frame_data) ∷ [])
request_channel i ws id false (some (info, q)) p =
    let (r, effects) = unbind_channel i id q in
    (r, write_ws ws (tcp_message id info.target_addr info.first_frame_data) ∷ effects)

-- The case CLAIM_ACK of `handleChannel` on channel `i` with WebSocket `ws`; the flag tells whether
-- the write succeeds.
unfoldable pub claim_acked : ℕ → ℕ → Bytes → Bool → Pool → Pool × List Effect
unfolding bind_channel unbind_channel
claim_acked i ws id written p = request_channel i ws id written (bind_channel i id p) p
