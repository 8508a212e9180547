-- ===== src/Pool/State.antt =====
-- The state of `ECHPool` (pool.go), its constructor, and what its methods do to the outside.
use tunnel.Prelude.{
  ℕ, Bytes, Bool, true, false, List, [], Option, none, some, get_elem?, ◌≡◌, arith, replicate, set,
}
use tunnel.Prelude.Map.{Map, lookup, insert, bytes_key}
use tunnel.Wire.{Frame}

-- `struct{ targetAddr, firstFrameData string }`
pub record Info : Type 0 where
  pub target_addr : Bytes
  pub first_frame_data : Bytes

-- Connections, UDP associations and WebSockets are numbers, which stand for Go's pointers, times
-- too. A channel of `connected` has capacity one: it is true when a signal waits in it. The write
-- locks of the channels serialise the writes and are not kept.
pub record Pool : Type 0 where
  pub ws_server_addr : Bytes
  pub connection_num : ℕ
  pub ws_conns : List (Option ℕ)
  pub tcp_map : Map Bytes ℕ
  pub udp_map : Map Bytes ℕ
  pub channel_map : Map Bytes ℕ
  pub conn_info : Map Bytes Info
  pub claim_times : Map Bytes (Map ℕ ℕ)
  pub connected : Map Bytes Bool
  pub bound_by_channel : Map ℕ Bytes
  pub pending_by_channel : Map ℕ Bytes

-- The calls that leave the pool: a frame written to a WebSocket, bytes to a local connection, a
-- connection closed, a goroutine `SendClose` started, a packet handed to a UDP association.
pub data Effect : Type 0 where
  write_ws : ℕ → Frame → Effect
  write_tcp : ℕ → Bytes → Effect
  close_tcp : ℕ → Effect
  go_send_close : Bytes → Effect
  udp_response : ℕ → Bytes → Bytes → Effect

-- Why a send fails: no WebSocket is connected, the id has no channel, or the write failed.
pub data SendError : Type 0 where
  no_websocket unassigned write_failed : SendError

-- `NewECHPool`
unfoldable pub new_ech_pool : Bytes → ℕ → Pool
new_ech_pool addr n = record {
  ws_server_addr = addr;
  connection_num = n;
  ws_conns = replicate n none;
  tcp_map = [];
  udp_map = [];
  channel_map = [];
  conn_info = [];
  claim_times = [];
  connected = [];
  bound_by_channel = [];
  pending_by_channel = [];
}

-- The end of `dialOnce` and of `redialChannel`: the channel has a new WebSocket.
unfoldable pub set_channel : ℕ → ℕ → Pool → Pool
set_channel i ws p = record p { ws_conns = set p.ws_conns i (some ws) }

-- `if _, ok := p.connected[connID]; !ok { p.connected[connID] = make(chan bool, 1) }`
abbrev pub with_signal : Bytes → Option Bool → Map Bytes Bool → Map Bytes Bool
with_signal id none m = insert id false m
with_signal id (some full) m = m

-- The non-blocking send on the channel of `connected`.
abbrev signal_found : Bytes → Option Bool → Pool → Pool
signal_found id none p = p
signal_found id (some full) p = record p { connected = insert id true p.connected }

unfoldable pub signal : Bytes → Pool → Pool
unfolding lookup insert
signal id p = signal_found id (lookup id p.connected) p

-- `WaitConnected`, on the pool at the moment when its `select` is decided. The flag tells that the
-- timer is the case that the `select` takes.
abbrev wait_found : Bytes → Bool → Option Bool → Pool → Pool × Bool
wait_found id timer none p = (p, false)
wait_found id timer (some false) p = (p, false)
wait_found id true (some true) p = (p, false)
wait_found id false (some true) p = (record p { connected = insert id false p.connected }, true)

unfoldable pub wait_connected : Bytes → Bool → Pool → Pool × Bool
unfolding lookup insert
wait_connected id timer p = wait_found id timer (lookup id p.connected) p

-- `p.wsConns[chID]` behind the test `ok && chID < len(p.wsConns)`; `none` where `ws` stays nil
abbrev pub socket_at : List (Option ℕ) → ℕ → Option ℕ
socket_at ws_conns i = elim (get_elem? ws_conns i) [ none ↦ none | some ws ↦ ws ]

-- The channel and the WebSocket of an id, as the senders look them up.
abbrev socket_on : Option ℕ → List (Option ℕ) → Option (ℕ × ℕ)
socket_on none ws_conns = none
socket_on (some i) ws_conns = elim (socket_at ws_conns i) [ none ↦ none | some ws ↦ some (i, ws) ]

unfoldable pub socket_of : Bytes → Pool → Option (ℕ × ℕ)
unfolding lookup
socket_of id p = socket_on (lookup id p.channel_map) p.ws_conns

-- An id with a channel that has a WebSocket.
pub socket_of-bound :
    (id : Bytes) (i ws : ℕ) (p : Pool)
    → lookup id p.channel_map ≡ some i
    → get_elem? p.ws_conns i ≡ some (some ws)
    → socket_of id p ≡ some (i, ws)
unfolding socket_of
socket_of-bound id i ws p c e = ground arith
