-- ===== src/Server/Handler.antt =====
-- What `handleWebSocket` (websocket_server.go) does with each request, and its deferred cleanup.
-- Sockets are numbers, which stand for Go's pointers. Calls into the network are parameters: the
-- resolver, the socket that `net.ListenUDP` gives, and the type of resolved addresses.
use tunnel.Prelude.{ℕ, Bytes, List, [], ◌∷◌, ◌++◌, Option, none, some}
use tunnel.Prelude.Map.{Map, lookup, insert, erase, bytes_key}
use tunnel.Wire.{Frame, claim_ack_message, udp_error_message, udp_connected_message}
use tunnel.Server.Request.{
  Request, udp_datagram, stream, udp_connect, udp_close, claim, tcp, close, ignored, read_request,
}

-- `conns`, `udpConns` and `udpTargets`
pub record Server (Addr : Type 0) : Type 0 where
  pub conns : Map Bytes ℕ
  pub udp_conns : Map Bytes ℕ
  pub udp_targets : Map Bytes Addr

-- What the outside world answers to a UDP_CONNECT.
pub record Network (Addr : Type 0) : Type 0 where
  pub resolve : Bytes → Option Addr
  pub listen : Option ℕ

-- The calls that leave the process, and the goroutines that a message starts.
pub data Effect (Addr : Type 0) : Type 0 where
  send : Frame → Effect Addr
  write_tcp : ℕ → Bytes → Effect Addr
  write_udp : ℕ → Bytes → Addr → Effect Addr
  close_tcp close_udp : ℕ → Effect Addr
  close_ws : Effect Addr
  go_tcp : Bytes → Bytes → Bytes → Effect Addr
  go_udp : Bytes → ℕ → Effect Addr

-- "解析地址失败" and "创建UDP失败", in UTF-8
abbrev pub resolve_failed : Bytes
resolve_failed =
    0xe8 ∷ 0xa7 ∷ 0xa3 ∷ 0xe6 ∷ 0x9e ∷ 0x90 ∷ 0xe5 ∷ 0x9c ∷ 0xb0 ∷ 0xe5 ∷ 0x9d ∷ 0x80 ∷ 0xe5 ∷ 0xa4
    ∷ 0xb1 ∷ 0xe8 ∷ 0xb4 ∷ 0xa5 ∷ []

abbrev pub listen_failed : Bytes
listen_failed =
    0xe5 ∷ 0x88 ∷ 0x9b ∷ 0xe5 ∷ 0xbb ∷ 0xba ∷ b'U' ∷ b'D' ∷ b'P' ∷ 0xe5 ∷ 0xa4 ∷ 0xb1 ∷ 0xe8 ∷ 0xb4
    ∷ 0xa5 ∷ []

module _ {Addr : Type 0} where
  unfoldable pub initial : Server Addr
  initial = record { conns = []; udp_conns = []; udp_targets = [] }

  -- `if ok1 { if ok2 { udpConn.WriteToUDP(data, targetAddr) } }`
  abbrev pub write_both : Option ℕ → Option Addr → Bytes → List (Effect Addr)
  write_both (some uc) (some addr) payload = write_udp uc payload addr ∷ []
  write_both (some uc) none payload = []
  write_both none _ payload = []

  abbrev pub write_found : Option ℕ → Bytes → List (Effect Addr)
  write_found none payload = []
  write_found (some c) payload = write_tcp c payload ∷ []

  unfoldable pub start_udp :
      Bytes → Bytes → Option Addr → Option ℕ → Server Addr → Server Addr × List (Effect Addr)
  unfolding insert
  start_udp id target none listener s = (s, send (udp_error_message id resolve_failed) ∷ [])
  start_udp id target (some addr) none s = (s, send (udp_error_message id listen_failed) ∷ [])
  start_udp id target (some addr) (some uc) s = (
    record s { udp_conns = insert id uc s.udp_conns; udp_targets = insert id addr s.udp_targets },
    go_udp id uc ∷ send (udp_connected_message id) ∷ [],
  )

  unfoldable pub stop_udp : Bytes → Option ℕ → Server Addr → Server Addr × List (Effect Addr)
  unfolding erase
  stop_udp id none s = (s, [])
  stop_udp id (some uc) s = (
    record s { udp_conns = erase id s.udp_conns; udp_targets = erase id s.udp_targets },
    close_udp uc ∷ [],
  )

  unfoldable pub stop_tcp : Bytes → Option ℕ → Server Addr → Server Addr × List (Effect Addr)
  unfolding erase
  stop_tcp id none s = (s, [])
  stop_tcp id (some c) s = (record s { conns = erase id s.conns }, close_tcp c ∷ [])

  unfoldable pub serve : Network Addr → Request → Server Addr → Server Addr × List (Effect Addr)
  unfolding lookup start_udp stop_udp stop_tcp
  serve net (udp_datagram id payload) s =
      (s, write_both (lookup id s.udp_conns) (lookup id s.udp_targets) payload)
  serve net (stream id payload) s = (s, write_found (lookup id s.conns) payload)
  serve net (udp_connect id target) s = start_udp id target (net.resolve target) net.listen s
  serve net (udp_close id) s = stop_udp id (lookup id s.udp_conns) s
  serve net (claim id channel) s = (s, send (claim_ack_message id channel) ∷ [])
  serve net (tcp id target first) s = (s, go_tcp id target first ∷ [])
  serve net (close id) s = stop_tcp id (lookup id s.conns) s
  serve net ignored s = (s, [])

  -- One round of the message loop.
  unfoldable pub handle_frame :
      Network Addr → Frame → Server Addr → Server Addr × List (Effect Addr)
  unfolding read_request serve
  handle_frame net f s = serve net (read_request f) s

  -- The part of the cleanup that closes the sockets of one map, in the order of its entries.
  abbrev pub close_all : (ℕ → Effect Addr) → Map Bytes ℕ → List (Effect Addr)
  close_all f [] = []
  close_all f ((id, c) ∷ m) = f c ∷ close_all f m

  -- The deferred function: every socket is closed and the maps start again empty.
  unfoldable pub cleanup : Server Addr → Server Addr × List (Effect Addr)
  unfolding initial
  cleanup s =
      (initial, close_all close_tcp s.conns ++ (close_all close_udp s.udp_conns ++ close_ws ∷ []))
