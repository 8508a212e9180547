-- ===== src/Wire.antt =====
-- The messages of the tunnel as pool.go and websocket_server.go build them: `<TAG>:<id>|<rest>` in a
-- text or a binary WebSocket frame.
pub mod RoundTrip
pub mod Replies
use tunnel.Prelude.{ℕ, List, [], ◌∷◌, ◌++◌, Bytes, codes}
use tunnel.Text.Decimal.{decimal}

-- `websocket.TextMessage` and `websocket.BinaryMessage`
pub data Kind : Type 0 where
  text binary : Kind

pub record Frame : Type 0 where
  pub kind : Kind
  pub payload : Bytes

abbrev pub text_frame : Bytes → Frame
text_frame s = record { kind = text; payload = s }

abbrev pub binary_frame : Bytes → Frame
binary_frame s = record { kind = binary; payload = s }

-- `tag + id + "|" + rest`
abbrev tagged : Bytes → Bytes → Bytes → Bytes
tagged tag id rest = tag ++ (id ++ b'|' ∷ rest)

-- From the client to the server.
unfoldable pub claim_message : Bytes → ℕ → Frame
claim_message id channel = text_frame (tagged (codes "CLAIM:") id (decimal channel))

unfoldable pub tcp_message : Bytes → Bytes → Bytes → Frame
tcp_message id target first = text_frame (tagged (codes "TCP:") id (target ++ b'|' ∷ first))

unfoldable pub data_message : Bytes → Bytes → Frame
data_message id payload = text_frame (tagged (codes "DATA:") id payload)

unfoldable pub close_message : Bytes → Frame
close_message id = text_frame (codes "CLOSE:" ++ id)

unfoldable pub udp_connect_message : Bytes → Bytes → Frame
udp_connect_message id target = text_frame (tagged (codes "UDP_CONNECT:") id target)

unfoldable pub udp_data_message : Bytes → Bytes → Frame
udp_data_message id payload = binary_frame (tagged (codes "UDP_DATA:") id payload)

unfoldable pub udp_close_message : Bytes → Frame
udp_close_message id = text_frame (codes "UDP_CLOSE:" ++ id)

-- From the server to the client; `close_message` serves both ways.
unfoldable pub claim_ack_message : Bytes → Bytes → Frame
claim_ack_message id channel = text_frame (tagged (codes "CLAIM_ACK:") id channel)

unfoldable pub connected_message : Bytes → Frame
connected_message id = text_frame (codes "CONNECTED:" ++ id)

unfoldable pub tcp_data_message : Bytes → Bytes → Frame
tcp_data_message id payload = binary_frame (tagged (codes "DATA:") id payload)

unfoldable pub udp_connected_message : Bytes → Frame
udp_connected_message id = text_frame (codes "UDP_CONNECTED:" ++ id)

unfoldable pub udp_error_message : Bytes → Bytes → Frame
udp_error_message id reason = text_frame (tagged (codes "UDP_ERROR:") id reason)

-- `UDP_DATA:<id>|<host>:<port>|<data>`
unfoldable pub udp_response_message : Bytes → Bytes → Bytes → Bytes → Frame
udp_response_message id host port payload =
    binary_frame (tagged (codes "UDP_DATA:") id (host ++ b':' ∷ (port ++ b'|' ∷ payload)))
