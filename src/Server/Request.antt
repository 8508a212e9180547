-- ===== src/Server/Request.antt =====
-- The ladder of tests by which `handleWebSocket` (websocket_server.go) reads a frame.
use tunnel.Prelude.{List, [], ◌∷◌, Bytes, codes, drop, if◌then◌else◌}
use tunnel.Text.{has_prefix, trim_prefix, starts_with, split_n}
use tunnel.Wire.{Frame, text, binary}

-- What a frame asks for; `ignored` is a frame that the loop passes over.
pub data Request : Type 0 where
  udp_datagram stream : Bytes → Bytes → Request
  udp_connect : Bytes → Bytes → Request
  udp_close : Bytes → Request
  claim : Bytes → Bytes → Request
  tcp : Bytes → Bytes → Bytes → Request
  close : Bytes → Request
  ignored : Request

-- `if len(parts) == 2 { … }`
abbrev pub two_parts : (Bytes → Bytes → Request) → List Bytes → Request
two_parts f (a ∷ b ∷ []) = f a b
two_parts f _ = ignored

-- `if len(parts) >= 2 { … }`, where the third part is the first frame
abbrev pub tcp_parts : List Bytes → Request
tcp_parts (id ∷ target ∷ []) = tcp id target []
tcp_parts (id ∷ target ∷ first ∷ []) = tcp id target first
tcp_parts _ = ignored

unfoldable pub read_binary : Bytes → Request
unfolding starts_with split_n
read_binary msg =
    if starts_with msg (codes "UDP_DATA:")
    then two_parts udp_datagram (split_n 2 b'|' (drop 9 msg))
    else if starts_with msg (codes "DATA:")
    then two_parts stream (split_n 2 b'|' (drop 5 msg))
    else ignored

unfoldable pub read_text : Bytes → Request
unfolding has_prefix trim_prefix split_n
read_text s =
    if has_prefix s (codes "UDP_CONNECT:")
    then two_parts udp_connect (split_n 2 b'|' (drop 12 s))
    else if has_prefix s (codes "UDP_CLOSE:")
    then udp_close (trim_prefix s (codes "UDP_CLOSE:"))
    else if has_prefix s (codes "CLAIM:")
    then two_parts claim (split_n 2 b'|' (drop 6 s))
    else if has_prefix s (codes "TCP:")
    then tcp_parts (split_n 3 b'|' (drop 4 s))
    else if has_prefix s (codes "DATA:")
    then two_parts stream (split_n 2 b'|' (drop 5 s))
    else if has_prefix s (codes "CLOSE:")
    then close (trim_prefix s (codes "CLOSE:"))
    else ignored

unfoldable pub read_request : Frame → Request
unfolding read_binary read_text
read_request f = elim f.kind [ binary ↦ read_binary f.payload | text ↦ read_text f.payload ]
