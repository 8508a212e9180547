-- ===== src/Pool/Reply.antt =====
-- The ladder of tests by which `handleChannel` (pool.go) reads a frame.
use tunnel.Prelude.{List, [], ◌∷◌, Bytes, codes, drop, if◌then◌else◌}
use tunnel.Text.{has_prefix, trim_prefix, starts_with, split_n}
use tunnel.Wire.{Frame, text, binary}

-- What a frame tells; `ignored` is a frame that changes nothing, errors that are only logged
-- included.
pub data Reply : Type 0 where
  udp_packet : Bytes → Bytes → Bytes → Reply
  stream : Bytes → Bytes → Reply
  raw : Bytes → Reply
  udp_connected claim_ack connected closed : Bytes → Reply
  ignored : Reply

abbrev pub udp_parts : List Bytes → Reply
udp_parts (id ∷ addr ∷ payload ∷ []) = udp_packet id addr payload
udp_parts _ = ignored

-- A frame `DATA:` that does not split goes on to the raw case.
abbrev pub stream_parts : Bytes → List Bytes → Reply
stream_parts msg (id ∷ payload ∷ []) = stream id payload
stream_parts msg _ = raw msg

abbrev pub ack_parts : List Bytes → Reply
ack_parts (id ∷ channel ∷ []) = claim_ack id
ack_parts _ = ignored

unfoldable pub read_binary : Bytes → Reply
unfolding starts_with split_n
read_binary msg =
    if starts_with msg (codes "UDP_DATA:")
    then udp_parts (split_n 3 b'|' (drop 9 msg))
    else if starts_with msg (codes "DATA:")
    then stream_parts msg (split_n 2 b'|' (drop 5 msg))
    else raw msg

unfoldable pub read_text : Bytes → Reply
unfolding has_prefix trim_prefix split_n
read_text s =
    if has_prefix s (codes "UDP_CONNECTED:")
    then udp_connected (trim_prefix s (codes "UDP_CONNECTED:"))
    else if has_prefix s (codes "UDP_ERROR:")
    then ignored
    else if has_prefix s (codes "CLAIM_ACK:")
    then ack_parts (split_n 2 b'|' (drop 10 s))
    else if has_prefix s (codes "CONNECTED:")
    then connected (trim_prefix s (codes "CONNECTED:"))
    else if has_prefix s (codes "ERROR:")
    then ignored
    else if has_prefix s (codes "CLOSE:")
    then closed (trim_prefix s (codes "CLOSE:"))
    else ignored

unfoldable pub read_reply : Frame → Reply
unfolding read_binary read_text
read_reply f = elim f.kind [ binary ↦ read_binary f.payload | text ↦ read_text f.payload ]
