-- ===== src/Pool/Send.antt =====
-- The senders of pool.go. The argument `written` tells whether the WebSocket takes the frame.
use tunnel.Prelude.{ℕ, Bytes, Bool, true, false, List, [], ◌∷◌, Option, none, some, ◌+◌}
use tunnel.Prelude.Map.{lookup, insert, erase, bytes_key, nat_eq}
use tunnel.Wire.{
  Frame, data_message, close_message, udp_connect_message, udp_data_message, udp_close_message,
}
use tunnel.Pool.State.{
  Pool, Effect, write_ws, SendError, no_websocket, unassigned, write_failed, with_signal, socket_of,
}

-- `RegisterUDP`
unfoldable pub register_udp : Bytes → ℕ → Pool → Pool
unfolding lookup insert
register_udp id assoc p = record p {
  udp_map = insert id assoc p.udp_map;
  connected = with_signal id (lookup id p.connected) p.connected;
}

-- The error that a write returns; `none` is Go's nil.
abbrev pub write_error : Bool → Option SendError
write_error true = none
write_error false = some write_failed

-- The loop of `SendUDPConnect`: the first channel, from number `i` on, with a WebSocket.
unfoldable pub first_channel : ℕ → List (Option ℕ) → Option (ℕ × ℕ)
first_channel i [] = none
first_channel i (none ∷ rest) = first_channel (i + 1) rest
first_channel i (some ws ∷ rest) = some (i, ws)

-- Its second locked region.
unfoldable pub assign_udp : Bytes → ℕ → Pool → Pool
unfolding insert
assign_udp id i p = record p {
  channel_map = insert id i p.channel_map;
  bound_by_channel = insert i id p.bound_by_channel;
}

abbrev connect_on :
    Bytes → Bytes → Bool → Option (ℕ × ℕ) → Pool → Pool × List Effect × Option SendError
connect_on id target written none p = (p, [], some no_websocket)
connect_on id target written (some (i, ws)) p =
    (assign_udp id i p, write_ws ws (udp_connect_message id target) ∷ [], write_error written)

-- `SendUDPConnect`
unfoldable pub send_udp_connect :
    Bytes → Bytes → Bool → Pool → Pool × List Effect × Option SendError
unfolding first_channel assign_udp
send_udp_connect id target written p = connect_on id target written (first_channel 0 p.ws_conns) p

abbrev send_on : Frame → Bool → Option (ℕ × ℕ) → List Effect × Option SendError
send_on frame written none = ([], some unassigned)
send_on frame written (some (i, ws)) = (write_ws ws frame ∷ [], write_error written)

-- `SendUDPData`
unfoldable pub send_udp_data : Bytes → Bytes → Bool → Pool → List Effect × Option SendError
unfolding socket_of
send_udp_data id payload written p = send_on (udp_data_message id payload) written (socket_of id p)

-- `SendData`
unfoldable pub send_data : Bytes → Bytes → Bool → Pool → List Effect × Option SendError
unfolding socket_of
send_data id payload written p = send_on (data_message id payload) written (socket_of id p)

abbrev close_on : Frame → Bool → Option (ℕ × ℕ) → List Effect × Option SendError
close_on frame written none = ([], none)
close_on frame written (some (i, ws)) = (write_ws ws frame ∷ [], write_error written)

-- `SendClose`
unfoldable pub send_close : Bytes → Bool → Pool → List Effect × Option SendError
unfolding socket_of
send_close id written p = close_on (close_message id) written (socket_of id p)

-- The last locked region of `SendUDPClose`.
unfoldable pub release_udp : Bytes → ℕ → Pool → Pool
unfolding erase
release_udp id i p = record p {
  channel_map = erase id p.channel_map;
  bound_by_channel = erase i p.bound_by_channel;
  udp_map = erase id p.udp_map;
}

abbrev udp_close_on : Bytes → Bool → Option (ℕ × ℕ) → Pool → Pool × List Effect × Option SendError
udp_close_on id written none p = (p, [], none)
udp_close_on id written (some (i, ws)) p =
    (release_udp id i p, write_ws ws (udp_close_message id) ∷ [], write_error written)

-- `SendUDPClose`
unfoldable pub send_udp_close : Bytes → Bool → Pool → Pool × List Effect × Option SendError
unfolding socket_of release_udp
send_udp_close id written p = udp_close_on id written (socket_of id p) p
