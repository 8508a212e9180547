-- ===== src/Socks/Association.antt =====
-- `UDPAssociation` of socks5.go: `handleUDPRelay`, `handleUDPPacket`, `sendUDPData` and `Close`.
-- The client's address is the text that `UDPAddr.String` gives for it; the listener, the channels
-- and the TCP connection of the struct are left out, and what is sent on `done` ends the
-- association.
pub mod Targets
pub mod Packets
pub mod Response
pub mod Setup
pub mod Stuck
use tunnel.Prelude.{
  Bytes, Bool, true, false, List, [], ◌∷◌, ◌++◌, Option, none, some, if◌then◌else◌, bytes_eq, ◌>>=◌,
}
use tunnel.Pool.State.{Pool, Effect, SendError}
use tunnel.Pool.Send.{send_udp_connect, send_udp_data, send_udp_close}
use tunnel.Socks.Address.{IpText}
use tunnel.Socks.Packet.{Parsed, refused, parsed, parse_udp_packet}

pub record Association : Type 0 where
  pub conn_id : Bytes
  pub client : Option Bytes
  pub closed : Bool
  pub receiving : Bool

-- The errors of `sendUDPData`.
pub data Failure : Type 0 where
  association_closed : Failure
  connect_failed data_failed : SendError → Failure

-- The check of a datagram's source in `handleUDPRelay`: the first one is remembered; whether the
-- datagram is handled.
abbrev pub from_client : Bytes → Option Bytes → Association → Association × Bool
from_client source none a = (record a { client = some source }, true)
from_client source (some client) a = (a, bytes_eq client source)

unfoldable pub admit : Bytes → Association → Association × Bool
admit source a = from_client source a.client a

abbrev pub data_result :
    List Effect → Pool → List Effect × Option SendError → Pool × List Effect × Option Failure
data_result first p (effects, none) = (p, first ++ effects, none)
data_result first p (effects, some e) = (p, first ++ effects, some (data_failed e))

-- The data behind the connection, if that could be asked for.
abbrev pub after_connect :
    Bytes
    → Bytes
    → Bool
    → Pool × List Effect × Option SendError
    → Pool × List Effect × Option Failure
after_connect id payload written (p, effects, some e) = (p, effects, some (connect_failed e))
after_connect id payload written (p, effects, none) =
    data_result effects p (send_udp_data id payload written p)

abbrev pub beside :
    Association
    → Pool × List Effect × Option Failure
    → Association × Pool × List Effect × Option Failure
beside a (p, effects, e) = (a, p, effects, e)

-- `sendUDPData`; the flags tell whether the two frames can be written.
unfoldable pub send_datagram :
    Bytes
    → Bytes
    → Bool
    → Bool
    → Association
    → Pool
    → Association × Pool × List Effect × Option Failure
send_datagram target payload asked written a p =
    if a.closed
    then (a, p, [], some association_closed)
    else if a.receiving
    then beside a (data_result [] p (send_udp_data a.conn_id payload written p))
    else beside (record a { receiving = true })
        (after_connect a.conn_id payload written (send_udp_connect a.conn_id target asked p))

-- What becomes of a packet that was parsed: an error is logged.
abbrev pub send_parsed :
    Bool → Bool → Association → Pool → Parsed → Association × Pool × List Effect × Option Failure
send_parsed asked written a p (refused e) = (a, p, [], none)
send_parsed asked written a p (parsed target payload) =
    send_datagram target payload asked written a p

-- `handleUDPPacket`; `none` is an index out of range in the parser.
unfoldable pub handle_udp_packet :
    IpText
    → Bytes
    → Bool
    → Bool
    → Association
    → Pool
    → Option (Association × Pool × List Effect × Option Failure)
handle_udp_packet t packet asked written a p =
    parse_udp_packet t packet >>= λ result. some (send_parsed asked written a p result)

abbrev close_result :
    Association → Pool × List Effect × Option SendError → Association × Pool × List Effect
close_result a (p, effects, e) = (record a { closed = true }, p, effects)

-- `Close`, but for the listener
unfoldable pub close : Bool → Association → Pool → Association × Pool × List Effect
close written a p =
    if a.closed then (a, p, []) else close_result a (send_udp_close a.conn_id written p)

-- Datagrams by their targets and data, one after the other, with every frame written.
unfoldable pub send_datagrams :
    List (Bytes × Bytes) → Association → Pool → Association × Pool × List Effect
send_datagrams [] a p = (a, p, [])
send_datagrams ((target, payload) ∷ rest) a p =
    let (b, q, effects, e) = send_datagram target payload true true a p in
    let (c, r, more) = send_datagrams rest b q in (c, r, effects ++ more)
