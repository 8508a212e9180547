-- ===== src/Socks/Association/Setup.antt =====
-- `handleSOCKS5UDPAssociate`, `sendSOCKS5UDPResponse` and the loop of `handleUDPRelay` (socks5.go): how
-- an association begins, receives and ends.
pub mod Datagrams
pub mod Course
use tunnel.Prelude.{
  ℕ, Bytes, Bool, true, false, List, [], ◌∷◌, ◌++◌, Option, none, some, if◌then◌else◌, codes, ◌>>=◌,
}
use tunnel.Octets.{word}
use tunnel.Pool.State.{Pool, Effect}
use tunnel.Pool.Send.{register_udp}
use tunnel.Socks.Address.{IpText, Ip, v4, v6}
use tunnel.Socks.Handshake.{error_response}
use tunnel.Socks.Association.{Association, Failure, admit, handle_udp_packet, close}

-- `net.SplitHostPort`, `net.JoinHostPort`, `net.ResolveUDPAddr` and `net.ListenUDP`, with the address
-- that `LocalAddr` gives.
pub record UdpNet (Addr : Type 0) : Type 0 where
  pub split_host_port : Bytes → Option (Bytes × Bytes)
  pub join_host_port : Bytes → Bytes → Bytes
  pub resolve : Bytes → Option Addr
  pub listen : Addr → Option (Ip × ℕ)

-- How the command comes off: it is refused with an answer, the answer cannot be written, or the client
-- is answered and the association is registered.
pub data Setup : Type 0 where
  refused unanswered : Bytes → Setup
  associated : Bytes → Association → Pool → Setup

-- The answer; `uint16` takes the lowest 16 bits of the port, as `word` does.
unfoldable pub udp_response_bytes : Ip → ℕ → Bytes
udp_response_bytes (v4 ip) port = 5 ∷ 0 ∷ 0 ∷ 1 ∷ (ip ++ word port)
udp_response_bytes (v6 ip) port = 5 ∷ 0 ∷ 0 ∷ 4 ∷ (ip ++ word port)

-- A new association, before its first datagram.
abbrev pub new_association : Bytes → Association
new_association id = record { conn_id = id; client = none; closed = false; receiving = false }

abbrev pub answer : Bytes → ℕ → Bool → Pool → Option (Ip × ℕ) → Setup
answer id assoc replied p none = refused (error_response 1)
answer id assoc replied p (some (ip, port)) =
    if replied
    then associated (udp_response_bytes ip port) (new_association id) (register_udp id assoc p)
    else unanswered (udp_response_bytes ip port)

module _ {Addr : Type 0} (net : UdpNet Addr) where
  abbrev pub listen_on : Option Addr → Option (Ip × ℕ)
  listen_on none = none
  listen_on (some addr) = net.listen addr

  abbrev pub listen_at : Option (Bytes × Bytes) → Option (Ip × ℕ)
  listen_at none = none
  listen_at (some (host, port)) = listen_on (net.resolve (net.join_host_port host (codes "0")))

  -- On the proxy's own address, with a new id and the number of the new association; the flag tells
  -- whether the answer can be written.
  unfoldable pub handle_socks5_udp_associate : Bytes → Bytes → ℕ → Bool → Pool → Setup
  handle_socks5_udp_associate config_host id assoc replied p =
      answer id assoc replied p (listen_at (net.split_host_port config_host))

-- What happens to an association: its listener gets a datagram, with the flags for the two frames that
-- it may lead to, or something is sent on `done`: the client's TCP connection has ended, the listener
-- has failed, or the wait has timed out. The flag tells whether UDP_CLOSE can be written.
pub data Event : Type 0 where
  datagram : Bytes → Bytes → Bool → Bool → Event
  done : Bool → Event

-- A round of `handleUDPRelay`, with the goroutine that it starts.
unfoldable pub relay_datagram :
    IpText
    → Bytes
    → Bytes
    → Bool
    → Bool
    → Association
    → Pool
    → Option (Association × Pool × List Effect × Option Failure)
relay_datagram t source packet asked written a p =
    let (b, admitted) = admit source a in
    if admitted then handle_udp_packet t packet asked written b p else some (b, p, [], none)

-- The association until it is closed; `none` is a panic.
unfoldable pub run_association :
    IpText → List Event → Association → Pool → Option (Association × Pool × List Effect)
run_association t [] a p = some (a, p, [])
run_association t (done written ∷ events) a p = some (close written a p)
run_association t (datagram source packet asked written ∷ events) a p = do
  (b, q, effects, e) ← relay_datagram t source packet asked written a p
  (c, r, more) ← run_association t events b q
  some (c, r, effects ++ more)
