-- ===== src/Socks/Association/Setup/Datagrams.antt =====
-- What a datagram does to an association, whatever its client sends (socks5.go).
use tunnel.Prelude.{
  ℕ, Bytes, Bool, true, false, List, [], ◌++◌, ◌≡◌, refl, sym, ◌∙◌, Option, none, some, ◌⊎◌, inl,
  inr, Bool-cases, Option-cases, subst,
}
use tunnel.Prelude.Map.{bytes_key}
use tunnel.Pool.State.{Pool, Effect, SendError, socket_of}
use tunnel.Pool.Send.{first_channel, assign_udp, send_udp_data, send_udp_connect}
use tunnel.Socks.Address.{IpText}
use tunnel.Socks.Packet.{Parsed, refused, parsed}
use tunnel.Socks.Packet.Laws.{parse_udp_packet-defined}
use tunnel.Socks.Association.{
  Association, Failure, admit, from_client, send_datagram, data_result, after_connect, beside,
  send_parsed, handle_udp_packet,
}
use tunnel.Socks.Association.Targets.{assign_udp-IsAssigned}
use tunnel.Socks.Association.Setup.{relay_datagram}

abbrev pub HasSocket : Bytes → Pool → Type 0
HasSocket id p = (i : ℕ) × (ws : ℕ) × (socket_of id p ≡ some (i, ws))

-- The result of a datagram for an open association: nothing is written and the pool is as before, or
-- the association has a WebSocket.
abbrev pub IsKept : Association → Pool → Association × Pool × List Effect × Option Failure → Type 0
IsKept a p (b, q, effects, e) =
    (b.conn_id ≡ a.conn_id)
    × (b.closed ≡ false)
    × (((q ≡ p) × (effects ≡ [])) ⊎ HasSocket a.conn_id q)

data_result-fields :
    (first : List Effect) (p : Pool) (r : List Effect × Option SendError)
    → ((data_result first p r).0 ≡ p) × ((data_result first p r).1 ≡ first ++ r.0)
data_result-fields first p (effects, none) = (refl, refl)
data_result-fields first p (effects, some e) = (refl, refl)

send_udp_data-HasSocket :
    (id payload : Bytes) (written : Bool) (p : Pool)
    → ((send_udp_data id payload written p).0 ≡ []) ⊎ HasSocket id p
unfolding send_udp_data
send_udp_data-HasSocket id payload written p = elim (Option-cases (socket_of id p)) [
  | inl e ↦ inl (rw e)
  | inr ((i, ws), e) ↦ inr (i, ws, e)
]

-- Data for an association that has asked for its connection.
data_result-IsKept :
    (a b : Association) (payload : Bytes) (written : Bool) (p : Pool)
    → b.conn_id ≡ a.conn_id
    → b.closed ≡ false
    → IsKept a p (beside b (data_result [] p (send_udp_data a.conn_id payload written p)))
data_result-IsKept a b payload written p e o =
    let (pool, written_first) =
      data_result-fields [] p (send_udp_data a.conn_id payload written p) in
    (
      e,
      o,
      elim (send_udp_data-HasSocket a.conn_id payload written p) [
        | inl nothing ↦ inl (pool, written_first ∙ nothing)
        | inr socket ↦ inr (subst (HasSocket a.conn_id) (sym pool) socket)
      ],
    )

after_connect-pool :
    (id payload : Bytes) (written : Bool) (r : Pool × List Effect × Option SendError)
    → (after_connect id payload written r).0 ≡ r.0
after_connect-pool id payload written (p, effects, some e) = refl
after_connect-pool id payload written (p, effects, none) =
    (data_result-fields effects p (send_udp_data id payload written p)).0

send_udp_connect-pool :
    (id target : Bytes) (asked : Bool) (i ws : ℕ) (p : Pool)
    → first_channel 0 p.ws_conns ≡ some (i, ws)
    → (send_udp_connect id target asked p).0 ≡ assign_udp id i p
unfolding send_udp_connect
send_udp_connect-pool id target asked i ws p f = rw f

send_udp_connect-none :
    (id payload target : Bytes) (asked written : Bool) (p : Pool)
    → first_channel 0 p.ws_conns ≡ none
    → let (q, effects, e) = after_connect id payload written (send_udp_connect id target asked p) in
      (q ≡ p) × (effects ≡ [])
unfolding send_udp_connect
send_udp_connect-none id payload target asked written p f = rw f (refl, refl)

-- The first datagram.
after_connect-IsKept :
    (a b : Association) (target payload : Bytes) (asked written : Bool) (p : Pool)
    → b.conn_id ≡ a.conn_id
    → b.closed ≡ false
    → IsKept a p (
        beside b
          (after_connect a.conn_id payload written (send_udp_connect a.conn_id target asked p)))
after_connect-IsKept a b target payload asked written p e o = (
  e,
  o,
  elim (Option-cases (first_channel 0 p.ws_conns)) [
    | inl f ↦ inl (send_udp_connect-none a.conn_id payload target asked written p f)
    | inr ((i, ws), f) ↦
        let pool =
          after_connect-pool a.conn_id payload written (send_udp_connect a.conn_id target asked p)
          ∙ send_udp_connect-pool a.conn_id target asked i ws p f in
        let (j, found) = assign_udp-IsAssigned a.conn_id i ws p f in
        inr (subst (HasSocket a.conn_id) (sym pool) (j, ws, found))
  ],
)

send_datagram-later :
    (a : Association) (target payload : Bytes) (asked written : Bool) (p : Pool)
    → a.closed ≡ false
    → a.receiving ≡ true
    → send_datagram target payload asked written a p
      ≡ beside a (data_result [] p (send_udp_data a.conn_id payload written p))
unfolding send_datagram
send_datagram-later a target payload asked written p o later = rw (o, later)

send_datagram-asks :
    (a : Association) (target payload : Bytes) (asked written : Bool) (p : Pool)
    → a.closed ≡ false
    → a.receiving ≡ false
    → send_datagram target payload asked written a p
      ≡ beside
          (record a { receiving = true })
          (after_connect a.conn_id payload written (send_udp_connect a.conn_id target asked p))
unfolding send_datagram
send_datagram-asks a target payload asked written p o first = rw (o, first)

send_datagram-IsKept :
    (a : Association) (target payload : Bytes) (asked written : Bool) (p : Pool)
    → a.closed ≡ false
    → IsKept a p (send_datagram target payload asked written a p)
send_datagram-IsKept a target payload asked written p o = elim (Bool-cases a.receiving) [
  | inl later ↦
      subst (IsKept a p) (sym (send_datagram-later a target payload asked written p o later))
        (data_result-IsKept a a payload written p refl o)
  | inr first ↦
      subst (IsKept a p) (sym (send_datagram-asks a target payload asked written p o first)) (
        after_connect-IsKept a (record a { receiving = true }) target payload asked written p refl
          o)
]

send_parsed-IsKept :
    (a : Association) (asked written : Bool) (p : Pool) (r : Parsed)
    → a.closed ≡ false
    → IsKept a p (send_parsed asked written a p r)
send_parsed-IsKept a asked written p (refused e) o = (refl, o, inl (refl, refl))
send_parsed-IsKept a asked written p (parsed target payload) o =
    send_datagram-IsKept a target payload asked written p o

handle_udp_packet-IsKept :
    (t : IpText) (packet : Bytes) (asked written : Bool) (a : Association) (p : Pool)
    → a.closed ≡ false
    → (x : Association × Pool × List Effect × Option Failure) × (handle_udp_packet t packet asked
          written a p
        ≡ some x)
      × IsKept a p x
unfolding handle_udp_packet
handle_udp_packet-IsKept t packet asked written a p o =
    let (r, e) = parse_udp_packet-defined t packet in
    (send_parsed asked written a p r, rw e, send_parsed-IsKept a asked written p r o)

from_client-kept :
    (source : Bytes) (client : Option Bytes) (a : Association)
    → ((from_client source client a).0.conn_id ≡ a.conn_id)
      × ((from_client source client a).0.closed ≡ a.closed)
from_client-kept source none a = (refl, refl)
from_client-kept source (some client) a = (refl, refl)

pub relay_datagram-IsKept :
    (t : IpText) (source packet : Bytes) (asked written : Bool) (a : Association) (p : Pool)
    → a.closed ≡ false
    → (x : Association × Pool × List Effect × Option Failure) × (relay_datagram t source packet
          asked written a p
        ≡ some x)
      × IsKept a p x
unfolding relay_datagram admit
relay_datagram-IsKept t source packet asked written a p o =
    let (same, still) = from_client-kept source a.client a in
    let b = (admit source a).0 in
    elim (Bool-cases (from_client source a.client a).1) [
      | inl admitted ↦
          let (x, e, (k, l, m)) = handle_udp_packet-IsKept t packet asked written b p (still ∙ o) in
          (
            x,
            rw admitted e,
            (k ∙ same, l, subst (λ id. ((x.1 ≡ p) × (x.2 ≡ [])) ⊎ HasSocket id x.1) same m),
          )
      | inr other ↦ ((b, p, [], none), rw other, (same, still ∙ o, inl (refl, refl)))
    ]
