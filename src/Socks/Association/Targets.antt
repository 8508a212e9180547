-- ===== src/Socks/Association/Targets.antt =====
-- Where the datagrams of a UDP association go (socks5.go, pool.go).
use tunnel.Prelude.{
  ℕ, Bytes, Bool, true, false, List, [], ◌∷◌, ◌≡◌, refl, map, Option, none, some, arith, get_elem?,
  ◌+◌, suc, subst, Bool-cases, inl, inr, bytes_eq_iff, ◌↔◌,
}
use tunnel.Prelude.Map.{lookup-insert_self, bytes_key, nat_eq}
use tunnel.Wire.{udp_connect_message, udp_data_message}
use tunnel.Pool.State.{Pool, write_ws, socket_of, socket_of-bound}
use tunnel.Pool.Send.{first_channel, assign_udp, send_udp_connect, send_udp_data}
use tunnel.Socks.Association.{
  Association, association_closed, send_datagram, send_datagrams, close, admit,
}

-- A pool in which the association has the WebSocket `ws`.
abbrev pub IsAssigned : Bytes → ℕ → Pool → Type 0
IsAssigned id ws p = (i : ℕ) × (socket_of id p ≡ some (i, ws))

send_udp_data-IsAssigned :
    (id payload : Bytes) (ws : ℕ) (p : Pool)
    → IsAssigned id ws p
    → send_udp_data id payload true p ≡ (write_ws ws (udp_data_message id payload) ∷ [], none)
unfolding send_udp_data
send_udp_data-IsAssigned id payload ws p (i, e) = rw e

-- An open association that has asked for its connection.
abbrev pub asked : Association → Association
asked a = record a { closed = false; receiving = true }

send_datagram-asked :
    (a : Association) (target payload : Bytes) (ws : ℕ) (p : Pool)
    → IsAssigned a.conn_id ws p
    → send_datagram target payload true true (asked a) p
      ≡ (asked a, p, write_ws ws (udp_data_message a.conn_id payload) ∷ [], none)
unfolding send_datagram
send_datagram-asked a target payload ws p h = rw (send_udp_data-IsAssigned a.conn_id payload ws p h)

abbrev pub payloads : List (Bytes × Bytes) → List Bytes
payloads [] = []
payloads ((target, payload) ∷ rest) = payload ∷ payloads rest

send_datagrams-asked :
    (a : Association) (ws : ℕ) (p : Pool) (datagrams : List (Bytes × Bytes))
    → IsAssigned a.conn_id ws p
    → send_datagrams datagrams (asked a) p
      ≡ (asked a, p, map (write_ws ws) (map (udp_data_message a.conn_id) (payloads datagrams)))
unfolding send_datagrams
send_datagrams-asked a ws p [] h = refl
send_datagrams-asked a ws p ((target, payload) ∷ rest) h =
    rw (send_datagram-asked a target payload ws p h, send_datagrams-asked a ws p rest h)

get_elem?-first_channel :
    (n : ℕ) (sockets : List (Option ℕ)) (i ws : ℕ)
    → first_channel n sockets ≡ some (i, ws)
    → (k : ℕ) × (i ≡ n + k) × (get_elem? sockets k ≡ some (some ws))
unfolding first_channel
get_elem?-first_channel n [] i ws e = absurd (ground (arith, e))
get_elem?-first_channel n (some s ∷ rest) i ws e = (0, ground (arith, e), ground (arith, e))
get_elem?-first_channel n (none ∷ rest) i ws e =
    let (k, p, q) = get_elem?-first_channel (n + 1) rest i ws e in (suc k, omega (arith, p), q)

-- The channel that `SendUDPConnect` assigns.
pub assign_udp-IsAssigned :
    (id : Bytes) (i ws : ℕ) (p : Pool)
    → first_channel 0 p.ws_conns ≡ some (i, ws)
    → IsAssigned id ws (assign_udp id i p)
unfolding assign_udp
assign_udp-IsAssigned id i ws p e =
    let (k, q, r) = get_elem?-first_channel 0 p.ws_conns i ws e in
    let same : k ≡ i = omega (arith, q) in
    let found = subst (λ x. get_elem? p.ws_conns x ≡ some (some ws)) same r in
    (i, socket_of-bound id i ws (assign_udp id i p) (lookup-insert_self id i p.channel_map) found)

pub send_datagram-first :
    (a : Association) (target payload : Bytes) (i ws : ℕ) (p : Pool)
    → a.closed ≡ false
    → a.receiving ≡ false
    → first_channel 0 p.ws_conns ≡ some (i, ws)
    → send_datagram target payload true true a p ≡ (
      asked a,
      assign_udp a.conn_id i p,
      write_ws ws (udp_connect_message a.conn_id target)
          ∷ write_ws ws (udp_data_message a.conn_id payload)
          ∷ [],
      none,
    )
unfolding send_datagram send_udp_connect
send_datagram-first a target payload i ws p c r e = rw (
  c,
  r,
  e,
  send_udp_data-IsAssigned a.conn_id payload ws (assign_udp a.conn_id i p)
      (assign_udp-IsAssigned a.conn_id i ws p e),
)

-- For an open association that has not asked for its connection yet, with a connected channel and
-- every frame written, the datagrams go out on one WebSocket: one UDP_CONNECT with the target of the
-- first datagram, then the data of each one in order. The targets of the later datagrams are sent
-- nowhere.
pub send_datagrams-targets :
    (a : Association) (target payload : Bytes) (datagrams : List (Bytes × Bytes)) (i ws : ℕ)
    (p : Pool)
    → a.closed ≡ false
    → a.receiving ≡ false
    → first_channel 0 p.ws_conns ≡ some (i, ws)
    → (send_datagrams ((target, payload) ∷ datagrams) a p).2
      ≡ map (write_ws ws) (
          udp_connect_message a.conn_id target
          ∷ map (udp_data_message a.conn_id) (payload ∷ payloads datagrams))
unfolding send_datagrams
send_datagrams-targets a target payload datagrams i ws p c r e = rw (
  send_datagram-first a target payload i ws p c r e,
  send_datagrams-asked a ws (assign_udp a.conn_id i p) datagrams
      (assign_udp-IsAssigned a.conn_id i ws p e),
)

send_datagram-closed :
    (a : Association) (target payload : Bytes) (first later : Bool) (p : Pool)
    → a.closed ≡ true
    → send_datagram target payload first later a p ≡ (a, p, [], some association_closed)
unfolding send_datagram
send_datagram-closed a target payload first later p e = rw e

close-closed : (a : Association) (written : Bool) (p : Pool) → (close written a p).0.closed ≡ true
unfolding close
close-closed a written p = elim (Bool-cases a.closed) [
  | inl shut ↦ rw shut
  | inr opened ↦ rw opened
]

close_again :
    (a : Association) (written : Bool) (p : Pool) → a.closed ≡ true → close written a p ≡ (a, p, [])
unfolding close
close_again a written p e = rw e

-- After `Close`, a datagram is refused and nothing is sent, and another `Close` does and sends
-- nothing.
close-send_datagram :
    (a : Association) (target payload : Bytes) (closing again first later : Bool) (p q : Pool)
    → (send_datagram target payload first later (close closing a p).0 q
        ≡ ((close closing a p).0, q, [], some association_closed))
      × (close again (close closing a p).0 q ≡ ((close closing a p).0, q, []))
close-send_datagram a target payload closing again first later p q = (
  send_datagram-closed (close closing a p).0 target payload first later q
      (close-closed a closing p),
  close_again (close closing a p).0 again q (close-closed a closing p),
)

-- For an association that has no client yet, the source of the first datagram is its client from then
-- on: the next datagram is handled exactly if it comes from there.
admit-client :
    (a : Association) (client source : Bytes)
    → a.client ≡ none
    → ((admit client a).1 ≡ true)
      × ((admit source (admit client a).0).0 ≡ (admit client a).0)
      × (((admit source (admit client a).0).1 ≡ true) ↔ (client ≡ source))
unfolding admit
admit-client a client source e = rw e (refl, refl, bytes_eq_iff client source)
