-- ===== src/Socks/Association/Setup/Course.antt =====
-- What an association comes to, whatever its client sends (socks5.go).
use tunnel.Prelude.{
  ℕ, Bytes, Bool, true, false, List, [], ◌∷◌, ◌++◌, ◌≡◌, refl, sym, ap, ◌∙◌, Option, none, some,
  ◌⊎◌, inl, inr, arith, Option-cases, subst, get_elem?, Within, Within-append_right,
}
use tunnel.Prelude.Map.{lookup, bytes_key, nat_eq, lookup-erase_self, lookup-insert_self}
use tunnel.Pool.State.{Pool, Effect, write_ws, socket_of}
use tunnel.Wire.{udp_close_message}
use tunnel.Pool.Send.{send_udp_close, release_udp, register_udp}
use tunnel.Socks.Address.{IpText, Ip}
use tunnel.Socks.Association.{Association, close}
use tunnel.Socks.Association.Setup.{
  UdpNet, associated, Event, datagram, done, answer, listen_at, handle_socks5_udp_associate,
  run_association,
}
use tunnel.Socks.Association.Setup.Datagrams.{HasSocket, relay_datagram-IsKept}

-- Whether something is sent on `done`.
abbrev pub ends : List Event → Bool
ends [] = false
ends (datagram source packet asked written ∷ events) = ends events
ends (done written ∷ events) = true

-- A UDP_CLOSE has gone out on the WebSocket of some channel, that channel is bound to none, and the
-- id has no channel and no association.
abbrev pub IsReleased : Bytes → Pool → List Effect → Type 0
IsReleased id p effects =
    (i : ℕ) × (ws : ℕ) × (get_elem? p.ws_conns i ≡ some (some ws))
    × Within (write_ws ws (udp_close_message id)) effects
    × (lookup i p.bound_by_channel ≡ none)
    × (lookup id p.channel_map ≡ none)
    × (lookup id p.udp_map ≡ none)

-- What is to be shown of an association at its end: its pool has released it, or nothing was written
-- and the pool is as it was.
abbrev IsOver : Bytes → Pool → Association × Pool × List Effect → Type 0
IsOver id p (b, q, effects) =
    (b.closed ≡ true)
    × (IsReleased id q effects ⊎ ((effects ≡ []) × (q ≡ p) × (socket_of id p ≡ none)))

socket_of-open :
    (id : Bytes) (i ws : ℕ) (p : Pool)
    → socket_of id p ≡ some (i, ws)
    → get_elem? p.ws_conns i ≡ some (some ws)
unfolding socket_of
socket_of-open id i ws p e = ground arith

close-IsOver :
    (a : Association) (written : Bool) (p : Pool)
    → a.closed ≡ false
    → IsOver a.conn_id p (close written a p)
unfolding close send_udp_close release_udp
close-IsOver a written p o = elim (Option-cases (socket_of a.conn_id p)) [
  | inl e ↦ rw (o, e) (refl, inr (refl, refl, refl))
  | inr ((i, ws), e) ↦
      rw (o, e)
        (
          refl,
          inl (
            i,
            ws,
            socket_of-open a.conn_id i ws p e,
            inl refl,
            lookup-erase_self i p.bound_by_channel,
            lookup-erase_self a.conn_id p.channel_map,
            lookup-erase_self a.conn_id p.udp_map,
          ),
        )
]

not_both : (id : Bytes) (p : Pool) → HasSocket id p → socket_of id p ≡ none → ⊥
not_both id p (i, ws, e) n = absurd (ground (arith, e, n))

-- A datagram in front of the rest.
IsOver-behind :
    (id : Bytes) (p q : Pool) (effects : List Effect) (c : Association) (r : Pool)
    (more : List Effect)
    → ((q ≡ p) × (effects ≡ [])) ⊎ HasSocket id q
    → IsOver id q (c, r, more)
    → IsOver id p (c, r, effects ++ more)
IsOver-behind id p q effects c r more kept (shut, inl (i, ws, socket, sent, free, gone, over)) =
    (shut, inl (i, ws, socket, Within-append_right _ effects more sent, free, gone, over))
IsOver-behind id p q effects c r more (inl (same, nothing)) (shut, inr (quiet, still, n)) = (
  shut,
  inr (ap (λ l. l ++ more) nothing ∙ quiet, still ∙ same, ap (socket_of id) (sym same) ∙ n),
)
IsOver-behind id p q effects c r more (inr socket) (shut, inr (quiet, still, n)) =
    absurd (not_both id q socket n)

run_association-IsOver :
    (t : IpText) (events : List Event) (a : Association) (p : Pool)
    → a.closed ≡ false
    → ends events ≡ true
    → (x : Association × Pool × List Effect) × (run_association t events a p ≡ some x)
      × IsOver a.conn_id p x
unfolding run_association
run_association-IsOver t [] a p o e = cc
run_association-IsOver t (done written ∷ events) a p o e =
    (close written a p, refl, close-IsOver a written p o)
run_association-IsOver t (datagram source packet asked written ∷ events) a p o e =
    let ((b, q, effects, failure), run, (same, still, kept)) =
      relay_datagram-IsKept t source packet asked written a p o in
    let ((c, r, more), rest, over) = run_association-IsOver t events b q still e in
    (
      (c, r, effects ++ more),
      rw (run, rest),
      IsOver-behind a.conn_id p q effects c r more kept
          (subst (λ id. IsOver id q (c, r, more)) same over),
    )

-- Where an answer says that the association stands, it is new and registered.
answer-associated :
    (id : Bytes) (assoc : ℕ) (replied : Bool) (p : Pool) (o : Option (Ip × ℕ)) (reply : Bytes)
    (a : Association) (q : Pool)
    → answer id assoc replied p o ≡ associated reply a q
    → (a.conn_id ≡ id) × (a.closed ≡ false) × (q ≡ register_udp id assoc p)
answer-associated id assoc replied p none reply a q e = cc
answer-associated id assoc false p (some (ip, port)) reply a q e = cc
answer-associated id assoc true p (some (ip, port)) reply a q e = (cc, cc, cc)

-- An association that was set up and then gets any datagrams, from anyone and with any bytes, until
-- something is sent on `done`: nothing panics and it is closed. Either a UDP_CLOSE has gone out on the
-- WebSocket of a channel that is bound to none now, and the id has no channel and no entry in udpMap;
-- or the association never wrote a frame, and its entry in udpMap is still there.
pub run_association-ends :
    {Addr : Type 0} (net : UdpNet Addr) (t : IpText) (config_host id : Bytes) (assoc : ℕ)
    (replied : Bool) (p : Pool) (reply : Bytes) (a : Association) (q : Pool) (events : List Event)
    → handle_socks5_udp_associate net config_host id assoc replied p ≡ associated reply a q
    → ends events ≡ true
    → (b : Association) × (r : Pool) × (effects : List Effect) × (run_association t events a q
        ≡ some (b, r, effects))
      × (b.closed ≡ true)
      × (IsReleased id r effects ⊎ ((effects ≡ []) × (lookup id r.udp_map ≡ some assoc)))
unfolding handle_socks5_udp_associate register_udp
run_association-ends net t config_host id assoc replied p reply a q events e d =
    let (same, opened, registered) =
      answer-associated id assoc replied p (listen_at net (net.split_host_port config_host)) reply a
        q e in
    let ((b, r, effects), run, over) = run_association-IsOver t events a q opened d in
    let (shut, over_id) = subst (λ k. IsOver k q (b, r, effects)) same over in
    (
      b,
      r,
      effects,
      run,
      shut,
      elim over_id [
        | inl gone ↦ inl gone
        | inr (quiet, still, n) ↦ inr (
          quiet,
          ap (λ s. lookup id s.udp_map) (still ∙ registered)
              ∙ lookup-insert_self id assoc p.udp_map,
        )
      ],
    )
