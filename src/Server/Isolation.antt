-- ===== src/Server/Isolation.antt =====
-- Connections do not disturb one another: what a frame for one id leaves alone, and what the cleanup
-- at the end of a connection closes.
use tunnel.Prelude.{
  ℕ, Bytes, List, [], ◌∷◌, ◌++◌, ◌≡◌, refl, ◌≢◌, Option, none, some, arith, bytes_eq_iff, inl, inr,
  Bool-cases, bytes_eq, Within, Within-append_left, Within-append_right,
}
use tunnel.Prelude.Map.{Map, lookup, bytes_key, lookup-insert, lookup-erase}
use tunnel.Wire.{Frame}
use tunnel.Server.Request.{
  Request, udp_datagram, stream, udp_connect, udp_close, claim, tcp, close, ignored, read_request,
}
use tunnel.Server.Handler.{
  Server, Network, Effect, close_tcp, close_udp, close_ws, initial, serve, start_udp, stop_udp,
  stop_tcp, handle_frame, cleanup, close_all,
}

-- The request is about the connection `j`.
abbrev pub Concerns : Request → Bytes → Type 0
Concerns (udp_datagram id _) j = id ≡ j
Concerns (stream id _) j = id ≡ j
Concerns (udp_connect id _) j = id ≡ j
Concerns (udp_close id) j = id ≡ j
Concerns (claim id _) j = id ≡ j
Concerns (tcp id _ _) j = id ≡ j
Concerns (close id) j = id ≡ j
Concerns ignored j = ⊥

module _ {Addr : Type 0} where
  -- Both states have the same entries at `j`.
  abbrev pub AgreeAt : Bytes → Server Addr → Server Addr → Type 0
  AgreeAt j s t =
      (lookup j t.conns ≡ lookup j s.conns)
      × (lookup j t.udp_conns ≡ lookup j s.udp_conns)
      × (lookup j t.udp_targets ≡ lookup j s.udp_targets)

  start_udp-AgreeAt :
      (id target j : Bytes) (addr : Option Addr) (listener : Option ℕ) (s : Server Addr)
      → id ≢ j
      → AgreeAt j s (start_udp id target addr listener s).0
  unfolding start_udp
  start_udp-AgreeAt id target j none listener s h = (refl, refl, refl)
  start_udp-AgreeAt id target j (some addr) none s h = (refl, refl, refl)
  start_udp-AgreeAt id target j (some addr) (some uc) s h = (
    refl,
    ground (arith, lookup-insert id j uc s.udp_conns, bytes_eq_iff id j),
    ground (arith, lookup-insert id j addr s.udp_targets, bytes_eq_iff id j),
  )

  stop_udp-AgreeAt :
      (id j : Bytes) (found : Option ℕ) (s : Server Addr)
      → id ≢ j
      → AgreeAt j s (stop_udp id found s).0
  unfolding stop_udp
  stop_udp-AgreeAt id j none s h = (refl, refl, refl)
  stop_udp-AgreeAt id j (some uc) s h = (
    refl,
    ground (arith, lookup-erase id j s.udp_conns, bytes_eq_iff id j),
    ground (arith, lookup-erase id j s.udp_targets, bytes_eq_iff id j),
  )

  stop_tcp-AgreeAt :
      (id j : Bytes) (found : Option ℕ) (s : Server Addr)
      → id ≢ j
      → AgreeAt j s (stop_tcp id found s).0
  unfolding stop_tcp
  stop_tcp-AgreeAt id j none s h = (refl, refl, refl)
  stop_tcp-AgreeAt id j (some c) s h =
      (ground (arith, lookup-erase id j s.conns, bytes_eq_iff id j), refl, refl)

  serve-AgreeAt :
      (net : Network Addr) (r : Request) (j : Bytes) (s : Server Addr)
      → ¬ Concerns r j
      → AgreeAt j s (serve net r s).0
  unfolding serve
  serve-AgreeAt net (udp_connect id target) j s h = start_udp-AgreeAt id target j _ _ s h
  serve-AgreeAt net (udp_close id) j s h = stop_udp-AgreeAt id j _ s h
  serve-AgreeAt net (close id) j s h = stop_tcp-AgreeAt id j _ s h
  serve-AgreeAt net _ j s h = (refl, refl, refl)

-- A frame that does not name the connection `j` leaves the TCP connection, the UDP socket and the
-- UDP target of `j` as they were.
pub handle_frame-AgreeAt :
    {Addr : Type 0} (net : Network Addr) (f : Frame) (j : Bytes) (s : Server Addr)
    → ¬ Concerns (read_request f) j
    → AgreeAt j s (handle_frame net f s).0
unfolding handle_frame
handle_frame-AgreeAt net f j s h = serve-AgreeAt net (read_request f) j s h

-- Where the id has an entry, its connection is among those that are closed.
abbrev pub IsClosed : {Addr : Type 0} → (ℕ → Effect Addr) → Option ℕ → List (Effect Addr) → Type 0
IsClosed f none effects = Unit {0}
IsClosed f (some c) effects = Within (f c) effects

module _ {Addr : Type 0} (f : ℕ → Effect Addr) where
  IsClosed-append_left :
      (o : Option ℕ) (xs ys : List (Effect Addr)) → IsClosed f o xs → IsClosed f o (xs ++ ys)
  IsClosed-append_left none xs ys h = _
  IsClosed-append_left (some c) xs ys h = Within-append_left (f c) xs ys h

  IsClosed-append_right :
      (o : Option ℕ) (xs ys : List (Effect Addr)) → IsClosed f o ys → IsClosed f o (xs ++ ys)
  IsClosed-append_right none xs ys h = _
  IsClosed-append_right (some c) xs ys h = Within-append_right (f c) xs ys h

close_all-IsClosed :
    {Addr : Type 0} (f : ℕ → Effect Addr) (m : Map Bytes ℕ) (id : Bytes)
    → IsClosed f (lookup id m) (close_all f m)
unfolding lookup
close_all-IsClosed f [] id = _
close_all-IsClosed f ((j, d) ∷ m) id = elim (Bool-cases (bytes_eq j id)) [
  | inl hit ↦ rw hit (inl refl)
  | inr miss ↦
      rw miss (
        IsClosed-append_right f (lookup id m) (f d ∷ []) (close_all f m)
          (close_all-IsClosed f m id))
]

-- When the message loop returns, whatever is registered then: if `id` has a TCP connection, it is
-- closed, if `other` has a UDP socket, it is closed, the WebSocket is closed, and no id is registered
-- any more.
pub cleanup_closes :
    {Addr : Type 0} (s : Server Addr) (id other : Bytes)
    → IsClosed close_tcp (lookup id s.conns) (cleanup s).1
      × IsClosed close_udp (lookup other s.udp_conns) (cleanup s).1
      × Within close_ws (cleanup s).1
      × ((cleanup s).0 ≡ initial)
unfolding cleanup
cleanup_closes s id other =
    let tcp = close_all close_tcp s.conns in
    let udp = close_all close_udp s.udp_conns in
    (
      IsClosed-append_left close_tcp (lookup id s.conns) tcp (udp ++ close_ws ∷ [])
          (close_all-IsClosed close_tcp s.conns id),
      IsClosed-append_right close_udp (lookup other s.udp_conns) tcp (udp ++ close_ws ∷ []) (
          IsClosed-append_left close_udp (lookup other s.udp_conns) udp (close_ws ∷ [])
            (close_all-IsClosed close_udp s.udp_conns other)),
      Within-append_right close_ws tcp (udp ++ close_ws ∷ [])
          (Within-append_right close_ws udp (close_ws ∷ []) (inl refl)),
      refl,
    )
