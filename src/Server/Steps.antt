-- ===== src/Server/Steps.antt =====
-- The server's shared state under every interleaving of its goroutines: one step for each region
-- that websocket_server.go runs under `connMu`.
use tunnel.Prelude.{
  Bytes, Bool, true, false, [], ◌∷◌, ◌≡◌, refl, Option, none, some, arith, Option-cases, inl, inr,
  ℕ,
}
use tunnel.Prelude.Map.{lookup, erase, bytes_key, lookup-insert, lookup-erase}
use tunnel.Text.{Lacks}
use tunnel.Wire.{Frame, udp_data_message}
use tunnel.Wire.RoundTrip.{read_request-udp_data}
use tunnel.Server.Request.{
  Request, udp_datagram, stream, udp_connect, udp_close, claim, tcp, close, ignored, read_request,
}
use tunnel.Server.Handler.{
  Server, Network, write_udp, initial, serve, start_udp, stop_udp, stop_tcp, handle_frame, cleanup,
}
use tunnel.Server.Tcp.{save_tcp, forget_tcp}

abbrev pub is_some : {V : Type 0} → Option V → Bool
is_some none = false
is_some (some v) = true

module _ {Addr : Type 0} where
  -- The deferred function of the UDP receive goroutine.
  unfoldable pub forget_udp : Bytes → Server Addr → Server Addr
  unfolding erase
  forget_udp id s = record s {
    udp_conns = erase id s.udp_conns;
    udp_targets = erase id s.udp_targets;
  }

  -- A frame arrives, a TCP goroutine saves or forgets its connection, a UDP goroutine forgets its
  -- socket, or the message loop returns. The network may answer differently each time.
  pub data Step (s : Server Addr) : Server Addr → Type 0 where
    frame : (net : Network Addr) (f : Frame) → Step s (handle_frame net f s).0
    saves : (id : Bytes) (c : ℕ) → Step s (save_tcp id c s)
    forgets_tcp : (id : Bytes) → Step s (forget_tcp id s)
    forgets_udp : (id : Bytes) → Step s (forget_udp id s)
    returns : Step s (cleanup s).0

  pub data Reach (s : Server Addr) : Server Addr → Type 0 where
    here : Reach s s
    next : {t u : Server Addr} → Reach s t → Step t u → Reach s u

  -- An id has a socket exactly when it has a target.
  abbrev pub IsPaired : Server Addr → Type 0
  IsPaired s = (id : Bytes) → is_some (lookup id s.udp_conns) ≡ is_some (lookup id s.udp_targets)

  forget-IsPaired : (id : Bytes) (s : Server Addr) → IsPaired s → IsPaired (forget_udp id s)
  unfolding forget_udp
  forget-IsPaired id s p j =
      ground (arith, lookup-erase id j s.udp_conns, lookup-erase id j s.udp_targets, p j)

  start_udp-IsPaired :
      (id target : Bytes) (addr : Option Addr) (listener : Option ℕ) (s : Server Addr)
      → IsPaired s
      → IsPaired (start_udp id target addr listener s).0
  unfolding start_udp
  start_udp-IsPaired id target none listener s p j = p j
  start_udp-IsPaired id target (some addr) none s p j = p j
  start_udp-IsPaired id target (some addr) (some uc) s p j =
      ground (arith, lookup-insert id j uc s.udp_conns, lookup-insert id j addr s.udp_targets, p j)

  stop_udp-IsPaired :
      (id : Bytes) (found : Option ℕ) (s : Server Addr)
      → IsPaired s
      → IsPaired (stop_udp id found s).0
  unfolding stop_udp
  stop_udp-IsPaired id none s p = p
  stop_udp-IsPaired id (some uc) s p = unfold forget_udp in forget-IsPaired id s p

  stop_tcp-IsPaired :
      (id : Bytes) (found : Option ℕ) (s : Server Addr)
      → IsPaired s
      → IsPaired (stop_tcp id found s).0
  unfolding stop_tcp
  stop_tcp-IsPaired id none s p = p
  stop_tcp-IsPaired id (some c) s p = p

  serve-IsPaired :
      (net : Network Addr) (r : Request) (s : Server Addr) → IsPaired s → IsPaired (serve net r s).0
  unfolding serve
  serve-IsPaired net (udp_datagram id payload) s p = p
  serve-IsPaired net (stream id payload) s p = p
  serve-IsPaired net (udp_connect id target) s p = start_udp-IsPaired id target _ _ s p
  serve-IsPaired net (udp_close id) s p = stop_udp-IsPaired id _ s p
  serve-IsPaired net (claim id channel) s p = p
  serve-IsPaired net (tcp id target first) s p = p
  serve-IsPaired net (close id) s p = stop_tcp-IsPaired id _ s p
  serve-IsPaired net ignored s p = p

  Step-IsPaired : {s t : Server Addr} → IsPaired s → Step s t → IsPaired t
  unfolding handle_frame save_tcp forget_tcp cleanup initial
  Step-IsPaired {s} p (frame net f) = serve-IsPaired net (read_request f) s p
  Step-IsPaired p (saves id c) = p
  Step-IsPaired p (forgets_tcp id) = p
  Step-IsPaired {s} p (forgets_udp id) = forget-IsPaired id s p
  Step-IsPaired p returns = λ id. refl

  Reach-IsPaired : {s t : Server Addr} → IsPaired s → Reach s t → IsPaired t
  Reach-IsPaired p here = p
  Reach-IsPaired p (next r st) = Step-IsPaired (Reach-IsPaired p r) st

  datagram_written :
      (net : Network Addr) (id payload : Bytes) (uc : ℕ) (s : Server Addr)
      → IsPaired s
      → lookup id s.udp_conns ≡ some uc
      → (addr : Addr) × (lookup id s.udp_targets ≡ some addr)
        × (serve net (udp_datagram id payload) s ≡ (s, write_udp uc payload addr ∷ []))
  unfolding serve
  datagram_written net id payload uc s p e = elim (Option-cases (lookup id s.udp_targets)) [
    | inl missing ↦ absurd (ground (arith, p id))
    | inr (addr, found) ↦ (addr, found, ground arith)
  ]

-- However the goroutines of a connection interleave and whatever the network answers, an id that
-- has a UDP socket has a target too, so a UDP_DATA frame for it is written once, unchanged, to that
-- target, and leaves the state as it was.
pub Reach-datagram :
    {Addr : Type 0} {s : Server Addr} (net : Network Addr) (id payload : Bytes) (uc : ℕ)
    → Lacks b'|' id
    → Reach initial s
    → lookup id s.udp_conns ≡ some uc
    → (addr : Addr) × (lookup id s.udp_targets ≡ some addr)
      × (handle_frame net (udp_data_message id payload) s ≡ (s, write_udp uc payload addr ∷ []))
unfolding handle_frame initial lookup
Reach-datagram {s} net id payload uc h r e =
    rw (read_request-udp_data id h payload)
      (datagram_written net id payload uc s (Reach-IsPaired (λ j. refl) r) e)
