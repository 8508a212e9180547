-- ===== src/EndToEnd/Multiplex/Served.antt =====
-- What the server's message loop (websocket_server.go) does to one of its connections.
use tunnel.Prelude.{
  ℕ, Bytes, Bool, true, false, List, [], ◌∷◌, ◌++◌, ◌≡◌, refl, sym, ap, ◌∙◌, Option, none, some,
  ◌==◌, ==_iff, bytes_eq, bytes_eq_iff, if◌then◌else◌, arith, ◌⊎◌, Bool-cases, inl, inr,
}
use tunnel.Prelude.Map.{lookup, bytes_key, lookup-erase}
use tunnel.Wire.{Frame}
use tunnel.Server.Request.{
  Request, udp_datagram, stream, udp_connect, udp_close, claim, tcp, close, ignored, read_request,
}
use tunnel.Server.Handler.{
  Server, Network, Effect, write_tcp, serve, start_udp, stop_udp, stop_tcp, write_both, write_found,
  handle_frame,
}
use tunnel.Server.Isolation.{Concerns, handle_frame-AgreeAt}
use tunnel.EndToEnd.Multiplex.{written, chunk, HasOnly}

-- A frame of another connection, or one with bytes for this one.
abbrev pub IsOwn : Bytes → Frame → Type 0
IsOwn id f = ((b : Bytes) × (read_request f ≡ stream id b)) ⊎ ¬ Concerns (read_request f) id

write_found-written :
    (Addr : Type 0) (d : ℕ) (found : Option ℕ) (b : Bytes) (own : Bool)
    → (own ≡ true → found ≡ some d)
    → (found ≡ some d → own ≡ true)
    → written {Addr = Addr} d (write_found {Addr = Addr} found b) ≡ (if own then b ∷ [] else [])
unfolding written
write_found-written Addr d none b true to from =
    let e : ◌≡◌ {A = Option ℕ} none (some d) = to refl in cc
write_found-written Addr d none b false to from = refl
write_found-written Addr d (some c) b true to from = ground (arith, to refl)
write_found-written Addr d (some c) b false to from = elim (Bool-cases (c == d)) [
  | inl same ↦ absurd (ground (arith, from (ap some ((==_iff c d).0 same))))
  | inr other ↦ rw other
]

module _ {Addr : Type 0} where
  pub written-append :
      (d : ℕ) (a b : List (Effect Addr)) → written d (a ++ b) ≡ written d a ++ written d b
  unfolding written
  written-append d [] b = refl
  written-append d (write_tcp c x ∷ a) b = ground (arith, written-append d a b)
  written-append d (_ ∷ a) b = written-append d a b

  start_udp-written :
      (d : ℕ) (id target : Bytes) (addr : Option Addr) (listener : Option ℕ) (s : Server Addr)
      → written d (start_udp id target addr listener s).1 ≡ []
  unfolding written start_udp
  start_udp-written d id target none listener s = refl
  start_udp-written d id target (some addr) none s = refl
  start_udp-written d id target (some addr) (some uc) s = refl

  stop_udp-written :
      (d : ℕ) (id : Bytes) (found : Option ℕ) (s : Server Addr)
      → written d (stop_udp id found s).1 ≡ []
  unfolding written stop_udp
  stop_udp-written d id none s = refl
  stop_udp-written d id (some uc) s = refl

  stop_tcp-written :
      (d : ℕ) (id : Bytes) (found : Option ℕ) (s : Server Addr)
      → written d (stop_tcp id found s).1 ≡ []
  unfolding written stop_tcp
  stop_tcp-written d id none s = refl
  stop_tcp-written d id (some c) s = refl

  write_both-written :
      (d : ℕ) (uc : Option ℕ) (addr : Option Addr) (b : Bytes)
      → written d (write_both uc addr b) ≡ []
  unfolding written
  write_both-written d (some uc) (some addr) b = refl
  write_both-written d (some uc) none b = refl
  write_both-written d none addr b = refl

  -- A request writes to the socket of a connection just what it carries for this connection.
  pub serve-written :
      (net : Network Addr) (r : Request) (id : Bytes) (d : ℕ) (s : Server Addr)
      → HasOnly id d s
      → written d (serve net r s).1 ≡ chunk id r
  unfolding written serve chunk
  serve-written net (udp_datagram k b) id d s h =
      write_both-written d (lookup k s.udp_conns) (lookup k s.udp_targets) b
  serve-written net (stream k b) id d s h =
      write_found-written Addr d (lookup k s.conns) b (bytes_eq k id)
        (λ e. ap (λ j. lookup j s.conns) ((bytes_eq_iff k id).0 e) ∙ h.0)
        (λ e. (bytes_eq_iff k id).1 (h.1 k e))
  serve-written net (udp_connect k target) id d s h =
      start_udp-written d k target (net.resolve target) net.listen s
  serve-written net (udp_close k) id d s h = stop_udp-written d k (lookup k s.udp_conns) s
  serve-written net (claim k c) id d s h = refl
  serve-written net (tcp k target first) id d s h = refl
  serve-written net (close k) id d s h = stop_tcp-written d k (lookup k s.conns) s
  serve-written net ignored id d s h = refl

  stop_tcp-conns :
      (j k : Bytes) (found : Option ℕ) (c : ℕ) (s : Server Addr)
      → lookup k (stop_tcp j found s).0.conns ≡ some c
      → lookup k s.conns ≡ some c
  unfolding stop_tcp
  stop_tcp-conns j k none c s e = e
  stop_tcp-conns j k (some found) c s e = ground (arith, lookup-erase j k s.conns, e)

  start_udp-conns :
      (id target : Bytes) (addr : Option Addr) (listener : Option ℕ) (s : Server Addr)
      → (start_udp id target addr listener s).0.conns ≡ s.conns
  unfolding start_udp
  start_udp-conns id target none listener s = refl
  start_udp-conns id target (some addr) none s = refl
  start_udp-conns id target (some addr) (some uc) s = refl

  stop_udp-conns :
      (id : Bytes) (found : Option ℕ) (s : Server Addr) → (stop_udp id found s).0.conns ≡ s.conns
  unfolding stop_udp
  stop_udp-conns id none s = refl
  stop_udp-conns id (some uc) s = refl

  -- The loop itself gives no connection a socket.
  serve-conns :
      (net : Network Addr) (r : Request) (k : Bytes) (c : ℕ) (s : Server Addr)
      → lookup k (serve net r s).0.conns ≡ some c
      → lookup k s.conns ≡ some c
  unfolding serve
  serve-conns net (udp_datagram j b) k c s e = e
  serve-conns net (stream j b) k c s e = e
  serve-conns net (udp_connect j target) k c s e =
      sym (ap (lookup k) (start_udp-conns j target (net.resolve target) net.listen s)) ∙ e
  serve-conns net (udp_close j) k c s e =
      sym (ap (lookup k) (stop_udp-conns j (lookup j s.udp_conns) s)) ∙ e
  serve-conns net (claim j channel) k c s e = e
  serve-conns net (tcp j target first) k c s e = e
  serve-conns net (close j) k c s e = stop_tcp-conns j k (lookup j s.conns) c s e
  serve-conns net ignored k c s e = e

  handle_frame-conns :
      (net : Network Addr) (f : Frame) (id : Bytes) (s : Server Addr)
      → IsOwn id f
      → lookup id (handle_frame net f s).0.conns ≡ lookup id s.conns
  unfolding handle_frame serve
  handle_frame-conns net f id s (inl (b, e)) = rw e
  handle_frame-conns net f id s (inr other) = (handle_frame-AgreeAt net f id s other).0

  -- The connection keeps its socket, and gets just what the frame carries for it.
  pub handle_frame-HasOnly :
      (net : Network Addr) (f : Frame) (id : Bytes) (d : ℕ) (s : Server Addr)
      → IsOwn id f
      → HasOnly id d s
      → HasOnly id d (handle_frame net f s).0
        × (written d (handle_frame net f s).1 ≡ chunk id (read_request f))
  unfolding handle_frame
  handle_frame-HasOnly net f id d s own (e, only) = (
    (
      handle_frame-conns net f id s own ∙ e,
      λ k h. only k (serve-conns net (read_request f) k d s h),
    ),
    serve-written net (read_request f) id d s (e, only),
  )
