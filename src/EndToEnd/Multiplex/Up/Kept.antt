-- ===== src/EndToEnd/Multiplex/Up/Kept.antt =====
-- What the target of a connection that shares its channel gets: pool.go and websocket_server.go.
use tunnel.Prelude.{
  ℕ, Bytes, true, List, [], ◌∷◌, ◌++◌, ◌≡◌, refl, sym, ap, ◌∙◌, some, ==_iff, subst, get_elem?,
  arith, inl, inr, append_assoc, bytes_eq_refl, bytes_eq_iff, append-nil,
}
use tunnel.Prelude.Map.{lookup, bytes_key}
use tunnel.Text.{Lacks}
use tunnel.Wire.{Frame, data_message}
use tunnel.Wire.RoundTrip.{read_request-data}
use tunnel.Server.Request.{Request, stream, read_request}
use tunnel.Server.Isolation.{Concerns}
use tunnel.Server.Tcp.{save_tcp, forget_tcp}
use tunnel.Server.Steps.{forget_udp}
use tunnel.Pool.State.{Pool}
use tunnel.Pool.Send.{send_data}
use tunnel.Pool.Binding.{Step-bound}
use tunnel.EndToEnd.Upstream.{send_data-bound}
use tunnel.EndToEnd.Opening.{frames_on}
use tunnel.EndToEnd.Multiplex.{
  written, chunk, carried, HasOnly, insert-IsSole, erase-IsSole, grown, passed,
}
use tunnel.EndToEnd.Multiplex.Served.{IsOwn, written-append, handle_frame-HasOnly}
use tunnel.EndToEnd.Multiplex.Up.{
  Channel, Step, reads, sends, turns, serves, saves, forgets, forgets_udp, Reach, here, next,
  Opened,
}

abbrev AllOwn : Bytes → List Frame → Type 0
AllOwn id [] = Unit {0}
AllOwn id (f ∷ frames) = IsOwn id f × AllOwn id frames

AllOwn-append : (id : Bytes) (a b : List Frame) → AllOwn id a → AllOwn id b → AllOwn id (a ++ b)
AllOwn-append id [] b h k = k
AllOwn-append id (f ∷ a) b h k = (h.0, AllOwn-append id a b h.1 k)

carried-append :
    (id : Bytes) (a b : List Frame) → carried id (a ++ b) ≡ carried id a ++ carried id b
unfolding carried
carried-append id [] b = refl
carried-append id (f ∷ a) b =
    ap (◌++◌ (chunk id (read_request f))) (carried-append id a b)
    ∙ sym (append_assoc (chunk id (read_request f)) (carried id a) (carried id b))

-- What holds of the channel of `id`: it is bound, its target is dialled, and what the target was given
-- and what is on its way is what the local connection gave.
record Inv {Addr : Type 0} (id : Bytes) (i ws d : ℕ) (c : Channel Addr) : Type 0 where
  bound : lookup id c.pool.channel_map ≡ some i
  socket : get_elem? c.pool.ws_conns i ≡ some (some ws)
  only : HasOnly id d c.server
  own : AllOwn id c.frames
  stream : written d c.effects ++ carried id c.frames ≡ c.given

Opened-Inv :
    {Addr : Type 0} (id : Bytes) (i ws d : ℕ) (c : Channel Addr)
    → Opened id i ws d c
    → Inv id i ws d c
unfolding carried written
Opened-Inv id i ws d c o = record {
  bound = o.bound;
  socket = o.socket;
  only = o.only;
  own = subst (AllOwn id) (sym o.frames) _;
  stream =
      ap (λ l. written d l ++ carried id c.frames) o.effects
      ∙ ap (carried id) o.frames
      ∙ sym o.given;
}

module _ (id : Bytes) (h : Lacks b'|' id) where
  read_request-own : (b : Bytes) → read_request (data_message id b) ≡ stream id b
  read_request-own b = read_request-data id h b

  carried-data : (b : Bytes) → carried id (data_message id b ∷ []) ≡ b ∷ []
  unfolding carried chunk
  carried-data b = rw (read_request-own b, bytes_eq_refl id)

  frames_on-data :
      (i ws : ℕ) (b : Bytes) (p : Pool)
      → lookup id p.channel_map ≡ some i
      → get_elem? p.ws_conns i ≡ some (some ws)
      → frames_on ws (send_data id b true p).0 ≡ data_message id b ∷ []
  unfolding frames_on
  frames_on-data i ws b p c e = rw (send_data-bound id b i ws p c e, (==_iff ws ws).1 refl)

chunk-other : (id : Bytes) (r : Request) → ¬ Concerns r id → chunk id r ≡ []
unfolding chunk
chunk-other id (stream k b) n = ground (arith, bytes_eq_iff k id)
chunk-other id _ n = refl

module _ {Addr : Type 0} (id : Bytes) (i ws d : ℕ) (h : Lacks b'|' id) where
  Step-Inv : (b c : Channel Addr) → Step id i ws d b c → Inv id i ws d b → Inv id i ws d c
  unfolding carried forget_udp save_tcp forget_tcp
  Step-Inv b c (reads x) v = record {
    bound = v.bound;
    socket = v.socket;
    only = v.only;
    own =
        subst (λ l. AllOwn id (b.frames ++ l))
          (sym (frames_on-data id h i ws x b.pool v.bound v.socket))
          (AllOwn-append id b.frames (data_message id x ∷ []) v.own
            (inl (x, read_request-own id h x), _));
    stream =
        grown (written d b.effects) (carried id b.frames) (x ∷ [])
          (carried-append id b.frames _
            ∙ ap (λ l. carried id b.frames ++ carried id l)
                (frames_on-data id h i ws x b.pool v.bound v.socket)
            ∙ ap (◌++◌ (carried id b.frames)) (carried-data id h x))
          v.stream;
  }
  Step-Inv b c (sends f n) v = record {
    bound = v.bound;
    socket = v.socket;
    only = v.only;
    own = AllOwn-append id b.frames (f ∷ []) v.own (inr n, _);
    stream =
        ap (◌++◌ (written d b.effects)) (
          carried-append id b.frames (f ∷ [])
          ∙ ap (λ l. carried id b.frames ++ (l ++ [])) (chunk-other id (read_request f) n)
          ∙ append-nil (carried id b.frames))
        ∙ v.stream;
  }
  Step-Inv b c (turns st n e) v = record {
    bound = Step-bound id i st v.bound n;
    socket = e;
    only = v.only;
    own = v.own;
    stream = v.stream;
  }
  Step-Inv b c (serves net f rest e) v =
      let (own, rest_own) = subst (AllOwn id) e v.own in
      let (only, wrote) = handle_frame-HasOnly net f id d b.server own v.only in
      record {
        bound = v.bound;
        socket = v.socket;
        only = only;
        own = rest_own;
        stream =
            passed (written d b.effects) (chunk id (read_request f)) (carried id rest)
              (written-append d b.effects _ ∙ ap (◌++◌ (written d b.effects)) wrote)
              (sym (ap (λ l. written d b.effects ++ carried id l) e) ∙ v.stream);
      }
  Step-Inv b c (saves k e n m) v = record {
    bound = v.bound;
    socket = v.socket;
    own = v.own;
    stream = v.stream;
    only = insert-IsSole id k d e b.server.conns n m v.only;
  }
  Step-Inv b c (forgets k n) v = record {
    bound = v.bound;
    socket = v.socket;
    own = v.own;
    stream = v.stream;
    only = erase-IsSole id k d b.server.conns n v.only;
  }
  Step-Inv b c (forgets_udp k) v = record {
    bound = v.bound;
    socket = v.socket;
    own = v.own;
    stream = v.stream;
    only = v.only;
  }

  Reach-Inv : {b c : Channel Addr} → Reach id i ws d b c → Inv id i ws d b → Inv id i ws d c
  Reach-Inv here v = v
  Reach-Inv (next r st) v = Step-Inv _ _ st (Reach-Inv r v)

  -- While a connection has its channel and its target is dialled, the bytes that the target was given
  -- and the bytes that are on their way are, in order, the bytes that the local connection gave: after
  -- any number of reads, of frames of other connections on the same channel, of rounds of the server's
  -- loop over them and of regions of the server's other goroutines, and whatever else the pool does that
  -- leaves the channel and its WebSocket to the connection.
  pub Reach-written :
      {b c : Channel Addr}
      → Reach id i ws d b c
      → Opened id i ws d b
      → written d c.effects ++ carried id c.frames ≡ c.given
  Reach-written r o = (Reach-Inv r (Opened-Inv id i ws d _ o)).stream
