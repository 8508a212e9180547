-- ===== src/Local/Course.antt =====
-- The course of a local connection to its end, and what the server makes of it.
use tunnel.Prelude.{
  ℕ, Bytes, true, List, [], ◌∷◌, ◌++◌, ◌≡◌, refl, ap, ◌∙◌, Option, none, some, arith, map,
  get_elem?,
}
use tunnel.Prelude.Map.{lookup, erase, bytes_key}
use tunnel.Text.{Lacks}
use tunnel.Wire.{Frame, data_message, close_message}
use tunnel.Wire.RoundTrip.{read_request-close}
use tunnel.Server.Handler
use tunnel.Server.Handler.{Server, Network, handle_frame, serve}
use tunnel.Pool.State.{Pool, Effect, write_ws, write_tcp, close_tcp, socket_of-bound}
use tunnel.Pool.Send.{send_data, send_close}
use tunnel.EndToEnd.Upstream.{serve_frames, handle_frame-data}
use tunnel.Local.{
  Caller, success_reply, Read, failed, received, read_loop, forget, finish, with_reply, carry,
}

-- The rounds of a connection that gives these chunks and then ends.
abbrev pub rounds_of : List Bytes → List Read
rounds_of [] = failed ∷ []
rounds_of (b ∷ chunks) = received b true ∷ rounds_of chunks

abbrev pub reply_effects : Option Bytes → ℕ → List Effect
reply_effects none conn = []
reply_effects (some reply) conn = write_tcp conn reply ∷ []

pub send_data-taken :
    (id b : Bytes) (i ws : ℕ) (p : Pool)
    → lookup id p.channel_map ≡ some i
    → get_elem? p.ws_conns i ≡ some (some ws)
    → send_data id b true p ≡ (write_ws ws (data_message id b) ∷ [], none)
unfolding send_data
send_data-taken id b i ws p c e = rw (socket_of-bound id i ws p c e)

send_close-taken :
    (id : Bytes) (i ws : ℕ) (p : Pool)
    → lookup id p.channel_map ≡ some i
    → get_elem? p.ws_conns i ≡ some (some ws)
    → (send_close id true p).0 ≡ write_ws ws (close_message id) ∷ []
unfolding send_close
send_close-taken id i ws p c e = ground arith

read_loop-rounds_of :
    (id : Bytes) (i ws : ℕ) (p : Pool) (chunks : List Bytes)
    → lookup id p.channel_map ≡ some i
    → get_elem? p.ws_conns i ≡ some (some ws)
    → read_loop id p (rounds_of chunks) ≡ (map (write_ws ws) (map (data_message id) chunks), true)
unfolding read_loop
read_loop-rounds_of id i ws p [] c e = refl
read_loop-rounds_of id i ws p (b ∷ chunks) c e =
    rw (send_data-taken id b i ws p c e, read_loop-rounds_of id i ws p chunks c e)

with_reply-true :
    (o : Option Bytes) (conn : ℕ) (p q : Pool) (effects : List Effect)
    → with_reply o conn true p (q, effects) ≡ (q, reply_effects o conn ++ effects)
with_reply-true none conn p q effects = refl
with_reply-true (some reply) conn p q effects = refl

close_last :
    (ws : ℕ) (frames : List Frame) (f : Frame) (last : List Effect)
    → map (write_ws ws) frames ++ (write_ws ws f ∷ last)
      ≡ map (write_ws ws) (frames ++ f ∷ []) ++ last
close_last ws [] f last = refl
close_last ws (g ∷ frames) f last = ap (◌∷◌ (write_ws ws g)) (close_last ws frames f last)

-- The frames of a connection that gives these chunks and then ends.
abbrev pub frames_of : Bytes → List Bytes → List Frame
frames_of id chunks = map (data_message id) chunks ++ close_message id ∷ []

carry-rounds_of :
    (caller : Caller) (id : Bytes) (conn i ws : ℕ) (p : Pool) (chunks : List Bytes)
    → lookup id p.channel_map ≡ some i
    → get_elem? p.ws_conns i ≡ some (some ws)
    → carry caller id conn true true (rounds_of chunks) p ≡ (
      forget caller id p,
      reply_effects (success_reply caller) conn
          ++ (map (write_ws ws) (frames_of id chunks) ++ close_tcp conn ∷ []),
    )
unfolding carry
carry-rounds_of caller id conn i ws p chunks c e =
    let data_frames = map (write_ws ws) (map (data_message id) chunks) in
    ap (λ l. with_reply (success_reply caller) conn true p (finish caller id conn true p l))
      (read_loop-rounds_of id i ws p chunks c e)
    ∙ ap
        (λ l.
          with_reply (success_reply caller) conn true p
            (forget caller id p, data_frames ++ (l ++ close_tcp conn ∷ [])))
        (send_close-taken id i ws p c e)
    ∙ ap (λ l. with_reply (success_reply caller) conn true p (forget caller id p, l))
        (close_last ws (map (data_message id) chunks) (close_message id) (close_tcp conn ∷ []))
    ∙ with_reply-true (success_reply caller) conn p (forget caller id p) _

handle_frame-close :
    {Addr : Type 0} (net : Network Addr) (id : Bytes) (d : ℕ) (s : Server Addr)
    → lookup id s.conns ≡ some d
    → handle_frame net (close_message id) s
      ≡ (record s { conns = erase id s.conns }, Handler.close_tcp d ∷ [])
unfolding handle_frame
handle_frame-close net id d s e = rw (read_request-close id, serve, e)

serve_frames-frames_of :
    {Addr : Type 0} (net : Network Addr) (id : Bytes) (d : ℕ) (s : Server Addr)
    (chunks : List Bytes)
    → Lacks b'|' id
    → lookup id s.conns ≡ some d
    → serve_frames net (frames_of id chunks) s ≡ (
      record s { conns = erase id s.conns },
      map (Handler.write_tcp d) chunks ++ Handler.close_tcp d ∷ [],
    )
unfolding serve_frames
serve_frames-frames_of net id d s [] h e = rw (handle_frame-close net id d s e)
serve_frames-frames_of net id d s (b ∷ chunks) h e =
    rw (handle_frame-data net id b d s h e, serve_frames-frames_of net id d s chunks h e)

-- A connected session whose connection gives chunks and then ends, with every frame written: the
-- client gets its reply first, the server writes just these chunks to the target, in order, then
-- both ends are closed. The pool's entry in tcpMap is deleted, but for the forwarder's, and the
-- server's entry for the target.
pub carry-serve_frames :
    {Addr : Type 0} (net : Network Addr) (caller : Caller) (id : Bytes) (conn i ws d : ℕ) (p : Pool)
    (s : Server Addr) (chunks : List Bytes)
    → Lacks b'|' id
    → lookup id p.channel_map ≡ some i
    → get_elem? p.ws_conns i ≡ some (some ws)
    → lookup id s.conns ≡ some d
    → (frames : List Frame) × (carry caller id conn true true (rounds_of chunks) p ≡ (
      forget caller id p,
      reply_effects (success_reply caller) conn
          ++ (map (write_ws ws) frames ++ close_tcp conn ∷ []),
    ))
      × (serve_frames net frames s ≡ (
        record s { conns = erase id s.conns },
        map (Handler.write_tcp d) chunks ++ Handler.close_tcp d ∷ [],
      ))
carry-serve_frames net caller id conn i ws d p s chunks h c e k = (
  frames_of id chunks,
  carry-rounds_of caller id conn i ws p chunks c e,
  serve_frames-frames_of net id d s chunks h k,
)
