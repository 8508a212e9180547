-- ===== src/EndToEnd/Multiplex/Shown.antt =====
-- What the client's channel loop (pool.go) writes to one of its connections.
use tunnel.Prelude.{
  ℕ, Bytes, Bool, true, false, List, [], ◌∷◌, ◌++◌, ◌≡◌, ◌≢◌, refl, subst, sym, ap, ◌∙◌, Option,
  none, some, ==_iff, bytes_eq_iff, bytes_eq_refl, arith, ◌⊎◌, inl, inr,
}
use tunnel.Prelude.Map.{lookup, bytes_key, nat_eq}
use tunnel.Wire.{Frame}
use tunnel.Pool.State.{Pool, Info, Effect, write_tcp, signal}
use tunnel.Pool.Reply.{
  Reply, udp_packet, stream, raw, udp_connected, claim_ack, connected, closed, ignored, read_reply,
}
use tunnel.Pool.Claim
use tunnel.Pool.Claim.{claim_acked, bind_channel, unbind_channel, request_channel}
use tunnel.Pool.Channel.{
  handle_frame, handle_reply, deliver, respond, close_found, forget_tcp, peer_closed,
}
use tunnel.EndToEnd.Multiplex.{shown, part, HasLocal, erase-IsSole}
use tunnel.EndToEnd.Multiplex.Handled.{IsApart, same-HasLocal, bind_channel-tcp_map, signal-tcp_map}

-- A frame of another connection, or one with bytes for this one that it takes.
abbrev pub IsTaken : Bytes → Bool → Frame → Type 0
IsTaken id taken f =
    ((b : Bytes) × (read_reply f ≡ stream id b) × (taken ≡ true)) ⊎ IsApart (read_reply f) id

pub shown-append : (c : ℕ) (a b : List Effect) → shown c (a ++ b) ≡ shown c a ++ shown c b
unfolding shown
shown-append c [] b = refl
shown-append c (write_tcp e x ∷ a) b = ground (arith, shown-append c a b)
shown-append c (_ ∷ a) b = shown-append c a b

respond-shown : (c : ℕ) (assoc : Option ℕ) (addr b : Bytes) → shown c (respond assoc addr b) ≡ []
unfolding shown
respond-shown c none addr b = refl
respond-shown c (some a) addr b = refl

close_found-shown : (c : ℕ) (found : Option ℕ) → shown c (close_found found) ≡ []
unfolding shown
close_found-shown c none = refl
close_found-shown c (some e) = refl

unbound-shown : (c : ℕ) (found : Option ℕ) → shown c (Claim.close_found found) ≡ []
unfolding shown
unbound-shown c none = refl
unbound-shown c (some e) = refl

-- Nothing of the connection `id` is touched.
abbrev Spares : Bytes → ℕ → Pool × List Effect → Type 0
Spares id c (q, effects) = HasLocal id c q × (shown c effects ≡ [])

deliver-Spares :
    (k b : Bytes) (taken : Bool) (found : Option ℕ) (id : Bytes) (c : ℕ) (p : Pool)
    → k ≢ id
    → ¬ (found ≡ some c)
    → HasLocal id c p
    → Spares id c (deliver k b taken found p)
unfolding shown forget_tcp
deliver-Spares k b taken none id c p n m h = (h, refl)
deliver-Spares k b true (some e) id c p n m h = (h, ground (arith, m))
deliver-Spares k b false (some e) id c p n m h =
    (erase-IsSole id k c p.tcp_map n h, ground (arith, m))

request_channel-Spares :
    (i ws : ℕ) (k : Bytes) (taken : Bool) (found : Option (Info × Pool)) (id : Bytes) (c : ℕ)
    (p : Pool)
    → k ≢ id
    → ((info : Info) (q : Pool) → found ≡ some (info, q) → q.tcp_map ≡ p.tcp_map)
    → HasLocal id c p
    → Spares id c (request_channel i ws k taken found p)
unfolding shown unbind_channel
request_channel-Spares i ws k taken none id c p n e h = (h, refl)
request_channel-Spares i ws k true (some (info, q)) id c p n e h =
    (same-HasLocal id c p q (e info q refl) h, refl)
request_channel-Spares i ws k false (some (info, q)) id c p n e h = (
  erase-IsSole id k c q.tcp_map n (same-HasLocal id c p q (e info q refl) h),
  unbound-shown c (lookup k q.tcp_map),
)

handle_reply-Spares :
    (i ws : ℕ) (taken : Bool) (r : Reply) (id : Bytes) (c : ℕ) (p : Pool)
    → IsApart r id
    → HasLocal id c p
    → Spares id c (handle_reply i ws taken r p)
unfolding handle_reply claim_acked peer_closed shown
handle_reply-Spares i ws taken (udp_packet k addr b) id c p n h =
    (h, respond-shown c (lookup k p.udp_map) addr b)
handle_reply-Spares i ws taken (stream k b) id c p n h =
    deliver-Spares k b taken (lookup k p.tcp_map) id c p n (λ e. n (h.1 k e)) h
handle_reply-Spares i ws taken (raw msg) id c p n h = absurd n
handle_reply-Spares i ws taken (udp_connected k) id c p n h =
    (same-HasLocal id c p (signal k p) (signal-tcp_map k p) h, refl)
handle_reply-Spares i ws taken (connected k) id c p n h =
    (same-HasLocal id c p (signal k p) (signal-tcp_map k p) h, refl)
handle_reply-Spares i ws taken (claim_ack k) id c p n h =
    request_channel-Spares i ws k taken (bind_channel i k p) id c p n
      (λ info q e. bind_channel-tcp_map i k info p q e) h
handle_reply-Spares i ws taken (closed k) id c p n h =
    (erase-IsSole id k c p.tcp_map n h, close_found-shown c (lookup k p.tcp_map))
handle_reply-Spares i ws taken ignored id c p n h = (h, refl)

pub part-Apart : (r : Reply) (id : Bytes) → IsApart r id → part id r ≡ []
unfolding part
part-Apart (stream k b) id n = ground (arith, bytes_eq_iff k id)
part-Apart (udp_packet k a b) id n = refl
part-Apart (raw msg) id n = refl
part-Apart (udp_connected k) id n = refl
part-Apart (claim_ack k) id n = refl
part-Apart (connected k) id n = refl
part-Apart (closed k) id n = refl
part-Apart ignored id n = refl

shown-own : (c : ℕ) (b : Bytes) → shown c (write_tcp c b ∷ []) ≡ b ∷ []
unfolding shown
shown-own c b = rw ((==_iff c c).1 refl)

pub part-own : (id b : Bytes) → part id (stream id b) ≡ b ∷ []
unfolding part
part-own id b = rw (bytes_eq_refl id)

handle_frame-own :
    (i ws : ℕ) (taken : Bool) (f : Frame) (id b : Bytes) (c : ℕ) (p : Pool)
    → read_reply f ≡ stream id b
    → taken ≡ true
    → lookup id p.tcp_map ≡ some c
    → handle_frame i ws taken f p ≡ (p, write_tcp c b ∷ [])
unfolding handle_frame handle_reply
handle_frame-own i ws taken f id b c p e t h = rw (e, t, h)

-- The local connection stays, and is written just what the frame carries for it.
pub handle_frame-HasLocal :
    (i ws : ℕ) (taken : Bool) (f : Frame) (id : Bytes) (c : ℕ) (p : Pool)
    → IsTaken id taken f
    → HasLocal id c p
    → HasLocal id c (handle_frame i ws taken f p).0
      × (shown c (handle_frame i ws taken f p).1 ≡ part id (read_reply f))
unfolding handle_frame
handle_frame-HasLocal i ws taken f id c p (inl (b, e, t)) h =
    let own = handle_frame-own i ws taken f id b c p e t h.0 in
    (
      subst (HasLocal id c) (sym (ap (λ x. x.0) own)) h,
      ap (λ x. shown c x.1) own ∙ shown-own c b ∙ sym (ap (part id) e ∙ part-own id b),
    )
handle_frame-HasLocal i ws taken f id c p (inr apart) h =
    let (kept, quiet) = handle_reply-Spares i ws taken (read_reply f) id c p apart h in
    (kept, quiet ∙ sym (part-Apart (read_reply f) id apart))
