-- ===== src/EndToEnd/Multiplex/Down/Kept.antt =====
-- What the client of a connection that shares its channel gets: websocket_server.go and pool.go.
use tunnel.Prelude.{
  ℕ, Bytes, Bool, true, List, [], ◌∷◌, ◌++◌, ◌≡◌, refl, sym, ap, ◌∙◌, subst, ◌⊎◌, inl, inr,
  append_assoc, append-nil,
}
use tunnel.Text.{Lacks}
use tunnel.Wire.{Frame, tcp_data_message}
use tunnel.Wire.Replies.{read_reply-tcp_data}
use tunnel.Server.Tcp.{received, relay}
use tunnel.Pool.Reply.{stream, read_reply}
use tunnel.EndToEnd.Downstream.{sent}
use tunnel.EndToEnd.Multiplex.{shown, part, coming, HasLocal, grown, passed}
use tunnel.EndToEnd.Multiplex.Handled.{IsApart, Step-HasLocal}
use tunnel.EndToEnd.Multiplex.Shown.{
  IsTaken, shown-append, part-Apart, part-own, handle_frame-HasLocal,
}
use tunnel.EndToEnd.Multiplex.Down.{
  Channel, Step, relays, sends, handles, turns, Reach, here, next, Opened,
}

-- A frame with bytes for the connection, or one that is not about it.
abbrev IsOurs : Bytes → Frame → Type 0
IsOurs id f = ((b : Bytes) × (read_reply f ≡ stream id b)) ⊎ IsApart (read_reply f) id

abbrev AllOurs : Bytes → List Frame → Type 0
AllOurs id [] = Unit {0}
AllOurs id (f ∷ frames) = IsOurs id f × AllOurs id frames

-- What holds: the connection has its local connection, and what this was written and what is on its way
-- is what the target gave.
record Inv (id : Bytes) (c : ℕ) (s : Channel) : Type 0 where
  local : HasLocal id c s.pool
  ours : AllOurs id s.frames
  stream : shown c s.effects ++ coming id s.frames ≡ s.given

AllOurs-append : (id : Bytes) (a b : List Frame) → AllOurs id a → AllOurs id b → AllOurs id (a ++ b)
AllOurs-append id [] b h k = k
AllOurs-append id (f ∷ a) b h k = (h.0, AllOurs-append id a b h.1 k)

coming-append : (id : Bytes) (a b : List Frame) → coming id (a ++ b) ≡ coming id a ++ coming id b
unfolding coming
coming-append id [] b = refl
coming-append id (f ∷ a) b =
    ap (◌++◌ (part id (read_reply f))) (coming-append id a b)
    ∙ sym (append_assoc (part id (read_reply f)) (coming id a) (coming id b))

Opened-Inv : (id : Bytes) (c : ℕ) (s : Channel) → Opened id c s → Inv id c s
unfolding coming shown
Opened-Inv id c s o = record {
  local = o.local;
  ours = subst (AllOurs id) (sym o.frames) _;
  stream =
      ap (λ l. shown c l ++ coming id s.frames) o.effects ∙ ap (coming id) o.frames ∙ sym o.given;
}

sent-relay :
    (Addr : Type 0) (id b : Bytes) (d : ℕ)
    → sent (relay {Addr = Addr} id d (received b true ∷ [])).0 ≡ tcp_data_message id b ∷ []
unfolding sent relay
sent-relay Addr id b d = refl

IsOurs-IsTaken :
    (id : Bytes) (taken : Bool) (f : Frame)
    → IsOurs id f
    → ((b : Bytes) → read_reply f ≡ stream id b → taken ≡ true)
    → IsTaken id taken f
IsOurs-IsTaken id taken f (inl (b, e)) t = inl (b, e, t b e)
IsOurs-IsTaken id taken f (inr apart) t = inr apart

coming-data :
    (id : Bytes) → Lacks b'|' id → (b : Bytes) → coming id (tcp_data_message id b ∷ []) ≡ b ∷ []
unfolding coming
coming-data id h b =
    ap (λ r. part id r ++ []) (read_reply-tcp_data id h b) ∙ ap (λ l. l ++ []) (part-own id b)

module _ (Addr : Type 0) (id : Bytes) (i ws c d : ℕ) (h : Lacks b'|' id) where
  Step-Inv : (s t : Channel) → Step Addr id i ws c d s t → Inv id c s → Inv id c t
  unfolding coming
  Step-Inv s t (relays b) v = record {
    local = v.local;
    ours =
        subst (λ l. AllOurs id (s.frames ++ l)) (sym (sent-relay Addr id b d))
          (AllOurs-append id s.frames (tcp_data_message id b ∷ []) v.ours
            (inl (b, read_reply-tcp_data id h b), _));
    stream =
        grown (shown c s.effects) (coming id s.frames) (b ∷ [])
          (coming-append id s.frames _
            ∙ ap (λ l. coming id s.frames ++ coming id l) (sent-relay Addr id b d)
            ∙ ap (◌++◌ (coming id s.frames)) (coming-data id h b))
          v.stream;
  }
  Step-Inv s t (sends f apart) v = record {
    local = v.local;
    ours = AllOurs-append id s.frames (f ∷ []) v.ours (inr apart, _);
    stream =
        ap (◌++◌ (shown c s.effects)) (
          coming-append id s.frames (f ∷ [])
          ∙ ap (λ l. coming id s.frames ++ (l ++ [])) (part-Apart (read_reply f) id apart)
          ∙ append-nil (coming id s.frames))
        ∙ v.stream;
  }
  Step-Inv s t (handles taken f rest e by) v =
      let (first, others) = subst (AllOurs id) e v.ours in
      let (local, wrote) =
        handle_frame-HasLocal i ws taken f id c s.pool (IsOurs-IsTaken id taken f first by)
          v.local in
      record {
        local = local;
        ours = others;
        stream =
            passed (shown c s.effects) (part id (read_reply f)) (coming id rest)
              (shown-append c s.effects _ ∙ ap (◌++◌ (shown c s.effects)) wrote)
              (sym (ap (λ l. shown c s.effects ++ coming id l) e) ∙ v.stream);
      }
  Step-Inv s t (turns st n) v = record {
    local = Step-HasLocal id c st n v.local;
    ours = v.ours;
    stream = v.stream;
  }

  Reach-Inv : {s t : Channel} → Reach Addr id i ws c d s t → Inv id c s → Inv id c t
  Reach-Inv here v = v
  Reach-Inv (next r st) v = Step-Inv _ _ st (Reach-Inv r v)

  -- While a connection is in the pool, the bytes that its local connection was written and the bytes that
  -- are on their way are, in order, the bytes that its target gave: after any number of rounds of the
  -- read goroutine of the target, of frames of other connections on the same channel, of rounds of the
  -- client's loop over them, whatever these lead to, and of any steps of the pool's other goroutines
  -- that leave the connection there.
  pub Reach-shown :
      {s t : Channel}
      → Reach Addr id i ws c d s t
      → Opened id c s
      → shown c t.effects ++ coming id t.frames ≡ t.given
  Reach-shown r o = (Reach-Inv r (Opened-Inv id c _ o)).stream
