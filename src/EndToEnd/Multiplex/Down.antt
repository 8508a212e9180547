-- ===== src/EndToEnd/Multiplex/Down.antt =====
-- Bytes on their way down, from a target through the server's read goroutine (websocket_server.go) and
-- the client's channel loop (pool.go) to a local connection, while others share the channel.
pub mod Kept
use tunnel.Prelude.{ℕ, Bytes, Bool, true, List, [], ◌∷◌, ◌++◌, ◌≡◌}
use tunnel.Wire.{Frame}
use tunnel.Server.Tcp.{received, relay}
use tunnel.Pool.State.{Pool, Effect}
use tunnel.Pool.Reply.{stream, read_reply}
use tunnel.Pool.Channel.{handle_frame}
use tunnel.Pool.Steps
use tunnel.EndToEnd.Downstream.{sent}
use tunnel.EndToEnd.Multiplex.{HasLocal}
use tunnel.EndToEnd.Multiplex.Handled.{IsApart, Takes}

-- A channel, with the frames on their way to the client, and two histories: the chunks that the target
-- of the connection `id` has given, and what the channel loop has done.
pub record Channel : Type 0 where
  pub pool : Pool
  pub frames : List Frame
  pub given : List Bytes
  pub effects : List Effect

module _ (Addr : Type 0) (id : Bytes) (i ws c d : ℕ) where
  -- `relays` is a round of the read goroutine of the target `d` of `id`, `sends` any frame that is not
  -- about `id` and that the server's other goroutines and its loop write, `handles` a round of the channel
  -- loop, where the local connection `c` of `id` takes its bytes, and `turns` any step of the pool's
  -- goroutines that leaves `id` its connection.
  pub data Step (s : Channel) : Channel → Type 0 where
    relays :
        (b : Bytes)
        → Step s (record s {
          frames = s.frames ++ sent (relay {Addr = Addr} id d (received b true ∷ [])).0;
          given = s.given ++ b ∷ [];
        })
    sends :
        (f : Frame) → IsApart (read_reply f) id → Step s (record s { frames = s.frames ++ f ∷ [] })
    handles :
        (taken : Bool) (f : Frame) (rest : List Frame)
        → s.frames ≡ f ∷ rest
        → ((b : Bytes) → read_reply f ≡ stream id b → taken ≡ true)
        → Step s (record s {
          pool = (handle_frame i ws taken f s.pool).0;
          frames = rest;
          effects = s.effects ++ (handle_frame i ws taken f s.pool).1;
        })
    turns : {q : Pool} (st : Steps.Step s.pool q) → ¬ Takes id c st → Step s (record s { pool = q })

  pub data Reach (s : Channel) : Channel → Type 0 where
    here : Reach s s
    next : {t u : Channel} → Reach s t → Step t u → Reach s u

-- A channel when `id` has just got its target.
pub record Opened (id : Bytes) (c : ℕ) (s : Channel) : Type 0 where
  pub local : HasLocal id c s.pool
  pub frames : s.frames ≡ []
  pub given : s.given ≡ []
  pub effects : s.effects ≡ []
