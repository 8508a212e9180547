-- ===== src/Pool/Dial/Liveness.antt =====
-- That the loops of pool.go which connect a channel come to their end.
use tunnel.Prelude.{
  ℕ, zero, suc, Bytes, true, List, [], ◌∷◌, ◌++◌, ◌≡◌, ◌≢◌, refl, some, ◌+◌, ◌<◌, length, arith,
  set, get_elem?, subst,
}
use tunnel.Ech.Cache.{get_ech_list}
use tunnel.Pool.State.{Pool, set_channel}
use tunnel.Pool.Dial.{Dialling, behind, after_round, dial_once, redial_channel}
use tunnel.TcpClient.Dial.{
  Round, connected, Action, dials, refreshes, Ended, dialled, ech_unavailable, tls_failed,
  exhausted, dial_failed, with_list, after_dial, dial_loop, dial_websocket_with_ech,
}
use tunnel.TcpClient.Dial.Bounds.{AllWithEch, dial_websocket_with_ech-Bounded}

-- In this round the resolver answers, the system's certificates load, and the server takes the dial.
abbrev pub Answers : (ℕ → Round) → ℕ → Type 0
Answers world ws =
    ((world 1).roots ≡ true)
    × ((world 2).roots ≡ true)
    × ((world 1).dial ≡ connected ws)
    × ((world 2).dial ≡ connected ws)
    × ((world 1).refreshed ≢ [])

pub AllWithEch-append : (a b : List Action) → AllWithEch a → AllWithEch b → AllWithEch (a ++ b)
AllWithEch-append [] b h k = k
AllWithEch-append (dials ech_list ∷ a) b h k = (h.0, AllWithEch-append a b h.1 k)
AllWithEch-append (refreshes ∷ a) b h k = AllWithEch-append a b h k

second_attempt :
    (world : ℕ → Round) (list : Bytes) (ws : ℕ)
    → list ≢ []
    → (world 2).roots ≡ true
    → (world 2).dial ≡ connected ws
    → (dial_loop 1 2 world list).2 ≡ dialled ws
unfolding dial_loop with_list after_dial get_ech_list
second_attempt world [] ws n roots d = absurd (n refl)
second_attempt world (b ∷ list) ws n roots d = rw (roots, d)

dial_websocket_with_ech-Answers :
    (world : ℕ → Round) (cache : Bytes) (ws : ℕ)
    → Answers world ws
    → (dial_websocket_with_ech 2 world cache).2 ≡ dialled ws
unfolding dial_websocket_with_ech dial_loop with_list after_dial get_ech_list
dial_websocket_with_ech-Answers world [] ws (r, s, d, e, n) =
    second_attempt world (world 1).refreshed ws n s e
dial_websocket_with_ech-Answers world (b ∷ cache) ws (r, s, d, e, n) = rw (r, d)

-- What is to be shown of a loop.
abbrev pub Connects : ℕ → Pool → Dialling → Type 0
Connects index p (actions, cache, q) =
    AllWithEch actions × ((ws : ℕ) × (q ≡ some (set_channel index ws p)))

Connects-behind :
    (index : ℕ) (p : Pool) (actions : List Action) (d : Dialling)
    → AllWithEch actions
    → Connects index p d
    → Connects index p (behind actions d)
Connects-behind index p actions (more, cache, q) h (k, (ws, e)) =
    (AllWithEch-append actions more h k, (ws, e))

after_round-Connects :
    (index : ℕ) (p : Pool) (r : List Action × Bytes × Ended) (retry : Bytes → Dialling)
    → AllWithEch r.0
    → ((cache : Bytes) → ((ws : ℕ) → r.2 ≢ dialled ws) → Connects index p (retry cache))
    → Connects index p (after_round index p r retry)
after_round-Connects index p (actions, cache, dialled ws) retry h k = (h, (ws, refl))
after_round-Connects index p (actions, cache, ech_unavailable) retry h k =
    Connects-behind index p actions (retry cache) h (k cache (λ ws e. cc))
after_round-Connects index p (actions, cache, tls_failed) retry h k =
    Connects-behind index p actions (retry cache) h (k cache (λ ws e. cc))
after_round-Connects index p (actions, cache, exhausted) retry h k =
    Connects-behind index p actions (retry cache) h (k cache (λ ws e. cc))
after_round-Connects index p (actions, cache, dial_failed text) retry h k =
    Connects-behind index p actions (retry cache) h (k cache (λ ws e. cc))

pub dial_once-Connects :
    (m round : ℕ) (world : ℕ → ℕ → Round) (index ws : ℕ) (p : Pool) (cache : Bytes)
    → Answers (world (m + round)) ws
    → Connects index p (dial_once (suc m) round world index p cache)
unfolding dial_once
dial_once-Connects zero round world index ws p cache h =
    after_round-Connects index p (dial_websocket_with_ech 2 (world round) cache) _
      (dial_websocket_with_ech-Bounded 2 (world round) cache (omega arith)).0
      (λ after other. absurd (
        other ws (
          dial_websocket_with_ech-Answers (world round) cache ws
            (subst (λ n. Answers (world n) ws) (omega arith) h))))
dial_once-Connects (suc m) round world index ws p cache h =
    after_round-Connects index p (dial_websocket_with_ech 2 (world round) cache) _
      (dial_websocket_with_ech-Bounded 2 (world round) cache (omega arith)).0
      (λ after other.
        dial_once-Connects m (suc round) world index ws p after
          (subst (λ n. Answers (world n) ws) (omega arith) h))

pub get_elem?-set :
    {A : Type 0} (xs : List A) (i : ℕ) (v : A) → i < length xs → get_elem? (set xs i v) i ≡ some v
get_elem?-set [] i v h = absurd (omega arith)
get_elem?-set (x ∷ xs) zero v h = refl
get_elem?-set (x ∷ xs) (suc i) v h = get_elem?-set xs i v (omega arith)

-- If there is a round in which the resolver answers and the server takes the dial, the loop comes to
-- its end with it at the latest, whatever failed before: the channel then has a WebSocket, and every
-- dial on the way was given an ECH list.
pub redial_channel-connects :
    (m : ℕ) (world : ℕ → ℕ → Round) (channel_id ws : ℕ) (p : Pool) (cache : Bytes)
    → channel_id < length p.ws_conns
    → Answers (world m) ws
    → (q : Pool) × (new_conn : ℕ) × ((redial_channel (suc m) world channel_id p cache).2 ≡ some q)
      × (get_elem? q.ws_conns channel_id ≡ some (some new_conn))
      × (q.channel_map ≡ p.channel_map)
      × AllWithEch (redial_channel (suc m) world channel_id p cache).0
unfolding redial_channel set_channel
redial_channel-connects m world channel_id ws p cache h a =
    let (dials_with, (new_conn, e)) =
      dial_once-Connects m 0 world channel_id ws p cache
        (subst (λ n. Answers (world n) ws) (omega arith) a) in
    (
      set_channel channel_id new_conn p,
      new_conn,
      e,
      get_elem?-set p.ws_conns channel_id (some new_conn) h,
      refl,
      dials_with,
    )
