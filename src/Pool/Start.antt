-- ===== src/Pool/Start.antt =====
-- `NewECHPool` on the value of the flag `-n`, and `Start` (pool.go).
pub mod WithEch
use tunnel.Prelude.{
  ℕ, zero, suc, Bytes, List, [], ◌∷◌, ◌≡◌, refl, sym, Option, none, some, ◌+◌, ◌<◌, length,
  get_elem?, set, length-set, arith, ◌↔◌, ◌≤◌, Bool-cases, ==_iff, ℤ, pos, negsuc, ◌⊎◌, inl, inr,
  length-replicate, ◌==◌, subst,
}
use tunnel.Pool.State.{Pool, new_ech_pool, set_channel}
use tunnel.Pool.Dial.{Dialling, behind, dial_once}
use tunnel.Pool.Dial.Liveness.{
  Answers, AllWithEch-append, Connects, dial_once-Connects, get_elem?-set,
}
use tunnel.TcpClient.Dial.{Round, Action}
use tunnel.TcpClient.Dial.Bounds.{AllWithEch}

some_injective : {A : Type 0} {a b : A} → ◌≡◌ {A = Option A} (some a) (some b) → a ≡ b
some_injective e = cc

-- `make([]*websocket.Conn, n)` panics on a negative length.
unfoldable pub make_pool : Bytes → ℤ → Option Pool
make_pool addr (pos n) = some (new_ech_pool addr n)
make_pool addr (negsuc n) = none

-- The goroutine that goes on once a channel is connected.
abbrev pub then_next : Dialling → (Pool → Bytes → Dialling) → Dialling
then_next (actions, cache, none) next = (actions, cache, none)
then_next (actions, cache, some q) next = behind actions (next q cache)

-- The goroutines `dialOnce` that `Start` begins, in the order in which their channels connect. Each has
-- its own rounds, and fuel for one more than `rounds` tells.
unfoldable pub start : (ℕ → ℕ → ℕ → Round) → (ℕ → ℕ) → List ℕ → Pool → Bytes → Dialling
start world rounds [] p cache = ([], cache, some p)
start world rounds (i ∷ order) p cache =
    then_next (dial_once (suc (rounds i)) 0 (world i) i p cache) (start world rounds order)

-- The loop of `Start`: one goroutine for each index below the number of channels, `left` to go.
unfoldable pub channels : ℕ → ℕ → List ℕ
channels zero i = []
channels (suc left) i = i ∷ channels left (suc i)

abbrev pub AllBelow : ℕ → List ℕ → Type 0
AllBelow n [] = Unit {0}
AllBelow n (i ∷ order) = (i < n) × AllBelow n order

abbrev pub Has : ℕ → List ℕ → Type 0
Has i [] = ⊥
Has i (j ∷ order) = (j ≡ i) ⊎ Has i order

abbrev pub IsConnected : ℕ → List (Option ℕ) → Type 0
IsConnected i ws_conns = (ws : ℕ) × (get_elem? ws_conns i ≡ some (some ws))

set-IsConnected :
    (xs : List (Option ℕ)) (i w j : ℕ) → IsConnected j xs → IsConnected j (set xs i (some w))
set-IsConnected [] i w j c = c
set-IsConnected (x ∷ xs) zero w zero c = (w, refl)
set-IsConnected (x ∷ xs) zero w (suc j) c = c
set-IsConnected (x ∷ xs) (suc i) w zero c = c
set-IsConnected (x ∷ xs) (suc i) w (suc j) c = set-IsConnected xs i w j c

-- What is to be shown of the goroutines of `order`, which begin on the pool `p`.
abbrev Starts : List ℕ → Pool → Dialling → Type 0
Starts order p (actions, cache, q) =
    AllWithEch actions
    × ((r : Pool) × (q ≡ some r)
        × (r.channel_map ≡ p.channel_map)
        × ((i : ℕ) → Has i order ⊎ IsConnected i p.ws_conns → IsConnected i r.ws_conns))

behind-Starts :
    (i ws : ℕ) (order : List ℕ) (p : Pool) (actions : List Action) (d : Dialling)
    → i < length p.ws_conns
    → AllWithEch actions
    → Starts order (set_channel i ws p) d
    → Starts (i ∷ order) p (behind actions d)
unfolding set_channel
behind-Starts i ws order p actions (more, cache, q) h a (b, (r, e, same, all)) = (
  AllWithEch-append actions more a b,
  (
    r,
    e,
    same,
    λ j c. elim c [
      | inl (inl here) ↦ all j (
          inr (
            ws,
            subst (λ k. get_elem? (set p.ws_conns i (some ws)) k ≡ some (some ws)) here
                (get_elem?-set p.ws_conns i (some ws) h),
          ))
      | inl (inr later) ↦ all j (inl later)
      | inr before ↦ all j (inr (set-IsConnected p.ws_conns i ws j before))
    ],
  ),
)

then_next-Starts :
    (i : ℕ) (order : List ℕ) (p : Pool) (d : Dialling) (next : Pool → Bytes → Dialling)
    → i < length p.ws_conns
    → Connects i p d
    → ((ws : ℕ) (cache : Bytes)
        → Starts order (set_channel i ws p) (next (set_channel i ws p) cache))
    → Starts (i ∷ order) p (then_next d next)
then_next-Starts i order p (actions, cache, none) next h (a, (ws, e)) k = cc
then_next-Starts i order p (actions, cache, some q) next h (a, (ws, e)) k =
    let same : set_channel i ws p ≡ q = some_injective (sym e) in
    subst (λ x. Starts (i ∷ order) p (behind actions (next x cache))) same
      (behind-Starts i ws order p actions (next (set_channel i ws p) cache) h a (k ws cache))

pub start-Starts :
    (world : ℕ → ℕ → ℕ → Round) (rounds sockets : ℕ → ℕ) (order : List ℕ) (p : Pool) (cache : Bytes)
    → AllBelow (length p.ws_conns) order
    → ((i : ℕ) → Has i order → Answers (world i (rounds i)) (sockets i))
    → Starts order p (start world rounds order p cache)
unfolding start set_channel
start-Starts world rounds sockets [] p cache b h =
    (_, (p, refl, refl, λ i c. elim c [ inl e ↦ absurd e | inr before ↦ before ]))
start-Starts world rounds sockets (i ∷ order) p cache b h =
    then_next-Starts i order p (dial_once (suc (rounds i)) 0 (world i) i p cache)
      (start world rounds order) b.0
      (dial_once-Connects (rounds i) 0 (world i) i (sockets i) p cache
        (subst (λ n. Answers (world i n) (sockets i)) (omega arith) (h i (inl refl))))
      (λ ws after.
        start-Starts world rounds sockets order (set_channel i ws p) after
          (subst (λ n. AllBelow n order) (sym (length-set p.ws_conns i (some ws))) b.1)
          (λ j c. h j (inr c)))

-- `order` is an order of the goroutines.
abbrev pub IsOrder : List ℕ → List ℕ → Type 0
IsOrder order goroutines = (i : ℕ) → Has i order ↔ Has i goroutines

channels-Has : (left i j : ℕ) → i ≤ j → j < i + left → Has j (channels left i)
unfolding channels
channels-Has zero i j a b = absurd (omega arith)
channels-Has (suc left) i j a b = elim (Bool-cases (i == j)) [
  | inl same ↦ inl ((==_iff i j).0 same)
  | inr other ↦ inr (channels-Has left (suc i) j (ground (arith, ==_iff i j)) (omega arith))
]

Has-below : (left i j : ℕ) → Has j (channels left i) → j < i + left
unfolding channels
Has-below zero i j h = absurd h
Has-below (suc left) i j (inl e) = omega arith
Has-below (suc left) i j (inr h) = omega (arith, Has-below left (suc i) j h)

AllBelow-all : (n : ℕ) (order : List ℕ) → ((i : ℕ) → Has i order → i < n) → AllBelow n order
AllBelow-all n [] h = _
AllBelow-all n (i ∷ order) h = (h i (inl refl), AllBelow-all n order (λ j c. h j (inr c)))

-- The pool of `n` channels that `start` leaves, where each channel has a round in which the resolver
-- answers and the server takes the dial: in whichever order the goroutines get there, all channels are
-- connected, and every dial was given an ECH list.
pub start-IsConnected :
    (addr : Bytes) (n : ℕ) (world : ℕ → ℕ → ℕ → Round) (rounds sockets : ℕ → ℕ) (order : List ℕ)
    (cache : Bytes)
    → IsOrder order (channels n 0)
    → ((i : ℕ) → i < n → Answers (world i (rounds i)) (sockets i))
    → (q : Pool) × ((start world rounds order (new_ech_pool addr n) cache).2 ≡ some q)
      × (q.channel_map ≡ [])
      × ((i : ℕ) → i < n → IsConnected i q.ws_conns)
      × AllWithEch (start world rounds order (new_ech_pool addr n) cache).0
unfolding new_ech_pool
start-IsConnected addr n world rounds sockets order cache o a =
    let (with_ech, (q, e, same, all)) =
      start-Starts world rounds sockets order (new_ech_pool addr n) cache
        (AllBelow-all _ order (λ i h.
          omega (arith, Has-below n 0 i ((o i).0 h), length-replicate {A = Option ℕ} n none)))
        (λ i h. a i (omega (arith, Has-below n 0 i ((o i).0 h)))) in
    (
      q,
      e,
      same,
      λ i h. all i (inl ((o i).1 (channels-Has n 0 i (omega arith) (omega arith)))),
      with_ech,
    )
