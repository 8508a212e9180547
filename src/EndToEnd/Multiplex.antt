-- ===== src/EndToEnd/Multiplex.antt =====
-- Connections that share a channel: pool.go and websocket_server.go under every interleaving of their
-- goroutines, seen from one connection.
pub mod Served
pub mod Up
pub mod Handled
pub mod Shown
pub mod Down
use tunnel.Prelude.{
  ℕ, Bytes, List, [], ◌∷◌, ◌++◌, ◌≡◌, ◌≢◌, sym, ap, ◌∙◌, append_assoc, ◌==◌, some, arith,
  bytes_eq_iff, bytes_eq, if◌then◌else◌,
}
use tunnel.Prelude.Map.{Map, lookup, insert, erase, bytes_key, lookup-insert, lookup-erase}
use tunnel.Wire.{Frame}
use tunnel.Server.Request.{Request, stream, read_request}
use tunnel.Pool.State
use tunnel.Pool.State.{Pool}
use tunnel.Pool.Reply
use tunnel.Pool.Reply.{Reply, read_reply}
use tunnel.Server.Handler.{Server, Effect, write_tcp}

-- What is written to the socket `d`.
unfoldable pub written : {Addr : Type 0} → ℕ → List (Effect Addr) → List Bytes
written d [] = []
written d (write_tcp c b ∷ effects) =
    let rest = written d effects in if c == d then b ∷ rest else rest
written d (_ ∷ effects) = written d effects

-- The bytes that a request carries for the connection `id`.
unfoldable pub chunk : Bytes → Request → List Bytes
chunk id (stream k b) = if bytes_eq k id then b ∷ [] else []
chunk id _ = []

-- Those of the frames in a queue.
unfoldable pub carried : Bytes → List Frame → List Bytes
carried id [] = []
carried id (f ∷ frames) = chunk id (read_request f) ++ carried id frames

-- `v` is the value of `id` and of no other key.
abbrev pub IsSole : Bytes → ℕ → Map Bytes ℕ → Type 0
IsSole id v m = (lookup id m ≡ some v) × ((k : Bytes) → lookup k m ≡ some v → k ≡ id)

pub insert-IsSole :
    (id k : Bytes) (v w : ℕ) (m : Map Bytes ℕ)
    → k ≢ id
    → w ≢ v
    → IsSole id v m
    → IsSole id v (insert k w m)
insert-IsSole id k v w m n ne (h, only) = (
  ground (arith, lookup-insert k id w m, bytes_eq_iff k id),
  λ j found. ground (arith, lookup-insert k j w m, bytes_eq_iff k j, only j),
)

pub erase-IsSole :
    (id k : Bytes) (v : ℕ) (m : Map Bytes ℕ) → k ≢ id → IsSole id v m → IsSole id v (erase k m)
erase-IsSole id k v m n (h, only) = (
  ground (arith, lookup-erase k id m, bytes_eq_iff k id),
  λ j found. ground (arith, lookup-erase k j m, bytes_eq_iff k j, only j),
)

-- The connection `id` has the socket `d`, and no other has it.
abbrev pub HasOnly : {Addr : Type 0} → Bytes → ℕ → Server Addr → Type 0
HasOnly id d s = IsSole id d s.conns

-- In the other direction, what is written to the local connection `c`,
unfoldable pub shown : ℕ → List State.Effect → List Bytes
shown c [] = []
shown c (State.write_tcp e b ∷ effects) =
    let rest = shown c effects in if e == c then b ∷ rest else rest
shown c (_ ∷ effects) = shown c effects

-- the bytes that a reply carries for the connection `id`,
unfoldable pub part : Bytes → Reply → List Bytes
part id (Reply.stream k b) = if bytes_eq k id then b ∷ [] else []
part id _ = []

-- those of the frames in a queue,
unfoldable pub coming : Bytes → List Frame → List Bytes
coming id [] = []
coming id (f ∷ frames) = part id (read_reply f) ++ coming id frames

-- and the local connection of `id`, which no other has.
abbrev pub HasLocal : Bytes → ℕ → Pool → Type 0
HasLocal id c p = IsSole id c p.tcp_map

-- What is on its way grows at its end,
pub grown : (w c x : List Bytes) {e g : List Bytes} → e ≡ c ++ x → w ++ c ≡ g → w ++ e ≡ g ++ x
grown w c x p q = ap (◌++◌ w) p ∙ sym (append_assoc w c x) ∙ ap (λ l. l ++ x) q

-- and what comes first of it arrives.
pub passed :
    (w x rest : List Bytes) {v g : List Bytes} → v ≡ w ++ x → w ++ (x ++ rest) ≡ g → v ++ rest ≡ g
passed w x rest p q = ap (λ l. l ++ rest) p ∙ append_assoc w x rest ∙ q
