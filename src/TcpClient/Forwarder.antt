-- ===== src/TcpClient/Forwarder.antt =====
-- `startMultiChannelTCPForwarder` (tcp_client.go): the accept loop of a forwarding rule. The goroutine
-- that it starts for a connection is in Local.
use tunnel.Prelude.{ℕ, Bytes, Bool, true, false, List, [], ◌∷◌, ◌≡◌, Option, some, ◌+◌, ◌≤◌, ◌>>=◌}
use tunnel.Pool.State.{Pool, Info, wait_connected}
use tunnel.Pool.Claim.{register_and_claim}

-- What the read of the first frame gives: bytes, the end of the connection or an error, or the deadline.
pub data First : Type 0 where
  gives : Bytes → First
  ends silent : First

unfoldable pub first_frame : First → Bytes
first_frame (gives bytes) = bytes
first_frame _ = []

-- A connection that is accepted, with the id that it gets. `read_ms` and `wait_ms` are the times that the
-- read and `WaitConnected` take, `clock` is read in `RegisterAndClaim`, `others` is what the pool's
-- goroutines do in the meantime, and `timer` tells which case the `select` takes.
pub record Client : Type 0 where
  pub conn : ℕ
  pub id : Bytes
  pub first : First
  pub read_ms : ℕ
  pub clock : ℕ → ℕ
  pub others : Pool → Pool
  pub timer : Bool
  pub wait_ms : ℕ

-- `listener.Accept`
pub data Accept : Type 0 where
  accepted : Client → Accept
  fails : Accept

-- What becomes of a connection: it is closed, or it gets its goroutine.
pub data Handed : Type 0 where
  closed serves : ℕ → Handed

abbrev pub hand_on : ℕ → Bool → Handed
hand_on conn true = serves conn
hand_on conn false = closed conn

-- The calls of `Accept` that return, from a time on. The result has the time at which the next call
-- comes.
unfoldable pub forward : Bytes → List Accept → ℕ → Pool → Option (Pool × ℕ × List Handed)
forward target [] now p = some (p, now, [])
forward target (fails ∷ accepts) now p = some (p, now, [])
forward target (accepted c ∷ accepts) now p = do
  let info : Info = record { target_addr = target; first_frame_data = first_frame c.first }
  (q, claims) ← register_and_claim c.id info c.conn c.clock p
  let (r, connected) = wait_connected c.id c.timer (c.others q)
  (s, then, handed) ← forward target accepts (now + c.read_ms + c.wait_ms) r
  some (s, then, hand_on c.conn connected ∷ handed)

-- The deadline of the read and the timer of the wait are five seconds, and a connection that says
-- nothing uses up the first.
abbrev pub IsTimed : First → ℕ → ℕ → Type 0
IsTimed silent read_ms wait_ms = (read_ms ≡ 5000) × (wait_ms ≤ 5000)
IsTimed _ read_ms wait_ms = (read_ms ≤ 5000) × (wait_ms ≤ 5000)

abbrev pub AreTimed : List Client → Type 0
AreTimed [] = Unit {0}
AreTimed (c ∷ clients) = IsTimed c.first c.read_ms c.wait_ms × AreTimed clients

abbrev pub count_silent : First → ℕ
count_silent silent = 1
count_silent _ = 0

abbrev pub silent_of : List Client → ℕ
silent_of [] = 0
silent_of (c ∷ clients) = count_silent c.first + silent_of clients

-- The time that their reads and waits take together.
abbrev pub spent_on : List Client → ℕ
spent_on [] = 0
spent_on (c ∷ clients) = c.read_ms + c.wait_ms + spent_on clients

abbrev pub conn_of : Handed → ℕ
conn_of (closed conn) = conn
conn_of (serves conn) = conn
