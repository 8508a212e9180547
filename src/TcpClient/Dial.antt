-- ===== src/TcpClient/Dial.antt =====
-- `dialWebSocketWithECH` (tcp_client.go): the retries, and what TLS is given. `refreshECH` returns
-- when it has stored a list, so that each round takes the list that is then in the cache.
pub mod Bounds
use tunnel.Prelude.{
  ℕ, zero, suc, Bytes, Bool, true, false, List, [], ◌∷◌, ◌++◌, Option, none, some, ◌==◌, ◌&&◌, ◌||◌,
  if◌then◌else◌, codes, ltb,
}
use tunnel.Text.{has_prefix}
use tunnel.Ech.Cache.{get_ech_list}

-- `strings.Contains(s, text)`
unfoldable pub has_infix : Bytes → Bytes → Bool
has_infix [] text = has_prefix [] text
has_infix (c ∷ s) text =
    let later = has_infix s text in if has_prefix (c ∷ s) text then true else later

-- What a call of `Dial` gives: a WebSocket, or an error with its text.
pub data Dialled : Type 0 where
  connected : ℕ → Dialled
  refused : Bytes → Dialled

-- The outside in one round: whether the system's root certificates can be loaded, what `Dial` gives,
-- and the list that a refresh stores.
pub record Round : Type 0 where
  pub roots : Bool
  pub dial : Dialled
  pub refreshed : Bytes

-- What the loop does to the outside: it dials with a list for ECH, or it refreshes the cache.
pub data Action : Type 0 where
  dials : Bytes → Action
  refreshes : Action

-- How it ends.
pub data Ended : Type 0 where
  dialled : ℕ → Ended
  ech_unavailable tls_failed exhausted : Ended
  dial_failed : Bytes → Ended

unfoldable pub is_ech_error : Bytes → Bool
is_ech_error text = has_infix text (codes "ECH") || has_infix text (codes "ech")

-- An action in front of the others.
abbrev pub do_first : Action → List Action × Bytes × Ended → List Action × Bytes × Ended
do_first a (actions, cache, end) = (a ∷ actions, cache, end)

-- After a dial: `retry` goes on with the refreshed list. Without a retry left, the error is returned.
unfoldable pub after_dial :
    Bool → Dialled → Bytes → List Action × Bytes × Ended → List Action × Bytes × Ended
after_dial last (connected ws) cache retry = ([], cache, dialled ws)
after_dial last (refused text) cache retry =
    if is_ech_error text
    then (if last then ([], cache, dial_failed text) else do_first refreshes retry)
    else ([], cache, dial_failed text)

unfoldable pub with_list :
    Bool → Round → Bytes → Option Bytes → List Action × Bytes × Ended → List Action × Bytes × Ended
with_list last r cache none retry =
    if last then ([], cache, ech_unavailable) else do_first refreshes retry
with_list last r cache (some ech_list) retry =
    if r.roots
    then do_first (dials ech_list) (after_dial last r.dial cache retry)
    else ([], cache, tls_failed)

-- The loop with `left` attempts left, from the attempt of this number on, on the cached list.
unfoldable pub dial_loop : ℕ → ℕ → (ℕ → Round) → Bytes → List Action × Bytes × Ended
dial_loop zero attempt world cache = ([], cache, exhausted)
dial_loop (suc left) attempt world cache =
    let retry = dial_loop left (suc attempt) world (world attempt).refreshed in
    with_list (left == 0) (world attempt) cache (get_ech_list cache) retry

-- `dialWebSocketWithECH`, for an address that `url.Parse` reads.
unfoldable pub dial_websocket_with_ech : ℕ → (ℕ → Round) → Bytes → List Action × Bytes × Ended
dial_websocket_with_ech max_retries world cache = dial_loop max_retries 1 world cache
