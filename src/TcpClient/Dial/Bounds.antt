-- ===== src/TcpClient/Dial/Bounds.antt =====
-- What the retries of `dialWebSocketWithECH` (tcp_client.go) can do.
use tunnel.Prelude.{
  ℕ, zero, suc, Bytes, false, List, [], ◌∷◌, ◌≡◌, ◌≢◌, refl, Option, none, some, ◌==◌, ◌+◌, ◌≤◌,
  ◌<◌, if◌then◌else◌, arith, Bool-cases, inl, inr,
}
use tunnel.Ech.Cache.{get_ech_list}
use tunnel.TcpClient.Dial.{
  Dialled, connected, refused, Round, Action, dials, refreshes, Ended, exhausted, dial_failed,
  is_ech_error, do_first, after_dial, with_list, dial_loop, dial_websocket_with_ech,
}

-- Each dial is given a list.
abbrev pub AllWithEch : List Action → Type 0
AllWithEch [] = Unit {0}
AllWithEch (dials ech_list ∷ actions) = (ech_list ≢ []) × AllWithEch actions
AllWithEch (refreshes ∷ actions) = AllWithEch actions

abbrev pub dial_count : List Action → ℕ
dial_count [] = 0
dial_count (dials ech_list ∷ actions) = suc (dial_count actions)
dial_count (refreshes ∷ actions) = dial_count actions

abbrev pub refresh_count : List Action → ℕ
refresh_count [] = 0
refresh_count (dials ech_list ∷ actions) = refresh_count actions
refresh_count (refreshes ∷ actions) = suc (refresh_count actions)

-- What holds of a run with so many attempts left.
abbrev Bounded : ℕ → List Action × Bytes × Ended → Type 0
Bounded left (actions, cache, end) =
    AllWithEch actions
    × (dial_count actions ≤ left)
    × (refresh_count actions + 1 ≤ left)
    × (end ≢ exhausted)

get_ech_list-filled : (cache ech_list : Bytes) → get_ech_list cache ≡ some ech_list → ech_list ≢ []
unfolding get_ech_list
get_ech_list-filled [] ech_list e = λ n. cc
get_ech_list-filled (b ∷ cache) ech_list e = λ n. cc

not_last : (left : ℕ) → (suc left == 0) ≡ false
not_last left = ground arith

retry-Bounded :
    (left : ℕ) (text cache : Bytes) (retry : List Action × Bytes × Ended) (ech_list : Bytes)
    → ech_list ≢ []
    → (0 < left → Bounded left retry)
    → Bounded (suc left) (
        do_first
          (dials ech_list)
          (if left == 0 then ([], cache, dial_failed text) else do_first refreshes retry))
retry-Bounded zero text cache retry ech_list n k = ((n, tt), omega arith, omega arith, λ e. cc)
retry-Bounded (suc left) text cache (actions, after, end) ech_list n k =
    let (a, b, c, d) = k (omega arith) in rw (not_last left) ((n, a), omega arith, omega arith, d)

after_dial-Bounded :
    (left : ℕ) (d : Dialled) (cache : Bytes) (retry : List Action × Bytes × Ended)
    (ech_list : Bytes)
    → ech_list ≢ []
    → (0 < left → Bounded left retry)
    → Bounded (suc left) (do_first (dials ech_list) (after_dial (left == 0) d cache retry))
unfolding after_dial
after_dial-Bounded left (connected ws) cache retry ech_list n k =
    ((n, tt), omega arith, omega arith, λ e. cc)
after_dial-Bounded left (refused text) cache (actions, after, end) ech_list n k =
    elim (Bool-cases (is_ech_error text)) [
      | inr other ↦ rw other ((n, tt), omega arith, omega arith, λ e. cc)
      | inl ech ↦ rw ech (retry-Bounded left text cache (actions, after, end) ech_list n k)
    ]

with_list-Bounded :
    (left : ℕ) (r : Round) (cache : Bytes) (o : Option Bytes) (retry : List Action × Bytes × Ended)
    → get_ech_list cache ≡ o
    → (0 < left → Bounded left retry)
    → Bounded (suc left) (with_list (left == 0) r cache o retry)
unfolding with_list
with_list-Bounded zero r cache none retry e k = (tt, omega arith, omega arith, λ e. cc)
with_list-Bounded (suc left) r cache none (actions, after, end) e k =
    let (a, b, c, d) = k (omega arith) in rw (not_last left) (a, omega arith, omega arith, d)
with_list-Bounded left r cache (some ech_list) retry e k = elim (Bool-cases r.roots) [
  | inl loaded ↦
      rw loaded (
        after_dial-Bounded left r.dial cache retry ech_list (get_ech_list-filled cache ech_list e)
          k)
  | inr missing ↦ rw missing (tt, omega arith, omega arith, λ e. cc)
]

dial_loop-Bounded :
    (left attempt : ℕ) (world : ℕ → Round) (cache : Bytes)
    → 0 < left
    → Bounded left (dial_loop left attempt world cache)
unfolding dial_loop
dial_loop-Bounded zero attempt world cache h = absurd (omega arith)
dial_loop-Bounded (suc left) attempt world cache h =
    with_list-Bounded left (world attempt) cache (get_ech_list cache) _ refl
      (dial_loop-Bounded left (suc attempt) world (world attempt).refreshed)

-- With an attempt allowed at least, whatever the outside does: every dial is given an ECH list,
-- there are at most as many dials as attempts and fewer refreshes, and the loop never runs off its
-- end.
pub dial_websocket_with_ech-Bounded :
    (max_retries : ℕ) (world : ℕ → Round) (cache : Bytes)
    → 0 < max_retries
    → AllWithEch (dial_websocket_with_ech max_retries world cache).0
      × (dial_count (dial_websocket_with_ech max_retries world cache).0 ≤ max_retries)
      × (refresh_count (dial_websocket_with_ech max_retries world cache).0 < max_retries)
      × ((dial_websocket_with_ech max_retries world cache).2 ≢ exhausted)
unfolding dial_websocket_with_ech
dial_websocket_with_ech-Bounded max_retries world cache h =
    let (a, b, c, d) = dial_loop-Bounded max_retries 1 world cache h in (a, b, omega arith, d)
