-- ===== src/Http/Termination.antt =====
-- The loop of `readHTTPHeaders` (http_proxy.go) ends.
use tunnel.Prelude.{
  ℕ, zero, suc, Bytes, Bool, true, false, List, [], ◌∷◌, ◌≡◌, refl, ap, Option, none, some, length,
  length-append, ◌<◌, arith, Option-cases, Bool-cases, inl, inr, bytes_eq, codes,
}
use tunnel.Prelude.Map.{Map, lookup, bytes_key}
use tunnel.Text.{cut, cut-exact, split_n}
use tunnel.Text.Space.{trim_space}
use tunnel.Socks.Handshake.{Config}
use tunnel.Http.Headers.{
  Headers, failed, out_of_fuel, read, with_end, read_line, add_header, after_line, after_read,
  read_loop, read_http_headers,
}
use tunnel.Http.Request.{
  Url, with_body, forward_to, Runtime, Outcome, endless, is_authorized, with_headers,
  handle_http_connect, handle_http_forward, handle_request_line, handle_http_protocol, read_body,
}

abbrev is_finished : Headers → Bool
is_finished out_of_fuel = false
is_finished _ = true

with_end-split :
    (o : Option (Bytes × Bytes)) (line rest : Bytes)
    → with_end o ≡ some (line, rest)
    → (a : Bytes) × (o ≡ some (a, rest))
with_end-split none line rest e = cc
with_end-split (some (a, b)) line rest e = (a, cc)

-- A line takes its end at least.
length-read_line :
    (input line rest : Bytes) → read_line input ≡ some (line, rest) → length rest < length input
unfolding read_line
length-read_line input line rest e =
    let (a, p) = with_end-split (cut b'\n' input) line rest e in
    omega (arith, ap length (cut-exact b'\n' input a rest p), length-append a (b'\n' ∷ rest))

is_finished-after_line :
    (line rest : Bytes) (headers : Map Bytes Bytes) (next : Map Bytes Bytes → Headers)
    → ((h : Map Bytes Bytes) → is_finished (next h) ≡ true)
    → is_finished (after_line line rest headers next) ≡ true
unfolding after_line
is_finished-after_line [] rest headers next k = refl
is_finished-after_line (c ∷ line) rest headers next k =
    k (add_header (split_n 2 b':' (c ∷ line)) headers)

is_finished-after_read :
    (o : Option (Bytes × Bytes)) (headers : Map Bytes Bytes)
    (next : Bytes → Map Bytes Bytes → Headers)
    → ((line rest : Bytes)
        → o ≡ some (line, rest)
        → (h : Map Bytes Bytes) → is_finished (next rest h) ≡ true)
    → is_finished (after_read o headers next) ≡ true
is_finished-after_read none headers next k = refl
is_finished-after_read (some (line, rest)) headers next k =
    is_finished-after_line (trim_space line) rest headers (next rest) (k line rest refl)

read_loop-enough :
    (n : ℕ) (input : Bytes) (headers : Map Bytes Bytes)
    → length input < n
    → is_finished (read_loop n input headers) ≡ true
unfolding read_loop
read_loop-enough zero input headers h = absurd (omega arith)
read_loop-enough (suc n) input headers h =
    is_finished-after_read (read_line input) headers (read_loop n) λ line rest e more.
      read_loop-enough n rest more (omega (arith, length-read_line input line rest e))

abbrev pub is_decided : Outcome → Bool
is_decided endless = false
is_decided _ = true

with_headers-is_decided :
    (c : Config) (h : Headers) (next : Map Bytes Bytes → Bytes → Outcome)
    → is_finished h ≡ true
    → ((headers : Map Bytes Bytes) (rest : Bytes) → is_decided (next headers rest) ≡ true)
    → is_decided (with_headers c h next) ≡ true
unfolding with_headers
with_headers-is_decided c failed next f k = refl
with_headers-is_decided c out_of_fuel next f k = cc
with_headers-is_decided c (read headers rest) next f k =
    elim (Bool-cases (is_authorized c headers)) [
      | inl accepted ↦ rw accepted (k headers rest)
      | inr refused ↦ rw refused
    ]

read_http_headers-ends : (input : Bytes) → is_finished (read_http_headers input) ≡ true
unfolding read_http_headers
read_http_headers-ends input = read_loop-enough (suc (length input)) input [] (omega arith)

handle_http_connect-ends :
    (c : Config) (target reader : Bytes) → is_decided (handle_http_connect c target reader) ≡ true
unfolding handle_http_connect
handle_http_connect-ends c target reader =
    with_headers-is_decided c (read_http_headers reader) _ (read_http_headers-ends reader)
      (λ headers rest. refl)

with_body-ends :
    (o : Option (Bytes × Bytes)) (next : Bytes → Outcome)
    → ((body : Bytes) → is_decided (next body) ≡ true)
    → is_decided (with_body o next) ≡ true
with_body-ends none next k = refl
with_body-ends (some (body, rest)) next k = k body

forward_to-ends :
    (c : Config) (r : Runtime) (method reader : Bytes) (found : Option Url)
    → is_decided (forward_to c r method reader found) ≡ true
forward_to-ends c r method reader none = refl
forward_to-ends c r method reader (some u) =
    with_headers-is_decided c (read_http_headers reader) _ (read_http_headers-ends reader)
      (λ headers rest.
        with_body-ends (read_body (lookup (codes "Content-Length") headers) rest) _ (λ body. refl))

handle_http_forward-ends :
    (c : Config) (r : Runtime) (method url reader : Bytes)
    → is_decided (handle_http_forward c r method url reader) ≡ true
unfolding handle_http_forward
handle_http_forward-ends c r method url reader = forward_to-ends c r method reader (r.parse_url url)

handle_request_line-ends :
    (c : Config) (r : Runtime) (parts : List Bytes) (reader : Bytes)
    → is_decided (handle_request_line c r parts reader) ≡ true
unfolding handle_request_line
handle_request_line-ends c r (method ∷ url ∷ version ∷ []) reader =
    elim (Bool-cases (bytes_eq method (codes "CONNECT"))) [
      | inl tunnel ↦ rw tunnel (handle_http_connect-ends c url reader)
      | inr other ↦ rw other (handle_http_forward-ends c r method url reader)
    ]
handle_request_line-ends c r [] reader = refl
handle_request_line-ends c r (a ∷ []) reader = refl
handle_request_line-ends c r (a ∷ b ∷ []) reader = refl
handle_request_line-ends c r (a ∷ b ∷ d ∷ e ∷ parts) reader = refl

-- Whatever bytes a client sends, the header loop ends and the request comes to one of the outcomes.
pub handle_http_protocol-ends :
    (c : Config) (r : Runtime) (input : Bytes) → is_decided (handle_http_protocol c r input) ≡ true
unfolding handle_http_protocol
handle_http_protocol-ends c r input = elim (Option-cases (read_line input)) [
  | inl missing ↦ rw missing
  | inr ((line, reader), e) ↦
      rw e (handle_request_line-ends c r (split_n 3 b' ' (trim_space line)) reader)
]
