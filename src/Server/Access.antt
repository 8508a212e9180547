-- ===== src/Server/Access.antt =====
-- `runWebSocketServer` (websocket_server.go): who may open a WebSocket. The functions of Go's package
-- net that read addresses are parameters; `Cidr` stands for `*net.IPNet`.
use tunnel.Prelude.{
  Bytes, Bool, true, false, not, List, [], ◌∷◌, ◌≡◌, refl, ◌↔◌, ◌⊎◌, inl, inr, Option, none, some,
  ◌&&◌, if◌then◌else◌, bytes_eq, bytes_eq_iff, Bool-cases, codes, arith,
}
use tunnel.Text.{split}
use tunnel.Text.Space.{trim_space}

-- `net.SplitHostPort`, `net.ParseIP` (the empty slice for no address), `net.ParseCIDR` and
-- `(*net.IPNet).Contains`.
pub record NetText (Cidr : Type 0) : Type 0 where
  pub split_host_port : Bytes → Option (Bytes × Bytes)
  pub parse_ip : Bytes → Bytes
  pub parse_cidr : Bytes → Option Cidr
  pub contains : Cidr → Bytes → Bool

-- What the handler answers: one of three errors, or it hands the request to the upgrader.
pub data Verdict : Type 0 where
  bad_request forbidden unauthorized upgraded : Verdict

-- `path`
unfoldable pub listen_path : Bytes → Bytes
listen_path path = if bytes_eq path [] then codes "/" else path

-- The upgrader's `Subprotocols`, which the client's dialer has too (tcp_client.go).
unfoldable pub subprotocols : Bytes → List Bytes
subprotocols token = if bytes_eq token [] then [] else token ∷ []

-- How the server listens.
pub data Listening : Type 0 where
  plain with_files self_signed : Listening

unfoldable pub listening : Bytes → Bytes → Bytes → Listening
listening scheme cert_file key_file =
    if bytes_eq scheme (codes "wss")
    then (if not (bytes_eq cert_file []) && not (bytes_eq key_file [])
        then with_files
        else self_signed)
    else plain

some_injective : {A : Type 0} {a b : A} → ◌≡◌ {A = Option A} (some a) (some b) → a ≡ b
some_injective e = cc

upgraded-split :
    (a t h : Bool)
    → (if not a then forbidden else if not t && not h then unauthorized else upgraded) ≡ upgraded
    → (a ≡ true) × ((t ≡ true) ⊎ (h ≡ true))
upgraded-split false t h e = cc
upgraded-split true true h e = (refl, inl refl)
upgraded-split true false true e = (refl, inr refl)
upgraded-split true false false e = cc

upgraded-join :
    (a t h : Bool)
    → a ≡ true
    → (t ≡ true) ⊎ (h ≡ true)
    → (if not a then forbidden else if not t && not h then unauthorized else upgraded) ≡ upgraded
upgraded-join false t h e b = cc
upgraded-join true true h e b = refl
upgraded-join true false true e b = refl
upgraded-join true false false e (inl b) = cc
upgraded-join true false false e (inr b) = cc

token_iff :
    (token header : Bytes)
    → ((bytes_eq token [] ≡ true) ⊎ (bytes_eq header token ≡ true))
      ↔ ((token ≡ []) ⊎ (header ≡ token))
token_iff token header = (
  λ b. elim b [
    | inl e ↦ inl ((bytes_eq_iff token []).0 e)
    | inr e ↦ inr ((bytes_eq_iff header token).0 e)
  ],
  λ b. elim b [
    | inl e ↦ inl ((bytes_eq_iff token []).1 e)
    | inr e ↦ inr ((bytes_eq_iff header token).1 e)
  ],
)

module _ {Cidr : Type 0} (net : NetText Cidr) where
  abbrev pub prepend : Option Cidr → Option (List Cidr) → Option (List Cidr)
  prepend none rest = none
  prepend (some n) none = none
  prepend (some n) (some nets) = some (n ∷ nets)

  unfoldable pub parse_all : List Bytes → Option (List Cidr)
  parse_all [] = some []
  parse_all (text ∷ rest) = prepend (net.parse_cidr (trim_space text)) (parse_all rest)

  -- The networks of the flag `-cidr`; `none` where the server does not start.
  unfoldable pub allowed_nets : Bytes → Option (List Cidr)
  allowed_nets cidrs = parse_all (split b',' cidrs)

  unfoldable pub is_allowed : List Cidr → Bytes → Bool
  is_allowed [] ip = false
  is_allowed (n ∷ nets) ip = if net.contains n ip then true else is_allowed nets ip

  unfoldable pub check_source : List Cidr → Bytes → Bytes → Option (Bytes × Bytes) → Verdict
  check_source nets token header none = bad_request
  check_source nets token header (some (client_ip, port)) =
      if not (is_allowed nets (net.parse_ip client_ip))
      then forbidden
      else if not (bytes_eq token []) && not (bytes_eq header token)
      then unauthorized
      else upgraded

  -- The handler, on the networks, the token, the client's address and its header
  -- `Sec-WebSocket-Protocol`.
  unfoldable pub serve_request : List Cidr → Bytes → Bytes → Bytes → Verdict
  serve_request nets token remote header =
      check_source nets token header (net.split_host_port remote)

  -- Some text of the list is a network that holds the address.
  abbrev pub Covers : List Bytes → Bytes → Type 0
  Covers [] ip = ⊥
  Covers (text ∷ rest) ip =
      ((n : Cidr) × (net.parse_cidr (trim_space text) ≡ some n) × (net.contains n ip ≡ true))
      ⊎ Covers rest ip

  prepend-split :
      (o : Option Cidr) (rest : Option (List Cidr)) (nets : List Cidr)
      → prepend o rest ≡ some nets
      → (n : Cidr) × (more : List Cidr) × (o ≡ some n) × (rest ≡ some more) × (nets ≡ n ∷ more)
  prepend-split none rest nets e = cc
  prepend-split (some n) none nets e = cc
  prepend-split (some n) (some more) nets e = (n, more, refl, refl, cc)

  Covers-later :
      (text : Bytes) (rest : List Bytes) {n : Cidr} {ip : Bytes}
      → Covers (text ∷ rest) ip
      → net.parse_cidr (trim_space text) ≡ some n
      → net.contains n ip ≡ false
      → Covers rest ip
  Covers-later text rest (inl (m, p, hit)) q miss = cc
  Covers-later text rest (inr h) q miss = h

  is_allowed-first :
      (n : Cidr) (more : List Cidr) (ip text : Bytes) (rest : List Bytes)
      → net.parse_cidr (trim_space text) ≡ some n
      → (is_allowed more ip ≡ true) ↔ Covers rest ip
      → (is_allowed (n ∷ more) ip ≡ true) ↔ Covers (text ∷ rest) ip
  unfolding is_allowed
  is_allowed-first n more ip text rest p later = elim (Bool-cases (net.contains n ip)) [
    | inl hit ↦ (λ h. inl (n, p, hit), λ h. rw hit)
    | inr miss ↦ (
      λ h. inr (later.0 (rw miss at h)),
      λ h. rw miss (later.1 (Covers-later text rest h p miss)),
    )
  ]

  is_allowed_iff :
      (texts : List Bytes) (nets : List Cidr) (ip : Bytes)
      → parse_all texts ≡ some nets
      → (is_allowed nets ip ≡ true) ↔ Covers texts ip
  unfolding parse_all is_allowed
  is_allowed_iff [] nets ip e =
      let empty : [] ≡ nets = some_injective e in
      (λ h. absurd (ground (arith, h, empty)), λ h. absurd h)
  is_allowed_iff (text ∷ rest) nets ip e =
      let (n, more, p, q, same) =
        prepend-split (net.parse_cidr (trim_space text)) (parse_all rest) nets e in
      rw same (is_allowed-first n more ip text rest p (is_allowed_iff rest more ip q))

  same_source :
      (nets : List Cidr) {a b x y : Bytes}
      → ◌≡◌ {A = Option (Bytes × Bytes)} (some (a, b)) (some (x, y))
      → is_allowed nets (net.parse_ip x) ≡ true
      → is_allowed nets (net.parse_ip a) ≡ true
  same_source nets p e = cc

  check_source_iff :
      (nets : List Cidr) (token header : Bytes) (o : Option (Bytes × Bytes))
      → (check_source nets token header o ≡ upgraded) ↔ (
          (client_ip : Bytes) × (port : Bytes) × (o ≡ some (client_ip, port))
          × (is_allowed nets (net.parse_ip client_ip) ≡ true)
          × ((token ≡ []) ⊎ (header ≡ token)))
  unfolding check_source
  check_source_iff nets token header none = (λ e. cc, λ (client_ip, port, e, a, b). cc)
  check_source_iff nets token header (some (client_ip, port)) =
      let allowed = is_allowed nets (net.parse_ip client_ip) in
      (
        λ e.
            (let (a, b) = upgraded-split allowed (bytes_eq token []) (bytes_eq header token) e in
              (client_ip, port, refl, a, (token_iff token header).0 b)),
        λ (x, y, p, a, b).
            upgraded-join allowed (bytes_eq token []) (bytes_eq header token) (same_source nets p a)
              ((token_iff token header).1 b),
      )

  -- A request is handed to the upgrader exactly if its source's address is in one of the configured
  -- networks, and the header is the token where one is configured.
  pub serve_request_iff :
      (cidrs : Bytes) (nets : List Cidr) (token remote header : Bytes)
      → allowed_nets cidrs ≡ some nets
      → (serve_request nets token remote header ≡ upgraded) ↔ (
          (client_ip : Bytes) × (port : Bytes) × (net.split_host_port remote
            ≡ some (client_ip, port))
          × Covers (split b',' cidrs) (net.parse_ip client_ip)
          × ((token ≡ []) ⊎ (header ≡ token)))
  unfolding serve_request allowed_nets
  serve_request_iff cidrs nets token remote header e =
      let (to, from) = check_source_iff nets token header (net.split_host_port remote) in
      (
        λ h.
            (let (client_ip, port, p, a, b) = to h in
              (
                client_ip,
                port,
                p,
                (is_allowed_iff (split b',' cidrs) nets (net.parse_ip client_ip) e).0 a,
                b,
              )),
        λ (client_ip, port, p, a, b). from (
          client_ip,
          port,
          p,
          (is_allowed_iff (split b',' cidrs) nets (net.parse_ip client_ip) e).1 a,
          b,
        ),
      )
