-- ===== src/Ech/Fetch.antt =====
-- What `prepareECH` (ech.go) stores, from the bytes on the wire to the list that TLS is given.
use tunnel.Prelude.{
  ℕ, zero, suc, Bytes, List, [], ◌∷◌, ◌++◌, ◌≡◌, ◌≢◌, refl, ◌∙◌, none, some, ◌<◌, length,
  if◌then◌else◌, ◌==◌, arith, Bool-cases, inl, inr,
}
use tunnel.Dns.Base64.{encode, decode}
use tunnel.Dns.Base64.RoundTrip.{AreOctets, decode-encode, encode-ne-nil}
use tunnel.Dns.Format.Records.{
  Answer, Param, Data, https, other, response_bytes, IsName, IsAnswers, params_ech, data_ech,
  or_else, answers_ech,
}
use tunnel.Dns.Format.RoundTrip.{parse_dns_response-response_bytes}
use tunnel.TcpClient.Dial.{
  Round, Action, dials, refreshes, dial_websocket_with_ech, dial_loop, with_list,
}
use tunnel.Ech.Cache.{Attempt, body, query_doh, list_of, prepare_ech, get_ech_list}

-- The ECH list that answers carry, not encoded: the value of the first parameter with key 5 of each
-- HTTPS record, and the first of these that is not empty.
abbrev pub params_list : List Param → Bytes
params_list [] = []
params_list ((key, value) ∷ params) = if key == 5 then value else params_list params

abbrev pub data_list : Data → Bytes
data_list (https h) = params_list h.params
data_list (other t bytes) = []

abbrev pub answers_list : List Answer → Bytes
answers_list [] = []
answers_list (a ∷ rest) = or_else (data_list a.content) (answers_list rest)

params_ech-encode : (params : List Param) → params_ech params ≡ encode (params_list params)
unfolding encode
params_ech-encode [] = refl
params_ech-encode ((key, value) ∷ params) = elim (Bool-cases (key == 5)) [
  | inl hit ↦ rw hit
  | inr miss ↦ rw miss (params_ech-encode params)
]

data_ech-encode : (d : Data) → data_ech d ≡ encode (data_list d)
data_ech-encode (https h) = params_ech-encode h.params
data_ech-encode (other t bytes) = unfold encode in refl

or_else-cons : (s next : Bytes) → s ≢ [] → or_else s next ≡ s
or_else-cons [] next h = absurd (h refl)
or_else-cons (b ∷ s) next h = refl

or_else-encode : (v next : Bytes) → or_else (encode v) (encode next) ≡ encode (or_else v next)
or_else-encode [] next = unfold encode in refl
or_else-encode (b ∷ v) next = or_else-cons (encode (b ∷ v)) (encode next) (encode-ne-nil b v)

answers_ech-encode : (all : List Answer) → answers_ech all ≡ encode (answers_list all)
answers_ech-encode [] = unfold encode in refl
answers_ech-encode (a ∷ rest) =
    rw (data_ech-encode a.content, answers_ech-encode rest)
      (or_else-encode (data_list a.content) (answers_list rest))

list_of-decode : (s : Bytes) → s ≢ [] → list_of (some s) ≡ decode s
list_of-decode [] h = absurd (h refl)
list_of-decode (b ∷ s) h = refl

list_of-encode : (v : Bytes) → AreOctets v → v ≢ [] → list_of (some (encode v)) ≡ some v
list_of-encode [] o h = absurd (h refl)
list_of-encode (b ∷ v) o h =
    list_of-decode (encode (b ∷ v)) (encode-ne-nil b v) ∙ decode-encode (b ∷ v) o

-- What is done first, if anything is, is a dial with this list.
abbrev pub BeginsWith : Bytes → List Action → Type 0
BeginsWith v [] = Unit {0}
BeginsWith v (dials ech_list ∷ actions) = ech_list ≡ v
BeginsWith v (refreshes ∷ actions) = ⊥

dial_websocket_with_ech-BeginsWith :
    (v : Bytes) (max_retries : ℕ) (world : ℕ → Round)
    → v ≢ []
    → BeginsWith v (dial_websocket_with_ech max_retries world v).0
unfolding dial_websocket_with_ech dial_loop get_ech_list with_list
dial_websocket_with_ech-BeginsWith [] max_retries world h = absurd (h refl)
dial_websocket_with_ech-BeginsWith (b ∷ v) zero world h = _
dial_websocket_with_ech-BeginsWith (b ∷ v) (suc left) world h = elim (Bool-cases (world 1).roots) [
  | inl loaded ↦ rw loaded refl
  | inr missing ↦ rw missing _
]

-- The attempts before the first that stores a list do not matter.
prepare_ech-append :
    (before after : List Attempt) (attempt : Attempt) (v : Bytes)
    → prepare_ech before ≡ none
    → list_of (query_doh attempt) ≡ some v
    → prepare_ech (before ++ attempt ∷ after) ≡ some v
unfolding prepare_ech
prepare_ech-append [] after attempt v p e = rw e
prepare_ech-append (a ∷ before) after attempt v p e =
    ground (arith, prepare_ech-append before after attempt v)

-- A response whose owner names are each a bare compression pointer or plain labels, and which carries
-- an ECH list, comes in behind any attempts that stored no list: `prepareECH` returns, and what it has
-- stored is byte for byte the list of the response. With this list in the cache,
-- `dialWebSocketWithECH`, if it does anything, first dials with just these bytes.
pub prepare_ech-response_bytes :
    (before after : List Attempt) (head counts tail rest : Bytes) (question : List Bytes)
    (all : List Answer) (max_retries : ℕ) (world : ℕ → Round)
    → prepare_ech before ≡ none
    → length head ≡ 6
    → length counts ≡ 4
    → length tail ≡ 4
    → IsName question
    → IsAnswers all
    → 0 < length all
    → length all < 65536
    → AreOctets (answers_list all)
    → answers_list all ≢ []
    → (prepare_ech (before ++ body (response_bytes head counts question tail all rest) ∷ after)
        ≡ some (answers_list all))
      × BeginsWith
          (answers_list all)
          (dial_websocket_with_ech max_retries world (answers_list all)).0
prepare_ech-response_bytes before after head counts tail rest question all max_retries world p h c t
      q v lo hi o ne =
    let parsed =
      parse_dns_response-response_bytes head counts tail rest question all h c t q v lo hi in
    let stored : list_of (query_doh (body (response_bytes head counts question tail all rest)))
        ≡ some (answers_list all) =
      unfold query_doh in
      rw (parsed, answers_ech-encode all) (list_of-encode (answers_list all) o ne) in
    (
      prepare_ech-append before after (body (response_bytes head counts question tail all rest))
          (answers_list all) p stored,
      dial_websocket_with_ech-BeginsWith (answers_list all) max_retries world ne,
    )
