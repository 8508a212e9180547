-- ===== src/Ech/Request.antt =====
-- `queryHTTPSRecord` and `queryDoH` (ech.go): the request to the DoH server, and what is made of its
-- reply. Packages net/url and net/http are parameters.
use tunnel.Prelude.{
  ℕ, Bytes, List, [], ◌∷◌, ◌≡◌, ◌≢◌, refl, ◌∙◌, Option, none, some, ◌==◌, if◌then◌else◌, codes,
  bytes_eq, Bool-cases, inl, inr,
}
use tunnel.Prelude.Map.{
  Map, lookup, insert, erase, bytes_key, lookup-insert_self, lookup-insert_ne, lookup-erase,
  lookup-erase_self, lookup-erase_ne,
}
use tunnel.Text.{Lacks, AllLack, join}
use tunnel.Dns.Base64.RoundTrip.{AreOctets}
use tunnel.Dns.Format.Records.{IsName}
use tunnel.Dns.Format.Question.{query_bytes}
use tunnel.Http.Request.{Url}
use tunnel.Ech.Cache.{Attempt, no_response, body, query_doh}
use tunnel.Ech.Doh.{doh_url, dns_parameter, raw_url_decode, dns_parameter-query_bytes}

-- `url.Values`
abbrev pub Values : Type 0
Values = Map Bytes (List Bytes)

-- `http.Request`, and its two headers
pub record DohRequest : Type 0 where
  pub url : Url
  pub accept : Bytes
  pub content_type : Bytes

-- The exchange fails, or it gives a status and a body, which may fail to be read.
pub data DohReply : Type 0 where
  no_reply : DohReply
  reply : ℕ → Option Bytes → DohReply

-- `url.Parse`, `(*url.URL).Query`, `url.Values.Encode`, and `http.NewRequest` with `client.Do` and
-- `io.ReadAll`
pub record Web : Type 0 where
  pub parse_url : Bytes → Option Url
  pub query : Bytes → Values
  pub encode : Values → Bytes
  pub exchange : DohRequest → DohReply

-- `q` when it is encoded.
unfoldable pub doh_values : Bytes → Values → Values
doh_values domain q =
    let named =
      insert (codes "type") (codes "HTTPS" ∷ []) (insert (codes "name") (domain ∷ []) q) in
    let asking = insert (codes "dns") (dns_parameter domain ∷ []) named in
    erase (codes "type") (erase (codes "name") asking)

unfoldable pub attempt_of : DohReply → Attempt
attempt_of no_reply = no_response
attempt_of (reply status none) = no_response
attempt_of (reply status (some bytes)) = if status == 200 then body bytes else no_response

unfoldable pub request_to : Web → Bytes → Url → DohRequest
request_to w domain u = record {
  url = record u { raw_query = w.encode (doh_values domain (w.query u.raw_query)) };
  accept = codes "application/dns-message";
  content_type = codes "application/dns-message";
}

abbrev pub ask_at : Web → Bytes → Option Url → Attempt
ask_at w domain none = no_response
ask_at w domain (some u) = attempt_of (w.exchange (request_to w domain u))

-- An attempt of `prepareECH`, as far as the parsing of the body.
unfoldable pub ask : Web → Bytes → Bytes → Attempt
ask w domain dns_server = ask_at w domain (w.parse_url (doh_url dns_server))

unfoldable pub query_https_record : Web → Bytes → Bytes → Option Bytes
query_https_record w domain dns_server = query_doh (ask w domain dns_server)

-- The values are encoded with the names that they have: reading them again gives the same, and what is
-- read has no name without a value.
abbrev pub AreFilled : Values → Type 0
AreFilled [] = Unit {0}
AreFilled ((name, values) ∷ q) = (values ≢ []) × AreFilled q

abbrev pub IsQuery : Web → Type 0
IsQuery w =
    ((q : Values) (name : Bytes) → AreFilled q → lookup name (w.query (w.encode q)) ≡ lookup name q)
    × ((text : Bytes) → AreFilled (w.query text))

AreFilled-insert : (name v : Bytes) (q : Values) → AreFilled q → AreFilled (insert name (v ∷ []) q)
unfolding insert
AreFilled-insert name v [] f = ((λ e. cc), _)
AreFilled-insert name v ((k, values) ∷ q) f = elim (Bool-cases (bytes_eq k name)) [
  | inl same ↦ rw same ((λ e. cc), f.1)
  | inr other ↦ rw other (f.0, AreFilled-insert name v q f.1)
]

AreFilled-erase : (name : Bytes) (q : Values) → AreFilled q → AreFilled (erase name q)
unfolding erase
AreFilled-erase name [] f = f
AreFilled-erase name ((k, values) ∷ q) f = elim (Bool-cases (bytes_eq k name)) [
  | inl same ↦ rw same (AreFilled-erase name q f.1)
  | inr other ↦ rw other (f.0, AreFilled-erase name q f.1)
]

doh_values-dns :
    (domain : Bytes) (q : Values)
    → lookup (codes "dns") (doh_values domain q) ≡ some (dns_parameter domain ∷ [])
unfolding doh_values bytes_eq
doh_values-dns domain q = rw (
  lookup-erase (codes "type") (codes "dns") _,
  lookup-erase (codes "name") (codes "dns") _,
  lookup-insert_self (codes "dns") (dns_parameter domain ∷ []) _,
)

doh_values-name : (domain : Bytes) (q : Values) → lookup (codes "name") (doh_values domain q) ≡ none
unfolding doh_values bytes_eq
doh_values-name domain q =
    rw (lookup-erase (codes "type") (codes "name") _, lookup-erase_self (codes "name") _)

doh_values-type : (domain : Bytes) (q : Values) → lookup (codes "type") (doh_values domain q) ≡ none
unfolding doh_values
doh_values-type domain q = lookup-erase_self (codes "type") _

doh_values-other :
    (domain name : Bytes) (q : Values)
    → name ≢ codes "dns"
    → name ≢ codes "name"
    → name ≢ codes "type"
    → lookup name (doh_values domain q) ≡ lookup name q
unfolding doh_values
doh_values-other domain name q a b c = rw (
  lookup-erase_ne (codes "type") name _ c,
  lookup-erase_ne (codes "name") name _ b,
  lookup-insert_ne (codes "dns") name (dns_parameter domain ∷ []) _ a,
  lookup-insert_ne (codes "type") name (codes "HTTPS" ∷ []) _ c,
  lookup-insert_ne (codes "name") name (domain ∷ []) _ b,
)

doh_values-AreFilled : (domain : Bytes) (q : Values) → AreFilled q → AreFilled (doh_values domain q)
unfolding doh_values
doh_values-AreFilled domain q f = AreFilled-erase (codes "type") _ (
    AreFilled-erase (codes "name") _ (
      AreFilled-insert (codes "dns") (dns_parameter domain) _ (
        AreFilled-insert (codes "type") (codes "HTTPS") _
          (AreFilled-insert (codes "name") domain q f))))

-- The request goes to the DoH server's URL. What the server reads in its query, where net/url reads back
-- the names that it has encoded: under `dns`, by RFC 4648, the question of RFC 1035 for the HTTPS record
-- of just the labels of the domain, if each has 1 to 63 bytes and no dot; nothing under `name` and
-- `type`; and under every other name what the configured URL has.
pub request_to-question :
    (w : Web) (u : Url) (label : Bytes) (labels : List Bytes)
    → IsQuery w
    → Lacks b'.' label
    → AllLack b'.' labels
    → IsName (label ∷ labels)
    → AreOctets (query_bytes (label ∷ labels) 65)
    → (let r = request_to w (join b'.' label labels) u in
        let read = w.query r.url.raw_query in
        (r.url.scheme ≡ u.scheme)
        × (r.url.host ≡ u.host)
        × (r.url.path ≡ u.path)
        × ((parameter : Bytes) × (lookup (codes "dns") read ≡ some (parameter ∷ []))
            × (raw_url_decode parameter ≡ some (query_bytes (label ∷ labels) 65)))
        × (lookup (codes "name") read ≡ none)
        × (lookup (codes "type") read ≡ none)
        × ((name : Bytes)
            → name ≢ codes "dns"
            → name ≢ codes "name"
            → name ≢ codes "type"
            → lookup name read ≡ lookup name (w.query u.raw_query)))
unfolding request_to
request_to-question w u label labels (back, filled) a b c d =
    let domain = join b'.' label labels in
    let q = w.query u.raw_query in
    let same : (name : Bytes)
        → lookup name (w.query (w.encode (doh_values domain q)))
          ≡ lookup name (doh_values domain q) =
      λ name.
        back (doh_values domain q) name (doh_values-AreFilled domain q (filled u.raw_query)) in
    (
      refl,
      refl,
      refl,
      (
        dns_parameter domain,
        same (codes "dns") ∙ doh_values-dns domain q,
        dns_parameter-query_bytes label labels a b c d,
      ),
      same (codes "name") ∙ doh_values-name domain q,
      same (codes "type") ∙ doh_values-type domain q,
      λ name x y z. same name ∙ doh_values-other domain name q x y z,
    )
