-- ===== src/Tests/WebTests.antt =====
-- An encoding of `url.Values` that reads back, and the request to a DoH server (ech.go) with it.
use tunnel.Prelude.{
  ℕ, zero, suc, Bytes, List, [], ◌∷◌, ◌++◌, ◌≡◌, ◌≢◌, refl, ap, ◌∙◌, none, some, codes, arith,
  append_assoc,
}
use tunnel.Prelude.Map.{lookup, bytes_key}
use tunnel.Ech.Doh.{raw_url_decode}
use tunnel.Dns.Format.Question.{query_bytes}
use tunnel.Ech.Request.{Values, AreFilled, Web, IsQuery, no_reply, request_to, request_to-question}
use tunnel.Tests.ClientTests.{server_url}
use tunnel.Tests.DnsTests.{example_com}

-- A byte of a name stands behind 0, a byte of a value behind 3; 2 separates values and 1 ends an entry.
abbrev marked : ℕ → Bytes → Bytes
marked m [] = []
marked m (c ∷ s) = m ∷ c ∷ marked m s

abbrev write_values : List Bytes → Bytes
write_values [] = []
write_values (v ∷ []) = marked 3 v
write_values (v ∷ w ∷ values) = marked 3 v ++ 2 ∷ write_values (w ∷ values)

abbrev write : Values → Bytes
write [] = []
write ((name, values) ∷ q) = marked 0 name ++ (write_values values ++ 1 ∷ write q)

abbrev name_byte : ℕ → Values → Values
name_byte c [] = []
name_byte c ((name, values) ∷ q) = (c ∷ name, values) ∷ q

abbrev first_byte : ℕ → List Bytes → List Bytes
first_byte c [] = []
first_byte c (v ∷ values) = (c ∷ v) ∷ values

abbrev value_byte : ℕ → Values → Values
value_byte c [] = []
value_byte c ((name, values) ∷ q) = (name, first_byte c values) ∷ q

abbrev new_value : Values → Values
new_value [] = []
new_value ((name, values) ∷ q) = (name, [] ∷ values) ∷ q

abbrev read : Bytes → Values
read [] = []
read (zero ∷ []) = []
read (zero ∷ c ∷ text) = name_byte c (read text)
read (suc zero ∷ text) = ([], [] ∷ []) ∷ read text
read (suc (suc zero) ∷ text) = new_value (read text)
read (suc (suc (suc m)) ∷ []) = []
read (suc (suc (suc m)) ∷ c ∷ text) = value_byte c (read text)

name_byte-AreFilled : (c : ℕ) (q : Values) → AreFilled q → AreFilled (name_byte c q)
name_byte-AreFilled c [] h = h
name_byte-AreFilled c ((name, values) ∷ q) h = h

value_byte-AreFilled : (c : ℕ) (q : Values) → AreFilled q → AreFilled (value_byte c q)
value_byte-AreFilled c [] h = h
value_byte-AreFilled c ((name, []) ∷ q) h = h
value_byte-AreFilled c ((name, v ∷ values) ∷ q) h = ((λ e. cc), h.1)

new_value-AreFilled : (q : Values) → AreFilled q → AreFilled (new_value q)
new_value-AreFilled [] h = h
new_value-AreFilled ((name, values) ∷ q) h = ((λ e. cc), h.1)

read-AreFilled : (text : Bytes) → AreFilled (read text)
read-AreFilled [] = _
read-AreFilled (zero ∷ []) = _
read-AreFilled (zero ∷ c ∷ text) = name_byte-AreFilled c (read text) (read-AreFilled text)
read-AreFilled (suc zero ∷ text) = ((λ e. cc), read-AreFilled text)
read-AreFilled (suc (suc zero) ∷ text) = new_value-AreFilled (read text) (read-AreFilled text)
read-AreFilled (suc (suc (suc m)) ∷ []) = _
read-AreFilled (suc (suc (suc m)) ∷ c ∷ text) =
    value_byte-AreFilled c (read text) (read-AreFilled text)

read-name :
    (name : Bytes) (values : List Bytes) (q : Values) (text : Bytes)
    → read text ≡ ([], values) ∷ q
    → read (marked 0 name ++ text) ≡ (name, values) ∷ q
read-name [] values q text e = e
read-name (c ∷ name) values q text e = ap (name_byte c) (read-name name values q text e)

read-value :
    (v : Bytes) (values : List Bytes) (q : Values) (text : Bytes)
    → read text ≡ ([], [] ∷ values) ∷ q
    → read (marked 3 v ++ text) ≡ ([], v ∷ values) ∷ q
read-value [] values q text e = e
read-value (c ∷ v) values q text e = ap (value_byte c) (read-value v values q text e)

read-values :
    (v : Bytes) (values : List Bytes) (q : Values) (text : Bytes)
    → read text ≡ q
    → read (write_values (v ∷ values) ++ 1 ∷ text) ≡ ([], v ∷ values) ∷ q
read-values v [] q text e = read-value v [] q (1 ∷ text) (ap (λ r. ([], [] ∷ []) ∷ r) e)
read-values v (w ∷ values) q text e =
    ap read (append_assoc (marked 3 v) (2 ∷ write_values (w ∷ values)) (1 ∷ text))
    ∙ read-value v (w ∷ values) q (2 ∷ (write_values (w ∷ values) ++ 1 ∷ text))
        (ap new_value (read-values w values q text e))

read-write : (q : Values) → AreFilled q → read (write q) ≡ q
read-write [] h = refl
read-write ((name, []) ∷ q) h = absurd (h.0 refl)
read-write ((name, v ∷ values) ∷ q) h =
    read-name name (v ∷ values) q (write_values (v ∷ values) ++ 1 ∷ write q)
      (read-values v values q (write q) (read-write q h.1))

abbrev web : Web
web = record {
  parse_url = λ text. some server_url;
  query = read;
  encode = write;
  exchange = λ r. no_reply;
}

web-IsQuery : IsQuery web
web-IsQuery = ((λ q name h. ap (lookup name) (read-write q h)), read-AreFilled)

request_to-question_example :
    (let r = request_to web (codes "example.com") server_url in
      let found = read r.url.raw_query in
      (r.url.scheme ≡ codes "wss")
      × (r.url.host ≡ codes "h")
      × (r.url.path ≡ codes "/")
      × ((parameter : Bytes) × (lookup (codes "dns") found ≡ some (parameter ∷ []))
          × (raw_url_decode parameter ≡ some (query_bytes example_com 65)))
      × (lookup (codes "name") found ≡ none)
      × (lookup (codes "type") found ≡ none)
      × ((name : Bytes)
          → name ≢ codes "dns"
          → name ≢ codes "name"
          → name ≢ codes "type"
          → lookup name found ≡ none))
unfolding lookup
request_to-question_example =
    request_to-question web server_url (codes "example") (codes "com" ∷ []) web-IsQuery
      (omega arith) (omega arith) (omega arith) (omega arith)
