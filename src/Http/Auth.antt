-- ===== src/Http/Auth.antt =====
-- Who passes `validateProxyAuth` (http_proxy.go).
use tunnel.Prelude.{
  ℕ, Bytes, Bool, true, false, List, [], ◌∷◌, ◌++◌, ◌≡◌, ◌↔◌, subst, refl, sym, ap, ◌∙◌, Option,
  none, some, ◌&&◌, ◌==◌, codes, bytes_eq, bytes_eq_iff, bytes_eq_refl, Bool-cases, Option-cases,
  inl, inr, arith, ==_iff,
}
use tunnel.Text.{
  trim_prefix-append, cut-exact, has_prefix, cut, split_n, Lacks, has_prefix-append, split_n-two,
}
use tunnel.Dns.Base64.{encode, decode}
use tunnel.Dns.Base64.RoundTrip.{AreOctets, decode-encode}
use tunnel.Proxy.{Read, valid, parse_proxy_addr}
use tunnel.Proxy.Address.{split_n-cut, parse_proxy_addr-valid}
use tunnel.Socks.Handshake.{Config}
use tunnel.Http.{is_login, check_credentials, validate_proxy_auth}

first_same : {b c : ℕ} {s t : Bytes} → b ≡ c → s ≡ t → ◌≡◌ {A = Bytes} (b ∷ s) (c ∷ t)
first_same p q = cc

has_prefix-split : (s p : Bytes) → has_prefix s p ≡ true → (rest : Bytes) × (s ≡ p ++ rest)
unfolding has_prefix
has_prefix-split s [] e = (s, refl)
has_prefix-split [] (c ∷ p) e = absurd (ground (arith, e))
has_prefix-split (b ∷ s) (c ∷ p) e = elim (Bool-cases (b == c)) [
  | inr other ↦ absurd (ground (arith, e, other))
  | inl same ↦
      let (rest, q) = has_prefix-split s p (ground (arith, e, same)) in
      (rest, first_same ((==_iff b c).0 same) q)
]

-- The credentials of a header.
abbrev pub credentials : Bytes → Bytes → Bytes
credentials username password = username ++ b':' ∷ password

split_n-none : (sep : ℕ) (s : Bytes) → cut sep s ≡ none → split_n 2 sep s ≡ s ∷ []
unfolding split_n
split_n-none sep s e = rw (split_n, e)

rejoin :
    (sep : ℕ) {s x y a b : Bytes}
    → ◌≡◌ {A = List Bytes} (x ∷ y ∷ []) (a ∷ b ∷ [])
    → s ≡ x ++ sep ∷ y
    → s ≡ a ++ sep ∷ b
rejoin sep p q = cc

split_n-two-exact : (sep : ℕ) (s a b : Bytes) → split_n 2 sep s ≡ a ∷ b ∷ [] → s ≡ a ++ sep ∷ b
unfolding split_n
split_n-two-exact sep s a b e = elim (Option-cases (cut sep s)) [
  | inl missing ↦ absurd (ground (arith, sym (split_n-none sep s missing) ∙ e))
  | inr ((x, y), p) ↦ rejoin sep (sym (split_n-cut sep s x y p) ∙ e) (cut-exact sep s x y p)
]

both_true : (a b : Bool) → (a && b) ≡ true → (a ≡ true) × (b ≡ true)
both_true true b e = (refl, e)
both_true false b e = absurd (ground (arith, e))

both_parts : {u v p q : Bytes} → u ≡ v → p ≡ q → ◌≡◌ {A = List Bytes} (u ∷ p ∷ []) (v ∷ q ∷ [])
both_parts e f = cc

is_login-split :
    (username password : Bytes) (parts : List Bytes)
    → is_login username password parts ≡ true
    → parts ≡ username ∷ password ∷ []
unfolding is_login
is_login-split username password [] e = absurd (ground (arith, e))
is_login-split username password (u ∷ []) e = absurd (ground (arith, e))
is_login-split username password (u ∷ p ∷ q ∷ parts) e = absurd (ground (arith, e))
is_login-split username password (u ∷ p ∷ []) e =
    let (same_user, same_password) = both_true (bytes_eq u username) (bytes_eq p password) e in
    both_parts ((bytes_eq_iff u username).0 same_user) ((bytes_eq_iff p password).0 same_password)

check_credentials-exact :
    (username password : Bytes) (o : Option Bytes)
    → check_credentials username password o ≡ true
    → o ≡ some (credentials username password)
unfolding check_credentials
check_credentials-exact username password none e = absurd (ground (arith, e))
check_credentials-exact username password (some s) e = ap some (
    split_n-two-exact b':' s username password
      (is_login-split username password (split_n 2 b':' s) e))

validate_proxy_auth-Basic :
    (encoded username password : Bytes)
    → validate_proxy_auth (codes "Basic " ++ encoded) username password
      ≡ check_credentials username password (decode encoded)
unfolding validate_proxy_auth bytes_eq
validate_proxy_auth-Basic encoded username password =
    rw (has_prefix-append (codes "Basic ") encoded, trim_prefix-append (codes "Basic ") encoded)

pub validate_proxy_auth-exact :
    (header username password : Bytes)
    → validate_proxy_auth header username password ≡ true
    → (encoded : Bytes) × (header ≡ codes "Basic " ++ encoded)
      × (decode encoded ≡ some (credentials username password))
unfolding validate_proxy_auth
validate_proxy_auth-exact header username password e =
    elim (Bool-cases (has_prefix header (codes "Basic "))) [
      | inr other ↦ absurd (ground (arith, e, other))
      | inl basic ↦
          let (encoded, p) = has_prefix-split header (codes "Basic ") basic in
          let checked = sym (validate_proxy_auth-Basic encoded username password) ∙ (rw p at e) in
          (encoded, p, check_credentials-exact username password (decode encoded) checked)
    ]

check_credentials-pass :
    (username password : Bytes)
    → Lacks b':' username
    → check_credentials username password (some (credentials username password)) ≡ true
unfolding check_credentials is_login
check_credentials-pass username password u =
    rw (split_n-two b':' username password u, bytes_eq_refl username, bytes_eq_refl password)

validate_proxy_auth-pass :
    (username password encoded : Bytes)
    → Lacks b':' username
    → decode encoded ≡ some (credentials username password)
    → validate_proxy_auth (codes "Basic " ++ encoded) username password ≡ true
validate_proxy_auth-pass username password encoded u e =
    validate_proxy_auth-Basic encoded username password
    ∙ ap (check_credentials username password) e
    ∙ check_credentials-pass username password u

validate_proxy_auth_iff :
    (header username password : Bytes)
    → Lacks b':' username
    → (validate_proxy_auth header username password ≡ true) ↔ (
        (encoded : Bytes) × (header ≡ codes "Basic " ++ encoded)
        × (decode encoded ≡ some (credentials username password)))
validate_proxy_auth_iff header username password u = (
  validate_proxy_auth-exact header username password,
  λ (encoded, p, q). rw p (validate_proxy_auth-pass username password encoded u q),
)

valid_same : {c d : Config} → ◌≡◌ {A = Option Read} (some (valid c)) (some (valid d)) → c ≡ d
valid_same e = cc

-- For a configuration that `parseProxyAddr` read, a header passes exactly if it is `Basic ` and a
-- base64 text of the configured user name, a `:` and the configured password.
pub validate_proxy_auth-parse_proxy_addr :
    (addr : Bytes) (c : Config) (header : Bytes)
    → parse_proxy_addr addr ≡ some (valid c)
    → (validate_proxy_auth header c.username c.password ≡ true) ↔ (
        (encoded : Bytes) × (header ≡ codes "Basic " ++ encoded)
        × (decode encoded ≡ some (credentials c.username c.password)))
validate_proxy_auth-parse_proxy_addr addr c header e =
    let (d, p, lacks) = parse_proxy_addr-valid addr in
    validate_proxy_auth_iff header c.username c.password
      (subst (λ (x : Config). Lacks b':' x.username) (valid_same (sym p ∙ e)) lacks)

-- The header that a client writes by RFC 7617 passes, for a user name without a `:` and credentials
-- of octets.
validate_proxy_auth-encode :
    (username password : Bytes)
    → Lacks b':' username
    → AreOctets (credentials username password)
    → validate_proxy_auth
        (codes "Basic " ++ encode (credentials username password))
        username
        password
      ≡ true
validate_proxy_auth-encode username password u o =
    validate_proxy_auth-pass username password (encode (credentials username password)) u
      (decode-encode (credentials username password) o)
