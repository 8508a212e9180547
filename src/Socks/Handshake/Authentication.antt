-- ===== src/Socks/Handshake/Authentication.antt =====
-- Who passes `handleSOCKS5UserPassAuth` (socks5.go): RFC 1929 against the handshake's code.
use tunnel.Prelude.{
  ℕ, zero, suc, Bytes, Bool, true, false, List, [], ◌∷◌, ◌++◌, ◌≡◌, refl, ap, ◌∙◌, Option, none,
  some, if◌then◌else◌, ◌==◌, length, bytes_eq, bytes_eq_iff, bytes_eq_refl, Bool-cases, inl, inr,
  arith, ==_iff,
}
use tunnel.Socks.Address.{IpText}
use tunnel.Socks.Handshake.{
  Config, Session, ended, connects, associates, after, read_full, offers, has_credentials,
  select_method, handle_request, finish_auth, handle_user_pass, follow_method, handle_socks5,
  with_sized, use_field, with_first, answer_methods,
}

-- Whether a session comes to a command that is carried out.
abbrev pub is_served : Session → Bool
is_served (ended replies) = false
is_served (connects replies target input) = true
is_served (associates replies input) = true

-- RFC 1928 and RFC 1929: the offered methods, then the name and the password of a configuration.
abbrev pub login_wire : Bytes → Config → Bytes → Bytes
login_wire methods c rest =
    length methods
    ∷ (methods
        ++ (1 ∷ length c.username ∷ (c.username ++ (length c.password ∷ (c.password ++ rest)))))

pub read_full-append :
    (bytes rest : Bytes) → read_full (length bytes) (bytes ++ rest) ≡ some (bytes, rest)
unfolding read_full with_first
read_full-append [] rest = refl
read_full-append (b ∷ bytes) rest = ap (with_first b) (read_full-append bytes rest)

with_first-exact :
    (b : ℕ) (o : Option (Bytes × Bytes)) (bytes rest : Bytes)
    → with_first b o ≡ some (bytes, rest)
    → (found : Bytes) × (bytes ≡ b ∷ found) × (o ≡ some (found, rest))
unfolding with_first
with_first-exact b none bytes rest e = absurd (ground (arith, e))
with_first-exact b (some (found, left)) bytes rest e = (found, cc, cc)

read_full-exact :
    (n : ℕ) (input bytes rest : Bytes)
    → read_full n input ≡ some (bytes, rest)
    → (input ≡ bytes ++ rest) × (length bytes ≡ n)
unfolding read_full
read_full-exact zero input bytes rest e = grind (arith, e)
read_full-exact (suc n) [] bytes rest e = ground (arith, e)
read_full-exact (suc n) (b ∷ input) bytes rest e =
    let (found, same, p) = with_first-exact b (read_full n input) bytes rest e in
    let (whole, sized) = read_full-exact n input found rest p in
    rw same (ap (λ l. b ∷ l) whole, ap suc sized)

pub with_sized-append :
    (bytes rest : Bytes) (use_it : Bytes → Bytes → Session)
    → with_sized (length bytes ∷ (bytes ++ rest)) use_it ≡ use_it bytes rest
unfolding with_sized use_field
with_sized-append bytes rest use_it = ap (use_field use_it) (read_full-append bytes rest)

-- What the client sends for its name and password.
abbrev credentials_wire : Config → Bytes → Bytes
credentials_wire c rest =
    1 ∷ length c.username ∷ (c.username ++ (length c.password ∷ (c.password ++ rest)))

handle_user_pass-credentials_wire :
    (c : Config) (t : IpText) (rest : Bytes)
    → handle_user_pass c t true (credentials_wire c rest)
      ≡ after (1 ∷ 0 ∷ []) (handle_request t rest)
unfolding handle_user_pass finish_auth
handle_user_pass-credentials_wire c t rest = rw (
  with_sized-append c.username (length c.password ∷ (c.password ++ rest))
      (λ user rest. with_sized rest (λ pass rest. finish_auth c t true user pass rest)),
  with_sized-append c.password rest (λ pass rest. finish_auth c t true c.username pass rest),
  bytes_eq_refl c.username,
  bytes_eq_refl c.password,
)

-- With the credentials configured, a client that offers the method and sends them passes.
pub handle_socks5-login_wire :
    (c : Config) (t : IpText) (methods rest : Bytes)
    → has_credentials c ≡ true
    → offers 2 methods ≡ true
    → handle_socks5 c t true true (login_wire methods c rest)
      ≡ after (5 ∷ 2 ∷ []) (after (1 ∷ 0 ∷ []) (handle_request t rest))
unfolding handle_socks5 follow_method select_method answer_methods
handle_socks5-login_wire c t methods rest h o = rw (
  with_sized-append methods (credentials_wire c rest) (answer_methods c t true true),
  h,
  o,
  handle_user_pass-credentials_wire c t rest,
)

is_served-after :
    (reply : Bytes) (s : Session) → is_served (after reply s) ≡ true → is_served s ≡ true
is_served-after reply (ended replies) e = e
is_served-after reply (connects replies target input) e = refl
is_served-after reply (associates replies input) e = refl

if-is_served :
    (b : Bool) (s : Session) (replies : List Bytes)
    → is_served (if b then s else ended replies) ≡ true
    → (b ≡ true) × (is_served s ≡ true)
if-is_served true s replies e = (refl, e)
if-is_served false s replies e = absurd (ground (arith, e))

finish_auth-is_served :
    (c : Config) (t : IpText) (sent : Bool) (user pass input : Bytes)
    → is_served (finish_auth c t sent user pass input) ≡ true
    → (user ≡ c.username) × (pass ≡ c.password)
unfolding finish_auth
finish_auth-is_served c t sent user pass input e = elim (Bool-cases (bytes_eq user c.username)) [
  | inl same ↦ elim (Bool-cases (bytes_eq pass c.password)) [
    | inl right ↦ ((bytes_eq_iff user c.username).0 same, (bytes_eq_iff pass c.password).0 right)
    | inr other ↦ absurd (ground (arith, e, same, other))
  ]
  | inr other ↦ absurd (ground (arith, e, other))
]

use_field-is_served :
    (use_it : Bytes → Bytes → Session) (o : Option (Bytes × Bytes))
    → is_served (use_field use_it o) ≡ true
    → (field : Bytes) × (rest : Bytes) × (o ≡ some (field, rest))
      × (is_served (use_it field rest) ≡ true)
unfolding use_field
use_field-is_served use_it none e = absurd (ground (arith, e))
use_field-is_served use_it (some (field, rest)) e = (field, rest, refl, e)

-- A session that comes to a command read the sized field.
with_sized-is_served :
    (input : Bytes) (use_it : Bytes → Bytes → Session)
    → is_served (with_sized input use_it) ≡ true
    → (field : Bytes) × (rest : Bytes) × (input ≡ length field ∷ (field ++ rest))
      × (is_served (use_it field rest) ≡ true)
unfolding with_sized
with_sized-is_served [] use_it e = absurd (ground (arith, e))
with_sized-is_served (size ∷ input) use_it e =
    let (field, rest, p, served) = use_field-is_served use_it (read_full size input) e in
    let (same, sized) = read_full-exact size input field rest p in (field, rest, cc, served)

credentials_wire-fields :
    (c : Config) (rest : Bytes) {version : ℕ} {input user pass after_user : Bytes}
    → version ≡ 1
    → input ≡ length user ∷ (user ++ after_user)
    → after_user ≡ length pass ∷ (pass ++ rest)
    → user ≡ c.username
    → pass ≡ c.password
    → version ∷ input ≡ credentials_wire c rest
credentials_wire-fields c rest one p q u w = rw (one, p, q, u, w)

handle_user_pass-is_served :
    (c : Config) (t : IpText) (sent : Bool) (input : Bytes)
    → is_served (handle_user_pass c t sent input) ≡ true
    → (rest : Bytes) × (input ≡ credentials_wire c rest)
unfolding handle_user_pass
handle_user_pass-is_served c t sent [] e = absurd (ground (arith, e))
handle_user_pass-is_served c t sent (version ∷ input) e =
    let (known, whole) = if-is_served (version == 1) _ [] e in
    let (user, after_user, p, served) =
      with_sized-is_served input
        (λ user rest. with_sized rest (λ pass rest. finish_auth c t sent user pass rest)) whole in
    let (pass, rest, q, accepted) =
      with_sized-is_served after_user (λ pass rest. finish_auth c t sent user pass rest) served in
    let (same_user, same_pass) = finish_auth-is_served c t sent user pass rest accepted in
    let one = (==_iff version 1).0 known in
    (rest, credentials_wire-fields c rest one p q same_user same_pass)

follow_method-is_served :
    (c : Config) (t : IpText) (sent : Bool) (methods input : Bytes)
    → has_credentials c ≡ true
    → is_served (follow_method c t (select_method c methods) sent input) ≡ true
    → (offers 2 methods ≡ true) × (is_served (handle_user_pass c t sent input) ≡ true)
unfolding follow_method select_method
follow_method-is_served c t sent methods input h e = elim (Bool-cases (offers 2 methods)) [
  | inl offered ↦ (offered, ground (arith, e, h, offered))
  | inr missing ↦ absurd (ground (arith, e, h, missing))
]

-- With a user name and a password configured, a session comes to a command only if the client offers
-- the method and sends exactly this name and this password, whichever of the replies can be written.
pub handle_socks5-is_served :
    (c : Config) (t : IpText) (sent replied : Bool) (input : Bytes)
    → has_credentials c ≡ true
    → is_served (handle_socks5 c t sent replied input) ≡ true
    → (methods : Bytes) × (rest : Bytes) × (offers 2 methods ≡ true)
      × (input ≡ login_wire methods c rest)
unfolding handle_socks5 answer_methods
handle_socks5-is_served c t sent replied input h e =
    let (methods, rest, p, served) =
      with_sized-is_served input (answer_methods c t sent replied) e in
    let (written, followed) = if-is_served sent _ [] served in
    let (offered, authenticated) = follow_method-is_served c t replied methods rest h (
      is_served-after (5 ∷ select_method c methods ∷ [])
        (follow_method c t (select_method c methods) replied rest) followed) in
    let (behind, q) = handle_user_pass-is_served c t replied rest authenticated in
    (methods, behind, offered, p ∙ ap (λ l. length methods ∷ (methods ++ l)) q)
