-- ===== src/TcpClient/Rules.antt =====
-- `runTCPClient` (tcp_client.go): the forwards that the flag `-l` asks for.
use tunnel.Prelude.{
  ℕ, Bytes, Bool, true, false, List, [], ◌∷◌, ◌++◌, ◌≡◌, ◌≢◌, refl, sym, ap, ◌∙◌, Option, none,
  some, if◌then◌else◌, bytes_eq, bytes_eq_ne, bytes_eq_iff, codes, arith, append_assoc, map,
}
use tunnel.Text.{
  split, trim_prefix, trim_prefix-append, Lacks, Lacks-append, AllLack, join, split-join,
}
use tunnel.Text.Fields.{IsField-append, trim_space-field, last_of-IsField}
use tunnel.Text.Space.{trim_space, IsField, IsVisible, last_of, AreSpaces, trim_space-IsField}
use tunnel.Http.Request.{Url}

-- How the client starts: it stops with an error, or it starts listeners, each with its target. The
-- flag tells that a rule without a `/`, or with two, ends the program behind the listeners before
-- it.
pub data Start : Type 0 where
  refused : Start
  starts : List (Bytes × Bytes) → Bool → Start

abbrev pub with_forward : Bytes × Bytes → Start → Start
with_forward forward refused = refused
with_forward forward (starts forwards stopped) = starts (forward ∷ forwards) stopped

-- The parts of a rule.
unfoldable pub add_rule : List Bytes → Start → Start
add_rule (listen ∷ target ∷ []) rest = with_forward (trim_space listen, trim_space target) rest
add_rule _ rest = starts [] true

unfoldable pub run_rules : List Bytes → Start
run_rules [] = starts [] false
run_rules (rule ∷ rules) =
    let rest = run_rules rules in
    let text = trim_space rule in if bytes_eq text [] then rest else add_rule (split b'/' text) rest

abbrev pub check_url : Option Url → Start → Start
check_url none start = refused
check_url (some u) start = if bytes_eq u.scheme (codes "wss") then start else refused

-- `url.Parse` is a parameter.
unfoldable pub run_tcp_client : (Bytes → Option Url) → Bytes → Bytes → Start
run_tcp_client parse_url listen_forward_addr ws_server_addr =
    let rules = split b',' (trim_prefix listen_forward_addr (codes "tcp://")) in
    if bytes_eq ws_server_addr []
    then refused
    else check_url (parse_url ws_server_addr) (run_rules rules)

-- A rule as the flag's documentation writes it, with spaces around.
pub record Rule : Type 0 where
  pub before : Bytes
  pub listen : Bytes
  pub target : Bytes
  pub behind : Bytes

abbrev pub rule_text : Rule → Bytes
rule_text r = r.before ++ (r.listen ++ b'/' ∷ (r.target ++ r.behind))

abbrev pub IsAddress : Bytes → Type 0
IsAddress a = IsField a × (a ≢ []) × Lacks b'/' a × Lacks b',' a

abbrev pub IsRule : Rule → Type 0
IsRule r =
    IsAddress r.listen
    × IsAddress r.target
    × AreSpaces r.before
    × AreSpaces r.behind
    × Lacks b',' r.before
    × Lacks b',' r.behind

abbrev pub AreRules : List Rule → Type 0
AreRules [] = Unit {0}
AreRules (r ∷ rules) = IsRule r × AreRules rules

abbrev pub forward_of : Rule → Bytes × Bytes
forward_of r = (r.listen, r.target)

not_empty : (s : Bytes) (d : ℕ) (t : Bytes) → bytes_eq (s ++ d ∷ t) [] ≡ false
unfolding bytes_eq
not_empty [] d t = refl
not_empty (c ∷ s) d t = refl

rule_fields :
    (listen target before behind : Bytes)
    → IsAddress listen
    → IsAddress target
    → AreSpaces before
    → AreSpaces behind
    → trim_space (before ++ (listen ++ b'/' ∷ (target ++ behind))) ≡ listen ++ b'/' ∷ target
rule_fields listen target before behind (f, n, a, b) (g, m, c, d) h k =
    let visible : IsVisible (last_of b'/' target) = last_of-IsField b'/' target g m in
    ap (λ s. trim_space (before ++ s)) (sym (append_assoc listen (b'/' ∷ target) behind))
    ∙ trim_space-IsField before (listen ++ b'/' ∷ target) behind
        (IsField-append listen b'/' target f n visible) h k

run_rules-rule :
    (listen target before behind : Bytes) (rules : List Bytes)
    → IsAddress listen
    → IsAddress target
    → AreSpaces before
    → AreSpaces behind
    → run_rules ((before ++ (listen ++ b'/' ∷ (target ++ behind))) ∷ rules)
      ≡ with_forward (listen, target) (run_rules rules)
unfolding run_rules add_rule
run_rules-rule listen target before behind rules (f, n, a, b) (g, m, c, d) h k =
    let filled : bytes_eq (listen ++ b'/' ∷ target) [] ≡ false = not_empty listen b'/' target in
    rw (
      rule_fields listen target before behind (f, n, a, b) (g, m, c, d) h k,
      filled,
      split-join b'/' listen (target ∷ []) a (c, tt),
      trim_space-field listen f,
      trim_space-field target g,
    )

run_rules-AreRules :
    (rules : List Rule)
    → AreRules rules
    → run_rules (map rule_text rules) ≡ starts (map forward_of rules) false
unfolding run_rules
run_rules-AreRules [] h = refl
run_rules-AreRules (r ∷ rules) ((l, t, a, b, p, q), hs) =
    run_rules-rule r.listen r.target r.before r.behind (map rule_text rules) l t a b
    ∙ ap (with_forward (forward_of r)) (run_rules-AreRules rules hs)

Lacks-rule_text : (r : Rule) → IsRule r → Lacks b',' (rule_text r)
Lacks-rule_text r (l, t, a, b, p, q) =
    Lacks-append b',' r.before (r.listen ++ b'/' ∷ (r.target ++ r.behind)) p (
      Lacks-append b',' r.listen (b'/' ∷ (r.target ++ r.behind)) l.3
        ((λ e. absurd (omega arith)), Lacks-append b',' r.target r.behind t.3 q))

AllLack-rules : (rules : List Rule) → AreRules rules → AllLack b',' (map rule_text rules)
AllLack-rules [] h = tt
AllLack-rules (r ∷ rules) (h, hs) = (Lacks-rule_text r h, AllLack-rules rules hs)

-- Rules as the flag's documentation writes them, with spaces around or without, start one listener
-- each, in order, for just their addresses.
pub run_tcp_client-rules :
    (parse_url : Bytes → Option Url) (r : Rule) (rules : List Rule) (ws_server_addr : Bytes)
    (u : Url)
    → AreRules (r ∷ rules)
    → ws_server_addr ≢ []
    → parse_url ws_server_addr ≡ some u
    → u.scheme ≡ codes "wss"
    → run_tcp_client parse_url
        (codes "tcp://" ++ join b',' (rule_text r) (map rule_text rules))
        ws_server_addr
      ≡ starts (map forward_of (r ∷ rules)) false
unfolding run_tcp_client
run_tcp_client-rules parse_url r rules ws_server_addr u h n p s =
    let rest = join b',' (rule_text r) (map rule_text rules) in
    let wss : bytes_eq u.scheme (codes "wss") ≡ true = (bytes_eq_iff u.scheme (codes "wss")).1 s in
    rw
      (
        trim_prefix-append (codes "tcp://") rest,
        bytes_eq_ne ws_server_addr [] n,
        p,
        wss,
        split-join b',' (rule_text r) (map rule_text rules) (Lacks-rule_text r h.0)
            (AllLack-rules rules h.1),
      )
      (run_rules-AreRules (r ∷ rules) h)
