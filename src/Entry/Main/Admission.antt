-- ===== src/Entry/Main/Admission.antt =====
-- Whom a server lets in, from both command lines (main.go, websocket_server.go and tcp_client.go).
use tunnel.Prelude.{
  Bytes, Bool, true, false, List, [], ◌∷◌, ◌≡◌, ap, ◌≤◌, ◌<◌, ◌↔◌, ◌⊎◌, Option, none, some,
  bytes_eq,
}
use tunnel.Text.{split}
use tunnel.Ech.Cache.{prepare_ech}
use tunnel.Http.Request.{Url}
use tunnel.Server.Access.{
  Listening, plain, with_files, self_signed, upgraded, allowed_nets, listen_path, listening,
  subprotocols, serve_request, Covers, serve_request_iff,
}
use tunnel.Server.Listen.{with_cert, with_nets, with_url, run_web_socket_server}
use tunnel.Pool.State.{Pool}
use tunnel.Proxy.Startup
use tunnel.TcpClient.Rules
use tunnel.Entry.{Mode, server, tcp_client, proxy, no_mode, mode_of}
use tunnel.Entry.Main.{
  Flags, Run, serving, Outside, as_server, as_forwarder, as_proxy, behind_prepare, run_mode, main,
}

-- Only the characters U+0021 to U+007E, which are those that RFC 6455 gives a subprotocol.
abbrev pub IsVisible : Bytes → Type 0
IsVisible [] = Unit {0}
IsVisible (c ∷ token) = (33 ≤ c) × (c < 127) × IsVisible token

-- With one subprotocol for a token and none without, the header that the server reads is the token.
header_of_token :
    (header_of : List Bytes → Bytes) (token : Bytes)
    → IsVisible token
    → header_of [] ≡ []
    → ((t : Bytes) → IsVisible t → header_of (t ∷ []) ≡ t)
    → header_of (subprotocols token) ≡ token
unfolding subprotocols bytes_eq
header_of_token header_of [] v a b = a
header_of_token header_of (c ∷ token) v a b = b (c ∷ token) v

module _ {Cidr : Type 0} (o : Outside Cidr) (f : Flags) (nets : List Cidr) (host path : Bytes)
    (l : Listening) where
  with_cert-serves :
      (made : Bool) (found : List Cidr) (h p : Bytes) (k : Listening)
      → as_server (with_cert o.net made found h p k) ≡ serving nets host path l
      → found ≡ nets
  with_cert-serves true found h p k e = cc
  with_cert-serves false found h p self_signed e = cc
  with_cert-serves false found h p plain e = cc
  with_cert-serves false found h p with_files e = cc

  with_nets-serves :
      (u : Url) (found : Option (List Cidr))
      → as_server (with_nets o.net o.made f.cert_file f.key_file u found) ≡ serving nets host path l
      → found ≡ some nets
  with_nets-serves u none e = cc
  with_nets-serves u (some found) e = ap some (
      with_cert-serves o.made found u.host (listen_path u.path)
        (listening u.scheme f.cert_file f.key_file) e)

  with_url-serves :
      (found : Option Url)
      → as_server (with_url o.net o.made f.cidrs f.cert_file f.key_file found)
        ≡ serving nets host path l
      → allowed_nets o.net f.cidrs ≡ some nets
  with_url-serves none e = cc
  with_url-serves (some u) e = with_nets-serves u (allowed_nets o.net f.cidrs) e

  as_forwarder-serves :
      (made : Option Pool) (cache : Bytes) (r : Rules.Start)
      → ¬ (as_forwarder made cache r ≡ serving nets host path l)
  as_forwarder-serves made cache Rules.refused e = cc
  as_forwarder-serves none cache (Rules.starts forwards stopped) e = cc
  as_forwarder-serves (some p) cache (Rules.starts forwards stopped) e = cc

  as_proxy-serves :
      (made : Option Pool) (cache : Bytes) (r : Option Startup.Start)
      → ¬ (as_proxy made cache r ≡ serving nets host path l)
  as_proxy-serves made cache none e = cc
  as_proxy-serves made cache (some Startup.refused) e = cc
  as_proxy-serves none cache (some (Startup.serves c)) e = cc
  as_proxy-serves (some p) cache (some (Startup.serves c)) e = cc

  behind_prepare-serves :
      (found : Option Bytes) (next : Bytes → Run Cidr)
      → ((cache : Bytes) → ¬ (next cache ≡ serving nets host path l))
      → ¬ (behind_prepare found next ≡ serving nets host path l)
  behind_prepare-serves none next n e = cc
  behind_prepare-serves (some cache) next n e = n cache e

  run_mode-serves :
      (mode : Mode)
      → run_mode o f mode ≡ serving nets host path l
      → allowed_nets o.net f.cidrs ≡ some nets
  unfolding run_mode run_web_socket_server
  run_mode-serves server e = with_url-serves (o.parse_url f.listen_addr) e
  run_mode-serves tcp_client e =
      absurd (
        behind_prepare-serves (prepare_ech o.attempts) _ (λ cache. as_forwarder-serves _ cache _) e)
  run_mode-serves proxy e =
      absurd
        (behind_prepare-serves (prepare_ech o.attempts) _ (λ cache. as_proxy-serves _ cache _) e)
  run_mode-serves no_mode e = cc

  -- For a client whose token is empty or of visible ASCII characters without a space: a server that is
  -- started with the flags `f` lets a request that comes to the handler of its path, from a client with
  -- the token of the flags `g`, through to the upgrade exactly if the source's address is in one of the
  -- networks of its flag -cidr, and its own token is empty or the client's. The client's WebSocket library is taken to send
  -- such a token, as its only subprotocol, in the header Sec-WebSocket-Protocol, where net/http reads
  -- it as it is; without a subprotocol the header is read as empty.
  pub main-admits_iff :
      (g : Flags) (header_of : List Bytes → Bytes) (remote : Bytes)
      → main o f ≡ serving nets host path l
      → IsVisible g.token
      → header_of [] ≡ []
      → ((t : Bytes) → IsVisible t → header_of (t ∷ []) ≡ t)
      → (serve_request o.net nets f.token remote (header_of (subprotocols g.token)) ≡ upgraded) ↔ (
          (client_ip : Bytes) × (port : Bytes) × (o.net.split_host_port remote
            ≡ some (client_ip, port))
          × Covers o.net (split b',' f.cidrs) (o.net.parse_ip client_ip)
          × ((f.token ≡ []) ⊎ (g.token ≡ f.token)))
  unfolding main
  main-admits_iff g header_of remote e v a b = rw (header_of_token header_of g.token v a b) (
      serve_request_iff o.net f.cidrs nets f.token remote g.token
        (run_mode-serves (mode_of f.listen_addr) e))
