-- ===== src/Tests/EntryTests.antt =====
-- Examples for the start of the program and of the server (main.go, utils.go, websocket_server.go).
use tunnel.Prelude.{Bytes, true, [], ◌∷◌, ◌≡◌, refl, some, codes, bytes_eq}
use tunnel.Prelude.Map.{bytes_key}
use tunnel.Text.{has_prefix}
use tunnel.Server.Access.{NetText, unauthorized, serve_request, is_allowed, check_source}
use tunnel.TcpClient.Dial.{has_infix}
use tunnel.Entry.{mode_of, tcp_client, no_mode, is_normal_close_error}

client_mode : mode_of (codes "tcp://:80/a:22") ≡ tcp_client
unfolding mode_of has_prefix
client_mode = refl

unknown_mode : mode_of (codes "udp://:80") ≡ no_mode
unfolding mode_of has_prefix
unknown_mode = refl

normal_close : is_normal_close_error (some (tunnel.Entry.text (codes "write: broken pipe"))) ≡ true
unfolding is_normal_close_error has_infix has_prefix
normal_close = refl

-- A network is the text of its only address.
abbrev pub net : NetText Bytes
net = record {
  split_host_port = λ remote. some (remote, []);
  parse_ip = λ ip. ip;
  parse_cidr = λ cidr. some cidr;
  contains = λ cidr ip. bytes_eq cidr ip;
}

wrong_token :
    serve_request net (codes "n" ∷ codes "m" ∷ []) (codes "t") (codes "m") (codes "s")
    ≡ unauthorized
unfolding serve_request check_source is_allowed bytes_eq
wrong_token = refl
