-- ===== src/Tests/MainTests.antt =====
-- The client from its command line on (main.go).
use tunnel.Prelude.{
  ℕ, zero, suc, if◌then◌else◌, Bytes, true, false, List, [], ◌∷◌, ◌≡◌, refl, ◌↔◌, ◌⊎◌, ap, Option,
  none, some, ◌<◌, pos, negsuc, arith, codes, bytes_eq, inl, inr,
}
use tunnel.Prelude.Map.{bytes_key}
use tunnel.Text.Space.{
  is_ascii_space, is_two, is_three, space_width, last_width, trim_with, trim_right, trim_space,
}
use tunnel.Text.{split, Lacks, has_prefix}
use tunnel.Ech.Cache.{no_response, body, prepare_ech, query_doh}
use tunnel.Ech.Fetch.{answers_list, prepare_ech-response_bytes}
use tunnel.Pool.Dial.{redial_channel}
use tunnel.Pool.State.{Pool, Info, new_ech_pool}
use tunnel.Pool.Start.{make_pool, start, channels, IsOrder}
use tunnel.Pool.Dial.Liveness.{Answers}
use tunnel.TcpClient.Dial
use tunnel.TcpClient.Rules.{run_tcp_client-rules}
use tunnel.TcpClient.Dial.Bounds.{AllWithEch}
use tunnel.Server.Handler.{Server, Network}
use tunnel.Server.Tcp.{Round}
use tunnel.Local.{tcp_forward}
use tunnel.EndToEnd.Startup.{Opens}
use tunnel.Entry.{mode_of}
use tunnel.Entry.Main.{Flags, serving, flags_of, panics, forwarding, Outside, run_mode, main}
use tunnel.Entry.Main.Forwards.{main-Opens}
use tunnel.Entry.Main.Admission.{main-admits_iff}
use tunnel.Server.Access.{
  self_signed, upgraded, serve_request, subprotocols, Covers, allowed_nets, parse_all, listen_path,
  listening,
}
use tunnel.Server.Listen.{run_web_socket_server}
use tunnel.Entry.Main.Strict.{client_of, IsSecure, main-IsStrict}
use tunnel.Tests.DnsTests.{example_com, records, head, zeros, tail, response}
use tunnel.Tests.ClientTests.{server_url, first_rule, second_rule, rules_hold}
use tunnel.Tests.EntryTests.{net}

-- The first request for the ECH list fails.
abbrev pub outside : Outside Bytes
outside = record {
  parse_url = λ s. some server_url;
  net = net;
  made = true;
  listens = λ s. true;
  attempts = no_response ∷ body response ∷ [];
}

abbrev given : Bytes → Option Bytes
given name =
    if bytes_eq name (codes "l")
    then some (codes "tcp://:80/a:22, :81/b:23 ")
    else if bytes_eq name (codes "f")
    then some (codes "wss://h/")
    else none

abbrev answered : Dial.Round
answered = record { roots = true; dial = Dial.connected 9; refreshed = [] }

pub prepared : prepare_ech outside.attempts ≡ some (answers_list records)
unfolding prepare_ech query_doh
prepared =
    (prepare_ech-response_bytes (no_response ∷ []) [] head zeros tail [] example_com records 2
      (λ i. answered) refl refl refl refl (omega arith) (omega arith) (omega arith) (omega arith)
      (omega arith) (λ e. cc)).0

-- Channel 1 connects first; channel 0 is refused in its first round.
abbrev refusing : ℕ → Dial.Round
refusing attempt = record {
  roots = true;
  dial = Dial.refused (codes "no route");
  refreshed = 1 ∷ [];
}

abbrev taking : ℕ → ℕ → Dial.Round
taking ws attempt = record { roots = true; dial = Dial.connected ws; refreshed = 1 ∷ [] }

abbrev world : ℕ → ℕ → ℕ → Dial.Round
world zero zero = refusing
world zero (suc round) = taking 70
world (suc i) round = taking 71

abbrev tries : ℕ → ℕ
tries zero = 1
tries (suc i) = 0

abbrev sockets : ℕ → ℕ
sockets zero = 70
sockets (suc i) = 71

answering : (i : ℕ) → i < 2 → Answers (world i (tries i)) (sockets i)
answering zero h = (refl, refl, refl, refl, λ e. cc)
answering (suc i) h = (refl, refl, refl, refl, λ e. cc)

channels-IsOrder : IsOrder (1 ∷ 0 ∷ []) (channels 2 0)
unfolding channels
channels-IsOrder i = (
  λ h. elim h [ inl e ↦ inr (inl e) | inr (inl e) ↦ inl e | inr (inr e) ↦ absurd e ],
  λ h. elim h [ inl e ↦ inr (inl e) | inr (inl e) ↦ inl e | inr (inr e) ↦ absurd e ],
)

main-Opens_example :
    (main outside (flags_of given (some (pos 2)))
      ≡ forwarding
          (new_ech_pool (codes "wss://h/") 2)
          (answers_list records)
          ((codes ":80", codes "a:22") ∷ (codes ":81", codes "b:23") ∷ [])
          false)
    × ((q : Pool) × ((start world tries
            (1 ∷ 0 ∷ [])
            (new_ech_pool (codes "wss://h/") 2)
            (answers_list records)).2
          ≡ some q)
        × AllWithEch
            (start world tries
              (1 ∷ 0 ∷ [])
              (new_ech_pool (codes "wss://h/") 2)
              (answers_list records)).0
        × ((network : Network Bytes) (d : ℕ) (id : Bytes) (info : Info) (conn i : ℕ) (clock : ℕ → ℕ)
              (s : Server Bytes) (chunks : List Bytes) (rounds : List Round)
            → i < 2
            → Lacks b'|' id
            → Lacks b'|' info.target_addr
            → Opens network tcp_forward d id info conn i clock q s chunks rounds))
unfolding bytes_eq
main-Opens_example =
    main-Opens outside given 2 first_rule (second_rule ∷ []) (codes "wss://h/") server_url
      (answers_list records) world tries sockets (1 ∷ 0 ∷ []) refl refl rules_hold (λ e. cc) refl
      refl prepared channels-IsOrder answering

is_client :
    client_of (main outside (flags_of given (some (pos 2))))
    ≡ some (new_ech_pool (codes "wss://h/") 2, answers_list records)
unfolding bytes_eq
is_client =
    ap client_of
      (main-Opens {Addr = Bytes} outside given 2 first_rule (second_rule ∷ []) (codes "wss://h/")
        server_url (answers_list records) world tries sockets (1 ∷ 0 ∷ []) refl refl rules_hold
        (λ e. cc) refl refl prepared channels-IsOrder answering).0

-- The same client, seen from what its command line must have.
main-IsStrict_example :
    (prepare_ech outside.attempts ≡ some (answers_list records))
    × IsSecure outside.parse_url (codes "wss://h/")
    × ((n : ℕ) × (pos 2 ≡ pos n)
        × (new_ech_pool (codes "wss://h/") 2 ≡ new_ech_pool (codes "wss://h/") n))
    × ((world : ℕ → ℕ → ℕ → Dial.Round) (rounds : ℕ → ℕ) (order : List ℕ)
        → AllWithEch
            (start world rounds order (new_ech_pool (codes "wss://h/") 2) (answers_list records)).0)
    × ((n : ℕ) (world : ℕ → ℕ → Dial.Round) (channel : ℕ) (q : Pool) (after : Bytes)
        → AllWithEch (redial_channel n world channel q after).0)
unfolding flags_of bytes_eq
main-IsStrict_example =
    main-IsStrict outside (flags_of given (some (pos 2))) (new_ech_pool (codes "wss://h/") 2)
      (answers_list records) is_client

-- A negative number of channels.
negative : main outside (flags_of given (some (negsuc 0))) ≡ panics
unfolding main flags_of bytes_eq mode_of has_prefix run_mode make_pool
negative = rw (
  prepared,
  run_tcp_client-rules outside.parse_url first_rule (second_rule ∷ []) (codes "wss://h/") server_url
      rules_hold (λ e. cc) refl refl,
)

-- A server for one network, with a token, and a client with the same token.
abbrev server_given : Bytes → Option Bytes
server_given name =
    if bytes_eq name (codes "l")
    then some (codes "wss://h/")
    else if bytes_eq name (codes "cidr")
    then some (codes "n")
    else if bytes_eq name (codes "token")
    then some (codes "t")
    else none

abbrev server_flags : Flags
server_flags = record (flags_of server_given none) { key_file = [] }

abbrev client_flags : Flags
client_flags = record (flags_of given none) { token = codes "t" }

abbrev first_of : List Bytes → Bytes
first_of [] = []
first_of (t ∷ rest) = t

server_serves :
    main outside server_flags ≡ serving (codes "n" ∷ []) (codes "h") (codes "/") self_signed
unfolding main flags_of bytes_eq mode_of has_prefix run_mode run_web_socket_server allowed_nets
    parse_all split trim_space trim_right trim_with space_width last_width is_ascii_space is_two
    is_three listen_path listening
server_serves = refl

main-admits_iff_example :
    (serve_request net
        (codes "n" ∷ [])
        server_flags.token
        (codes "n")
        (first_of (subprotocols client_flags.token))
      ≡ upgraded)
    ↔ ((client_ip : Bytes) × (port : Bytes) × (net.split_host_port (codes "n")
          ≡ some (client_ip, port))
        × Covers net (split b',' server_flags.cidrs) (net.parse_ip client_ip)
        × ((server_flags.token ≡ []) ⊎ (client_flags.token ≡ server_flags.token)))
main-admits_iff_example =
    main-admits_iff outside server_flags (codes "n" ∷ []) (codes "h") (codes "/") self_signed
      client_flags first_of (codes "n") server_serves (omega arith, omega arith, tt) refl
      (λ t v. refl)
