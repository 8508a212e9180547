-- ===== src/Tests/ClientTests.antt =====
-- Examples for the TCP client and the courses of connections (tcp_client.go, pool.go, socks5.go).
use tunnel.Prelude.{
  get_elem?, ℕ, zero, suc, Bytes, true, false, List, [], ◌∷◌, ◌++◌, ◌≡◌, refl, some, none, arith,
  codes, bytes_eq, ◌≤◌,
}
use tunnel.Prelude.Map.{bytes_key}
use tunnel.Text.{split, trim_prefix, has_prefix}
use tunnel.Text.Decimal.{decimal}
use tunnel.Text.Space.{
  is_ascii_space, is_two, is_three, space_width, last_width, trim_with, trim_right, trim_space,
}
use tunnel.Http.Request.{Url}
use tunnel.Pool.Dial.{redial_channel, dial_once}
use tunnel.Pool.Dial.Liveness.{redial_channel-connects}
use tunnel.Pool.State.{set_channel, Pool}
use tunnel.Socks.Address.{ipv4, target_text}
use tunnel.Socks.Packet.{parsed, parse_udp_packet}
use tunnel.Socks.Packet.Laws.{packet_wire}
use tunnel.Socks.Association.{Association}
use tunnel.Socks.Association.Response.{handle_udp_response, handle_udp_response-packet}
use tunnel.Ech.Cache.{get_ech_list}
use tunnel.TcpClient.Rules.{
  AreRules, starts, run_rules, add_rule, run_tcp_client, Rule, run_tcp_client-rules,
}
use tunnel.TcpClient.Dial
use tunnel.TcpClient.Dial.{
  Round, dials, refreshes, dialled, has_infix, is_ech_error, after_dial, with_list, dial_loop,
  dial_websocket_with_ech,
}
use tunnel.TcpClient.Dial.Bounds.{AllWithEch, dial_count, dial_websocket_with_ech-Bounded}
use tunnel.Tests.PoolTests.{ready}
use tunnel.Tests.ServerTests.{id_a}
use tunnel.Tests.SocksTests.{text}

abbrev pub server_url : Url
server_url = record { scheme = codes "wss"; host = codes "h"; path = codes "/"; raw_query = [] }

-- The second rule has spaces around.
abbrev pub first_rule : Rule
first_rule = record { before = []; listen = codes ":80"; target = codes "a:22"; behind = [] }

abbrev pub second_rule : Rule
second_rule = record {
  before = codes " ";
  listen = codes ":81";
  target = codes "b:23";
  behind = codes " ";
}

-- A rule with two slashes ends the program when the first listener is started.
bad_rule :
    run_tcp_client
      (λ s. some server_url)
      (codes "tcp://:80/a:22,:81/b/c,:82/d:1")
      (codes "wss://h/")
    ≡ starts ((codes ":80", codes "a:22") ∷ []) true
unfolding run_tcp_client run_rules add_rule trim_prefix has_prefix split bytes_eq trim_space
    trim_right trim_with space_width last_width is_ascii_space is_two is_three
bad_rule = refl

pub rules_hold : AreRules (first_rule ∷ second_rule ∷ [])
unfolding is_ascii_space
rules_hold = (
  (
    (omega arith, (λ e. cc), omega arith, omega arith),
    (omega arith, (λ e. cc), omega arith, omega arith),
    tt,
    tt,
    tt,
    tt,
  ),
  (
    (
      (omega arith, (λ e. cc), omega arith, omega arith),
      (omega arith, (λ e. cc), omega arith, omega arith),
      (refl, tt),
      (refl, tt),
      omega arith,
      omega arith,
    ),
    tt,
  ),
)

run_tcp_client-rules_example :
    run_tcp_client (λ s. some server_url) (codes "tcp://:80/a:22, :81/b:23 ") (codes "wss://h/")
    ≡ starts ((codes ":80", codes "a:22") ∷ (codes ":81", codes "b:23") ∷ []) false
unfolding is_ascii_space
run_tcp_client-rules_example =
    run_tcp_client-rules (λ s. some server_url) first_rule (second_rule ∷ []) (codes "wss://h/")
      server_url rules_hold (λ e. cc) refl refl

-- A refusal that names ECH, then a list that works.
abbrev world : ℕ → Round
world (suc zero) = record {
  roots = true;
  dial = Dial.refused (codes "tls: ECH rejected");
  refreshed = codes "new";
}
world _ = record { roots = true; dial = Dial.connected 7; refreshed = [] }

retried :
    dial_websocket_with_ech 2 world (codes "old")
    ≡ (dials (codes "old") ∷ refreshes ∷ dials (codes "new") ∷ [], codes "new", dialled 7)
unfolding dial_websocket_with_ech dial_loop with_list after_dial get_ech_list is_ech_error has_infix
    has_prefix
retried = refl

-- An error of the dialler that names the host: `ech` in it is taken for an ECH error.
host_name : is_ech_error (codes "lookup tech.example: no such host") ≡ true
unfolding is_ech_error has_infix has_prefix
host_name = refl

dial_websocket_with_ech-Bounded_example :
    dial_count (dial_websocket_with_ech 2 world (codes "old")).0 ≤ 2
dial_websocket_with_ech-Bounded_example =
    (dial_websocket_with_ech-Bounded 2 world (codes "old") (omega arith)).1

abbrev chunks : List Bytes
chunks = codes "one" ∷ codes "|two" ∷ []

-- An association of a client whose address is `c`.
abbrev association : Association
association = record { conn_id = id_a; client = some (codes "c"); closed = false; receiving = true }

abbrev ip : Bytes
ip = 10 ∷ 0 ∷ 0 ∷ 2 ∷ []

handle_udp_response-packet_example :
    (handle_udp_response text association (text.to_string ip ++ b':' ∷ decimal 53) (codes "q")
      ≡ some (packet_wire (ipv4 ip) 53 (codes "q"), codes "c"))
    × (parse_udp_packet text (packet_wire (ipv4 ip) 53 (codes "q"))
        ≡ some (parsed (target_text text (ipv4 ip) 53) (codes "q")))
    × (handle_udp_response text association
          (codes "[" ++ b':' ∷ (codes "1]" ++ b':' ∷ codes "53"))
          (codes "q")
        ≡ none)
handle_udp_response-packet_example =
    handle_udp_response-packet text association (codes "c") ip (codes "q") (codes "[") (codes "1]")
      (codes "53") 53 refl refl (omega arith) (omega arith)

-- The first two rounds fail, the third is the one above, which answers.
abbrev rounds : ℕ → ℕ → Round
rounds zero i = record {
  roots = true;
  dial = Dial.refused (codes "i/o timeout");
  refreshed = codes "l";
}
rounds (suc zero) i = record {
  roots = true;
  dial = Dial.refused (codes "ECH");
  refreshed = codes "l";
}
rounds _ i = record { roots = true; dial = Dial.connected 9; refreshed = codes "l" }

reconnected : (redial_channel 3 rounds 0 ready []).2 ≡ some (set_channel 0 9 ready)
unfolding redial_channel dial_once dial_websocket_with_ech dial_loop with_list after_dial
    get_ech_list is_ech_error has_infix has_prefix
reconnected = refl

redial_channel-connects_example :
    (q : Pool) × (new_conn : ℕ) × ((redial_channel 3 rounds 0 ready []).2 ≡ some q)
    × (get_elem? q.ws_conns 0 ≡ some (some new_conn))
    × (q.channel_map ≡ ready.channel_map)
    × AllWithEch (redial_channel 3 rounds 0 ready []).0
redial_channel-connects_example =
    redial_channel-connects 2 rounds 0 9 ready [] (omega arith) (refl, refl, refl, refl, (λ e. cc))
