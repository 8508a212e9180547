-- ===== src/Lib.antt =====
-- A verification library for the ECH tunnel, a client and a server that carry TCP and UDP connections
-- over a few WebSockets.
--
-- The parts of the program, and the modules that model them:
--   * Prelude and Text: shared tests, lists, Go maps as association lists (Prelude.Map), and the
--     functions of Go's `strings` package that the program calls: Text.Space has `TrimSpace`, Text.Decimal
--     the print of a number, Text.Scan `fmt.Sscanf` with `%d`. A string is the list of its bytes.
--   * Wire: the messages `<TAG>:<id>|<rest>` that pool.go and websocket_server.go build. Wire.RoundTrip
--     and Wire.Replies prove what the other end reads.
--   * Pool: `ECHPool` of pool.go, the client's end. Pool.State is the struct; Pool.Claim holds
--     `RegisterAndClaim` and the case CLAIM_ACK of `handleChannel`; Pool.Send the senders; Pool.Reply
--     and Pool.Channel the rest of `handleChannel`. Pool.Steps has one step for each region that runs
--     under the pool's lock, so that its relation ranges over every interleaving of the goroutines;
--     Pool.Invariant, Pool.Race, Pool.Binding and Pool.Asking prove what holds. Pool.Dial has the
--     loops `dialOnce` and `redialChannel`, on fuel that counts their rounds (Pool.Dial.Liveness), and
--     Pool.Start the goroutines that `Start` begins, in any order in which they connect.
--   * Server: `handleWebSocket` and `handleTCPConnection` of websocket_server.go. Server.Request reads a
--     frame, Server.Handler acts on it, Server.Tcp and Server.Udp are the goroutines of its connections,
--     Server.Steps interleaves them, Server.Isolation separates the connections. Server.Access is the
--     handler of `runWebSocketServer`, which checks the source address and the token, and Server.Listen
--     the rest of that function.
--   * Dns: `buildDNSQuery`, `parseDNSResponse` and `parseHTTPSRecord` of ech.go (Dns.Query,
--     Dns.Response), with every index and slice checked, and base64 as Go's library has it. Each loop
--     over the bytes takes one more round of fuel than there are bytes, and advances by one at least.
--     Dns.Format describes the wire format on its own.
--   * Ech: the retry loop `prepareECH` and the cache of ech.go, the question that `queryDoH` encodes
--     (Ech.Doh), and its request and what it makes of the reply (Ech.Request).
--   * Octets: big-endian words and slices of a byte sequence, which Dns and Socks share.
--   * Socks: `handleSOCKS5Protocol`, `handleSOCKS5UserPassAuth` and `handleSOCKS5Request` of socks5.go up
--     to the command (Socks.Handshake), `parseSOCKS5UDPPacket` and `buildSOCKS5UDPPacket` (Socks.Packet),
--     and `UDPAssociation` over the pool (Socks.Association, with `handleUDPResponse` in its child
--     Response, the command that sets an association up in Setup, and one that found no WebSocket, among
--     the pool's goroutines, in Stuck). How Go's package net writes and
--     reads an IP address is the parameter IpText.
--   * Http: http_proxy.go. Http.Headers is `readHTTPHeaders`, its loop on one more round of fuel than
--     there are bytes (Http.Termination); Http.Request holds `handleHTTPProtocol`, `handleHTTPConnect` and
--     `handleHTTPForward` up to `RegisterAndClaim`; Http itself is `validateProxyAuth`. `url.Parse` and the
--     order in which a map is visited are the parameters in Runtime.
--   * Proxy: `parseProxyAddr` of proxy.go, `runProxyServer` (Proxy.Startup), and `handleProxyConnection`
--     (Proxy.Connection), which chooses between the two front ends.
--   * Local: a local connection whose target is known, the same code four times: `handleSOCKS5Connect`,
--     `handleHTTPConnect`, `handleHTTPForward` and the forwarder of tcp_client.go. Local.Session is the
--     whole, from `RegisterAndClaim` on.
--   * TcpClient: tcp_client.go, the forwarding rules (Rules), the accept loop of a rule (Forwarder) and
--     `dialWebSocketWithECH` (Dial).
--   * Entry: the choice of the mode in main.go, and utils.go. Entry.Main is `main` as a whole, over the
--     values of the flags, with what it runs; package flag, which reads the command line, is a parameter.
--   * EndToEnd: the two ends joined: the opening of a connection, its bytes in both directions, and UDP.
--     EndToEnd.Multiplex follows the bytes of one connection, up and down, on a channel that others share,
--     with one step for each round of a loop and each locked region. EndToEnd.Session is a local
--     connection from its first frame to its end, EndToEnd.Startup begins with the start of the pool,
--     EndToEnd.Redial is about a channel that is dialled again, and EndToEnd.Early about a target that
--     speaks first.
--   * Tests: runs at concrete inputs, and theorems applied at such inputs.
--
-- Sockets, associations and times are numbers that stand for Go's pointers and clock readings. What
-- the network answers enters as arguments: whether a write succeeds, what a read gives in each round,
-- what the resolver finds. A method returns the new state with the list of its calls to the outside.
-- `none` in a result of type Option stands for a run-time panic, unless the definition says otherwise.
--
-- Not modelled: logs, buffer sizes, deadlines (but for those in the accept loop of a forwarding rule), the
-- pings and their answers, the accept loop of the proxy, which starts a goroutine for each connection
-- and does nothing else, TLS and certificates (`buildTLSConfigWithECH` and `generateSelfSignedCert`
-- only call libraries). Texts of addresses, networks and URLs are read by Go's net and net/url, and
-- requests are sent by net/http: these are parameters.
pub mod Prelude
pub mod Text
pub mod Octets
pub mod Wire
pub mod Server
pub mod Pool
pub mod EndToEnd
pub mod Dns
pub mod Ech
pub mod Socks
pub mod Proxy
pub mod Http
pub mod TcpClient
pub mod Local
pub mod Entry
mod Tests
