-- ===== src/EndToEnd/Session.antt =====
-- What the target of a local connection is given, from its first frame to the end (socks5.go,
-- http_proxy.go, tcp_client.go, pool.go and websocket_server.go).
use tunnel.Prelude.{Bytes, List, [], ◌∷◌}
use tunnel.Prelude.Map.{bytes_key}
use tunnel.Server.Handler
use tunnel.Server.Handler.{Server}
use tunnel.Pool.State.{Pool}

-- The first frame, where there is one.
abbrev pub first_of : Bytes → List Bytes
first_of [] = []
first_of (b ∷ first) = (b ∷ first) ∷ []
