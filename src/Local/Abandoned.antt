-- ===== src/Local/Abandoned.antt =====
-- A connection whose caller has given up waiting (socks5.go, http_proxy.go and tcp_client.go, with
-- pool.go).
use tunnel.Prelude.Map.{bytes_key}
use tunnel.Pool.State.{Pool}
