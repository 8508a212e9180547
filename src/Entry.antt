-- ===== src/Entry.antt =====
-- `main` (main.go), which chooses what the program runs as, and utils.go.
pub mod Main
use tunnel.Prelude.{Bytes, Bool, true, false, Option, none, some, ◌||◌, if◌then◌else◌, codes}
use tunnel.Text.{has_prefix}
use tunnel.TcpClient.Dial.{has_infix}

-- `runWebSocketServer`, `runTCPClient` or `runProxyServer`, the last two behind `prepareECH`, or the
-- fatal error for an address of another form.
pub data Mode : Type 0 where
  server tcp_client proxy no_mode : Mode

unfoldable pub mode_of : Bytes → Mode
mode_of listen_addr =
    if has_prefix listen_addr (codes "ws://") || has_prefix listen_addr (codes "wss://")
    then server
    else if has_prefix listen_addr (codes "tcp://")
    then tcp_client
    else if has_prefix listen_addr (codes "proxy://")
    then proxy
    else no_mode

-- `io.EOF`, or an error by its text
pub data Error : Type 0 where
  eof : Error
  text : Bytes → Error

unfoldable pub is_normal_close_error : Option Error → Bool
is_normal_close_error none = false
is_normal_close_error (some eof) = true
is_normal_close_error (some (text err_str)) =
    has_infix err_str (codes "use of closed network connection")
    || has_infix err_str (codes "broken pipe")
    || has_infix err_str (codes "connection reset by peer")
    || has_infix err_str (codes "normal closure")
