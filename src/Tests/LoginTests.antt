-- ===== src/Tests/LoginTests.antt =====
-- A proxy with a login, from its command line on (main.go, proxy.go).
use tunnel.Prelude.{
  Bytes, Bool, true, [], ◌≡◌, refl, Option, none, some, if◌then◌else◌, arith, codes, bytes_eq,
}
use tunnel.Prelude.Map.{lookup, insert, bytes_key}
use tunnel.Text.{has_prefix, split_n, cut, trim_prefix}
use tunnel.Text.Space.{
  is_ascii_space, is_two, is_three, space_width, last_width, trim_with, trim_right, trim_space,
}
use tunnel.Dns.Base64.{decode, decode_groups, value, without_breaks}
use tunnel.Socks.Handshake.{has_credentials}
use tunnel.Proxy.{contains, read_login, read_parts, parse_proxy_addr}
use tunnel.Proxy.Startup.{serves, run_proxy_server}
use tunnel.Proxy.Connection.{is_http_letter, handle_proxy_connection}
use tunnel.Proxy.Connection.Access.{IsLogin}
use tunnel.Http.{is_login, check_credentials, validate_proxy_auth}
use tunnel.Http.Headers.{read_line, add_header, after_line, read_loop, read_http_headers}
use tunnel.Http.Request.{
  Url, with_headers, is_authorized, handle_http_connect, handle_request_line, handle_http_protocol,
}
use tunnel.Ech.Fetch.{answers_list}
use tunnel.Pool.State.{new_ech_pool}
use tunnel.Pool.Start.{make_pool}
use tunnel.Entry.{mode_of}
use tunnel.Entry.Main.{Outside, proxying, flags_of, run_mode, main}
use tunnel.Entry.Main.Login.{main-IsLogin}
use tunnel.Tests.SocksTests.{text}
use tunnel.Tests.DnsTests.{records}
use tunnel.Tests.HttpTests.{config, runtime, connect_request}
use tunnel.Tests.MainTests.{outside, prepared}

abbrev address : Bytes
address = codes "proxy://ann:p:w@:80"

-- Any address can be listened on.
abbrev listens : Bytes → Bool
listens host = true

abbrev wss_url : Bytes → Option Url
wss_url s = some (record { scheme = codes "wss"; host = s; path = []; raw_query = [] })

started : run_proxy_server wss_url listens address (codes "wss://h/") ≡ some (serves config)
unfolding run_proxy_server parse_proxy_addr read_parts read_login contains split_n cut trim_prefix
    has_prefix bytes_eq
started = refl

abbrev proxy_outside : Outside Bytes
proxy_outside = record outside { parse_url = wss_url; listens = listens }

abbrev proxy_given : Bytes → Option Bytes
proxy_given name =
    if bytes_eq name (codes "l")
    then some address
    else if bytes_eq name (codes "f")
    then some (codes "wss://h/")
    else none

serving :
    main proxy_outside (flags_of proxy_given none)
    ≡ proxying (new_ech_pool (codes "wss://h/") 3) (answers_list records) config
unfolding main flags_of bytes_eq mode_of has_prefix run_mode make_pool
serving = rw (prepared, started)

main-IsLogin_example : IsLogin config connect_request
unfolding handle_proxy_connection is_http_letter handle_http_protocol handle_request_line
    handle_http_connect with_headers is_authorized read_line read_loop read_http_headers after_line
    add_header insert lookup cut split_n trim_space trim_right trim_with space_width last_width
    is_ascii_space is_two is_three has_credentials validate_proxy_auth check_credentials is_login
    has_prefix trim_prefix decode decode_groups value without_breaks bytes_eq
main-IsLogin_example =
    main-IsLogin proxy_outside proxy_given none (codes "ann") (codes "p:w") (codes ":80")
      (new_ech_pool (codes "wss://h/") 3) (answers_list records) config text runtime true true
      connect_request (λ e. cc) (λ e. cc) (omega arith) (omega arith) (omega arith) refl serving
      refl
