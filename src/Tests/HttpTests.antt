-- ===== src/Tests/HttpTests.antt =====
-- Examples for the HTTP front end and the choice of the protocol (http_proxy.go, proxy.go).
use tunnel.Prelude.{Bytes, true, [], ◌∷◌, ◌≡◌, refl, some, codes, bytes_eq}
use tunnel.Prelude.Map.{Map, lookup, insert, bytes_key}
use tunnel.Text.{has_prefix, split_n, cut, trim_prefix}
use tunnel.Text.Space.{
  is_ascii_space, is_two, is_three, space_width, last_width, trim_with, trim_right, trim_space,
}
use tunnel.Text.Scan.{
  skip_space, is_digit, scan_digits, starts_digit, scan_unsigned, scan_signed, sscanf_int,
}
use tunnel.Dns.Base64.{decode, decode_groups, value, without_breaks}
use tunnel.Socks.Handshake.{Config, has_credentials, read_full, with_first}
use tunnel.Proxy.{contains}
use tunnel.Proxy.Connection.{http, is_http_letter, handle_proxy_connection}
use tunnel.Proxy.Connection.Access.{IsLogin, handle_proxy_connection-IsLogin}
use tunnel.Http.{is_login, check_credentials, validate_proxy_auth}
use tunnel.Http.Headers.{read_line, add_header, after_line, read_loop, read_http_headers}
use tunnel.Http.Request.{
  Url, Runtime, answered, connects, forwards, auth_required, is_authorized, with_headers,
  handle_http_connect, target_of, read_body, path_of, is_proxy_header, header_lines, rebuilt,
  handle_http_forward, handle_request_line, handle_http_protocol,
}
use tunnel.Http.Termination.{is_decided, handle_http_protocol-ends}
use tunnel.Tests.SocksTests.{text}

abbrev pub config : Config
config = record { username = codes "ann"; password = codes "p:w"; host = codes ":80" }

abbrev open_proxy : Config
open_proxy = record { username = []; password = []; host = codes ":80" }

abbrev site : Url
site = record {
  scheme = codes "http";
  host = codes "a.io";
  path = codes "/p";
  raw_query = codes "q=1";
}

-- Every URL is read as the one above, and a map is visited in its order.
abbrev pub runtime : Runtime
runtime = record { parse_url = λ url. some site; visit = λ headers. headers }

abbrev pub connect_request : Bytes
connect_request = codes "CONNECT a:443 HTTP/1.1\r\nProxy-Authorization: Basic YW5uOnA6dw==\r\n\r\n"

tunnels :
    handle_proxy_connection config text runtime true true connect_request
    ≡ http (connects (codes "a:443"))
unfolding handle_proxy_connection is_http_letter handle_http_protocol handle_request_line
    handle_http_connect with_headers is_authorized read_line read_loop read_http_headers after_line
    add_header insert lookup cut split_n trim_space trim_right trim_with space_width last_width
    is_ascii_space is_two is_three has_credentials validate_proxy_auth check_credentials is_login
    has_prefix trim_prefix decode decode_groups value without_breaks bytes_eq
tunnels = refl

-- A header's name is matched by its exact spelling.
lower_case :
    handle_http_protocol config runtime
      (codes "CONNECT a:443 HTTP/1.1\r\nproxy-authorization: Basic YW5uOnA6dw==\r\n\r\n")
    ≡ answered auth_required
unfolding handle_http_protocol handle_request_line handle_http_connect with_headers is_authorized
    read_line read_loop read_http_headers after_line add_header insert lookup cut split_n trim_space
    trim_right trim_with space_width last_width is_ascii_space is_two is_three has_credentials
    validate_proxy_auth check_credentials is_login has_prefix trim_prefix decode decode_groups value
    without_breaks bytes_eq
lower_case = refl

forwards_post :
    handle_http_protocol open_proxy runtime (
      codes
        "POST http://a.io/p?q=1 HTTP/1.1\r\nContent-Length: 2\r\nProxy-Connection: close\r\n\r\nhi")
    ≡ forwards
        (codes "a.io:80")
        (codes "POST /p?q=1 HTTP/1.1\r\nContent-Length: 2\r\nHost: a.io\r\n\r\nhi")
unfolding handle_http_protocol handle_request_line handle_http_forward with_headers is_authorized
    read_line read_loop read_http_headers after_line add_header insert lookup cut split_n trim_space
    trim_right trim_with space_width last_width is_ascii_space is_two is_three has_credentials
    bytes_eq read_body sscanf_int skip_space is_digit scan_digits starts_digit scan_unsigned
    scan_signed read_full with_first target_of contains path_of rebuilt header_lines is_proxy_header
forwards_post = refl

handle_proxy_connection-IsLogin_example : IsLogin config connect_request
unfolding handle_proxy_connection is_http_letter handle_http_protocol handle_request_line
    handle_http_connect with_headers is_authorized read_line read_loop read_http_headers after_line
    add_header insert lookup cut split_n trim_space trim_right trim_with space_width last_width
    is_ascii_space is_two is_three has_credentials validate_proxy_auth check_credentials is_login
    has_prefix trim_prefix decode decode_groups value without_breaks bytes_eq
handle_proxy_connection-IsLogin_example =
    handle_proxy_connection-IsLogin config text runtime true true connect_request refl refl

handle_http_protocol-ends_example :
    is_decided (handle_http_protocol config runtime (codes "GET / HTTP/1.1\r\nHost: a")) ≡ true
handle_http_protocol-ends_example =
    handle_http_protocol-ends config runtime (codes "GET / HTTP/1.1\r\nHost: a")

abbrev post_fields : Map Bytes Bytes
post_fields =
    (codes "Host", codes "a.io")
    ∷ (codes "Proxy-Connection", [])
    ∷ (codes "Content-Length", codes "2")
    ∷ []
