-- ===== src/Http/Headers.antt =====
-- `readHTTPHeaders` (http_proxy.go). The reader is the list of the bytes that the client still sends;
-- a read past its end fails, as it does when the connection ends or its deadline passes.
pub mod RoundTrip
use tunnel.Prelude.{
  ℕ, zero, suc, Bytes, Bool, true, false, List, [], ◌∷◌, ◌++◌, Option, none, some, bytes_eq,
  if◌then◌else◌, length,
}
use tunnel.Prelude.Map.{Map, insert, bytes_key}
use tunnel.Text.{cut, split_n}
use tunnel.Text.Space.{trim_space}

abbrev pub with_end : Option (Bytes × Bytes) → Option (Bytes × Bytes)
with_end none = none
with_end (some (line, rest)) = some (line ++ b'\n' ∷ [], rest)

-- `reader.ReadString('\n')`: the line with its end, and the rest.
unfoldable pub read_line : Bytes → Option (Bytes × Bytes)
unfolding cut
read_line input = with_end (cut b'\n' input)

-- What the loop ends with: an error, the headers with the rest of the input, or no more fuel.
pub data Headers : Type 0 where
  failed out_of_fuel : Headers
  read : Map Bytes Bytes → Bytes → Headers

-- `headers[key] = value`, for a line with a colon
unfoldable pub add_header : List Bytes → Map Bytes Bytes → Map Bytes Bytes
unfolding insert
add_header (key ∷ value ∷ []) headers = insert (trim_space key) (trim_space value) headers
add_header _ headers = headers

-- A trimmed line: the empty one ends the loop.
unfoldable pub after_line : Bytes → Bytes → Map Bytes Bytes → (Map Bytes Bytes → Headers) → Headers
after_line [] rest headers next = read headers rest
after_line (c ∷ line) rest headers next = next (add_header (split_n 2 b':' (c ∷ line)) headers)

abbrev pub after_read :
    Option (Bytes × Bytes) → Map Bytes Bytes → (Bytes → Map Bytes Bytes → Headers) → Headers
after_read none headers next = failed
after_read (some (line, rest)) headers next = after_line (trim_space line) rest headers (next rest)

-- The loop, on fuel. Each round takes a byte at least.
unfoldable pub read_loop : ℕ → Bytes → Map Bytes Bytes → Headers
read_loop zero input headers = out_of_fuel
read_loop (suc n) input headers = after_read (read_line input) headers (read_loop n)

unfoldable pub read_http_headers : Bytes → Headers
read_http_headers input = read_loop (suc (length input)) input []
