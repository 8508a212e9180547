-- ===== src/Socks/Handshake.antt =====
-- The SOCKS5 handshake: `handleSOCKS5Protocol`, `handleSOCKS5UserPassAuth` and
-- `handleSOCKS5Request` (socks5.go), up to the command. The client's bytes are a list; that a read
-- past its end fails is what `io.ReadFull` does when the connection ends. The two flags tell
-- whether the two replies of the negotiation can be written.
pub mod Authentication
pub mod Request
use tunnel.Prelude.{
  ℕ, zero, suc, Bytes, Bool, true, false, not, List, [], ◌∷◌, ◌++◌, Option, none, some, ◌+◌, ◌*◌,
  if◌then◌else◌, ◌==◌, ◌&&◌, bytes_eq,
}
use tunnel.Socks.Address.{IpText, Host, ipv4, domain, ipv6, target_text}

-- `ProxyConfig` (proxy.go)
pub record Config : Type 0 where
  pub username : Bytes
  pub password : Bytes
  pub host : Bytes

-- One byte in front of what was read.
unfoldable pub with_first : ℕ → Option (Bytes × Bytes) → Option (Bytes × Bytes)
with_first b none = none
with_first b (some (bytes, rest)) = some (b ∷ bytes, rest)

-- `io.ReadFull` into a buffer of `n` bytes: the bytes read and those that stay.
unfoldable pub read_full : ℕ → Bytes → Option (Bytes × Bytes)
read_full zero input = some ([], input)
read_full (suc n) [] = none
read_full (suc n) (b ∷ input) = with_first b (read_full n input)

-- How a session goes on: it ends, with the replies that were sent, or a command is carried out on
-- the rest of the input.
pub data Session : Type 0 where
  ended : List Bytes → Session
  connects : List Bytes → Bytes → Bytes → Session
  associates : List Bytes → Bytes → Session

-- More replies in front.
abbrev pub after : Bytes → Session → Session
after reply (ended replies) = ended (reply ∷ replies)
after reply (connects replies target input) = connects (reply ∷ replies) target input
after reply (associates replies input) = associates (reply ∷ replies) input

-- The search among the offered methods.
unfoldable pub offers : ℕ → Bytes → Bool
offers m [] = false
offers m (x ∷ xs) = if x == m then true else offers m xs

abbrev pub is_set : Bytes → Bool
is_set [] = false
is_set (b ∷ s) = true

-- `config.Username != "" && config.Password != ""`
unfoldable pub has_credentials : Config → Bool
has_credentials c = is_set c.username && is_set c.password

-- NoAuth 0x00, UserPassAuth 0x02, NoAcceptable 0xFF
unfoldable pub select_method : Config → Bytes → ℕ
select_method c methods = if has_credentials c then (if offers 2 methods then 2 else 255) else 0

-- `sendSOCKS5ErrorResponse`
unfoldable pub error_response : ℕ → Bytes
error_response status = 5 ∷ status ∷ 0 ∷ 1 ∷ 0 ∷ 0 ∷ 0 ∷ 0 ∷ 0 ∷ 0 ∷ []

-- The port and the command, behind the address: two bytes, then the switch.
unfoldable pub read_command : IpText → ℕ → Host → Bytes → Session
read_command t command host (hi ∷ lo ∷ rest) =
    if command == 1
    then connects [] (target_text t host (hi * 256 + lo)) rest
    else if command == 3
    then associates [] rest
    else ended (error_response 7 ∷ [])
read_command t command host _ = ended []

-- What is done with a field, if it was read.
unfoldable pub use_field : (Bytes → Bytes → Session) → Option (Bytes × Bytes) → Session
use_field use_it none = ended []
use_field use_it (some (field, rest)) = use_it field rest

-- A field with its length in the byte in front.
unfoldable pub with_sized : Bytes → (Bytes → Bytes → Session) → Session
with_sized [] use_it = ended []
with_sized (size ∷ input) use_it = use_field use_it (read_full size input)

-- The switch over the address type.
unfoldable pub read_target : IpText → ℕ → ℕ → Bytes → Session
read_target t command atyp input =
    if atyp == 1
    then use_field (λ ip rest. read_command t command (ipv4 ip) rest) (read_full 4 input)
    else if atyp == 3
    then with_sized input (λ name rest. read_command t command (domain name) rest)
    else if atyp == 4
    then use_field (λ ip rest. read_command t command (ipv6 ip) rest) (read_full 16 input)
    else ended (error_response 8 ∷ [])

-- `handleSOCKS5Request` up to the command
unfoldable pub handle_request : IpText → Bytes → Session
handle_request t (version ∷ command ∷ reserved ∷ atyp ∷ input) =
    if version == 5 then read_target t command atyp input else ended []
handle_request t _ = ended []

-- The end of `handleSOCKS5UserPassAuth`: the reply, and the rest of the session if it says success.
unfoldable pub finish_auth : Config → IpText → Bool → Bytes → Bytes → Bytes → Session
finish_auth c t sent user pass input =
    if bytes_eq user c.username && bytes_eq pass c.password
    then (if sent then after (1 ∷ 0 ∷ []) (handle_request t input) else ended [])
    else ended (if sent then (1 ∷ 1 ∷ []) ∷ [] else [])

-- `handleSOCKS5UserPassAuth`, and what follows it
unfoldable pub handle_user_pass : Config → IpText → Bool → Bytes → Session
handle_user_pass c t sent (version ∷ input) =
    if version == 1
    then with_sized input
        (λ user rest. with_sized rest (λ pass rest. finish_auth c t sent user pass rest))
    else ended []
handle_user_pass c t sent [] = ended []

-- What follows the choice of the method.
unfoldable pub follow_method : Config → IpText → ℕ → Bool → Bytes → Session
follow_method c t method sent input =
    if method == 255
    then ended []
    else if method == 2
    then handle_user_pass c t sent input
    else handle_request t input

-- The reply with the chosen method.
unfoldable pub answer_methods : Config → IpText → Bool → Bool → Bytes → Bytes → Session
answer_methods c t sent replied methods input =
    let method = select_method c methods in
    if sent then after (5 ∷ method ∷ []) (follow_method c t method replied input) else ended []

-- `handleSOCKS5Protocol`, behind the first byte 0x05 that the proxy has read.
unfoldable pub handle_socks5 : Config → IpText → Bool → Bool → Bytes → Session
handle_socks5 c t sent replied input = with_sized input (answer_methods c t sent replied)
