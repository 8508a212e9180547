-- ===== src/Ech/Cache.antt =====
-- The cache of ech.go: `echList`, filled by `prepareECH` and read by `getECHList`.
use tunnel.Prelude.{Bytes, List, [], ◌∷◌, Option, none, some}
use tunnel.Dns.Base64.{decode}
use tunnel.Dns.Response.{Parsed, too_short, no_answers, found, parse_dns_response}

-- One `queryDoH` of the retry loop: the HTTP exchange fails at some point, or gives a body.
pub data Attempt : Type 0 where
  no_response : Attempt
  body : Bytes → Attempt

-- The end of `queryDoH`; `none` is an error.
abbrev pub string_of : Option Parsed → Option Bytes
string_of none = none
string_of (some too_short) = none
string_of (some no_answers) = none
string_of (some (found s)) = some s

unfoldable pub query_doh : Attempt → Option Bytes
query_doh no_response = none
query_doh (body bytes) = string_of (parse_dns_response bytes)

-- A round of `prepareECH`: `none` goes on to the next round.
abbrev pub list_of : Option Bytes → Option Bytes
list_of none = none
list_of (some []) = none
list_of (some (c ∷ s)) = decode (c ∷ s)

abbrev pub first_list : Option Bytes → Option Bytes → Option Bytes
first_list none next = next
first_list (some raw) next = some raw

-- `prepareECH` over the attempts that happen: the list that it stores in `echList` when it returns,
-- or `none` while it still retries.
unfoldable pub prepare_ech : List Attempt → Option Bytes
prepare_ech [] = none
prepare_ech (attempt ∷ attempts) =
    let next = prepare_ech attempts in first_list (list_of (query_doh attempt)) next

-- `getECHList`; `none` is the error for an empty list.
unfoldable pub get_ech_list : Bytes → Option Bytes
get_ech_list [] = none
get_ech_list (b ∷ bytes) = some (b ∷ bytes)
