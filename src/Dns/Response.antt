-- ===== src/Dns/Response.antt =====
-- `parseDNSResponse` and `parseHTTPSRecord` (ech.go), with every index and slice checked: `none` is
-- an access out of the slice's length, or a loop out of fuel.
use Prim.Native.Nat.{bit_and}
use tunnel.Prelude.{
  ℕ, zero, suc, Bytes, [], ◌∷◌, Option, none, some, ◌>>=◌, ◌+◌, if◌then◌else◌, ltb, leb, ◌==◌,
  length, get_elem?,
}
use tunnel.Octets.{word_at, slice}
use tunnel.Dns.Base64.{encode}

-- `typeHTTPS`
abbrev pub type_https : ℕ
type_https = 65

-- `for offset < len(r) && r[offset] != 0 { offset += int(r[offset]) + 1 }`
unfoldable pub skip_labels : ℕ → Bytes → ℕ → Option ℕ
skip_labels zero r offset = none
skip_labels (suc fuel) r offset =
    if ltb offset (length r)
    then (get_elem? r offset >>= λ b.
        let rest = skip_labels fuel r (offset + (b + 1)) in if b == 0 then some offset else rest)
    else some offset

-- Each round goes on by a byte at least, so this is enough.
abbrev pub fuel_for : Bytes → ℕ
fuel_for r = suc (length r)

-- The NAME of an answer, which may be a compression pointer.
unfoldable pub skip_name : Bytes → ℕ → Option ℕ
skip_name r offset = get_elem? r offset >>= λ b.
    if bit_and b 0xC0 == 0xC0
    then some (offset + 2)
    else (skip_labels (fuel_for r) r offset >>= λ o. some (o + 1))

-- The loop over the SvcParams: the value of the first parameter with key 5, in base64.
unfoldable pub find_ech : ℕ → Bytes → ℕ → Option Bytes
find_ech zero r offset = none
find_ech (suc fuel) r offset =
    if leb (offset + 4) (length r)
    then (word_at r offset >>= λ key. word_at r (offset + 2) >>= λ size.
        if ltb (length r) (offset + 4 + size)
        then some []
        else slice r (offset + 4) (offset + 4 + size) >>= λ found.
            let rest = find_ech fuel r (offset + 4 + size) in
            if key == 5 then some (encode found) else rest)
    else some []

-- The target name of an HTTPS record.
unfoldable pub skip_target : Bytes → ℕ → Option ℕ
skip_target r offset =
    let labels = skip_labels (fuel_for r) r offset >>= λ o. some (o + 1) in
    if ltb offset (length r)
    then (get_elem? r offset >>= λ b. if b == 0 then some (offset + 1) else labels)
    else labels

-- `parseHTTPSRecord`
unfoldable pub parse_https_record : Bytes → Option Bytes
parse_https_record r =
    if ltb (length r) 2 then some [] else (skip_target r 2 >>= λ o. find_ech (fuel_for r) r o)

-- The string of an HTTPS record, and "" for any other.
unfoldable pub ech_of : ℕ → Bytes → Option Bytes
ech_of rr_type record_bytes =
    if rr_type == type_https then parse_https_record record_bytes else some []

-- `if ech != "" { return ech }`, or the next round
abbrev pub or_next : Bytes → Option Bytes → Option Bytes
or_next [] next = next
or_next (b ∷ ech) next = some (b ∷ ech)

-- The loop over the answers, `n` rounds from `offset` on.
unfoldable pub answers : ℕ → Bytes → ℕ → Option Bytes
answers zero r offset = some []
answers (suc n) r offset =
    if leb (length r) offset
    then some []
    else (skip_name r offset >>= λ o.
        if ltb (length r) (o + 10)
        then some []
        else word_at r o >>= λ rr_type. word_at r (o + 8) >>= λ size.
            if ltb (length r) (o + 10 + size)
            then some []
            else slice r (o + 10) (o + 10 + size) >>= λ bytes. ech_of rr_type bytes >>= λ ech.
                let next = answers n r (o + 10 + size) in or_next ech next)

-- The two errors, and the string that is returned.
pub data Parsed : Type 0 where
  too_short no_answers : Parsed
  found : Bytes → Parsed

-- `parseDNSResponse`
unfoldable pub parse_dns_response : Bytes → Option Parsed
parse_dns_response r =
    if ltb (length r) 12
    then some too_short
    else (word_at r 6 >>= λ ancount.
        if ancount == 0
        then some no_answers
        else skip_labels (fuel_for r) r 12 >>= λ o.
            answers ancount r (o + 5) >>= λ ech. some (found ech))
