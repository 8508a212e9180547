-- ===== src/Dns/Base64.antt =====
-- `base64.StdEncoding` of Go's library, by which ech.go hands the ECH list on.
pub mod RoundTrip
use tunnel.Prelude.{
  ℕ, Bytes, Bool, true, false, List, [], ◌∷◌, ◌≡◌, ◌≢◌, refl, Option, none, some, arith, ◌+◌, ◌-◌,
  ◌*◌, ◌/◌, ◌%◌, ◌<◌, ltb, leb, ◌==◌, ◌&&◌, ◌||◌, if◌then◌else◌, ◌>>=◌, ap,
}

-- The character of six bits.
unfoldable pub symbol : ℕ → ℕ
symbol n =
    if ltb n 26
    then b'A' + n
    else if ltb n 52
    then b'a' + (n - 26)
    else if ltb n 62
    then b'0' + (n - 52)
    else if n == 62
    then b'+'
    else b'/'

-- `EncodeToString`
unfoldable pub encode : Bytes → Bytes
encode [] = []
encode (a ∷ []) = symbol (a / 4) ∷ symbol (a % 4 * 16) ∷ b'=' ∷ b'=' ∷ []
encode (a ∷ b ∷ []) =
    symbol (a / 4) ∷ symbol (a % 4 * 16 + b / 16) ∷ symbol (b % 16 * 4) ∷ b'=' ∷ []
encode (a ∷ b ∷ c ∷ rest) =
    symbol (a / 4)
    ∷ symbol (a % 4 * 16 + b / 16)
    ∷ symbol (b % 16 * 4 + c / 64)
    ∷ symbol (c % 64)
    ∷ encode rest

-- The six bits of a character.
unfoldable pub value : ℕ → Option ℕ
value c =
    if leb b'A' c && leb c b'Z'
    then some (c - b'A')
    else if leb b'a' c && leb c b'z'
    then some (c - b'a' + 26)
    else if leb b'0' c && leb c b'9'
    then some (c - b'0' + 52)
    else if c == b'+'
    then some 62
    else if c == b'/'
    then some 63
    else none

-- The groups of four characters; `none` is a `CorruptInputError`.
unfoldable pub decode_groups : Bytes → Option Bytes
decode_groups [] = some []
decode_groups (p ∷ q ∷ r ∷ s ∷ rest) =
    let tail = decode_groups rest in
    value p >>= λ a. value q >>= λ b. elim rest [
      | [] ↦
          if r == b'=' && s == b'='
          then some ((a * 4 + b / 16) ∷ [])
          else value r >>= λ c.
              if s == b'='
              then some ((a * 4 + b / 16) ∷ (b % 16 * 16 + c / 4) ∷ [])
              else value s >>= λ d.
                  some ((a * 4 + b / 16) ∷ (b % 16 * 16 + c / 4) ∷ (c % 4 * 64 + d) ∷ [])
      | x ∷ xs ↦ value r >>= λ c. value s >>= λ d. tail >>= λ bytes.
          some ((a * 4 + b / 16) ∷ (b % 16 * 16 + c / 4) ∷ (c % 4 * 64 + d) ∷ bytes)
    ]
decode_groups _ = none

-- Line breaks are passed over.
unfoldable pub without_breaks : Bytes → Bytes
without_breaks [] = []
without_breaks (c ∷ s) =
    let rest = without_breaks s in if c == b'\n' || c == b'\r' then rest else c ∷ rest

-- `DecodeString`
unfoldable pub decode : Bytes → Option Bytes
decode s = decode_groups (without_breaks s)
