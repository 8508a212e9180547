-- ===== src/Octets.antt =====
-- Go slices and `encoding/binary` on bytes, as ech.go and socks5.go use them: `none` is an access
-- out of the slice's length, a panic.
pub mod Position
use tunnel.Prelude.{
  ℕ, Bytes, [], ◌∷◌, ◌≡◌, Option, none, some, ◌>>=◌, ◌+◌, ◌-◌, ◌*◌, ◌/◌, ◌%◌, ◌≤◌, if◌then◌else◌,
  leb, ◌&&◌, length, get_elem?, take, drop, get_elem?-lt, arith,
}

-- `binary.BigEndian.PutUint16`
abbrev pub word : ℕ → Bytes
word n = (n / 256 % 256) ∷ (n % 256) ∷ []

-- `binary.BigEndian.Uint16(r[o : o+2])`
unfoldable pub word_at : Bytes → ℕ → Option ℕ
word_at r o = do a ← get_elem? r o; b ← get_elem? r (o + 1); some (a * 256 + b)

-- `r[lo:hi]`
unfoldable pub slice : Bytes → ℕ → ℕ → Option Bytes
slice r lo hi = if leb lo hi && leb hi (length r) then some (take (hi - lo) (drop lo r)) else none

pub word_at-lt : (r : Bytes) (o : ℕ) → o + 2 ≤ length r → (w : ℕ) × (word_at r o ≡ some w)
unfolding word_at
word_at-lt r o h =
    let (a, p) = get_elem?-lt r o (omega arith) in
    let (b, q) = get_elem?-lt r (o + 1) (omega arith) in (a * 256 + b, rw (p, q))

pub slice-le :
    (r : Bytes) (lo hi : ℕ)
    → lo ≤ hi
    → hi ≤ length r
    → slice r lo hi ≡ some (take (hi - lo) (drop lo r))
unfolding slice
slice-le r lo hi h k = ground arith
