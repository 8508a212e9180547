-- ===== src/Octets/Position.antt =====
-- Where a piece of a message stands: what the accesses of ech.go and socks5.go find there.
use tunnel.Prelude.{
  ℕ, Bytes, [], ◌∷◌, ◌++◌, ◌≡◌, refl, sym, ap, ◌∙◌, some, ◌+◌, ◌-◌, ◌≤◌, ◌<◌, ◌/◌, ◌%◌, length,
  get_elem?, take, drop, arith, length-append, append_assoc, take-append-length, drop-append-length,
}
use tunnel.Octets.{word, word_at, slice}

-- The rest of `r` from offset `o` on is `s`.
pub record At (r : Bytes) (o : ℕ) (s : Bytes) : Type 0 where
  pub before : Bytes
  pub splits : r ≡ before ++ s
  pub offset : length before ≡ o

pub At-start : (r : Bytes) → At r 0 r
At-start r = record { before = []; splits = refl; offset = refl }

pub At-append : {r : Bytes} {o : ℕ} (x t : Bytes) → At r o (x ++ t) → At r (o + length x) t
At-append x t a = record {
  before = a.before ++ x;
  splits = a.splits ∙ sym (append_assoc a.before x t);
  offset = omega (arith, length-append a.before x, a.offset);
}

pub At-cons : {r : Bytes} {o : ℕ} (b : ℕ) (t : Bytes) → At r o (b ∷ t) → At r (o + 1) t
At-cons b t a = At-append (b ∷ []) t a

pub length-At : {r : Bytes} {o : ℕ} {s : Bytes} → At r o s → length r ≡ o + length s
length-At {s} a = ap length a.splits ∙ omega (arith, length-append a.before s, a.offset)

get_elem?-append : (xs : Bytes) (b : ℕ) (t : Bytes) → get_elem? (xs ++ b ∷ t) (length xs) ≡ some b
get_elem?-append [] b t = refl
get_elem?-append (x ∷ xs) b t = get_elem?-append xs b t

pub get_elem?-At : {r : Bytes} {o b : ℕ} {t : Bytes} → At r o (b ∷ t) → get_elem? r o ≡ some b
get_elem?-At {b} {t} a = rw (a.splits, ← a.offset) (get_elem?-append a.before b t)

pub word_at-At :
    {r : Bytes} {o : ℕ} (n : ℕ) (t : Bytes)
    → n < 65536
    → At r o (word n ++ t)
    → word_at r o ≡ some n
unfolding word_at
word_at-At n t h a =
    rw (get_elem?-At a, get_elem?-At (At-cons (n / 256 % 256) (n % 256 ∷ t) a))
      (ap some (omega arith))

pub slice-At :
    {r : Bytes} {o hi : ℕ} (x t : Bytes)
    → At r o (x ++ t)
    → hi ≡ o + length x
    → slice r o hi ≡ some x
unfolding slice
slice-At {r} {o} {hi} x t a e =
    let size : hi - o ≡ length x = omega arith in
    let fits : hi ≤ length r = omega (arith, length-At a, length-append x t) in
    let rest : drop o r ≡ x ++ t =
      rw (a.splits, ← a.offset) (drop-append-length a.before (x ++ t)) in
    let piece : take (hi - o) (drop o r) ≡ x = rw (size, rest) (take-append-length x t) in
    ground arith
