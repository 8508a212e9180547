-- ===== src/Text.antt =====
-- The functions of Go's `strings` and `bytes` packages that the program calls, on byte lists. Every
-- separator that the program splits by is a single byte.
pub mod Space
pub mod Fields
pub mod Decimal
pub mod Scan
use tunnel.Prelude.{
  drop-append-length, ℕ, zero, suc, ◌≡◌, refl, ◌≢◌, Bool, true, false, ◌&&◌, Option, none, some,
  List, [], ◌∷◌, ◌++◌, arith, ◌∙◌, ap, ◌==◌, if◌then◌else◌, Bytes, ◌+◌, ◌/◌, ◌%◌, ltb, drop, take,
  length, bytes_eq, inl, inr, Bool-cases, bytes_eq_refl, take-append-length, length-append,
}

-- `strings.HasPrefix(s, prefix)`
unfoldable pub has_prefix : Bytes → Bytes → Bool
has_prefix s [] = true
has_prefix [] (p ∷ ps) = false
has_prefix (c ∷ s) (p ∷ ps) = c == p && has_prefix s ps

-- `strings.Cut(s, sep)`: the parts before and after the first separator.
unfoldable pub cut : ℕ → Bytes → Option (Bytes × Bytes)
cut sep [] = none
cut sep (c ∷ s) =
    if c == sep
    then some ([], s)
    else elim (cut sep s) [ none ↦ none | some (a, b) ↦ some (c ∷ a, b) ]

-- `strings.SplitN(s, sep, n)` for a positive `n`.
unfoldable pub split_n : ℕ → ℕ → Bytes → List Bytes
unfolding cut
split_n zero sep s = []
split_n (suc zero) sep s = s ∷ []
split_n (suc (suc n)) sep s = elim (cut sep s) [
  | none ↦ s ∷ []
  | some (a, b) ↦ a ∷ split_n (suc n) sep b
]

-- A byte in front of the first part.
abbrev pub grow_first : ℕ → List Bytes → List Bytes
grow_first c [] = (c ∷ []) ∷ []
grow_first c (part ∷ parts) = (c ∷ part) ∷ parts

-- `strings.Split(s, sep)`
unfoldable pub split : ℕ → Bytes → List Bytes
split sep [] = [] ∷ []
split sep (c ∷ s) = if c == sep then [] ∷ split sep s else grow_first c (split sep s)

-- `strings.TrimPrefix(s, prefix)`
unfoldable pub trim_prefix : Bytes → Bytes → Bytes
unfolding has_prefix
trim_prefix s prefix = if has_prefix s prefix then drop (length prefix) s else s

-- The test `len(msg) > len(tag) && string(msg[:len(tag)]) == tag`.
unfoldable pub starts_with : Bytes → Bytes → Bool
unfolding bytes_eq
starts_with msg tag = ltb (length tag) (length msg) && bytes_eq (take (length tag) msg) tag

-- The byte `sep` does not occur.
abbrev pub Lacks : ℕ → Bytes → Type 0
Lacks sep [] = Unit {0}
Lacks sep (c ∷ s) = (c ≢ sep) × Lacks sep s

pub has_prefix-append : (p s : Bytes) → has_prefix (p ++ s) p ≡ true
unfolding has_prefix
has_prefix-append [] s = refl
has_prefix-append (c ∷ p) s = ground (arith, has_prefix-append p s)

pub cut-append : (sep : ℕ) (a b : Bytes) → Lacks sep a → cut sep (a ++ sep ∷ b) ≡ some (a, b)
unfolding cut
cut-append sep [] b h = ground arith
cut-append sep (c ∷ a) b h = ground (arith, cut-append sep a b h.1)

cut-none : (sep : ℕ) (a : Bytes) → Lacks sep a → cut sep a ≡ none
unfolding cut
cut-none sep [] h = refl
cut-none sep (c ∷ a) h = ground (arith, cut-none sep a h.1)

pub Lacks-append : (sep : ℕ) (a b : Bytes) → Lacks sep a → Lacks sep b → Lacks sep (a ++ b)
Lacks-append sep [] b h k = k
Lacks-append sep (c ∷ a) b h k = (h.0, Lacks-append sep a b h.1 k)

-- Splitting in two at the first separator.
pub split_n-two : (sep : ℕ) (a b : Bytes) → Lacks sep a → split_n 2 sep (a ++ sep ∷ b) ≡ a ∷ b ∷ []
unfolding split_n
split_n-two sep a b h = rw (split_n, cut-append sep a b h)

pub split_n-three :
    (sep : ℕ) (a b c : Bytes)
    → Lacks sep a
    → Lacks sep b
    → split_n 3 sep (a ++ sep ∷ (b ++ sep ∷ c)) ≡ a ∷ b ∷ c ∷ []
unfolding split_n
split_n-three sep a b c h k =
    rw (split_n, cut-append sep a (b ++ sep ∷ c) h, split_n, cut-append sep b c k)

starts_with-append : (tag s : Bytes) → s ≢ [] → starts_with (tag ++ s) tag ≡ true
unfolding starts_with
starts_with-append tag [] h = absurd (h refl)
starts_with-append tag (c ∷ s) h =
    rw (take-append-length tag (c ∷ s), bytes_eq_refl tag)
      (ground (arith, length-append tag (c ∷ s)))

-- What stands before the first separator lacks it.
pub cut-Lacks : (sep : ℕ) (s a b : Bytes) → cut sep s ≡ some (a, b) → Lacks sep a
unfolding cut
cut-Lacks sep [] a b e = cc
cut-Lacks sep (c ∷ s) [] b e = tt
cut-Lacks sep (c ∷ s) (d ∷ a) b e = ground (arith, cut-Lacks sep s a b)

pub cut-eq-some :
    (sep : ℕ) (s t : Bytes) → (a : Bytes) × (b : Bytes) × (cut sep (s ++ sep ∷ t) ≡ some (a, b))
unfolding cut
cut-eq-some sep [] t = ([], t, ground arith)
cut-eq-some sep (c ∷ s) t = elim (Bool-cases (c == sep)) [
  | inl hit ↦ ([], s ++ sep ∷ t, rw hit)
  | inr miss ↦ let (a, b, e) = cut-eq-some sep s t in (c ∷ a, b, rw (miss, e))
]

-- `strings.Join` of at least one part.
abbrev pub join : ℕ → Bytes → List Bytes → Bytes
join sep part [] = part
join sep part (next ∷ parts) = part ++ sep ∷ join sep next parts

abbrev pub AllLack : ℕ → List Bytes → Type 0
AllLack sep [] = Unit {0}
AllLack sep (part ∷ parts) = Lacks sep part × AllLack sep parts

split-append : (sep : ℕ) (a s : Bytes) → Lacks sep a → split sep (a ++ sep ∷ s) ≡ a ∷ split sep s
unfolding split
split-append sep [] s h = ground arith
split-append sep (c ∷ a) s h = ground (arith, split-append sep a s h.1)

split-Lacks : (sep : ℕ) (a : Bytes) → Lacks sep a → split sep a ≡ a ∷ []
unfolding split
split-Lacks sep [] h = refl
split-Lacks sep (c ∷ a) h = ground (arith, split-Lacks sep a h.1)

pub split-join :
    (sep : ℕ) (part : Bytes) (parts : List Bytes)
    → Lacks sep part
    → AllLack sep parts
    → split sep (join sep part parts) ≡ part ∷ parts
split-join sep part [] h k = split-Lacks sep part h
split-join sep part (next ∷ parts) h k =
    split-append sep part (join sep next parts) h
    ∙ ap (◌∷◌ part) (split-join sep next parts k.0 k.1)

-- What is cut is put together again.
pub cut-exact : (sep : ℕ) (s a b : Bytes) → cut sep s ≡ some (a, b) → s ≡ a ++ sep ∷ b
unfolding cut
cut-exact sep [] a b e = cc
cut-exact sep (c ∷ s) [] b e = ground (arith, e)
cut-exact sep (c ∷ s) (d ∷ a) b e = ground (arith, e, cut-exact sep s a b)

pub trim_prefix-append : (p s : Bytes) → trim_prefix (p ++ s) p ≡ s
unfolding trim_prefix
trim_prefix-append p s = rw (has_prefix-append p s) (drop-append-length p s)
