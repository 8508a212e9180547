-- ===== src/Dns/Format/Names.antt =====
-- How ech.go passes over a name that keeps to the format.
use Prim.Native.Nat.{bit_and}
use tunnel.Prelude.{
  ℕ, zero, suc, Bytes, Bool, true, false, not, List, [], ◌∷◌, ◌++◌, ◌≡◌, refl, ap, subst, some, ◌+◌,
  ◌-◌, ◌≤◌, ◌<◌, if◌then◌else◌, ltb, leb, ◌==◌, length, arith, length-append, append_assoc, ◌>>=◌,
  lt→ltb,
}
use tunnel.Dns.Response.{skip_labels, fuel_for, skip_name, skip_target}
use native.Mathlib.Decide.{ℕ_discrete}
use tunnel.Octets.Position.{At, At-append, At-cons, length-At, get_elem?-At}
use tunnel.Dns.Format.Records.{
  labels_wire, Owner, pointer, labels, name_bytes, owner_bytes, IsName, IsOwner,
}

pub At-eq : {r s t : Bytes} {o : ℕ} → s ≡ t → At r o s → At r o t
At-eq {r} {o} e a = subst (At r o) e a

pub At-move : {r s : Bytes} {o p : ℕ} → o ≡ p → At r o s → At r p s
At-move {r} {s} e a = subst (λ q. At r q s) e a

pub skip_labels-At :
    (fuel : ℕ) (ls : List Bytes) (r : Bytes) (o : ℕ) (t : Bytes)
    → IsName ls
    → At r o (labels_wire ls ++ 0 ∷ t)
    → length r - o < fuel
    → skip_labels fuel r o ≡ some (o + length (labels_wire ls))
unfolding skip_labels
skip_labels-At zero ls r o t h a f = elim f [ ]
skip_labels-At (suc fuel) [] r o t h a f =
    let inside : o < length r = omega (arith, length-At a) in
    rw (lt→ltb o (length r) inside, get_elem?-At a) (ap some (omega arith))
skip_labels-At (suc fuel) (l ∷ ls) r o t h a f =
    let inside : o < length r = omega (arith, length-At a) in
    let after_length =
      At-cons (length l) (l ++ (labels_wire ls ++ 0 ∷ t))
        (At-eq (ap (◌∷◌ (length l)) (append_assoc l (labels_wire ls) (0 ∷ t))) a) in
    let after_label = At-append l (labels_wire ls ++ 0 ∷ t) after_length in
    let next = At-move {p = o + (length l + 1)} (omega arith) after_label in
    let more : (length l == 0) ≡ false = ground arith in
    rw
      (
        lt→ltb o (length r) inside,
        get_elem?-At a,
        more,
        skip_labels-At fuel ls r (o + (length l + 1)) t h.2 next (omega arith),
      )
      (ap some (omega (arith, length-append l (labels_wire ls))))

-- The test passes at each byte value under the limit.
every : (ℕ → Bool) → ℕ → Bool
every test zero = true
every test (suc n) = if test n then every test n else false

every-lt :
    (test : ℕ → Bool) (limit : ℕ) {b : ℕ} → b < limit → every test limit ≡ true → test b ≡ true
unfolding every
every-lt test zero below e = absurd (omega arith)
every-lt test (suc n) {b} below e = elim (ℕ_discrete b n) [
  | yes top ↦ rw top (ground arith)
  | no lower ↦ every-lt test n (omega arith) (ground arith)
]

top_bits : ℕ → Bool
top_bits b = bit_and b 0xC0 == 0xC0

-- At and above 192 both top bits are set, under 64 none is.
sorts : ℕ → Bool
sorts b = if leb 192 b then top_bits b else if ltb b 64 then not (top_bits b) else true

sorts-every : every sorts 256 ≡ true
unfolding every sorts top_bits
sorts-every = refl

top_bits_pointer : (b : ℕ) → 192 ≤ b → b < 256 → (bit_and b 0xC0 == 0xC0) ≡ true
unfolding top_bits sorts
top_bits_pointer b h k = ground (arith, every-lt sorts 256 k sorts-every)

top_bits_label : (b : ℕ) → b < 64 → (bit_and b 0xC0 == 0xC0) ≡ false
unfolding top_bits sorts
top_bits_label b h = ground (arith, every-lt sorts 256 {b = b} (omega arith) sorts-every)

-- The labels and the root byte behind them.
skip_name_bytes-At :
    (ls : List Bytes) (r : Bytes) (o : ℕ) (t : Bytes)
    → IsName ls
    → At r o (name_bytes ls ++ t)
    → (skip_labels (fuel_for r) r o >>= λ p. some (p + 1)) ≡ some (o + length (name_bytes ls))
skip_name_bytes-At ls r o t h a =
    let split = At-eq (append_assoc (labels_wire ls) (0 ∷ []) t) a in
    rw (skip_labels-At (fuel_for r) ls r o t h split (omega arith))
      (ap some (omega (arith, length-append (labels_wire ls) (0 ∷ []))))

-- The first byte of a name is the size of a label, or 0.
first_of_name :
    (ls : List Bytes) (t : Bytes)
    → IsName ls
    → (b : ℕ) × (rest : Bytes) × (name_bytes ls ++ t ≡ b ∷ rest)
      × (b < 64)
      × ((b == 0) ≡ true → ls ≡ [])
first_of_name [] t h = (0, t, refl, omega arith, λ e. refl)
first_of_name (l ∷ ls) t h = (
  length l,
  ((l ++ labels_wire ls) ++ 0 ∷ []) ++ t,
  refl,
  omega arith,
  λ e. absurd (ground arith),
)

pub skip_name-At :
    (owner : Owner) (r : Bytes) (o : ℕ) (t : Bytes)
    → IsOwner owner
    → At r o (owner_bytes owner ++ t)
    → skip_name r o ≡ some (o + length (owner_bytes owner))
unfolding skip_name
skip_name-At (pointer hi lo) r o t h a =
    rw (get_elem?-At a, top_bits_pointer hi h.0 h.1) (ap some (omega arith))
skip_name-At (labels ls) r o t h a =
    let (b, rest, e, small, _) = first_of_name ls t h in
    rw (get_elem?-At (At-eq e a), top_bits_label b small) (skip_name_bytes-At ls r o t h a)

pub skip_target-At :
    (ls : List Bytes) (r : Bytes) (o : ℕ) (t : Bytes)
    → IsName ls
    → At r o (name_bytes ls ++ t)
    → skip_target r o ≡ some (o + length (name_bytes ls))
unfolding skip_target
skip_target-At [] r o t h a =
    let inside : o < length r = omega (arith, length-At a) in
    rw (lt→ltb o (length r) inside, get_elem?-At a) refl
skip_target-At (l ∷ ls) r o t h a =
    let (b, rest, e, small, root) = first_of_name (l ∷ ls) t h in
    let inside : o < length r = omega (arith, length-At (At-eq e a)) in
    let labelled : (length l == 0) ≡ false = ground arith in
    rw (lt→ltb o (length r) inside, get_elem?-At a, labelled)
      (skip_name_bytes-At (l ∷ ls) r o t h a)
