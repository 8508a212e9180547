-- ===== src/Text/Scan.antt =====
-- `fmt.Sscanf(s, "%d", &n)` with a 64-bit `n`.
use tunnel.Prelude.{
  ℕ, zero, suc, ◌≡◌, refl, Bool, true, false, ◌&&◌, ◌||◌, Option, none, some, [], ◌∷◌, arith, ◌==◌,
  if◌then◌else◌, Bytes, Bool-cases, inl, inr, lt→ltb, sym, ap, ◌∙◌, ◌<◌, ◌/◌, ◌%◌, ◌+◌, ◌-◌, ◌*◌,
  ◌^◌, leb, ltb, drop, length, ◌>>=◌,
}
use tunnel.Text.Decimal.{decimal, decimal_onto}
use tunnel.Text.Space.{space_width, IsVisible, space_width-IsVisible}

-- The spaces in front; a line break is an error.
unfoldable pub skip_space : ℕ → Bytes → Option Bytes
skip_space zero s = some s
skip_space (suc n) [] = some []
skip_space (suc n) (c ∷ s) = if c == b'\n' then none else elim (space_width (c ∷ s)) [
  | zero ↦ some (c ∷ s)
  | suc k ↦ skip_space n (drop (suc k) (c ∷ s))
]

unfoldable pub is_digit : ℕ → Bool
is_digit c = leb b'0' c && leb c b'9'

-- The value of the digits in front, behind those that were read.
unfoldable pub scan_digits : ℕ → Bytes → ℕ
scan_digits n [] = n
scan_digits n (c ∷ s) =
    let more = scan_digits (n * 10 + (c - b'0')) s in if is_digit c then more else n

unfoldable pub starts_digit : Bytes → Bool
starts_digit [] = false
starts_digit (c ∷ s) = is_digit c

-- The digits behind the sign; `none` where there is none, or the number does not fit.
unfoldable pub scan_unsigned : Bool → Bytes → Option (Bool × ℕ)
scan_unsigned negative s =
    let n = scan_digits 0 s in
    if starts_digit s
    then (if ltb n (2 ^ 63) || (negative && n == 2 ^ 63) then some (negative, n) else none)
    else none

unfoldable pub scan_signed : Bytes → Option (Bool × ℕ)
scan_signed [] = none
scan_signed (c ∷ s) =
    if c == b'-'
    then scan_unsigned true s
    else if c == b'+'
    then scan_unsigned false s
    else scan_unsigned false (c ∷ s)

-- The sign, true for `-`, and the absolute value; `none` where `n` stays as it was.
unfoldable pub sscanf_int : Bytes → Option (Bool × ℕ)
sscanf_int s = skip_space (suc (length s)) s >>= scan_signed

scan_digits-digit :
    (m d : ℕ) (acc : Bytes)
    → d < 10
    → scan_digits m ((b'0' + d) ∷ acc) ≡ scan_digits (m * 10 + d) acc
unfolding scan_digits is_digit
scan_digits-digit m d acc h =
    let digit : (leb b'0' (b'0' + d) && leb (b'0' + d) b'9') ≡ true = ground arith in
    let same : b'0' + d - b'0' ≡ d = omega arith in rw (digit, same)

scan_digits-decimal_onto :
    (fuel n : ℕ) (acc : Bytes)
    → n < fuel
    → scan_digits 0 (decimal_onto fuel n acc) ≡ scan_digits n acc
unfolding decimal_onto
scan_digits-decimal_onto zero n acc h = absurd (omega arith)
scan_digits-decimal_onto (suc fuel) n acc h = elim (Bool-cases (ltb n 10)) [
  | inl small ↦
      let same : 0 * 10 + n % 10 ≡ n = ground arith in
      rw small (scan_digits-digit 0 (n % 10) acc (omega arith) ∙ ap (λ m. scan_digits m acc) same)
  | inr large ↦
      let same : n / 10 * 10 + n % 10 ≡ n = omega arith in
      rw large (
        scan_digits-decimal_onto fuel (n / 10) ((b'0' + n % 10) ∷ acc) (ground arith)
        ∙ scan_digits-digit (n / 10) (n % 10) acc (omega arith)
        ∙ ap (λ m. scan_digits m acc) same)
]

starts-decimal_onto :
    (fuel n : ℕ) (acc : Bytes)
    → (c : ℕ) × (rest : Bytes) × (decimal_onto (suc fuel) n acc ≡ c ∷ rest) × (is_digit c ≡ true)
unfolding decimal_onto is_digit
starts-decimal_onto zero n acc = (b'0' + n % 10, acc, ground arith, ground arith)
starts-decimal_onto (suc fuel) n acc = elim (Bool-cases (ltb n 10)) [
  | inl small ↦ (b'0' + n % 10, acc, rw small, ground arith)
  | inr large ↦
      let (c, rest, e, d) = starts-decimal_onto fuel (n / 10) ((b'0' + n % 10) ∷ acc) in
      (c, rest, rw large e, d)
]

sscanf_int-digit :
    (c : ℕ) (s : Bytes) → is_digit c ≡ true → sscanf_int (c ∷ s) ≡ scan_unsigned false (c ∷ s)
unfolding sscanf_int scan_signed skip_space is_digit
sscanf_int-digit c s h =
    let visible : IsVisible c = ground (arith, h) in
    rw (space_width-IsVisible c s visible) (ground (arith, h))

decimal-onto : (n : ℕ) → decimal n ≡ decimal_onto (suc n) n []
unfolding decimal
decimal-onto n = refl

scan_unsigned-fits :
    (s : Bytes) (n : ℕ)
    → starts_digit s ≡ true
    → scan_digits 0 s ≡ n
    → ltb n (2 ^ 63) ≡ true
    → scan_unsigned false s ≡ some (false, n)
unfolding scan_unsigned
scan_unsigned-fits s n d v f = rw (d, v, f)

-- A number that fits is scanned as it was printed.
pub sscanf_int-decimal : (n : ℕ) → n < 2 ^ 63 → sscanf_int (decimal n) ≡ some (false, n)
unfolding scan_digits starts_digit
sscanf_int-decimal n h =
    let (c, rest, e, d) = starts-decimal_onto n n [] in
    let value = ap (scan_digits 0) (sym e) ∙ scan_digits-decimal_onto (suc n) n [] (omega arith) in
    ap sscanf_int (decimal-onto n ∙ e)
    ∙ sscanf_int-digit c rest d
    ∙ scan_unsigned-fits (c ∷ rest) n d value (lt→ltb n (2 ^ 63) h)
