-- ===== src/Dns/Base64/RoundTrip.antt =====
-- Decoding what was encoded.
use tunnel.Prelude.{
  ℕ, Bytes, false, [], ◌∷◌, ◌≡◌, ◌≢◌, refl, some, arith, ◌+◌, ◌*◌, ◌/◌, ◌%◌, ◌<◌, ◌==◌,
}
use tunnel.Dns.Base64.{symbol, encode, value, decode_groups, without_breaks, decode}

abbrev pub AreOctets : Bytes → Type 0
AreOctets [] = Unit {0}
AreOctets (b ∷ bs) = (b < 256) × AreOctets bs

value-symbol : (n : ℕ) → n < 64 → value (symbol n) ≡ some n
unfolding value symbol
value-symbol n h = ground arith

symbol-ne :
    (n : ℕ)
    → n < 64
    → ((symbol n == b'=') ≡ false) × ((symbol n == b'\n') ≡ false) × ((symbol n == b'\r') ≡ false)
unfolding symbol
symbol-ne n h = ground arith

pub encode-ne-nil : (b : ℕ) (bs : Bytes) → encode (b ∷ bs) ≢ []
unfolding encode
encode-ne-nil b [] e = cc
encode-ne-nil b (c ∷ []) e = cc
encode-ne-nil b (c ∷ d ∷ rest) e = cc

without_breaks-symbol :
    (n : ℕ) (s : Bytes) → n < 64 → without_breaks (symbol n ∷ s) ≡ symbol n ∷ without_breaks s
unfolding without_breaks
without_breaks-symbol n s h = ground (arith, symbol-ne n h)

without_breaks-encode : (x : Bytes) → AreOctets x → without_breaks (encode x) ≡ encode x
unfolding encode
without_breaks-encode [] h = unfold without_breaks in refl
without_breaks-encode (a ∷ []) h =
    rw
      (
        without_breaks-symbol (a / 4) _ (omega arith),
        without_breaks-symbol (a % 4 * 16) _ (omega arith),
      )
      (unfold without_breaks in refl)
without_breaks-encode (a ∷ b ∷ []) h =
    rw
      (
        without_breaks-symbol (a / 4) _ (omega arith),
        without_breaks-symbol (a % 4 * 16 + b / 16) _ (omega arith),
        without_breaks-symbol (b % 16 * 4) _ (omega arith),
      )
      (unfold without_breaks in refl)
without_breaks-encode (a ∷ b ∷ c ∷ rest) h = rw (
  without_breaks-symbol (a / 4) _ (omega arith),
  without_breaks-symbol (a % 4 * 16 + b / 16) _ (omega arith),
  without_breaks-symbol (b % 16 * 4 + c / 64) _ (omega arith),
  without_breaks-symbol (c % 64) _ (omega arith),
  without_breaks-encode rest h.1.1.1,
)

decode_groups-full :
    (a b c d : ℕ) (y out : Bytes)
    → a < 64
    → b < 64
    → c < 64
    → d < 64
    → decode_groups y ≡ some out
    → decode_groups (symbol a ∷ symbol b ∷ symbol c ∷ symbol d ∷ y)
      ≡ some ((a * 4 + b / 16) ∷ (b % 16 * 16 + c / 4) ∷ (c % 4 * 64 + d) ∷ out)
unfolding decode_groups
decode_groups-full a b c d [] out h i j k e =
    rw
      (
        value-symbol a h,
        value-symbol b i,
        (symbol-ne c j).0,
        value-symbol c j,
        (symbol-ne d k).0,
        value-symbol d k,
      )
      (ground arith)
decode_groups-full a b c d (x ∷ y) out h i j k e =
    rw (value-symbol a h, value-symbol b i, value-symbol c j, value-symbol d k, e)

decode_groups-encode : (x : Bytes) → AreOctets x → decode_groups (encode x) ≡ some x
unfolding encode
decode_groups-encode [] h = unfold decode_groups in refl
decode_groups-encode (a ∷ []) h =
    unfold decode_groups in
    rw (value-symbol (a / 4) (omega arith), value-symbol (a % 4 * 16) (omega arith))
      (let same : a / 4 * 4 + a % 4 * 16 / 16 ≡ a = omega arith in rw same)
decode_groups-encode (a ∷ b ∷ []) h =
    unfold decode_groups in
    let third : b % 16 * 4 < 64 = omega arith in
    let same : a / 4 * 4 + (a % 4 * 16 + b / 16) / 16 ≡ a = omega arith in
    let next : (a % 4 * 16 + b / 16) % 16 * 16 + b % 16 * 4 / 4 ≡ b = omega arith in
    rw (
      value-symbol (a / 4) (omega arith),
      value-symbol (a % 4 * 16 + b / 16) (omega arith),
      (symbol-ne (b % 16 * 4) third).0,
      value-symbol (b % 16 * 4) third,
      same,
      next,
    )
decode_groups-encode (a ∷ b ∷ c ∷ rest) h =
    let first : a / 4 * 4 + (a % 4 * 16 + b / 16) / 16 ≡ a = omega arith in
    let second : (a % 4 * 16 + b / 16) % 16 * 16 + (b % 16 * 4 + c / 64) / 4 ≡ b = omega arith in
    let third : (b % 16 * 4 + c / 64) % 4 * 64 + c % 64 ≡ c = omega arith in
    let decoded =
      decode_groups-full (a / 4) (a % 4 * 16 + b / 16) (b % 16 * 4 + c / 64) (c % 64) (encode rest)
        rest (omega arith) (omega arith) (omega arith) (omega arith)
        (decode_groups-encode rest h.1.1.1) in
    rw (first, second, third) at decoded

pub decode-encode : (x : Bytes) → AreOctets x → decode (encode x) ≡ some x
unfolding decode
decode-encode x h = rw (without_breaks-encode x h) (decode_groups-encode x h)
