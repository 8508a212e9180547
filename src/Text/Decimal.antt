-- ===== src/Text/Decimal.antt =====
-- `fmt.Sprintf("%d", n)`
use tunnel.Text.{Lacks}
use tunnel.Prelude.{
  ◌<◌, Bool-cases, inl, inr, arith, ℕ, zero, suc, [], ◌∷◌, Bytes, ◌+◌, ◌/◌, ◌%◌, ltb, if◌then◌else◌,
}

-- The digits of `n`, most significant first, in front of `acc`; the fuel is more than their number.
unfoldable pub decimal_onto : ℕ → ℕ → Bytes → Bytes
decimal_onto zero n acc = acc
decimal_onto (suc fuel) n acc =
    let digits = (b'0' + n % 10) ∷ acc in
    let rest = decimal_onto fuel (n / 10) digits in if ltb n 10 then digits else rest

-- `fmt.Sprintf("%d", n)`
unfoldable pub decimal : ℕ → Bytes
unfolding decimal_onto
decimal n = decimal_onto (suc n) n []

Lacks-decimal_onto :
    (sep fuel n : ℕ) (acc : Bytes)
    → b'9' < sep
    → Lacks sep acc
    → Lacks sep (decimal_onto fuel n acc)
unfolding decimal_onto
Lacks-decimal_onto sep zero n acc h l = l
Lacks-decimal_onto sep (suc fuel) n acc h l =
    let next : Lacks sep ((b'0' + n % 10) ∷ acc) = ((λ e. absurd (omega arith)), l) in
    elim (Bool-cases (ltb n 10)) [
      | inl small ↦ rw small next
      | inr large ↦ rw large (Lacks-decimal_onto sep fuel (n / 10) ((b'0' + n % 10) ∷ acc) h next)
    ]

-- A number is printed in digits alone.
pub Lacks-decimal : (sep n : ℕ) → b'9' < sep → Lacks sep (decimal n)
unfolding decimal
Lacks-decimal sep n h = Lacks-decimal_onto sep (suc n) n [] h tt
