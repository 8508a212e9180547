-- ===== src/Dns/Bounds.antt =====
-- `parseDNSResponse` (ech.go) on any bytes that a resolver may send: no access out of range, and
-- every loop ends.
use Prim.Native.Nat.{bit_and}
use tunnel.Prelude.{
  ℕ, zero, suc, Bytes, [], ◌∷◌, ◌≡◌, refl, Option, some, ◌+◌, ◌-◌, ◌≤◌, ◌<◌, ltb, leb, ◌==◌, length,
  take, drop, get_elem?-lt, arith, Bool-cases, inl, inr, ltb→lt, leb→le,
}
use tunnel.Octets.{word_at-lt, slice-le}
use tunnel.Dns.Base64.{encode}
use tunnel.Dns.Response.{
  skip_labels, fuel_for, skip_name, find_ech, skip_target, parse_https_record, ech_of, answers,
  or_next, Parsed, too_short, no_answers, found, parse_dns_response, type_https,
}

skip_labels-defined :
    (fuel : ℕ) (r : Bytes) (offset : ℕ)
    → length r - offset < fuel
    → (o : ℕ) × (skip_labels fuel r offset ≡ some o) × (offset ≤ o)
unfolding skip_labels
skip_labels-defined zero r offset h = elim h [ ]
skip_labels-defined (suc fuel) r offset h = elim (Bool-cases (ltb offset (length r))) [
  | inl more ↦
      let (b, e) = get_elem?-lt r offset (ltb→lt offset (length r) more) in
      let (o, p, q) = skip_labels-defined fuel r (offset + (b + 1)) (ground arith) in
      elim (Bool-cases (b == 0)) [
        | inl root ↦ (offset, rw (more, e, root), omega arith)
        | inr label ↦ (o, rw (more, e, label, p), omega arith)
      ]
  | inr done ↦ (offset, rw done, omega arith)
]

skip_name-defined :
    (r : Bytes) (offset : ℕ)
    → offset < length r
    → (o : ℕ) × (skip_name r offset ≡ some o) × (offset < o)
unfolding skip_name
skip_name-defined r offset h =
    let (b, e) = get_elem?-lt r offset h in
    let (o, p, q) = skip_labels-defined (fuel_for r) r offset (omega arith) in
    elim (Bool-cases (bit_and b 0xC0 == 0xC0)) [
      | inl pointer ↦ (offset + 2, rw (e, pointer), omega arith)
      | inr labels ↦ (o + 1, rw (e, labels, p), omega arith)
    ]

skip_target-defined :
    (r : Bytes) (offset : ℕ) → (o : ℕ) × (skip_target r offset ≡ some o) × (offset < o)
unfolding skip_target
skip_target-defined r offset =
    let (o, p, q) = skip_labels-defined (fuel_for r) r offset (omega arith) in
    elim (Bool-cases (ltb offset (length r))) [
      | inl more ↦
          let (b, e) = get_elem?-lt r offset (ltb→lt offset (length r) more) in
          elim (Bool-cases (b == 0)) [
            | inl root ↦ (offset + 1, rw (more, e, root), omega arith)
            | inr label ↦ (o + 1, rw (more, e, label, p), omega arith)
          ]
      | inr done ↦ (o + 1, rw (done, p), omega arith)
    ]

find_ech-defined :
    (fuel : ℕ) (r : Bytes) (offset : ℕ)
    → length r - offset < fuel
    → (ech : Bytes) × (find_ech fuel r offset ≡ some ech)
unfolding find_ech
find_ech-defined zero r offset h = elim h [ ]
find_ech-defined (suc fuel) r offset h = elim (Bool-cases (leb (offset + 4) (length r))) [
  | inr done ↦ ([], rw done)
  | inl more ↦
      let fits = leb→le (offset + 4) (length r) more in
      let (key, p) = word_at-lt r offset (omega arith) in
      let (size, q) = word_at-lt r (offset + 2) (omega arith) in
      elim (Bool-cases (ltb (length r) (offset + 4 + size))) [
        | inl cut ↦ ([], rw (more, p, q, cut))
        | inr whole ↦
            let cut = slice-le r (offset + 4) (offset + 4 + size) (omega arith) (ground arith) in
            let (ech, e) = find_ech-defined fuel r (offset + 4 + size) (omega arith) in
            elim (Bool-cases (key == 5)) [
              | inl hit ↦ (
                encode (take (offset + 4 + size - (offset + 4)) (drop (offset + 4) r)),
                rw (more, p, q, whole, cut, hit),
              )
              | inr miss ↦ (ech, rw (more, p, q, whole, cut, miss, e))
            ]
      ]
]

ech_of-defined : (rr_type : ℕ) (r : Bytes) → (ech : Bytes) × (ech_of rr_type r ≡ some ech)
unfolding ech_of parse_https_record
ech_of-defined rr_type r =
    let (o, p, q) = skip_target-defined r 2 in
    let (ech, e) = find_ech-defined (fuel_for r) r o (omega arith) in
    elim (Bool-cases (rr_type == type_https)) [
      | inr other ↦ ([], rw other)
      | inl https ↦ elim (Bool-cases (ltb (length r) 2)) [
        | inl short ↦ ([], rw (https, short))
        | inr long ↦ (ech, rw (https, long, p, e))
      ]
    ]

or_next-defined :
    (ech : Bytes) {next : Option Bytes} {last : Bytes}
    → next ≡ some last
    → (result : Bytes) × (or_next ech next ≡ some result)
or_next-defined [] {last} e = (last, e)
or_next-defined (b ∷ ech) e = (b ∷ ech, refl)

answers-defined : (n : ℕ) (r : Bytes) (offset : ℕ) → (ech : Bytes) × (answers n r offset ≡ some ech)
unfolding answers
answers-defined zero r offset = ([], refl)
answers-defined (suc n) r offset = elim (Bool-cases (leb (length r) offset)) [
  | inl done ↦ ([], rw done)
  | inr more ↦
      let (o, name, _) = skip_name-defined r offset (ground arith) in
      elim (Bool-cases (ltb (length r) (o + 10))) [
        | inl cut ↦ ([], rw (more, name, cut))
        | inr head ↦
            let (rr_type, p) = word_at-lt r o (ground arith) in
            let (size, q) = word_at-lt r (o + 8) (ground arith) in
            elim (Bool-cases (ltb (length r) (o + 10 + size))) [
              | inl cut ↦ ([], rw (more, name, head, p, q, cut))
              | inr whole ↦
                  let part = slice-le r (o + 10) (o + 10 + size) (omega arith) (ground arith) in
                  let (ech, found_ech) =
                    ech_of-defined rr_type (take (o + 10 + size - (o + 10)) (drop (o + 10) r)) in
                  let (last, e) = answers-defined n r (o + 10 + size) in
                  let (result, final) = or_next-defined ech e in
                  (result, rw (more, name, head, p, q, whole, part, found_ech) final)
            ]
      ]
]

-- Whatever bytes the DoH server sends, the parser reads and slices inside the response only, all of
-- its loops end, and it returns a string or one of its two errors.
pub parse_dns_response-defined :
    (r : Bytes) → (parsed : Parsed) × (parse_dns_response r ≡ some parsed)
unfolding parse_dns_response
parse_dns_response-defined r = elim (Bool-cases (ltb (length r) 12)) [
  | inl short ↦ (too_short, rw short)
  | inr long ↦
      let (ancount, p) = word_at-lt r 6 (ground arith) in
      let (o, q, _) = skip_labels-defined (fuel_for r) r 12 (omega arith) in
      let (ech, e) = answers-defined ancount r (o + 5) in
      elim (Bool-cases (ancount == 0)) [
        | inl zero_answers ↦ (no_answers, rw (long, p, zero_answers))
        | inr some_answers ↦ (found ech, rw (long, p, some_answers, q, e))
      ]
]
