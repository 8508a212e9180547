-- ===== src/Dns/Format/RoundTrip.antt =====
-- `parseDNSResponse` and `parseHTTPSRecord` (ech.go) on responses that keep to the format.
use tunnel.Prelude.{
  ℕ, zero, suc, Bytes, true, false, List, [], ◌∷◌, ◌++◌, ◌≡◌, refl, some, ◌+◌, ◌-◌, ◌<◌, ltb, leb,
  ◌==◌, length, arith, append_assoc,
}
use tunnel.Octets.{word}
use tunnel.Dns.Response.{
  fuel_for, find_ech, parse_https_record, ech_of, or_next, answers, found, parse_dns_response,
}
use tunnel.Octets.Position.{At, At-start, At-append, At-cons, length-At, word_at-At, slice-At}
use tunnel.Dns.Format.Names.{At-eq, At-move, skip_labels-At, skip_name-At, skip_target-At}
use tunnel.Dns.Format.Records.{
  labels_wire, Param, Data, https, other, Answer, name_bytes, owner_bytes, params_bytes,
  https_bytes, rr_type, data_bytes, fixed_bytes, answers_bytes, response_bytes, IsName, IsParams,
  IsData, IsAnswers, params_ech, data_ech, or_else, answers_ech,
}

find_ech-At :
    (fuel : ℕ) (params : List Param) (r : Bytes) (o : ℕ)
    → IsParams params
    → At r o (params_bytes params)
    → length r - o < fuel
    → find_ech fuel r o ≡ some (params_ech params)
unfolding find_ech
find_ech-At zero params r o h a f = elim f [ ]
find_ech-At (suc fuel) [] r o h a f =
    let done : leb (o + 4) (length r) ≡ false = ground (arith, length-At a) in rw done
find_ech-At (suc fuel) ((key, value) ∷ params) r o h a f =
    let size_at = At-append (word key) (word (length value) ++ (value ++ params_bytes params)) a in
    let value_at =
      At-move {p = o + 4} (omega arith)
        (At-append (word (length value)) (value ++ params_bytes params) size_at) in
    let next = At-append value (params_bytes params) value_at in
    let whole : length r ≡ o + 4 + length value + length (params_bytes params) = length-At next in
    let more : leb (o + 4) (length r) ≡ true = ground arith in
    let fits : ltb (length r) (o + 4 + length value) ≡ false = ground arith in
    let ih = find_ech-At fuel params r (o + 4 + length value) h.2 next (omega arith) in
    rw
      (
        more,
        word_at-At key (word (length value) ++ (value ++ params_bytes params)) h.0 a,
        word_at-At (length value) (value ++ params_bytes params) h.1 size_at,
        fits,
        slice-At value (params_bytes params) value_at refl,
        ih,
      )
      (ground arith)

ech_of-bytes : (d : Data) → IsData d → ech_of (rr_type d) (data_bytes d) ≡ some (data_ech d)
unfolding ech_of parse_https_record
ech_of-bytes (other t bytes) h = let no_match : (t == 65) ≡ false = ground arith in rw no_match
ech_of-bytes (https d) h =
    let r = https_bytes d in
    let target_at =
      At-append (word d.priority) (name_bytes d.target ++ params_bytes d.params) (At-start r) in
    let params_at = At-append (name_bytes d.target) (params_bytes d.params) target_at in
    let long : ltb (length r) 2 ≡ false = ground (arith, length-At target_at) in
    rw (long, skip_target-At d.target r 2 (params_bytes d.params) h.1 target_at)
      (find_ech-At (fuel_for r) d.params r (2 + length (name_bytes d.target)) h.2 params_at
        (omega arith))

or_next-or_else : (ech last : Bytes) → or_next ech (some last) ≡ some (or_else ech last)
or_next-or_else [] last = refl
or_next-or_else (b ∷ ech) last = refl

-- What stands behind the owner name of an answer.
abbrev body_bytes : Answer → Bytes → Bytes
body_bytes a rest =
    word (rr_type a.content)
    ++ (fixed_bytes a ++ (word (length (data_bytes a.content)) ++ (data_bytes a.content ++ rest)))

rr_type-lt : (d : Data) → IsData d → rr_type d < 65536
rr_type-lt (https d) h = omega arith
rr_type-lt (other t bytes) h = h.0

answers-At :
    (all : List Answer) (r : Bytes) (o : ℕ) (rest : Bytes)
    → IsAnswers all
    → At r o (answers_bytes all ++ rest)
    → answers (length all) r o ≡ some (answers_ech all)
unfolding answers
answers-At [] r o rest h a = refl
answers-At (x ∷ all) r o rest h a =
    let d = data_bytes x.content in
    let t = answers_bytes all ++ rest in
    let p = o + length (owner_bytes x.owner) in
    let sized = word (length d) ++ (d ++ t) in
    let here : At r o (owner_bytes x.owner ++ body_bytes x t) = At-eq (simp append_assoc) a in
    let type_at = At-append (owner_bytes x.owner) (body_bytes x t) here in
    let fixed_at = At-append (word (rr_type x.content)) (fixed_bytes x ++ sized) type_at in
    let size_at = At-move {p = p + 8} (omega arith) (At-append (fixed_bytes x) sized fixed_at) in
    let data_at =
      At-move {p = p + 10} (omega arith) (At-append (word (length d)) (d ++ t) size_at) in
    let next = At-append d t data_at in
    let begun : leb (length r) o ≡ false = ground (arith, length-At here, length-At next) in
    let head : ltb (length r) (p + 10) ≡ false = ground (arith, length-At next) in
    let whole : ltb (length r) (p + 10 + length d) ≡ false = ground (arith, length-At next) in
    rw
      (
        begun,
        skip_name-At x.owner r o (body_bytes x t) h.0 here,
        head,
        word_at-At (rr_type x.content) (fixed_bytes x ++ sized) (rr_type-lt x.content h.1) type_at,
        word_at-At (length d) (d ++ t) h.2 size_at,
        whole,
        slice-At d t data_at refl,
        ech_of-bytes x.content h.1,
        answers-At all r (p + 10 + length d) rest h.3 next,
      )
      (or_next-or_else (data_ech x.content) (answers_ech all))

-- The parser gives the ECH list of every response of the format in which each owner name is a bare
-- compression pointer or plain labels (not labels that end in a pointer): the value of the first
-- parameter with key 5 that is not empty, over the HTTPS answers in order, in base64. The response
-- has between 1 and 65535 answers of any types, one question, any id, flags and counts, and any
-- sections behind the answers.
pub parse_dns_response-response_bytes :
    (head counts tail rest : Bytes) (question : List Bytes) (all : List Answer)
    → length head ≡ 6
    → length counts ≡ 4
    → length tail ≡ 4
    → IsName question
    → IsAnswers all
    → 0 < length all
    → length all < 65536
    → parse_dns_response (response_bytes head counts question tail all rest)
      ≡ some (found (answers_ech all))
unfolding parse_dns_response
parse_dns_response-response_bytes head counts tail rest question all h c t q v lo hi =
    let r = response_bytes head counts question tail all rest in
    let records = answers_bytes all ++ rest in
    let named = labels_wire question ++ 0 ∷ (tail ++ records) in
    let count_at =
      At-move {p = 6} (omega arith)
        (At-append head (word (length all) ++ (counts ++ named)) (At-start r)) in
    let counts_at = At-append (word (length all)) (counts ++ named) count_at in
    let name_at = At-move {p = 12} (omega arith) (At-append counts named counts_at) in
    let root_at = At-append (labels_wire question) (0 ∷ (tail ++ records)) name_at in
    let tail_at = At-cons 0 (tail ++ records) root_at in
    let records_at =
      At-move {p = 12 + length (labels_wire question) + 5} (omega arith)
        (At-append tail records tail_at) in
    let long : ltb (length r) 12 ≡ false = ground (arith, length-At name_at) in
    let some_answers : (length all == 0) ≡ false = ground arith in
    rw (
      long,
      word_at-At (length all) (counts ++ named) hi count_at,
      some_answers,
      skip_labels-At (fuel_for r) question r 12 (tail ++ records) q name_at (omega arith),
      answers-At all r (12 + length (labels_wire question) + 5) rest v records_at,
    )
