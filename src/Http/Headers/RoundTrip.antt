-- ===== src/Http/Headers/RoundTrip.antt =====
-- Headers of RFC 9112 through `readHTTPHeaders` (http_proxy.go).
use tunnel.Prelude.{
  ℕ, zero, suc, Bytes, [], ◌∷◌, ◌++◌, ◌≡◌, ◌≢◌, refl, sym, ap, ◌∙◌, some, arith, ◌<◌, ◌≤◌,
  Bool-cases, inl, inr, bytes_eq, bytes_eq_iff, codes, length, length-append, append_assoc,
  append-nil,
}
use tunnel.Prelude.Map.{Map, insert, bytes_key}
use tunnel.Text.{Lacks, Lacks-append, cut-append, split_n-two}
use tunnel.Text.Space.{trim_space, IsField, AreSpaces, trim_space-IsField, is_ascii_space}
use tunnel.Text.Fields.{IsField-append, trim_space-field}
use tunnel.Http.Headers.{
  Headers, read, with_end, read_line, add_header, after_line, after_read, read_loop,
  read_http_headers,
}
use tunnel.Http.Request.{header_line}

-- A header as a client may write it: the name and the value start and end with visible characters, the
-- name has a byte at least and no colon, and neither has a line break.
abbrev pub IsHeader : Bytes → Bytes → Type 0
IsHeader key value =
    IsField key × (key ≢ []) × Lacks b':' key × Lacks b'\n' key × IsField value × Lacks b'\n' value

-- A header's name is not among the fields.
abbrev pub IsNewKey : Bytes → Map Bytes Bytes → Type 0
IsNewKey key [] = Unit {0}
IsNewKey key ((k, v) ∷ fields) = (k ≢ key) × IsNewKey key fields

abbrev pub AreHeaders : Map Bytes Bytes → Type 0
AreHeaders [] = Unit {0}
AreHeaders ((key, value) ∷ fields) = IsHeader key value × IsNewKey key fields × AreHeaders fields

abbrev pub headers_wire : Map Bytes Bytes → Bytes → Bytes
headers_wire [] rest = codes "\r\n" ++ rest
headers_wire ((key, value) ∷ fields) rest = header_line key value ++ headers_wire fields rest

pub read_line-append :
    (line rest : Bytes)
    → Lacks b'\n' line
    → read_line (line ++ b'\n' ∷ rest) ≡ some (line ++ b'\n' ∷ [], rest)
unfolding read_line
read_line-append line rest h = ap with_end (cut-append b'\n' line rest h)

-- What stands behind the colon in the trimmed line.
abbrev behind_colon : Bytes → Bytes
behind_colon [] = []
behind_colon (c ∷ value) = b' ' ∷ c ∷ value

spaces : AreSpaces (b' ' ∷ b'\r' ∷ b'\n' ∷ [])
unfolding is_ascii_space
spaces = (refl, (refl, (refl, tt)))

trim_line :
    (key value : Bytes)
    → IsField key
    → key ≢ []
    → IsField value
    → trim_space (key ++ (b':' ∷ b' ' ∷ (value ++ b'\r' ∷ b'\n' ∷ [])))
      ≡ key ++ b':' ∷ behind_colon value
trim_line key [] h n v =
    let field = IsField-append key b':' [] h n (omega arith) in
    ap trim_space (sym (append_assoc key (b':' ∷ []) (b' ' ∷ b'\r' ∷ b'\n' ∷ [])))
    ∙ trim_space-IsField [] (key ++ b':' ∷ []) (b' ' ∷ b'\r' ∷ b'\n' ∷ []) field tt spaces
trim_line key (c ∷ value) h n v =
    let field = IsField-append key b':' (b' ' ∷ c ∷ value) h n v.1 in
    ap trim_space (sym (append_assoc key (b':' ∷ b' ' ∷ c ∷ value) (b'\r' ∷ b'\n' ∷ [])))
    ∙ trim_space-IsField [] (key ++ b':' ∷ b' ' ∷ c ∷ value) (b'\r' ∷ b'\n' ∷ []) field tt spaces.1

trim_space-behind_colon : (v : Bytes) → IsField v → trim_space (behind_colon v) ≡ v
trim_space-behind_colon [] h = trim_space-field [] h
trim_space-behind_colon (c ∷ v) h =
    ap (λ t. trim_space (b' ' ∷ t)) (sym (append-nil (c ∷ v)))
    ∙ trim_space-IsField (b' ' ∷ []) (c ∷ v) [] h (spaces.0, tt) tt

after_line-header :
    (key value rest : Bytes) (headers : Map Bytes Bytes) (next : Map Bytes Bytes → Headers)
    → IsHeader key value
    → after_line (key ++ b':' ∷ behind_colon value) rest headers next
      ≡ next (insert key value headers)
unfolding after_line add_header
after_line-header [] value rest headers next h = absurd (h.1 refl)
after_line-header (c ∷ key) value rest headers next (field, filled, colon, line, v, w) = rw (
  split_n-two b':' (c ∷ key) (behind_colon value) colon,
  trim_space-field (c ∷ key) field,
  trim_space-behind_colon value v,
)

line_parts :
    (key value rest : Bytes)
    → header_line key value ++ rest ≡ (key ++ (b':' ∷ b' ' ∷ (value ++ b'\r' ∷ []))) ++ b'\n' ∷ rest
line_parts key value rest = simp append_assoc

line_end :
    (key value : Bytes)
    → (key ++ (b':' ∷ b' ' ∷ (value ++ b'\r' ∷ []))) ++ b'\n' ∷ []
      ≡ key ++ (b':' ∷ b' ' ∷ (value ++ b'\r' ∷ b'\n' ∷ []))
line_end key value = simp append_assoc

read_loop-header :
    (n : ℕ) (key value rest : Bytes) (headers : Map Bytes Bytes)
    → IsHeader key value
    → read_loop (suc n) (header_line key value ++ rest) headers
      ≡ read_loop n rest (insert key value headers)
unfolding read_loop
read_loop-header n key value rest headers h =
    let (field, filled, colon, clean, v, w) = h in
    let line = key ++ (b':' ∷ b' ' ∷ (value ++ b'\r' ∷ [])) in
    let ends : Lacks b'\n' (b'\r' ∷ []) = ((λ e. absurd (omega arith)), tt) in
    let behind : Lacks b'\n' (b':' ∷ b' ' ∷ (value ++ b'\r' ∷ [])) = (
      (λ e. absurd (omega arith)),
      ((λ e. absurd (omega arith)), Lacks-append b'\n' value (b'\r' ∷ []) w ends),
    ) in
    let lacks = Lacks-append b'\n' key (b':' ∷ b' ' ∷ (value ++ b'\r' ∷ [])) clean behind in
    ap (λ s. read_loop (suc n) s headers) (line_parts key value rest)
    ∙ ap (λ o. after_read o headers (read_loop n)) (read_line-append line rest lacks)
    ∙ ap (λ l. after_line (trim_space l) rest headers (read_loop n rest)) (line_end key value)
    ∙ ap (λ l. after_line l rest headers (read_loop n rest)) (trim_line key value field filled v)
    ∙ after_line-header key value rest headers (read_loop n rest) h

read_loop-end :
    (n : ℕ) (rest : Bytes) (headers : Map Bytes Bytes)
    → read_loop (suc n) (codes "\r\n" ++ rest) headers ≡ read headers rest
unfolding read_loop after_line
read_loop-end n rest headers =
    let lacks : Lacks b'\n' (b'\r' ∷ []) = ((λ e. absurd (omega arith)), tt) in
    ap (λ o. after_read o headers (read_loop n)) (read_line-append (b'\r' ∷ []) rest lacks)
    ∙ ap (λ l. after_line l rest headers (read_loop n rest))
        (trim_space-IsField (b'\r' ∷ b'\n' ∷ []) [] [] tt spaces.1 tt)

insert-IsNewKey :
    (key value : Bytes) (headers : Map Bytes Bytes)
    → IsNewKey key headers
    → insert key value headers ≡ headers ++ (key, value) ∷ []
unfolding insert
insert-IsNewKey key value [] h = refl
insert-IsNewKey key value ((k, v) ∷ headers) h = elim (Bool-cases (bytes_eq k key)) [
  | inl same ↦ absurd (h.0 ((bytes_eq_iff k key).0 same))
  | inr other ↦ rw other (ap (◌∷◌ (k, v)) (insert-IsNewKey key value headers h.1))
]

AllNew : Map Bytes Bytes → Map Bytes Bytes → Type 0
AllNew [] headers = Unit {0}
AllNew ((key, value) ∷ fields) headers = IsNewKey key headers × AllNew fields headers

IsNewKey-append :
    (key k v : Bytes) (headers : Map Bytes Bytes)
    → IsNewKey key headers
    → k ≢ key
    → IsNewKey key (headers ++ (k, v) ∷ [])
IsNewKey-append key k v [] h n = (n, tt)
IsNewKey-append key k v ((j, w) ∷ headers) h n = (h.0, IsNewKey-append key k v headers h.1 n)

AllNew-append :
    (key value : Bytes) (fields headers : Map Bytes Bytes)
    → AllNew fields headers
    → IsNewKey key fields
    → AllNew fields (headers ++ (key, value) ∷ [])
unfolding AllNew
AllNew-append key value [] headers h n = tt
AllNew-append key value ((k, v) ∷ fields) headers h n = (
  IsNewKey-append k key value headers h.0 (λ e. n.0 (sym e)),
  AllNew-append key value fields headers h.1 n.1,
)

read_loop-headers_wire :
    (n : ℕ) (fields headers : Map Bytes Bytes) (rest : Bytes)
    → AreHeaders fields
    → AllNew fields headers
    → length fields < n
    → read_loop n (headers_wire fields rest) headers ≡ read (headers ++ fields) rest
unfolding AllNew
read_loop-headers_wire zero fields headers rest h a l = absurd (omega arith)
read_loop-headers_wire (suc n) [] headers rest h a l =
    read_loop-end n rest headers ∙ ap (λ m. read m rest) (sym (append-nil headers))
read_loop-headers_wire (suc n) ((key, value) ∷ fields) headers rest (h, new, hs) (a, others) l =
    read_loop-header n key value (headers_wire fields rest) headers h
    ∙ ap (read_loop n (headers_wire fields rest)) (insert-IsNewKey key value headers a)
    ∙ read_loop-headers_wire n fields (headers ++ (key, value) ∷ []) rest hs
        (AllNew-append key value fields headers others new) (omega arith)
    ∙ ap (λ m. read m rest) (append_assoc headers ((key, value) ∷ []) fields)

AllNew-nil : (fields : Map Bytes Bytes) → AllNew fields []
unfolding AllNew
AllNew-nil [] = tt
AllNew-nil ((key, value) ∷ fields) = (tt, AllNew-nil fields)

length-headers_wire :
    (fields : Map Bytes Bytes) (rest : Bytes) → length fields ≤ length (headers_wire fields rest)
length-headers_wire [] rest = omega arith
length-headers_wire ((key, value) ∷ fields) rest =
    let whole = length-append (header_line key value) (headers_wire fields rest) in
    let line = length-append key (codes ": " ++ (value ++ codes "\r\n")) in
    omega (arith, whole, line, length-headers_wire fields rest)

-- Headers on the wire are read as they were written.
pub read_http_headers-headers_wire :
    (fields : Map Bytes Bytes) (rest : Bytes)
    → AreHeaders fields
    → read_http_headers (headers_wire fields rest) ≡ read fields rest
unfolding read_http_headers
read_http_headers-headers_wire fields rest h =
    read_loop-headers_wire (suc (length (headers_wire fields rest))) fields [] rest h
      (AllNew-nil fields) (omega (arith, length-headers_wire fields rest))
