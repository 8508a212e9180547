-- ===== src/Dns/Format/Question.antt =====
-- The query of `buildDNSQuery` (ech.go) against the wire format.
use tunnel.Prelude.{
  ℕ, Bytes, List, [], ◌∷◌, ◌++◌, ◌≡◌, refl, ap, ◌∙◌, arith, append_assoc, length, ◌%◌,
}
use tunnel.Text.{Lacks, AllLack, join, split-join}
use tunnel.Octets.{word}
use tunnel.Dns.Query.{labels_bytes, query_header, build_dns_query}
use tunnel.Dns.Format.Records.{labels_wire, name_bytes, IsName}

-- A label of at most 63 bytes has its size in one byte.
labels_bytes-labels_wire : (ls : List Bytes) → IsName ls → labels_bytes ls ≡ labels_wire ls
labels_bytes-labels_wire [] n = refl
labels_bytes-labels_wire (l ∷ ls) n =
    let size : length l % 256 ≡ length l = omega arith in rw (size, labels_bytes-labels_wire ls n.2)

-- A query as RFC 1035 describes it: a header with one question, and in it the labels of the name up
-- to the root, the type and the class IN.
abbrev pub query_bytes : List Bytes → ℕ → Bytes
query_bytes labels qtype = query_header ++ (name_bytes labels ++ (word qtype ++ word 1))

-- For a domain whose labels have 1 to 63 bytes, none of them a dot, the query asks one question, for
-- just these labels, in order, and for the type that is asked for.
pub build_dns_query-query_bytes :
    (label : Bytes) (labels : List Bytes) (qtype : ℕ)
    → Lacks b'.' label
    → AllLack b'.' labels
    → IsName (label ∷ labels)
    → build_dns_query (join b'.' label labels) qtype ≡ query_bytes (label ∷ labels) qtype
unfolding build_dns_query
build_dns_query-query_bytes label labels qtype h k n =
    let tail = 0x00 ∷ (word qtype ++ 0x00 ∷ 0x01 ∷ []) in
    ap (λ ls. query_header ++ (labels_bytes ls ++ tail)) (split-join b'.' label labels h k)
    ∙ ap (λ name. query_header ++ (name ++ tail)) (labels_bytes-labels_wire (label ∷ labels) n)
    ∙ ap (◌++◌ query_header) (simp append_assoc)
