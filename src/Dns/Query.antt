-- ===== src/Dns/Query.antt =====
-- `buildDNSQuery` (ech.go).
use tunnel.Prelude.{ℕ, Bytes, List, [], ◌∷◌, ◌++◌, ◌%◌, length}
use tunnel.Text.{split}
use tunnel.Octets.{word}

-- One label: `byte(len(label))` and its bytes.
abbrev pub label_bytes : Bytes → Bytes
label_bytes label = (length label % 256) ∷ label

-- The loop over the labels.
abbrev pub labels_bytes : List Bytes → Bytes
labels_bytes [] = []
labels_bytes (label ∷ labels) = label_bytes label ++ labels_bytes labels

-- ID 1, a standard query with recursion, one question.
abbrev pub query_header : Bytes
query_header =
    0x00 ∷ 0x01 ∷ 0x01 ∷ 0x00 ∷ 0x00 ∷ 0x01 ∷ 0x00 ∷ 0x00 ∷ 0x00 ∷ 0x00 ∷ 0x00 ∷ 0x00 ∷ []

unfoldable pub build_dns_query : Bytes → ℕ → Bytes
unfolding split
build_dns_query domain qtype =
    query_header ++ (labels_bytes (split b'.' domain) ++ 0x00 ∷ (word qtype ++ 0x00 ∷ 0x01 ∷ []))
