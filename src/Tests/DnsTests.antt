-- ===== src/Tests/DnsTests.antt =====
-- Examples for the ECH query (ech.go).
use tunnel.Prelude.{ℕ, Bytes, true, List, [], ◌∷◌, ◌++◌, ◌≡◌, refl, some, arith, codes}
use tunnel.Dns.Base64.{symbol, encode}
use tunnel.Dns.Query.{build_dns_query}
use tunnel.Dns.Response.{
  skip_labels, skip_name, find_ech, skip_target, parse_https_record, ech_of, answers, Parsed, found,
  parse_dns_response,
}
use tunnel.Octets.{word_at, slice}
use tunnel.Dns.Bounds.{parse_dns_response-defined}
use tunnel.Dns.Format.Records.{Answer, https, other, pointer, labels, response_bytes, answers_ech}
use tunnel.Dns.Format.RoundTrip.{parse_dns_response-response_bytes}
use tunnel.TcpClient.Dial.{Round, connected, dial_websocket_with_ech}
use tunnel.Ech.Doh.{dns_parameter, raw_url_encode, url_symbol, doh_url}
use tunnel.Text.{split, has_prefix}
use tunnel.Ech.Cache.{no_response, body, query_doh, prepare_ech}
use tunnel.Ech.Fetch.{BeginsWith, answers_list, prepare_ech-response_bytes}

abbrev pub example_com : List Bytes
example_com = codes "example" ∷ codes "com" ∷ []

-- An alias, by its labels, and an HTTPS record with two parameters, by a pointer.
abbrev pub records : List Answer
records =
    record {
      owner = labels example_com;
      class_word = 1;
      ttl_high = 0;
      ttl_low = 60;
      content = other 5 (0xc0 ∷ 12 ∷ []);
    }
    ∷ record {
      owner = pointer 0xc0 12;
      class_word = 1;
      ttl_high = 0;
      ttl_low = 60;
      content = https (record {
        priority = 1;
        target = [];
        params = (1, codes "h2") ∷ (5, 0xfe ∷ 0x0d ∷ 0 ∷ 1 ∷ []) ∷ [];
      });
    }
    ∷ []

abbrev pub head : Bytes
head = 0 ∷ 1 ∷ 0x81 ∷ 0x80 ∷ 0 ∷ 1 ∷ []

abbrev pub zeros : Bytes
zeros = 0 ∷ 0 ∷ 0 ∷ 0 ∷ []

abbrev pub tail : Bytes
tail = 0 ∷ 65 ∷ 0 ∷ 1 ∷ []

abbrev pub response : Bytes
response = response_bytes head zeros example_com tail records []

-- The bytes of a list encode to the usual text.
encode_text : encode (codes "Man") ≡ codes "TWFu"
unfolding encode symbol
encode_text = refl

response_parses : parse_dns_response response ≡ some (found (codes "/g0AAQ=="))
unfolding parse_dns_response word_at skip_labels answers skip_name slice ech_of parse_https_record
    skip_target find_ech encode symbol
response_parses = refl

-- An owner name of one label and a pointer: the pointer is taken for the length of a label, and the
-- list of the answer is lost.
partly_compressed :
    parse_dns_response (
      head
      ++ (0 ∷ 1 ∷ zeros)
      ++ (1 ∷ 97 ∷ 0 ∷ [])
      ++ tail
      ++ (1 ∷ 97 ∷ 0xc0 ∷ 12 ∷ 0 ∷ 65 ∷ 0 ∷ 1 ∷ 0 ∷ 0 ∷ 0 ∷ 60 ∷ 0 ∷ 9 ∷ [])
      ++ (0 ∷ 1 ∷ 0 ∷ 0 ∷ 5 ∷ 0 ∷ 2 ∷ 7 ∷ 7 ∷ []))
    ≡ some (found [])
unfolding parse_dns_response word_at skip_labels answers skip_name slice ech_of parse_https_record
    skip_target find_ech encode symbol
partly_compressed = refl

parse_dns_response-defined_example :
    (parsed : Parsed) × (parse_dns_response (codes "garbage from the wire") ≡ some parsed)
parse_dns_response-defined_example = parse_dns_response-defined (codes "garbage from the wire")

parse_dns_response-response_bytes_example :
    parse_dns_response response ≡ some (found (answers_ech records))
parse_dns_response-response_bytes_example =
    parse_dns_response-response_bytes head zeros tail [] example_com records refl refl refl
      (omega arith) (omega arith) (omega arith) (omega arith)

abbrev taking : ℕ → Round
taking attempt = record { roots = true; dial = connected 9; refreshed = [] }

prepare_ech-response_bytes_example :
    (prepare_ech (no_response ∷ body response ∷ []) ≡ some (answers_list records))
    × BeginsWith (answers_list records) (dial_websocket_with_ech 2 taking (answers_list records)).0
unfolding prepare_ech query_doh
prepare_ech-response_bytes_example =
    prepare_ech-response_bytes (no_response ∷ []) [] head zeros tail [] example_com records 2 taking
      refl refl refl refl (omega arith) (omega arith) (omega arith) (omega arith) (omega arith)
      (λ e. cc)

a_question : dns_parameter (codes "a.io") ≡ codes "AAEBAAABAAAAAAAAAWECaW8AAEEAAQ"
unfolding dns_parameter raw_url_encode url_symbol build_dns_query split
a_question = refl

plain_host : doh_url (codes "dns/q") ≡ codes "https://dns/q"
unfolding doh_url has_prefix
plain_host = refl
