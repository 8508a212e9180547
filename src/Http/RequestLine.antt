-- ===== src/Http/RequestLine.antt =====
-- The request line in `handleHTTPProtocol` (http_proxy.go).
use tunnel.Prelude.{
  Bytes, [], ◌∷◌, ◌++◌, ◌≡◌, ◌≢◌, refl, sym, ap, ◌∙◌, arith, codes, append_assoc, subst,
}
use tunnel.Prelude.Map.{Map, bytes_key}
use tunnel.Text.{Lacks, Lacks-append, split_n-three}
use tunnel.Text.Space.{
  trim_space, IsField, IsVisible, last_of, AreSpaces, trim_space-IsField, is_ascii_space,
}
use tunnel.Text.Fields.{IsField-append, last_of-append, last_of-IsField}
use tunnel.Socks.Handshake.{Config}
use tunnel.Http.Headers.RoundTrip.{headers_wire, read_line-append}
use tunnel.Http.Request.{Runtime, handle_request_line, handle_http_protocol}

-- A request line: three parts without a line break, the first two without a space.
abbrev pub IsRequestLine : Bytes → Bytes → Bytes → Type 0
IsRequestLine method url version =
    IsField method
    × (method ≢ [])
    × Lacks b' ' method
    × Lacks b'\n' method
    × Lacks b' ' url
    × Lacks b'\n' url
    × IsField version
    × (version ≢ [])
    × Lacks b'\n' version

abbrev pub request_wire : Bytes → Bytes → Bytes → Map Bytes Bytes → Bytes → Bytes
request_wire method url version fields body =
    method ++ b' ' ∷ (url ++ b' ' ∷ (version ++ (codes "\r\n" ++ headers_wire fields body)))

line_ends : AreSpaces (b'\r' ∷ b'\n' ∷ [])
unfolding is_ascii_space
line_ends = (refl, (refl, tt))

trim_request_line :
    (method url version : Bytes)
    → IsRequestLine method url version
    → trim_space ((method ++ b' ' ∷ (url ++ b' ' ∷ (version ++ b'\r' ∷ []))) ++ b'\n' ∷ [])
      ≡ method ++ b' ' ∷ (url ++ b' ' ∷ version)
trim_request_line method url version (m, filled, a, b, c, d, v, whole, e) =
    let visible : IsVisible (last_of b' ' (url ++ b' ' ∷ version)) =
      subst IsVisible (sym (last_of-append b' ' b' ' url version))
        (last_of-IsField b' ' version v whole) in
    let field = IsField-append method b' ' (url ++ b' ' ∷ version) m filled visible in
    let parts : (method ++ b' ' ∷ (url ++ b' ' ∷ (version ++ b'\r' ∷ []))) ++ b'\n' ∷ []
        ≡ (method ++ b' ' ∷ (url ++ b' ' ∷ version)) ++ b'\r' ∷ b'\n' ∷ [] =
      simp append_assoc in
    ap trim_space parts
    ∙ trim_space-IsField [] (method ++ b' ' ∷ (url ++ b' ' ∷ version)) (b'\r' ∷ b'\n' ∷ []) field tt
        line_ends

Lacks-request_line :
    (method url version : Bytes)
    → IsRequestLine method url version
    → Lacks b'\n' (method ++ b' ' ∷ (url ++ b' ' ∷ (version ++ b'\r' ∷ [])))
Lacks-request_line method url version (m, filled, a, b, c, d, v, whole, e) =
    Lacks-append b'\n' method (b' ' ∷ (url ++ b' ' ∷ (version ++ b'\r' ∷ []))) b (
      (λ x. absurd (omega arith)),
      Lacks-append b'\n' url (b' ' ∷ (version ++ b'\r' ∷ [])) d (
        (λ x. absurd (omega arith)),
        Lacks-append b'\n' version (b'\r' ∷ []) e ((λ x. absurd (omega arith)), tt),
      ),
    )

pub handle_http_protocol-request_line :
    (c : Config) (r : Runtime) (method url version : Bytes) (fields : Map Bytes Bytes)
    (body : Bytes)
    → IsRequestLine method url version
    → handle_http_protocol c r (request_wire method url version fields body)
      ≡ handle_request_line c r (method ∷ url ∷ version ∷ []) (headers_wire fields body)
unfolding handle_http_protocol
handle_http_protocol-request_line c r method url version fields body h =
    let line = method ++ b' ' ∷ (url ++ b' ' ∷ (version ++ b'\r' ∷ [])) in
    let reader = headers_wire fields body in
    let parts : request_wire method url version fields body ≡ line ++ b'\n' ∷ reader =
      simp append_assoc in
    let (m, filled, a, b, c1, d, v, whole, e) = h in
    rw (
      parts,
      read_line-append line reader (Lacks-request_line method url version h),
      trim_request_line method url version h,
      split_n-three b' ' method url version a c1,
    )
