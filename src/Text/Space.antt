-- ===== src/Text/Space.antt =====
-- `strings.TrimSpace`, on the bytes of UTF-8: the ASCII spaces and those that `unicode.IsSpace` knows
-- besides.
use mathlib.Core.List.{reverse, reverse_aux, reverse-append, reverse-reverse}
use tunnel.Prelude.{
  ℕ, zero, suc, ◌≡◌, refl, sym, ap, ◌∙◌, Bool, true, ◌&&◌, ◌||◌, [], ◌∷◌, ◌++◌, arith, ◌==◌,
  if◌then◌else◌, Bytes, ◌+◌, ◌≤◌, leb, drop, length, length-append, append-nil,
}

unfoldable pub is_ascii_space : ℕ → Bool
is_ascii_space c = (leb 9 c && leb c 13) || c == 32

-- U+0085 and U+00A0
unfoldable pub is_two : ℕ → ℕ → Bool
is_two a b = a == 0xc2 && (b == 0x85 || b == 0xa0)

-- U+1680, U+2000 to U+200A, U+2028, U+2029, U+202F, U+205F and U+3000
unfoldable pub is_three : ℕ → ℕ → ℕ → Bool
is_three a b c =
    (a == 0xe1 && b == 0x9a && c == 0x80)
    || (a == 0xe2
        && b == 0x80
        && ((leb 0x80 c && leb c 0x8a) || c == 0xa8 || c == 0xa9 || c == 0xaf))
    || (a == 0xe2 && b == 0x81 && c == 0x9f)
    || (a == 0xe3 && b == 0x80 && c == 0x80)

-- The number of bytes of a space at the front; 0 if there is none.
unfoldable pub space_width : Bytes → ℕ
space_width [] = 0
space_width (a ∷ []) = if is_ascii_space a then 1 else 0
space_width (a ∷ b ∷ []) = if is_ascii_space a then 1 else if is_two a b then 2 else 0
space_width (a ∷ b ∷ c ∷ s) =
    if is_ascii_space a then 1 else if is_two a b then 2 else if is_three a b c then 3 else 0

-- The same at the end, for the bytes in reverse.
unfoldable pub last_width : Bytes → ℕ
last_width [] = 0
last_width (a ∷ []) = if is_ascii_space a then 1 else 0
last_width (a ∷ b ∷ []) = if is_ascii_space a then 1 else if is_two b a then 2 else 0
last_width (a ∷ b ∷ c ∷ s) =
    if is_ascii_space a then 1 else if is_two b a then 2 else if is_three c b a then 3 else 0

-- One space after the other; there are no more than bytes.
unfoldable pub trim_with : (Bytes → ℕ) → ℕ → Bytes → Bytes
trim_with width zero s = s
trim_with width (suc n) s = elim (width s) [ zero ↦ s | suc k ↦ trim_with width n (drop (suc k) s) ]

unfoldable pub trim_right : Bytes → Bytes
trim_right s = reverse (trim_with last_width (length s) (reverse s))

unfoldable pub trim_space : Bytes → Bytes
trim_space s = trim_right (trim_with space_width (length s) s)

-- Bytes of visible ASCII characters.
abbrev pub IsVisible : ℕ → Type 0
IsVisible c = (33 ≤ c) × (c ≤ 126)

abbrev pub last_of : ℕ → Bytes → ℕ
last_of c [] = c
last_of c (d ∷ s) = last_of d s

-- A string that starts and ends with visible characters, or the empty one.
abbrev pub IsField : Bytes → Type 0
IsField [] = Unit {0}
IsField (c ∷ s) = IsVisible c × IsVisible (last_of c s)

abbrev pub AreSpaces : Bytes → Type 0
AreSpaces [] = Unit {0}
AreSpaces (c ∷ s) = (is_ascii_space c ≡ true) × AreSpaces s

pub space_width-IsVisible : (c : ℕ) (s : Bytes) → IsVisible c → space_width (c ∷ s) ≡ 0
unfolding space_width is_ascii_space is_two is_three
space_width-IsVisible c [] v = ground arith
space_width-IsVisible c (b ∷ []) v = ground arith
space_width-IsVisible c (b ∷ d ∷ s) v = ground arith

last_width-IsVisible : (c : ℕ) (s : Bytes) → IsVisible c → last_width (c ∷ s) ≡ 0
unfolding last_width is_ascii_space is_two is_three
last_width-IsVisible c [] v = ground arith
last_width-IsVisible c (b ∷ []) v = ground arith
last_width-IsVisible c (b ∷ d ∷ s) v = ground arith

space_width-space : (c : ℕ) (s : Bytes) → is_ascii_space c ≡ true → space_width (c ∷ s) ≡ 1
unfolding space_width
space_width-space c [] h = rw h
space_width-space c (b ∷ []) h = rw h
space_width-space c (b ∷ d ∷ s) h = rw h

last_width-space : (c : ℕ) (s : Bytes) → is_ascii_space c ≡ true → last_width (c ∷ s) ≡ 1
unfolding last_width
last_width-space c [] h = rw h
last_width-space c (b ∷ []) h = rw h
last_width-space c (b ∷ d ∷ s) h = rw h

trim_with-stop : (width : Bytes → ℕ) (n : ℕ) (s : Bytes) → width s ≡ 0 → trim_with width n s ≡ s
unfolding trim_with
trim_with-stop width zero s h = refl
trim_with-stop width (suc n) s h = rw (h, trim_with)

trim_with-spaces :
    (width : Bytes → ℕ) (n : ℕ) (spaces s : Bytes)
    → ((c : ℕ) (t : Bytes) → is_ascii_space c ≡ true → width (c ∷ t) ≡ 1)
    → AreSpaces spaces
    → width s ≡ 0
    → length spaces ≤ n
    → trim_with width n (spaces ++ s) ≡ s
unfolding trim_with
trim_with-spaces width n [] s k a h l = trim_with-stop width n s h
trim_with-spaces width zero (c ∷ spaces) s k a h l = absurd (omega arith)
trim_with-spaces width (suc n) (c ∷ spaces) s k a h l =
    rw (k c (spaces ++ s) a.0, trim_with) (trim_with-spaces width n spaces s k a.1 h (omega arith))

reverse_aux-last :
    (c : ℕ) (t acc : Bytes) → (r : Bytes) × (reverse_aux t (c ∷ acc) ≡ last_of c t ∷ r)
unfolding reverse_aux
reverse_aux-last c [] acc = (acc, refl)
reverse_aux-last c (d ∷ t) acc = reverse_aux-last d t (c ∷ acc)

last_width-reverse :
    (c : ℕ) (t : Bytes) → IsVisible (last_of c t) → last_width (reverse (c ∷ t)) ≡ 0
unfolding reverse reverse_aux
last_width-reverse c t v =
    let (r, e) = reverse_aux-last c t [] in ap last_width e ∙ last_width-IsVisible (last_of c t) r v

AreSpaces-reverse_aux :
    (s acc : Bytes) → AreSpaces s → AreSpaces acc → AreSpaces (reverse_aux s acc)
unfolding reverse_aux
AreSpaces-reverse_aux [] acc h k = k
AreSpaces-reverse_aux (c ∷ s) acc h k = AreSpaces-reverse_aux s (c ∷ acc) h.1 (h.0, k)

length-reverse_aux : (s acc : Bytes) → length (reverse_aux s acc) ≡ length s + length acc
unfolding reverse_aux
length-reverse_aux [] acc = omega arith
length-reverse_aux (c ∷ s) acc = omega (arith, length-reverse_aux s (c ∷ acc))

AreSpaces-append : (s t : Bytes) → AreSpaces s → AreSpaces t → AreSpaces (s ++ t)
AreSpaces-append [] t h k = k
AreSpaces-append (c ∷ s) t h k = (h.0, AreSpaces-append s t h.1 k)

trim_end :
    (v behind : Bytes) (n : ℕ)
    → last_width (reverse v) ≡ 0
    → AreSpaces behind
    → length behind ≤ n
    → reverse (trim_with last_width n (reverse (v ++ behind))) ≡ v
unfolding reverse
trim_end v behind n h a l =
    let spaces = AreSpaces-reverse_aux behind [] a tt in
    let sized : length (reverse behind) ≤ n = omega (arith, length-reverse_aux behind []) in
    rw
      (
        reverse-append v behind,
        trim_with-spaces last_width n (reverse behind) (reverse v) last_width-space spaces h sized,
      )
      (reverse-reverse v)

trim_all : (s : Bytes) → AreSpaces s → trim_with space_width (length s) s ≡ []
unfolding space_width
trim_all s a =
    ap (trim_with space_width (length s)) (sym (append-nil s))
    ∙ trim_with-spaces space_width (length s) s [] space_width-space a refl (omega arith)

-- Spaces around a field are taken away, and no others.
pub trim_space-IsField :
    (before v behind : Bytes)
    → IsField v
    → AreSpaces before
    → AreSpaces behind
    → trim_space (before ++ (v ++ behind)) ≡ v
unfolding trim_space trim_right trim_with
trim_space-IsField before [] behind v a b =
    let spaces = AreSpaces-append before behind a b in
    ap trim_right (trim_all (before ++ behind) spaces)
trim_space-IsField before (c ∷ t) behind v a b =
    let front =
      trim_with-spaces space_width (length (before ++ (c ∷ (t ++ behind)))) before
        (c ∷ (t ++ behind)) space_width-space a (space_width-IsVisible c (t ++ behind) v.0)
        (omega (arith, length-append before (c ∷ (t ++ behind)))) in
    ap trim_right front
    ∙ trim_end (c ∷ t) behind (length (c ∷ (t ++ behind))) (last_width-reverse c t v.1) b
        (omega (arith, length-append t behind))
