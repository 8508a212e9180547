-- ===== src/Text/Fields.antt =====
-- Strings that `strings.TrimSpace` leaves as they are.
use tunnel.Prelude.{ℕ, Bytes, [], ◌∷◌, ◌++◌, ◌≡◌, ◌≢◌, refl, sym, ap, ◌∙◌, append-nil, subst}
use tunnel.Text.Space.{trim_space, IsField, IsVisible, last_of, trim_space-IsField}

pub last_of-append : (c d : ℕ) (s t : Bytes) → last_of c (s ++ d ∷ t) ≡ last_of d t
last_of-append c d [] t = refl
last_of-append c d (b ∷ s) t = last_of-append b d s t

pub IsField-append :
    (key : Bytes) (d : ℕ) (t : Bytes)
    → IsField key
    → key ≢ []
    → IsVisible (last_of d t)
    → IsField (key ++ d ∷ t)
IsField-append [] d t h n v = absurd (n refl)
IsField-append (c ∷ key) d t h n v = (h.0, subst IsVisible (sym (last_of-append c d key t)) v)

pub trim_space-field : (v : Bytes) → IsField v → trim_space v ≡ v
trim_space-field v h = ap trim_space (sym (append-nil v)) ∙ trim_space-IsField [] v [] h tt tt

pub last_of-IsField : (d : ℕ) (v : Bytes) → IsField v → v ≢ [] → IsVisible (last_of d v)
last_of-IsField d [] h n = absurd (n refl)
last_of-IsField d (c ∷ v) h n = h.1
