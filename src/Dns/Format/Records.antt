-- ===== src/Dns/Format/Records.antt =====
-- Responses as values, the bytes that stand for them on the wire, and the ECH list that they carry.
use tunnel.Prelude.{ℕ, Bytes, List, [], ◌∷◌, ◌++◌, ◌≢◌, ◌≤◌, ◌<◌, length, if◌then◌else◌, ◌==◌}
use tunnel.Octets.{word}
use tunnel.Dns.Base64.{encode}

-- An owner name: a compression pointer, by its two bytes, or labels up to the root.
pub data Owner : Type 0 where
  pointer : ℕ → ℕ → Owner
  labels : List Bytes → Owner

-- A SvcParam: its key and its value.
abbrev pub Param : Type 0
Param = ℕ × Bytes

-- The data of an HTTPS record: priority, target name, parameters.
pub record Https : Type 0 where
  pub priority : ℕ
  pub target : List Bytes
  pub params : List Param

pub data Data : Type 0 where
  https : Https → Data
  other : ℕ → Bytes → Data

-- Class and TTL are the four words between the type and the length.
pub record Answer : Type 0 where
  pub owner : Owner
  pub class_word : ℕ
  pub ttl_high : ℕ
  pub ttl_low : ℕ
  pub content : Data

-- Labels on the wire: the size of each in a byte, and its bytes.
abbrev pub labels_wire : List Bytes → Bytes
labels_wire [] = []
labels_wire (l ∷ ls) = length l ∷ (l ++ labels_wire ls)

abbrev pub name_bytes : List Bytes → Bytes
name_bytes ls = labels_wire ls ++ 0 ∷ []

abbrev pub owner_bytes : Owner → Bytes
owner_bytes (pointer hi lo) = hi ∷ lo ∷ []
owner_bytes (labels ls) = name_bytes ls

abbrev pub params_bytes : List Param → Bytes
params_bytes [] = []
params_bytes ((key, value) ∷ params) =
    word key ++ (word (length value) ++ (value ++ params_bytes params))

abbrev pub https_bytes : Https → Bytes
https_bytes h = word h.priority ++ (name_bytes h.target ++ params_bytes h.params)

abbrev pub rr_type : Data → ℕ
rr_type (https h) = 65
rr_type (other t bytes) = t

abbrev pub data_bytes : Data → Bytes
data_bytes (https h) = https_bytes h
data_bytes (other t bytes) = bytes

-- What follows the owner name.
abbrev pub fixed_bytes : Answer → Bytes
fixed_bytes a = word a.class_word ++ (word a.ttl_high ++ word a.ttl_low)

abbrev pub answers_bytes : List Answer → Bytes
answers_bytes [] = []
answers_bytes (a ∷ rest) =
    owner_bytes a.owner
    ++ (word (rr_type a.content)
        ++ (fixed_bytes a
            ++ (word (length (data_bytes a.content))
                ++ (data_bytes a.content ++ answers_bytes rest))))

-- A response with id and flags, one question, the answers, and whatever sections follow.
abbrev pub response_bytes : Bytes → Bytes → List Bytes → Bytes → List Answer → Bytes → Bytes
response_bytes head counts question tail answers rest =
    head
    ++ (word (length answers)
        ++ (counts ++ (labels_wire question ++ 0 ∷ (tail ++ (answers_bytes answers ++ rest)))))

-- Names as the format admits them: labels of 1 to 63 bytes.
abbrev pub IsName : List Bytes → Type 0
IsName [] = Unit {0}
IsName (l ∷ ls) = (0 < length l) × (length l < 64) × IsName ls

-- A pointer's first byte has its two top bits set.
abbrev pub IsOwner : Owner → Type 0
IsOwner (pointer hi lo) = (192 ≤ hi) × (hi < 256)
IsOwner (labels ls) = IsName ls

abbrev pub IsParams : List Param → Type 0
IsParams [] = Unit {0}
IsParams ((key, value) ∷ params) = (key < 65536) × (length value < 65536) × IsParams params

abbrev pub IsData : Data → Type 0
IsData (https h) = (h.priority < 65536) × IsName h.target × IsParams h.params
IsData (other t bytes) = (t < 65536) × (t ≢ 65)

abbrev pub IsAnswers : List Answer → Type 0
IsAnswers [] = Unit {0}
IsAnswers (a ∷ rest) =
    IsOwner a.owner × IsData a.content × (length (data_bytes a.content) < 65536) × IsAnswers rest

-- The ECH list of an HTTPS record, in base64: the value of its first parameter with key 5.
abbrev pub params_ech : List Param → Bytes
params_ech [] = []
params_ech ((key, value) ∷ params) = if key == 5 then encode value else params_ech params

abbrev pub data_ech : Data → Bytes
data_ech (https h) = params_ech h.params
data_ech (other t bytes) = []

-- The first that is not empty.
abbrev pub or_else : Bytes → Bytes → Bytes
or_else [] next = next
or_else (b ∷ ech) next = b ∷ ech

abbrev pub answers_ech : List Answer → Bytes
answers_ech [] = []
answers_ech (a ∷ rest) = or_else (data_ech a.content) (answers_ech rest)
