-- ===== src/Uir/Coerce/Encoding.antt =====
-- The text encodings of bytes that internal/uir/project.go calls, of Go's encoding/hex and
-- encoding/base64, and fmt.Sprint of a value.
use omni_schema.Prelude.{ℕ, suc, ◌+◌, ◌-◌, ◌*◌, ◌/◌, ◌%◌, ◌&&◌, ◌||◌}
use omni_schema.Prelude.{◌==◌, ltb, leb, if◌then◌else◌, Option, none, some, List, [], ◌∷◌, ◌++◌}
use omni_schema.Prelude.Int.{ℤ, pos, negsuc}
use omni_schema.Prelude.Bytes.{Text, codes, decimal}
use omni_schema.Uir.Node.{Any}
use omni_schema.Uir.Coerce.{Host}

unfoldable pub hex_digit : ℕ → ℕ
hex_digit n = if ltb n 10 then b'0' + n else b'a' + (n - 10)

-- hex.EncodeToString
unfoldable pub hex_encode : List ℕ → Text
unfolding hex_digit
hex_encode [] = []
hex_encode (b ∷ bs) = hex_digit (b / 16) ∷ hex_digit (b % 16) ∷ hex_encode bs

unfoldable pub hex_value : ℕ → Option ℕ
hex_value c =
    if leb b'0' c && leb c b'9'
    then some (c - b'0')
    else if leb b'a' c && leb c b'f'
    then some (c - b'a' + 10)
    else if leb b'A' c && leb c b'F'
    then some (c - b'A' + 10)
    else none

-- The byte of two digits before the bytes of the rest.
unfoldable pub hex_pair : Option ℕ → Option ℕ → Option (List ℕ) → Option (List ℕ)
hex_pair (some h) (some l) (some bs) = some ((h * 16 + l) ∷ bs)
hex_pair _ _ _ = none

-- hex.DecodeString
unfoldable pub hex_decode : Text → Option (List ℕ)
unfolding hex_value hex_pair
hex_decode [] = some []
hex_decode (c ∷ []) = none
hex_decode (c ∷ d ∷ cs) = hex_pair (hex_value c) (hex_value d) (hex_decode cs)

unfoldable pub base64_digit : ℕ → ℕ
base64_digit n =
    if ltb n 26
    then b'A' + n
    else if ltb n 52
    then b'a' + (n - 26)
    else if ltb n 62
    then b'0' + (n - 52)
    else if n == 62
    then b'+'
    else b'/'

-- base64.StdEncoding.EncodeToString
unfoldable pub base64_encode : List ℕ → Text
unfolding base64_digit
base64_encode [] = []
base64_encode (a ∷ []) = base64_digit (a / 4) ∷ base64_digit (a % 4 * 16) ∷ b'=' ∷ b'=' ∷ []
base64_encode (a ∷ b ∷ []) =
    base64_digit (a / 4)
    ∷ base64_digit (a % 4 * 16 + b / 16)
    ∷ base64_digit (b % 16 * 4)
    ∷ b'='
    ∷ []
base64_encode (a ∷ b ∷ c ∷ bs) =
    base64_digit (a / 4)
    ∷ base64_digit (a % 4 * 16 + b / 16)
    ∷ base64_digit (b % 16 * 4 + c / 64)
    ∷ base64_digit (c % 64)
    ∷ base64_encode bs

unfoldable pub base64_value : ℕ → Option ℕ
base64_value c =
    if leb b'A' c && leb c b'Z'
    then some (c - b'A')
    else if leb b'a' c && leb c b'z'
    then some (c - b'a' + 26)
    else if leb b'0' c && leb c b'9'
    then some (c - b'0' + 52)
    else if c == b'+'
    then some 62
    else if c == b'/'
    then some 63
    else none

-- A quantum without padding, before the bytes of the rest.
unfoldable pub base64_three :
    Option ℕ → Option ℕ → Option ℕ → Option ℕ → Option (List ℕ) → Option (List ℕ)
base64_three (some p) (some q) (some r) (some s) (some bs) =
    some ((p * 4 + q / 16) ∷ (q % 16 * 16 + r / 4) ∷ (r % 4 * 64 + s) ∷ bs)
base64_three _ _ _ _ _ = none

unfoldable pub base64_two : Option ℕ → Option ℕ → Option ℕ → Option (List ℕ)
base64_two (some p) (some q) (some r) = some ((p * 4 + q / 16) ∷ (q % 16 * 16 + r / 4) ∷ [])
base64_two _ _ _ = none

unfoldable pub base64_one : Option ℕ → Option ℕ → Option (List ℕ)
base64_one (some p) (some q) = some ((p * 4 + q / 16) ∷ [])
base64_one _ _ = none

-- The last quantum, which may be padded. Nothing follows padding.
unfoldable pub base64_padded : ℕ → ℕ → ℕ → Text → Option (List ℕ)
unfolding base64_value base64_one base64_two
base64_padded a b c [] =
    if c == b'='
    then base64_one (base64_value a) (base64_value b)
    else base64_two (base64_value a) (base64_value b) (base64_value c)
base64_padded a b c (d ∷ ds) = none

unfoldable pub base64_quanta : Text → Option (List ℕ)
unfolding base64_value base64_three base64_padded
base64_quanta [] = some []
base64_quanta (a ∷ b ∷ c ∷ d ∷ cs) =
    let rest = base64_quanta cs in
    if d == b'='
    then base64_padded a b c cs
    else base64_three (base64_value a) (base64_value b) (base64_value c) (base64_value d) rest
base64_quanta _ = none

-- The decoder skips the ends of lines.
unfoldable pub without_newlines : Text → Text
without_newlines [] = []
without_newlines (c ∷ cs) =
    let rest = without_newlines cs in if c == b'\n' || c == b'\r' then rest else c ∷ rest

-- base64.StdEncoding.DecodeString
unfoldable pub base64_decode : Text → Option (List ℕ)
base64_decode s = base64_quanta (without_newlines s)

-- The elements of a []byte as fmt prints them.
unfoldable pub spaced : List ℕ → Text
spaced [] = []
spaced (b ∷ []) = decimal b
spaced (b ∷ c ∷ bs) = decimal b ++ (b' ' ∷ spaced (c ∷ bs))

unfoldable pub decimal_int : ℤ → Text
decimal_int (pos n) = decimal n
decimal_int (negsuc n) = b'-' ∷ decimal (suc n)

-- fmt.Sprint
unfoldable pub sprint : Host → Any → Text
unfolding spaced decimal_int
sprint host Any.nil = codes "<nil>"
sprint host (Any.bool b) = if b then codes "true" else codes "false"
sprint host (Any.int v) = decimal_int v
sprint host (Any.int32 v) = decimal_int v
sprint host (Any.int64 v) = decimal_int v
sprint host (Any.uint32 u) = decimal u
sprint host (Any.uint64 u) = decimal u
sprint host (Any.float32 f) = host.sprint_float32 f
sprint host (Any.float64 f) = host.sprint_float64 f
sprint host (Any.text s) = s
sprint host (Any.bytes b) = b'[' ∷ (spaced b ++ (b']' ∷ []))
sprint host Any.other = host.sprint_other
