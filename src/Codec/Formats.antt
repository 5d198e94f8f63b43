-- ===== src/Codec/Formats.antt =====
-- internal/codec/formats.go: the names of formats. strings.ToLower and strings.TrimSpace go by the
-- tables of Unicode on a text that is not ASCII; there they are the record Unicode.
use omni_schema.Prelude.{ℕ, ◌+◌, ◌==◌, ltb, leb, Bool, true, ◌&&◌, ◌||◌, if◌then◌else◌}
use omni_schema.Prelude.{[], ◌∷◌, map}
use omni_schema.Prelude.Bytes.{Text, codes, mem_text}

pub record Unicode : Type 0 where
  pub lower : Text → Text
  pub trim : Text → Text

unfoldable pub is_ascii : Text → Bool
is_ascii [] = true
is_ascii (c ∷ s) = ltb c 0x80 && is_ascii s

abbrev lower_ascii : ℕ → ℕ
lower_ascii c = if leb b'A' c && leb c b'Z' then c + 32 else c

unfoldable pub to_lower : Unicode → Text → Text
unfolding is_ascii
to_lower unicode s = if is_ascii s then map lower_ascii s else unicode.lower s

abbrev is_space : ℕ → Bool
is_space c = c == 32 || leb 9 c && leb c 13

unfoldable pub trim_left : Text → Text
trim_left [] = []
trim_left (c ∷ s) = if is_space c then trim_left s else c ∷ s

abbrev keep_unless_blank : ℕ → Text → Text
keep_unless_blank c [] = if is_space c then [] else c ∷ []
keep_unless_blank c (d ∷ s) = c ∷ d ∷ s

unfoldable pub trim_right : Text → Text
trim_right [] = []
trim_right (c ∷ s) = keep_unless_blank c (trim_right s)

unfoldable pub trim_space : Unicode → Text → Text
unfolding is_ascii trim_left trim_right
trim_space unicode s = if is_ascii s then trim_left (trim_right s) else unicode.trim s

unfoldable pub trim_dot : Text → Text
trim_dot [] = []
trim_dot (c ∷ s) = if c == b'.' then s else c ∷ s

-- The switch on the name, with what its default gives.
unfoldable pub alias_of : Text → Text → Text
unfolding mem_text
alias_of default name =
    if mem_text name (codes "proto" ∷ codes "pb" ∷ codes "protobuf" ∷ [])
    then codes "protobuf"
    else if mem_text name (codes "capnp" ∷ codes "capnproto" ∷ [])
    then codes "capnproto"
    else if mem_text name (codes "gql" ∷ codes "graphql" ∷ [])
    then codes "graphql"
    else if mem_text name (codes "h5" ∷ codes "hdf" ∷ codes "hdf5" ∷ [])
    then codes "hdf5"
    else if mem_text name (codes "messagepack" ∷ codes "msgpck" ∷ codes "msgpack" ∷ [])
    then codes "msgpack"
    else if mem_text name (codes "pq" ∷ codes "parquet" ∷ [])
    then codes "parquet"
    else if mem_text name (codes "avro" ∷ codes "odata" ∷ codes "json" ∷ codes "cbor" ∷ [])
    then name
    else default

unfoldable pub normalize_format : Unicode → Text → Text
unfolding to_lower trim_space trim_dot alias_of
normalize_format unicode format =
    alias_of (to_lower unicode (trim_space unicode format))
      (to_lower unicode (trim_dot (trim_space unicode format)))

unfoldable pub requires_external_schema : Unicode → Text → Bool
unfolding normalize_format mem_text
requires_external_schema unicode format =
    mem_text (normalize_format unicode format) (codes "protobuf" ∷ codes "capnproto" ∷ [])

unfoldable pub is_binary_format : Unicode → Text → Bool
unfolding normalize_format mem_text
is_binary_format unicode format = mem_text (normalize_format unicode format) (
    codes "protobuf"
    ∷ codes "msgpack"
    ∷ codes "capnproto"
    ∷ codes "parquet"
    ∷ codes "hdf5"
    ∷ codes "avro"
    ∷ codes "cbor"
    ∷ [])

unfoldable pub is_container_format : Unicode → Text → Bool
unfolding normalize_format mem_text
is_container_format unicode format =
    mem_text (normalize_format unicode format) (codes "parquet" ∷ codes "hdf5" ∷ codes "avro" ∷ [])
