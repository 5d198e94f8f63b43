-- ===== src/Uir/TypeExpr.antt =====
-- internal/uir/typeexpr.go: nested type expressions such as [[User!]!]!, their text and its parser.
pub mod RoundTrip
use omni_schema.Prelude.{ℕ, zero, suc, Bool, true, false, ◌&&◌, ◌||◌, ◌==◌, leb, if◌then◌else◌}
use omni_schema.Prelude.{List, [], ◌∷◌, ◌++◌, length}
use omni_schema.Prelude.Bytes.{Text, codes, is_empty}

-- `*TypeExpr`: the nil pointer, or a node of one of the three kinds.
pub data TypeExpr : Type 0 where
  nil : TypeExpr
  named : Text → TypeExpr
  list_of : TypeExpr → TypeExpr
  non_null_of : TypeExpr → TypeExpr

unfoldable pub is_non_null : TypeExpr → Bool
is_non_null (TypeExpr.non_null_of t) = true
is_non_null _ = false

unfoldable pub unwrap_non_null : TypeExpr → TypeExpr
unwrap_non_null (TypeExpr.non_null_of t) = t
unwrap_non_null t = t

unfoldable pub named_leaf : TypeExpr → Text
named_leaf TypeExpr.nil = []
named_leaf (TypeExpr.named name) = name
named_leaf (TypeExpr.list_of t) = named_leaf t
named_leaf (TypeExpr.non_null_of t) = named_leaf t

unfoldable pub to_text : TypeExpr → Text
to_text TypeExpr.nil = []
to_text (TypeExpr.named name) = name
to_text (TypeExpr.list_of t) = b'[' ∷ (to_text t ++ (b']' ∷ []))
to_text (TypeExpr.non_null_of t) = to_text t ++ (b'!' ∷ [])

abbrev is_blank : ℕ → Bool
is_blank b = b == 32 || b == 9

-- `strings.TrimLeft(s, " \t")`
trim_left : Text → Text
trim_left [] = []
trim_left (b ∷ bs) = if is_blank b then trim_left bs else b ∷ bs

-- The white space of unicode.IsSpace, in UTF-8: of one byte, of two and of three.
abbrev is_space : ℕ → Bool
is_space b = b == 32 || leb 9 b && leb b 13

abbrev is_space_2 : ℕ → ℕ → Bool
is_space_2 b c = b == 0xc2 && (c == 0x85 || c == 0xa0)

abbrev is_space_3 : ℕ → ℕ → ℕ → Bool
is_space_3 b c d =
    b == 0xe1 && c == 0x9a && d == 0x80
    || b == 0xe2 && c == 0x80 && (leb 0x80 d && leb d 0x8a || d == 0xa8 || d == 0xa9 || d == 0xaf)
    || b == 0xe2 && c == 0x81 && d == 0x9f
    || b == 0xe3 && c == 0x80 && d == 0x80

trim_space_left : Text → Text
trim_space_left [] = []
trim_space_left (b ∷ []) = if is_space b then [] else b ∷ []
trim_space_left (b ∷ c ∷ []) =
    let one = trim_space_left (c ∷ []) in
    if is_space b then one else if is_space_2 b c then [] else b ∷ c ∷ []
trim_space_left (b ∷ c ∷ d ∷ s) =
    let one = trim_space_left (c ∷ d ∷ s) in
    let two = trim_space_left (d ∷ s) in
    let three = trim_space_left s in
    if is_space b
    then one
    else if is_space_2 b c
    then two
    else if is_space_3 b c d
    then three
    else b ∷ c ∷ d ∷ s

-- Cuts at the first byte from which on there is only white space.
trim_space_right : Text → Text
unfolding trim_space_left
trim_space_right [] = []
trim_space_right (b ∷ bs) =
    let rest = trim_space_right bs in if is_empty (trim_space_left (b ∷ bs)) then [] else b ∷ rest

-- `strings.TrimSpace`
unfoldable pub trim_space : Text → Text
unfolding trim_space_left trim_space_right
trim_space s = trim_space_right (trim_space_left s)

-- A byte of a type name.
abbrev pub is_name_byte : ℕ → Bool
is_name_byte b =
    b == b'_'
    || b == b'.'
    || leb b'A' b && leb b b'Z'
    || leb b'a' b && leb b b'z'
    || leb b'0' b && leb b b'9'

-- The scan of a name: the bytes s[:i] and s[i:].
span_name : Text → Text × Text
span_name [] = ([], [])
span_name (b ∷ bs) =
    let (name, rest) = span_name bs in if is_name_byte b then (b ∷ name, rest) else ([], b ∷ bs)

-- `strings.HasPrefix(s, c)` for one byte, and the rest behind it.
abbrev starts : ℕ → Text → Bool
starts c [] = false
starts c (b ∷ bs) = b == c

abbrev tail_of : Text → Text
tail_of [] = []
tail_of (b ∷ bs) = bs

-- The loop over the `!` marks. Each round takes a byte, so the length is fuel enough.
bangs : ℕ → TypeExpr → Text → TypeExpr × Text
unfolding trim_left
bangs zero e s = (e, s)
bangs (suc f) e s =
    let more = bangs f (TypeExpr.non_null_of e) (trim_left (tail_of s)) in
    if starts b'!' s then more else (e, s)

-- The end of parseTypeExpr: blanks, then the marks.
marks : TypeExpr → Text → TypeExpr × Text
unfolding bangs
marks e s = let s' = trim_left s in bangs (length s') e s'

close_list : TypeExpr → Text → TypeExpr × Text
unfolding marks
close_list inner rest =
    let r = trim_left rest in
    marks (TypeExpr.list_of inner) (if starts b']' r then tail_of r else r)

-- The branch on `[`: what the nested call gave, and the trimmed text.
list_or_name : TypeExpr × Text → Text → TypeExpr × Text
unfolding span_name marks close_list
list_or_name (inner, rest) s =
    let (name, after) = span_name s in
    if starts b'[' s then close_list inner rest else marks (TypeExpr.named name) after

-- Each nested call takes a `[`, so fuel above the length is never used up.
unfoldable pub parse_type_expr : ℕ → Text → TypeExpr × Text
unfolding trim_left list_or_name
parse_type_expr zero s = (TypeExpr.nil, s)
parse_type_expr (suc f) s =
    let s' = trim_left s in let nested = parse_type_expr f (tail_of s') in list_or_name nested s'

-- The trimmed text: nil if it is empty.
parse_trimmed : Text → TypeExpr
parse_trimmed [] = TypeExpr.nil
parse_trimmed (b ∷ bs) = (parse_type_expr (suc (length (b ∷ bs))) (b ∷ bs)).0

-- ParseGraphQLTypeExpr. What is left behind the expression is dropped, blank or not.
unfoldable pub parse_graphql_type_expr : Text → TypeExpr
unfolding parse_trimmed
parse_graphql_type_expr s = parse_trimmed (trim_space s)
