-- ===== src/Uir/TypeExpr/RoundTrip.antt =====
-- internal/uir/typeexpr.go: the parser reads back what String wrote.
use omni_schema.Prelude.{ℕ, zero, suc, ◌≤◌, ◌<◌, ◌≡◌, refl, ap, ◌∙◌, true, false, arith, Bool, ◌||◌}
use omni_schema.Prelude.{[], ◌∷◌, ◌++◌, length, length-append, append-nil, append_assoc, All}
use omni_schema.Prelude.{All-append, ◌==◌}
use omni_schema.Prelude.Bytes.{Text}
use omni_schema.Uir.TypeExpr.{
  TypeExpr, to_text, is_name_byte, is_space, trim_space_left, trim_left, span_name,
}
use omni_schema.Uir.TypeExpr.{tail_of, bangs, marks, close_list, parse_type_expr}
use omni_schema.Uir.TypeExpr.{list_or_name, trim_space_right, trim_space, parse_graphql_type_expr}

-- A name that the parser reads whole.
abbrev pub IsName : Text → Type 0
IsName [] = ⊥
IsName (b ∷ bs) = All (λ c. is_name_byte c ≡ true) (b ∷ bs)

-- An expression with no nil pointer and with proper names.
abbrev pub WellFormed : TypeExpr → Type 0
WellFormed TypeExpr.nil = ⊥
WellFormed (TypeExpr.named name) = IsName name
WellFormed (TypeExpr.list_of t) = WellFormed t
WellFormed (TypeExpr.non_null_of t) = WellFormed t

-- A byte that white space begins with.
abbrev starts_space : ℕ → Bool
starts_space b = is_space b || b == 0xc2 || b == 0xe1 || b == 0xe2 || b == 0xe3

-- What follows does not lengthen a name.
abbrev Stops : Text → Type 0
Stops [] = Unit {0}
Stops (b ∷ bs) = is_name_byte b ≡ false

-- The text begins with a byte that is not blank.
abbrev Leads : Text → Type 0
Leads [] = ⊥
Leads (b ∷ bs) = starts_space b ≡ false

name_byte_no_space : (b : ℕ) → is_name_byte b ≡ true → starts_space b ≡ false
name_byte_no_space b h = ground arith

trim_left-Leads : (s : Text) → Leads s → trim_left s ≡ s
unfolding trim_left
trim_left-Leads [] h = elim h [ ]
trim_left-Leads (b ∷ bs) h = ground arith

length-trim_left : (s : Text) → length (trim_left s) ≤ length s
unfolding trim_left
length-trim_left [] = omega arith
length-trim_left (b ∷ bs) = ground (arith, length-trim_left bs)

-- More fuel than bytes changes nothing.
bangs_fuel :
    (f g : ℕ) (e : TypeExpr) (s : Text) → length s ≤ f → length s ≤ g → bangs f e s ≡ bangs g e s
unfolding bangs
bangs_fuel zero zero e s h k = refl
bangs_fuel zero (suc g) e [] h k = refl
bangs_fuel zero (suc g) e (b ∷ bs) h k = absurd (omega arith)
bangs_fuel (suc f) zero e [] h k = refl
bangs_fuel (suc f) zero e (b ∷ bs) h k = absurd (omega arith)
bangs_fuel (suc f) (suc g) e [] h k = refl
bangs_fuel (suc f) (suc g) e (b ∷ bs) h k =
    let l = length-trim_left bs in
    ground
      (arith, bangs_fuel f g (TypeExpr.non_null_of e) (trim_left bs) (omega arith) (omega arith))

marks-bang :
    (e : TypeExpr) (rest : Text) → marks e (b'!' ∷ rest) ≡ marks (TypeExpr.non_null_of e) rest
unfolding marks bangs trim_left
marks-bang e rest =
    bangs_fuel (length rest) (length (trim_left rest)) (TypeExpr.non_null_of e) (trim_left rest)
      (length-trim_left rest) (omega arith)

marks-bracket : (e : TypeExpr) (rest : Text) → marks e (b']' ∷ rest) ≡ (e, b']' ∷ rest)
unfolding marks bangs trim_left
marks-bracket e rest = refl

close_list-bracket :
    (e : TypeExpr) (rest : Text) → close_list e (b']' ∷ rest) ≡ marks (TypeExpr.list_of e) rest
unfolding close_list trim_left
close_list-bracket e rest = refl

span_name-append :
    (name rest : Text)
    → All (λ c. is_name_byte c ≡ true) name
    → Stops rest
    → span_name (name ++ rest) ≡ (name, rest)
unfolding span_name
span_name-append [] [] h k = refl
span_name-append [] (b ∷ bs) h k = rw k
span_name-append (b ∷ bs) rest h k = rw (h.0, span_name-append bs rest h.1 k)

-- Every byte of the text is printable.
to_text-no_space : (e : TypeExpr) → WellFormed e → All (λ c. starts_space c ≡ false) (to_text e)
unfolding to_text
to_text-no_space TypeExpr.nil h = elim h [ ]
to_text-no_space (TypeExpr.named name) h = names name h
  where
    go : (t : Text) → All (λ c. is_name_byte c ≡ true) t → All (λ c. starts_space c ≡ false) t
    go [] h = tt
    go (b ∷ bs) h = (name_byte_no_space b h.0, go bs h.1)

    names : (t : Text) → IsName t → All (λ c. starts_space c ≡ false) t
    names [] h = elim h [ ]
    names (b ∷ bs) h = go (b ∷ bs) h
to_text-no_space (TypeExpr.list_of t) h =
    (refl, All-append _ (to_text t) (b']' ∷ []) (to_text-no_space t h) (refl, tt))
to_text-no_space (TypeExpr.non_null_of t) h =
    All-append _ (to_text t) (b'!' ∷ []) (to_text-no_space t h) (refl, tt)

Leads-append : (s t : Text) → Leads s → Leads (s ++ t)
Leads-append [] t h = elim h [ ]
Leads-append (b ∷ bs) t h = h

to_text-Leads : (e : TypeExpr) → WellFormed e → Leads (to_text e)
unfolding to_text
to_text-Leads TypeExpr.nil h = elim h [ ]
to_text-Leads (TypeExpr.named []) h = elim h [ ]
to_text-Leads (TypeExpr.named (b ∷ bs)) h = name_byte_no_space b h.0
to_text-Leads (TypeExpr.list_of t) h = refl
to_text-Leads (TypeExpr.non_null_of t) h = Leads-append (to_text t) _ (to_text-Leads t h)

name_byte_no_bracket : (b : ℕ) → is_name_byte b ≡ true → b == b'[' ≡ false
name_byte_no_bracket b h = ground arith

list_or_name-named :
    (nested : TypeExpr × Text) (b : ℕ) (bs rest : Text)
    → IsName (b ∷ bs)
    → Stops rest
    → list_or_name nested (b ∷ (bs ++ rest)) ≡ marks (TypeExpr.named (b ∷ bs)) rest
unfolding list_or_name
list_or_name-named (inner, r) b bs rest h k =
    rw (name_byte_no_bracket b h.0, span_name-append (b ∷ bs) rest h k)

parse-step :
    (f : ℕ) (s : Text)
    → Leads s
    → parse_type_expr (suc f) s ≡ list_or_name (parse_type_expr f (tail_of s)) s
unfolding parse_type_expr
parse-step f s h = rw (trim_left-Leads s h)

list_or_name-list : (e : TypeExpr) (r s : Text) → list_or_name (e, r) (b'[' ∷ s) ≡ close_list e r
unfolding list_or_name span_name
list_or_name-list e r s = refl

-- With enough fuel the parser reads the text of an expression, and goes on with the marks behind it.
parse_type_expr-to_text :
    (e : TypeExpr) (f : ℕ) (rest : Text)
    → WellFormed e
    → Stops rest
    → length (to_text e) < f
    → parse_type_expr f (to_text e ++ rest) ≡ marks e rest
unfolding to_text
parse_type_expr-to_text TypeExpr.nil f rest h k l = elim h [ ]
parse_type_expr-to_text (TypeExpr.named []) f rest h k l = elim h [ ]
parse_type_expr-to_text (TypeExpr.named (b ∷ bs)) zero rest h k l = absurd (omega arith)
parse_type_expr-to_text (TypeExpr.named (b ∷ bs)) (suc f) rest h k l =
    parse-step f (b ∷ bs ++ rest) (name_byte_no_space b h.0) ∙ list_or_name-named _ b bs rest h k
parse_type_expr-to_text (TypeExpr.list_of t) zero rest h k l = absurd (omega arith)
parse_type_expr-to_text (TypeExpr.list_of t) (suc f) rest h k l =
    let shorter = length-append (to_text t) (b']' ∷ []) in
    let ih = parse_type_expr-to_text t f (b']' ∷ rest) h refl (omega (arith, shorter)) in
    parse-step f (b'[' ∷ (to_text t ++ (b']' ∷ [])) ++ rest) refl
    ∙ rw (append_assoc, ih, marks-bracket t rest, list_or_name-list, close_list-bracket t rest)
parse_type_expr-to_text (TypeExpr.non_null_of t) f rest h k l =
    let shorter = length-append (to_text t) (b'!' ∷ []) in
    let ih = parse_type_expr-to_text t f (b'!' ∷ rest) h refl (omega (arith, shorter)) in
    rw (append_assoc, ih, marks-bang t rest)

trim_space_left-Leads : (s : Text) → Leads s → trim_space_left s ≡ s
unfolding trim_space_left
trim_space_left-Leads [] h = elim h [ ]
trim_space_left-Leads (b ∷ []) h = ground arith
trim_space_left-Leads (b ∷ c ∷ []) h = ground arith
trim_space_left-Leads (b ∷ c ∷ d ∷ s) h = ground arith

trim_space-no_space : (s : Text) → All (λ c. starts_space c ≡ false) s → Leads s → trim_space s ≡ s
unfolding trim_space
trim_space-no_space [] h k = elim k [ ]
trim_space-no_space (b ∷ bs) h k = rw (trim_space_left-Leads (b ∷ bs) k) (right (b ∷ bs) h)
  where
    right : (t : Text) → All (λ c. starts_space c ≡ false) t → trim_space_right t ≡ t
    right [] h = refl
    right (c ∷ cs) h = rw (trim_space_right, trim_space_left-Leads (c ∷ cs) h.0, right cs h.1) refl

parse_top :
    (s : Text)
    → Leads s
    → trim_space s ≡ s
    → parse_graphql_type_expr s ≡ (parse_type_expr (suc (length s)) s).0
unfolding parse_graphql_type_expr
parse_top [] h e = elim h [ ]
parse_top (b ∷ bs) h e = rw e

marks-end : (e : TypeExpr) → marks e [] ≡ (e, [])
unfolding marks bangs trim_left
marks-end e = refl

-- Parsing the text of an expression whose names are proper gives the expression back.
pub parse_graphql_type_expr-to_text :
    (e : TypeExpr) → WellFormed e → parse_graphql_type_expr (to_text e) ≡ e
parse_graphql_type_expr-to_text e h =
    let first = to_text-Leads e h in
    let whole = parse_type_expr-to_text e (suc (length (to_text e))) [] h tt (omega arith) in
    parse_top (to_text e) first (trim_space-no_space _ (to_text-no_space e h) first)
    ∙ ap (λ (r : TypeExpr × Text). r.0) (rw append-nil at whole ∙ marks-end e)
