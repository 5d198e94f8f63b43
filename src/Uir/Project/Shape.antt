-- ===== src/Uir/Project/Shape.antt =====
-- internal/uir/project.go: what a projection to a map holds, and what it needs of the data.
use omni_schema.Prelude.{◌≡◌, ◌≢◌, refl, arith, sym, ap, ◌∙◌, Bool, true, false, if◌then◌else◌}
use omni_schema.Prelude.{Option, none, some, List, [], ◌∷◌, ◌++◌, append-nil, append_assoc}
use omni_schema.Prelude.Bytes.{Text}
use omni_schema.Prelude.Result.{Result, ok, err, ok-injective}
use omni_schema.Uir.Types.{UirType, type_eq}
use omni_schema.Uir.Presence.{ConversionReport}
use omni_schema.Uir.Node.{Any, Node, Nodes, Head, append_node, new_head}
use omni_schema.Uir.Coerce.{Host, ProjectOptions, NameMatchPolicy, UnknownFieldPolicy}
use omni_schema.Uir.Project.{
  ProjectError, Projected, ◌▷◌, index_data_children, lookup_data_field, apply_missing, is_missing,
  is_required, has_default, copy_meta,
}
use omni_schema.Uir.Project.Parts.{unknown_fields_of, add_field, is_ignore, is_container}
use omni_schema.Uir.Project.Walk.{
  Level, project_field, project_fields, project_map, project_at, project_body, project_node,
  project, depth, Matched,
}

-- The keys of nodes, in order.
pub keys : Nodes → List Text
keys Nodes.none = []
keys (Nodes.more Node.nil ns) = [] ∷ keys ns
keys (Nodes.more (Node.node h cs) ns) = h.key ∷ keys ns

-- Some of the elements of a list, in its order.
pub data Subsequence : List Text → List Text → Type 0 where
  done : Subsequence [] []
  taken : (x : Text) (xs ys : List Text) → Subsequence xs ys → Subsequence (x ∷ xs) (x ∷ ys)
  left_out : (y : Text) (xs ys : List Text) → Subsequence xs ys → Subsequence xs (y ∷ ys)

-- The data has a field for each required field of a schema that has no default.
pub Supplied : Host → NameMatchPolicy → List (Text × Node) → Nodes → Type 0
Supplied host policy idx Nodes.none = Unit {0}
Supplied host policy idx (Nodes.more Node.nil fields) = Supplied host policy idx fields
Supplied host policy idx (Nodes.more (Node.node h ns) fields) =
    (is_required h ≡ true → has_default h ≡ false → lookup_data_field host idx h policy ≢ none)
    × Supplied host policy idx fields

-- Where the whole gives a value, the first part did and the second went on from it.
▷-ok :
    {E A B : Type 0} {r : ConversionReport} {b : B} (m : ConversionReport × Result E A)
    (k : ConversionReport → A → ConversionReport × Result E B)
    → (m ▷ k) ≡ (r, ok b)
    → (r' : ConversionReport) × (a : A) × (m ≡ (r', ok a)) × (k r' a ≡ (r, ok b))
▷-ok (r', ok a) k whole = (r', a, refl, whole)
▷-ok (r', err e) k whole = cc

keys-append_node :
    (out : Nodes) (h : Head) (cs : Nodes)
    → keys (append_node out (Node.node h cs)) ≡ keys out ++ (h.key ∷ [])
unfolding keys append_node
keys-append_node Nodes.none h cs = refl
keys-append_node (Nodes.more Node.nil ns) h cs = ap (λ t. [] ∷ t) (keys-append_node ns h cs)
keys-append_node (Nodes.more (Node.node c ds) ns) h cs =
    ap (λ t. c.key ∷ t) (keys-append_node ns h cs)

-- Keys added behind those of `out`, some of the keys of the fields.
abbrev Adds : Nodes → Nodes → Nodes → Type 0
Adds fields out out' =
    (ks : List Text) × (keys out' ≡ keys out ++ ks) × Subsequence ks (keys fields)

add_field-Adds :
    (h : Head) (ns fields : Nodes) (out : Nodes) (child : Node) (out' : Nodes)
    → Adds fields (add_field out h.key child) out'
    → Adds (Nodes.more (Node.node h ns) fields) out out'
unfolding keys
add_field-Adds h ns fields out Node.nil out' (ks, e, s) =
    (ks, e, Subsequence.left_out h.key ks (keys fields) s)
add_field-Adds h ns fields out (Node.node c cs) out' (ks, e, s) = (
  h.key ∷ ks,
  e ∙ rw (keys-append_node out (record c { key = h.key }) cs, append_assoc) refl,
  Subsequence.taken h.key ks (keys fields) s,
)

required_branch :
    (default required : Bool) (r : ConversionReport) (key : Text) (m n : Projected)
    → required ≡ true
    → default ≡ false
    → (if default then m else if required then (r, err (ProjectError.missing_required key)) else n)
      ≡ (r, err (ProjectError.missing_required key))
required_branch false true r key m n q d = refl
required_branch true required r key m n q d = cc
required_branch false false r key m n q d = cc

err-no_ok :
    {A : Type 0} {r r' : ConversionReport} {e : ProjectError} {a : A}
    → ¬ (◌≡◌ {A = ConversionReport × Result ProjectError A} (r, err e) (r', ok a))
err-no_ok h = cc

-- Where nothing was there before.
Adds-Subsequence :
    (fields out : Nodes) → Adds fields Nodes.none out → Subsequence (keys out) (keys fields)
unfolding keys
Adds-Subsequence fields out (ks, e, s) = rw e s

missing_fails :
    (host : Host) (opt : ProjectOptions) (r r' : ConversionReport) (h : Head) (n : Node)
    → is_required h ≡ true
    → has_default h ≡ false
    → apply_missing host opt r h h.key ≢ (r', ok n)
unfolding apply_missing
missing_fails host opt r r' h n q d e =
    err-no_ok (sym (required_branch (has_default h) (is_required h) r h.key _ _ q d) ∙ e)

same_keys :
    {r r' : ConversionReport} {out out' : Nodes} {seen seen' : List Text}
    → ◌≡◌ {A = Matched} (r, ok (out, seen)) (r', ok (out', seen'))
    → keys out' ≡ keys out
same_keys e = ap keys cc

value_same :
    {A : Type 0} {r r' : ConversionReport} {e e' : Result ProjectError A}
    → ◌≡◌ {A = ConversionReport × Result ProjectError A} (r, e) (r', e')
    → e ≡ e'
value_same h = ap (λ (p : ConversionReport × Result ProjectError _). p.1) h

branch_false : {A : Type 0} (b : Bool) (m n : A) → b ≡ false → (if b then m else n) ≡ n
branch_false false m n h = refl
branch_false true m n h = cc

ignored :
    (policy : UnknownFieldPolicy) (ds : Nodes) (seen : List Text) (out : Nodes)
    → is_ignore policy ≡ true
    → unknown_fields_of policy ds seen out ≡ ok out
unfolding unknown_fields_of
ignored UnknownFieldPolicy.ignore ds seen out h = refl
ignored UnknownFieldPolicy.strict ds seen out h = cc
ignored UnknownFieldPolicy.preserve ds seen out h = cc

module _ (rec : Level) (host : Host) (opt : ProjectOptions) (root : Node) where
  found_or_fails :
      (r r' : ConversionReport) (h : Head) (ns : Nodes) (found : Option Node) (n : Node)
      → project_field rec host opt root r h ns found ≡ (r', ok n)
      → is_required h ≡ true
      → has_default h ≡ false
      → found ≢ none
  unfolding project_field
  found_or_fails r r' h ns none n e q d none_found = missing_fails host opt r r' h n q d e
  found_or_fails r r' h ns (some child) n e q d none_found = cc

  project_fields-Shape :
      (idx : List (Text × Node)) (fields : Nodes) (r r' : ConversionReport) (out out' : Nodes)
      (seen seen' : List Text)
      → project_fields rec host opt root idx fields r out seen ≡ (r', ok (out', seen'))
      → Adds fields out out' × Supplied host opt.name_match idx fields
  unfolding project_fields keys Supplied
  project_fields-Shape idx Nodes.none r r' out out' seen seen' e =
      (([], rw (append-nil) (same_keys e), Subsequence.done), tt)
  project_fields-Shape idx (Nodes.more Node.nil fields) r r' out out' seen seen' e = cc
  project_fields-Shape idx (Nodes.more (Node.node h ns) fields) r r' out out' seen seen' e =
      let found = lookup_data_field host idx h opt.name_match in
      let (r₁, child, here, later) = ▷-ok (project_field rec host opt root r h ns found) _ e in
      let (adds, supplied) = project_fields-Shape idx fields r₁ r' _ out' _ seen' later in
      (
        add_field-Adds h ns fields out child out' adds,
        (found_or_fails r r₁ h ns found child here, supplied),
      )

  project_map-Shape :
      (r r' : ConversionReport) (d : Head) (ds : Nodes) (h : Head) (fields : Nodes) (name : Text)
      (n : Node)
      → is_missing d.presence ≡ false
      → is_ignore opt.unknown_fields ≡ true
      → project_map rec host opt root r (Node.node d ds) h fields name ≡ (r', ok n)
      → (idx : List (Text × Node)) × (p : Head) × (out : Nodes) × (index_data_children ds ≡ ok idx)
        × (n ≡ Node.node p out)
        × Subsequence (keys out) (keys fields)
        × Supplied host opt.name_match idx fields
  unfolding project_map
  project_map-Shape r r' d ds h fields name n m i e =
      let (r₁, idx, indexed, e₁) =
        ▷-ok (r, index_data_children ds) _ (sym (branch_false (is_missing d.presence) _ _ m) ∙ e) in
      let (r₂, got, ran, e₂) =
        ▷-ok (project_fields rec host opt root idx fields r₁ Nodes.none []) _ e₁ in
      let (r₃, out, kept, e₃) =
        ▷-ok (r₂, unknown_fields_of opt.unknown_fields ds got.1 got.0) _ e₂ in
      let (adds, supplied) = project_fields-Shape idx fields r₁ r₂ Nodes.none got.0 [] got.1 ran in
      let same : got.0 ≡ out =
        ok-injective (sym (ignored opt.unknown_fields ds got.1 got.0 i) ∙ value_same kept) in
      (
        idx,
        copy_meta (new_head UirType.map name Any.nil) h,
        got.0,
        value_same indexed,
        rw same (sym (ok-injective (value_same e₃))),
        Adds-Subsequence fields got.0 adds,
        supplied,
      )

is_container-no_ref : (t : UirType) → is_container t ≡ true → type_eq t UirType.ref ≡ false
is_container-no_ref t c = ground arith

container_body :
    (rec : Level) (host : Host) (opt : ProjectOptions) (root : Node) (r : ConversionReport)
    (source : Node) (h : Head) (fields : Nodes) (name : Text)
    → is_container h.type ≡ true
    → project_body rec host opt root r source (Node.node h fields) name
      ≡ project_map rec host opt root r source h fields name
unfolding project_body project_at
container_body rec host opt root r source h fields name c =
    rw (is_container-no_ref h.type c, c) refl

-- Where Project gives a node for data that is there, for a schema that is a map, a union, an interface
-- or a definition, and for the policy that ignores unknown fields: the keys of its children are some
-- of those of the fields of the schema, in their order, and the data has a field for each required
-- one without a default.
pub project-Shape :
    (host : Host) (opt : ProjectOptions) (root : Node) (r r' : ConversionReport) (d : Head)
    (ds : Nodes) (h : Head) (fields : Nodes) (n : Node)
    → is_missing d.presence ≡ false
    → is_ignore opt.unknown_fields ≡ true
    → is_container h.type ≡ true
    → project host opt root r (Node.node d ds) (Node.node h fields) ≡ (r', ok n)
    → (idx : List (Text × Node)) × (p : Head) × (out : Nodes) × (index_data_children ds ≡ ok idx)
      × (n ≡ Node.node p out)
      × Subsequence (keys out) (keys fields)
      × Supplied host opt.name_match idx fields
unfolding project project_node
project-Shape host opt root r r' d ds h fields n m i c e =
    let level = project_node (depth (Node.node d ds)) host opt root in
    project_map-Shape level host opt root r r' d ds h fields h.key n m i
      (sym (container_body level host opt root r (Node.node d ds) h fields h.key c) ∙ e)
