-- ===== src/Codec/Target/Kept.antt =====
-- internal/codec/cbor_target.go: what the targets that limit single values take.
use omni_schema.Prelude.{◌+◌, ◌≤◌, ◌≡◌, ◌↔◌, refl, arith, Bool, true, false, not, ◌&&◌, leb}
use omni_schema.Prelude.Bytes.{Text, codes, text_eq, mem_text}
use omni_schema.Prelude.Result.{>>-both, ok}
use omni_schema.Uir.Node.{Node, Nodes, Head}
use omni_schema.Uir.Project.Walk.{depth, depths}
use omni_schema.Codec.Formats.{Unicode, normalize_format}
use omni_schema.Codec.Target.{
  Place, below, root_place, is_null, is_non_finite, check_graphql, check_float, check_table,
  check_message, check_node, validate_node, validate_nodes, check_root, validate_cbor_target,
}

-- The targets that refuse single values only, with what they refuse.
pub data Refuses : Text → (Head → Bool) → Type 0 where
  json : Refuses (codes "json") is_non_finite
  odata : Refuses (codes "odata") is_non_finite
  protobuf : Refuses (codes "protobuf") is_null
  msgpack : Refuses (codes "msgpack") (λ h. false)
  cbor : Refuses (codes "cbor") (λ h. false)

-- No node of a graph is bad.
unfoldable mutual
  pub nowhere : (Head → Bool) → Node → Bool
  nowhere bad Node.nil = true
  nowhere bad (Node.node h ns) = not (bad h) && nowhere_in bad ns

  pub nowhere_in : (Head → Bool) → Nodes → Bool
  nowhere_in bad Nodes.none = true
  nowhere_in bad (Nodes.more n ns) = nowhere bad n && nowhere_in bad ns

&&-both : (a b : Bool) → (a && b) ≡ true → (a ≡ true) × (b ≡ true)
&&-both true b h = (refl, h)
&&-both false b h = cc

check_node_iff :
    {target : Text} {bad : Head → Bool} (at : Place) (h : Head) (ns : Nodes)
    → Refuses target bad
    → (check_node target at h ns ≡ ok tt) ↔ ((leb at.depth 64 && not (bad h)) ≡ true)
unfolding check_node check_graphql check_float check_table check_message text_eq mem_text
check_node_iff at h ns Refuses.json = ground arith
check_node_iff at h ns Refuses.odata = ground arith
check_node_iff at h ns Refuses.protobuf = ground arith
check_node_iff at h ns Refuses.msgpack = ground arith
check_node_iff at h ns Refuses.cbor = ground arith

module _ {target : Text} {bad : Head → Bool} (refuses : Refuses target bad) where
  mutual
    unfolding validate_node validate_nodes nowhere nowhere_in depth depths

    validate_node_sound :
        (at : Place) (n : Node)
        → at.depth ≤ 65
        → validate_node target at n ≡ ok tt
        → (nowhere bad n ≡ true) × (at.depth + depth n ≤ 65)
    validate_node_sound at Node.nil shallow valid = (refl, omega arith)
    validate_node_sound at (Node.node h ns) shallow valid =
        let (own, rest) = >>-both (check_node target at h ns) _ valid in
        let (level, good) = &&-both (leb at.depth 64) _ ((check_node_iff at h ns refuses).0 own) in
        let (clean, low) = validate_nodes_sound (below at h) ns (ground arith) rest in
        (rw (good) clean, omega arith)

    validate_nodes_sound :
        (at : Place) (ns : Nodes)
        → at.depth ≤ 65
        → validate_nodes target at ns ≡ ok tt
        → (nowhere_in bad ns ≡ true) × (at.depth + depths ns ≤ 65)
    validate_nodes_sound at Nodes.none shallow valid = (refl, omega arith)
    validate_nodes_sound at (Nodes.more n ns) shallow valid =
        let (one, rest) = >>-both (validate_node target at n) _ valid in
        let (clean, low) = validate_node_sound at n shallow one in
        let (others, lows) = validate_nodes_sound at ns shallow rest in
        (rw (clean) others, omega arith)

  mutual
    unfolding validate_node validate_nodes nowhere nowhere_in depth depths

    validate_node_complete :
        (at : Place) (n : Node)
        → nowhere bad n ≡ true
        → at.depth + depth n ≤ 65
        → validate_node target at n ≡ ok tt
    validate_node_complete at Node.nil clean low = refl
    validate_node_complete at (Node.node h ns) clean low =
        let (good, others) = &&-both (not (bad h)) _ clean in
        let own = (check_node_iff at h ns refuses).1 (ground arith) in
        rw (own) (validate_nodes_complete (below at h) ns others (omega arith))

    validate_nodes_complete :
        (at : Place) (ns : Nodes)
        → nowhere_in bad ns ≡ true
        → at.depth + depths ns ≤ 65
        → validate_nodes target at ns ≡ ok tt
    validate_nodes_complete at Nodes.none clean low = refl
    validate_nodes_complete at (Nodes.more n ns) clean low =
        let (one, others) = &&-both (nowhere bad n) _ clean in
        rw (validate_node_complete at n one (omega arith))
          (validate_nodes_complete at ns others (omega arith))

check_root-free :
    {target : Text} {bad : Head → Bool} (n : Node)
    → Refuses target bad
    → check_root target n ≡ ok tt
unfolding check_root text_eq mem_text
check_root-free Node.nil r = refl
check_root-free (Node.node h ns) Refuses.json = refl
check_root-free (Node.node h ns) Refuses.odata = refl
check_root-free (Node.node h ns) Refuses.protobuf = refl
check_root-free (Node.node h ns) Refuses.msgpack = refl
check_root-free (Node.node h ns) Refuses.cbor = refl

-- For a target that comes to json, odata, protobuf, msgpack or cbor, ValidateCBORTarget takes exactly
-- the graphs of at most 65 levels in which no node is what the target refuses: a float that is not
-- finite for json and odata, a null for protobuf, and nothing for msgpack and cbor.
pub validate_cbor_target-nowhere :
    (unicode : Unicode) (target : Text) (bad : Head → Bool) (n : Node)
    → Refuses (normalize_format unicode target) bad
    → (validate_cbor_target unicode n target ≡ ok tt) ↔ ((nowhere bad n ≡ true) × (depth n ≤ 65))
unfolding validate_cbor_target
validate_cbor_target-nowhere unicode target bad n refuses = (
  λ valid.
      let rest = (>>-both (check_root (normalize_format unicode target) n) _ valid).1 in
      let (clean, low) = validate_node_sound refuses root_place n (omega arith) rest in
      (clean, omega arith),
  λ kept.
      let (clean, low) = kept in
      rw (check_root-free n refuses)
        (validate_node_complete refuses root_place n clean (omega arith)),
)
