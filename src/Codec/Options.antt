-- ===== src/Codec/Options.antt =====
-- internal/codec/options.go: the schema of a call of a codec.
use omni_schema.Prelude.{Bool, if◌then◌else◌, []}
use omni_schema.Prelude.Bytes.{Text, is_empty}
use omni_schema.Prelude.Result.{Result, ok, err}
use omni_schema.Uir.Presence.{BytesPolicy}
use omni_schema.Uir.Node.{Node, find_named_type}
use omni_schema.Uir.Coerce.{LossinessPolicy}
use omni_schema.Uir.Schema.{SchemaError, resolve_payload_type}

pub record Options : Type 0 where
  pub schema : Node
  pub type_name : Text
  pub bytes : BytesPolicy
  pub lossiness : LossinessPolicy
  pub require_type : Bool

unfoldable pub type_schema : Options → Node
type_schema opts =
    if is_empty opts.type_name then opts.schema else find_named_type opts.schema opts.type_name

abbrev pub or_fallback : Node → Result SchemaError Node → Node
or_fallback fallback (err e) = fallback
or_fallback fallback (ok Node.nil) = fallback
or_fallback fallback (ok (Node.node h ns)) = Node.node h ns

abbrev pub named_or : Node → Text → Node → Node
named_or fallback name Node.nil = fallback
named_or fallback name (Node.node h ns) = find_named_type (Node.node h ns) name

abbrev pub payload_or : Node → Node → Node
payload_or fallback Node.nil = fallback
payload_or fallback (Node.node h ns) =
    or_fallback fallback (resolve_payload_type (Node.node h ns) [])

unfoldable pub require_type : Options → Node → Node
require_type opts fallback =
    if is_empty opts.type_name
    then payload_or fallback opts.schema
    else named_or fallback opts.type_name opts.schema
