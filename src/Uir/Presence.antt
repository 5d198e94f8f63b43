-- ===== src/Uir/Presence.antt =====
-- internal/uir/presence.go: presence, cardinality, byte policies and the conversion report.
pub mod Report
use omni_schema.Prelude.{ℕ, Bool, true, false, ◌||◌, ◌==◌, ltb, if◌then◌else◌}
use omni_schema.Prelude.{List, [], ◌∷◌, ◌++◌, Option, none, some}
use omni_schema.Prelude.Bytes.{Text, codes}

pub data Presence : Type 0 where
  present null missing defaulted : Presence

unfoldable pub presence_name : Presence → Text
presence_name Presence.null = codes "null"
presence_name Presence.missing = codes "missing"
presence_name Presence.defaulted = codes "defaulted"
presence_name _ = codes "present"

pub data FieldCardinality : Type 0 where
  optional required : FieldCardinality

pub data BytesPolicy : Type 0 where
  base64 hex reject scalar : BytesPolicy

-- In the order of the `iota` block, which `kind > r.Kind` compares.
pub data ConversionKind : Type 0 where
  lossless safe_coerce lossy unsupported : ConversionKind

abbrev pub severity : ConversionKind → ℕ
severity ConversionKind.lossless = 0
severity ConversionKind.safe_coerce = 1
severity ConversionKind.lossy = 2
severity ConversionKind.unsupported = 3

unfoldable pub kind_name : ConversionKind → Text
kind_name ConversionKind.safe_coerce = codes "safe_coercion"
kind_name ConversionKind.lossy = codes "lossy"
kind_name ConversionKind.unsupported = codes "unsupported"
kind_name _ = codes "lossless"

pub record ConversionReport : Type 0 where
  pub kind : ConversionKind
  pub notes : List Text
  pub lossy : Bool
  pub fields : List Text

-- `&ConversionReport{}`
abbrev pub empty_report : ConversionReport
empty_report = record { kind = ConversionKind.lossless; notes = []; lossy = false; fields = [] }

abbrev append_text : List Text → Text → List Text
append_text xs [] = xs
append_text xs (b ∷ bs) = xs ++ ((b ∷ bs) ∷ [])

abbrev is_lossy : ConversionKind → Bool
is_lossy ConversionKind.lossy = true
is_lossy ConversionKind.unsupported = true
is_lossy _ = false

-- The body of Add on a report.
unfoldable pub add_to : ConversionReport → ConversionKind → Text → Text → ConversionReport
add_to r kind field note = record {
  kind = if ltb (severity r.kind) (severity kind) then kind else r.kind;
  notes = append_text r.notes note;
  lossy = if is_lossy kind then true else r.lossy;
  fields = append_text r.fields field;
}

-- `(r *ConversionReport) Add`; `none` is the nil receiver.
unfoldable pub add :
    Option ConversionReport → ConversionKind → Text → Text → Option ConversionReport
add none kind field note = none
add (some r) kind field note = some (add_to r kind field note)
