-- ===== src/Registry/Compare.antt =====
-- internal/registry/registry.go: Diff and Compatibility. Diff is the paths of the changes by their
-- kinds; the host gives the order in which a loop meets the entries of a map.
use omni_schema.Prelude.{Option, none, some, List, [], ◌∷◌}
use omni_schema.Prelude.Bytes.{Text}
use omni_schema.Uir.Node.{Node}
use omni_schema.Uir.Coerce.{Host}
use omni_schema.Uir.Schema.Diff.{
  ChangeKind, FieldChange, Class, diff_recursive, compatibility_class,
}

-- The map of Diff, which has these three keys.
pub record Changed : Type 0 where
  pub added : List Text
  pub removed : List Text
  pub changed : List Text

unfoldable pub file_change : FieldChange → ChangeKind → Changed → Changed
file_change c ChangeKind.added m = record m { added = c.path ∷ m.added }
file_change c ChangeKind.removed m = record m { removed = c.path ∷ m.removed }
file_change c ChangeKind.changed m = record m { changed = c.path ∷ m.changed }

-- The loop, whose appends keep the order of the changes.
unfoldable pub file_changes : List FieldChange → Changed
unfolding file_change
file_changes [] = record { added = []; removed = []; changed = [] }
file_changes (c ∷ cs) = file_change c c.kind (file_changes cs)

unfoldable pub diff : Host → Node → Node → Option Changed
unfolding file_changes diff_recursive
diff host a b = elim (diff_recursive host a b) [ none ↦ none | some cs ↦ some (file_changes cs) ]

unfoldable pub compatibility : Host → Node → Node → Option Class
unfolding compatibility_class
compatibility host a b = compatibility_class host a b
