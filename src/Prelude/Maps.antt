-- ===== src/Prelude/Maps.antt =====
-- Go maps with string keys as association lists.
use mathlib.Core.Path.{◌≡◌, refl}
use mathlib.Core.Option.{Option, none, some}
use mathlib.Core.List.{List, [], ◌∷◌}
use native.Mathlib.Omega.{arith}
use omni_schema.Prelude.Tests.{if◌then◌else◌}
use omni_schema.Prelude.Bytes.{Text, text_eq, text_eq_iff}

module _ {V : Type 0} where
  -- v, ok := m[k]
  unfoldable pub find : Text → List (Text × V) → Option V
  find k [] = none
  find k ((j, v) ∷ m) = if text_eq j k then some v else find k m

  -- m[k] = v
  unfoldable pub put : Text → V → List (Text × V) → List (Text × V)
  put k v [] = (k, v) ∷ []
  put k v ((j, w) ∷ m) = if text_eq j k then (k, v) ∷ m else (j, w) ∷ put k v m

  -- delete(m, k)
  unfoldable pub remove : Text → List (Text × V) → List (Text × V)
  remove k [] = []
  remove k ((j, w) ∷ m) = let rest = remove k m in if text_eq j k then rest else (j, w) ∷ rest

  pub find-put :
      (j k : Text) (v : V) (m : List (Text × V))
      → find j (put k v m) ≡ (if text_eq k j then some v else find j m)
  unfolding find put
  find-put j k v [] = refl
  find-put j k v ((i, w) ∷ m) =
      let ih = find-put j k v m in
      ground (arith, ih, text_eq_iff i k, text_eq_iff i j, text_eq_iff k j)

  pub find-remove :
      (j k : Text) (m : List (Text × V))
      → find j (remove k m) ≡ (if text_eq k j then none else find j m)
  unfolding find remove
  find-remove j k [] = ground arith
  find-remove j k ((i, w) ∷ m) =
      let ih = find-remove j k m in
      ground (arith, ih, text_eq_iff i k, text_eq_iff i j, text_eq_iff k j)
