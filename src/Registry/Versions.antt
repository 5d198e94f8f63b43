-- ===== src/Registry/Versions.antt =====
-- Version lists of internal/registry/registry.go: how the lookups by version see the operations.
use omni_schema.Prelude.{◌≡◌, refl, arith, true, if◌then◌else◌}
use omni_schema.Prelude.{List, [], ◌∷◌, ◌++◌, map, none, some}
use omni_schema.Prelude.Bytes.{Text, text_eq, text_eq_iff}
use omni_schema.Prelude.Maps.{find, put, remove, find-put, find-remove}
use omni_schema.Registry.{SchemaMetadata, Registry, versions, with_version, without, activate_last}
use omni_schema.Registry.{last_version, is_found, activate_entry, deprecate_first, write_back}

-- The list of a name where the map is a put or a remove.
pub versions-put :
    (n k : Text) (vs : List SchemaMetadata) (r : Registry) (a : List (Text × Text))
    → versions n (record r { schemas = put k vs r.schemas; active = a })
      ≡ (if text_eq k n then vs else versions n r)
unfolding versions
versions-put n k vs r a = ground (arith, find-put n k vs r.schemas)

pub versions-remove :
    (n k : Text) (r : Registry) (a : List (Text × Text))
    → versions n (record r { schemas = remove k r.schemas; active = a })
      ≡ (if text_eq k n then [] else versions n r)
unfolding versions
versions-remove n k r a = ground (arith, find-remove n k r.schemas)

-- An operation on the entries that leaves their versions alone.
abbrev pub Keeps : (SchemaMetadata → SchemaMetadata) → Type 0
Keeps f = (m : SchemaMetadata) → (f m).version ≡ m.version

pub activate_entry-Keeps : (v : Text) → Keeps (activate_entry v)
activate_entry-Keeps v m = ground arith

pub with_version-map :
    (f : SchemaMetadata → SchemaMetadata)
    → Keeps f
    → (v : Text) (vs : List SchemaMetadata)
    → with_version v (map f vs) ≡ elim (with_version v vs) [ none ↦ none | some m ↦ some (f m) ]
unfolding with_version
with_version-map f keeps v [] = refl
with_version-map f keeps v (m ∷ ms) =
    let ih = with_version-map f keeps v ms in
    let head = keeps m in
    ground (arith, ih, head, text_eq_iff m.version v, text_eq_iff (f m).version v)

pub is_found-map :
    (f : SchemaMetadata → SchemaMetadata)
    → Keeps f
    → (v : Text) (vs : List SchemaMetadata)
    → is_found (with_version v (map f vs)) ≡ is_found (with_version v vs)
is_found-map f keeps v vs = ground (arith, with_version-map f keeps v vs)

pub is_found-append :
    (v : Text) (vs : List SchemaMetadata) (m : SchemaMetadata)
    → m.version ≡ v
    → is_found (with_version v (vs ++ (m ∷ []))) ≡ true
unfolding with_version
is_found-append v [] m same = ground (arith, text_eq_iff m.version v)
is_found-append v (n ∷ ns) m same = ground (arith, is_found-append v ns m same)

pub is_found-deprecate_first :
    (w v : Text) (vs : List SchemaMetadata)
    → is_found (with_version w (deprecate_first v vs)) ≡ is_found (with_version w vs)
unfolding with_version deprecate_first
is_found-deprecate_first w v [] = refl
is_found-deprecate_first w v (m ∷ ms) = ground (arith, is_found-deprecate_first w v ms)

pub with_version-version :
    (v : Text) (vs : List SchemaMetadata) (m : SchemaMetadata)
    → with_version v vs ≡ some m
    → m.version ≡ v
unfolding with_version
with_version-version v [] m found = ground arith
with_version-version v (n ∷ ns) m found =
    let ih = with_version-version v ns m in ground (arith, ih, text_eq_iff n.version v)

pub with_version-without :
    (w v : Text) (vs : List SchemaMetadata)
    → with_version w (without v vs) ≡ (if text_eq v w then none else with_version w vs)
unfolding with_version without
with_version-without w v [] = ground arith
with_version-without w v (m ∷ ms) =
    let ih = with_version-without w v ms in
    ground (arith, ih, text_eq_iff v w, text_eq_iff m.version v, text_eq_iff m.version w)

pub with_version-activate_last :
    (w : Text) (vs : List SchemaMetadata)
    → is_found (with_version w (activate_last vs)) ≡ is_found (with_version w vs)
unfolding with_version activate_last
with_version-activate_last w [] = refl
with_version-activate_last w (m ∷ []) = ground arith
with_version-activate_last w (m ∷ n ∷ ms) = ground (arith, with_version-activate_last w (n ∷ ms))

pub is_found-last_version :
    (m : SchemaMetadata) (ms : List SchemaMetadata)
    → is_found (with_version (last_version m ms) (m ∷ ms)) ≡ true
unfolding with_version last_version
is_found-last_version m [] = ground (arith, text_eq_iff m.version m.version)
is_found-last_version m (n ∷ ms) = ground (arith, is_found-last_version n ms)

-- What the shared pointers of a list see of a loop over it.
pub versions-write_back_map :
    (f : SchemaMetadata → SchemaMetadata) (n k : Text) (r : Registry) (a : List (Text × Text))
    → versions n (record (write_back k (map f (versions k r)) r) { active = a })
      ≡ (if text_eq k n then map f (versions k r) else versions n r)
unfolding versions
versions-write_back_map f n k r a = ground (
  arith,
  find-put n k (map f (elim (find k r.schemas) [ none ↦ [] | some vs ↦ vs ])) r.schemas,
  text_eq_iff k n,
)

pub versions-write_back_deprecate :
    (v n k : Text) (r : Registry)
    → versions n (write_back k (deprecate_first v (versions k r)) r)
      ≡ (if text_eq k n then deprecate_first v (versions k r) else versions n r)
unfolding versions deprecate_first
versions-write_back_deprecate v n k r = ground (
  arith,
  find-put n k (deprecate_first v (elim (find k r.schemas) [ none ↦ [] | some vs ↦ vs ])) r.schemas,
  text_eq_iff k n,
)

pub versions-put_same :
    (k : Text) (vs : List SchemaMetadata) (r : Registry) (a : List (Text × Text))
    → versions k (record r { schemas = put k vs r.schemas; active = a }) ≡ vs
versions-put_same k vs r a = ground (arith, versions-put k k vs r a, text_eq_iff k k)
