-- ===== src/Registry.antt =====
-- internal/registry/registry.go: named schemas with versions, one of them active. The state is the
-- Registry; a pointer to a SchemaMetadata is its place in the version list of its name. The semantic
-- hash, the clock and the outcome of a write to disk are inputs of an operation.
pub mod Compare
pub mod Versions
pub mod Invariant
pub mod Outcome
pub mod Change
pub mod Lifecycle
pub mod Shelf
pub mod Kept
pub mod Refines
use omni_schema.Prelude.Bytes.{is_empty}
use omni_schema.Prelude.{ℕ, ◌≡◌, refl, Bool, true, false, not, ◌&&◌, ◌||◌, if◌then◌else◌, ◌==◌}
use omni_schema.Prelude.{List, [], ◌∷◌, ◌++◌, map, Option, none, some}
use omni_schema.Prelude.Bytes.{Text, codes, text_eq}
use omni_schema.Prelude.Result.{Result, ok, err}
use omni_schema.Prelude.Maps.{find, put, remove}
use omni_schema.Uir.Node.{Node}

pub record SchemaMetadata : Type 0 where
  pub tenant : Text
  pub name : Text
  pub version : Text
  pub format : Text
  pub raw_content : List ℕ
  pub root : Node
  pub timestamp : ℕ
  pub deprecated : Bool
  pub active : Bool

pub record Registry : Type 0 where
  pub schemas : List (Text × List SchemaMetadata)
  pub active : List (Text × Text)
  pub storage_path : Text
  pub loaded : Bool

pub data RegistryError : Type 0 where
  empty_name marshal_failed persistence_failed version_not_found : RegistryError

unfoldable pub new_registry : Registry
new_registry = record { schemas = []; active = []; storage_path = []; loaded = false }

unfoldable pub ready : Registry → Bool
ready r = r.loaded || is_empty r.storage_path

unfoldable pub namespaced : Text → Text → Text
namespaced tenant name = (if is_empty tenant then codes "_" else tenant) ++ (b'/' ∷ name)

-- List: a copy of r.schemas[name], the empty slice where the name is missing.
unfoldable pub versions : Text → Registry → List SchemaMetadata
versions name r = elim (find name r.schemas) [ none ↦ [] | some vs ↦ vs ]

-- The first entry of a list with the version.
unfoldable pub with_version : Text → List SchemaMetadata → Option SchemaMetadata
with_version v [] = none
with_version v (m ∷ ms) = if text_eq m.version v then some m else with_version v ms

-- The part of a name before its first slash, `_` if it has none.
tenant_before : Text → Option Text
tenant_before [] = none
tenant_before (b ∷ bs) =
    let rest = tenant_before bs in
    if b == b'/' then some [] else elim rest [ none ↦ none | some t ↦ some (b ∷ t) ]

unfoldable pub tenant_of : Text → Text
unfolding tenant_before
tenant_of name = elim (tenant_before name) [ none ↦ codes "_" | some t ↦ t ]

abbrev pub set_active : Bool → SchemaMetadata → SchemaMetadata
set_active b m = record m { active = b }

unfoldable pub get_version : Text → Text → Registry → Option SchemaMetadata
get_version name version r = with_version version (versions name r)

unfoldable pub get_active : Text → Registry → Option SchemaMetadata
get_active name r = elim (find name r.active) [
  | none ↦ none
  | some v ↦ with_version v (versions name r)
]

-- saveToFileLocked where a path is set: the write may fail, which `disk` says.
abbrev pub saves : Bool → Registry → Bool
saves disk r = is_empty r.storage_path || disk

-- The registration of a version that is not the active one.
unfoldable pub add_version :
    Bool
    → ℕ
    → Text
    → Text
    → List ℕ
    → Node
    → Text
    → Registry
    → Registry × Result RegistryError SchemaMetadata
add_version disk now name format raw root hash r =
    let meta : SchemaMetadata = record {
      tenant = tenant_of name;
      name = name;
      version = hash;
      format = format;
      raw_content = raw;
      root = root;
      timestamp = now;
      deprecated = false;
      active = true;
    } in
    let cleared = map (set_active false) (versions name r) in
    let added = record r {
      schemas = put name (cleared ++ (meta ∷ [])) r.schemas;
      active = put name hash r.active;
    } in
    let rolled_back = record r {
      schemas = put name cleared r.schemas;
      active = elim (find name r.active) [
        | none ↦ remove name (put name hash r.active)
        | some prev ↦ put name prev (put name hash r.active)
      ];
    } in
    if saves disk r then (added, ok meta) else (rolled_back, err RegistryError.persistence_failed)

-- The entry that Register returns as it is: the active version has the hash.
unfoldable pub already_active : Text → Text → Registry → Option SchemaMetadata
already_active name hash r = elim (find name r.active) [
  | none ↦ none
  | some v ↦ if text_eq v hash then with_version hash (versions name r) else none
]

-- Register; `hash` is the semantic hash of the root, none where it cannot be marshalled.
unfoldable pub register :
    Option Text
    → Bool
    → ℕ
    → Text
    → Text
    → List ℕ
    → Node
    → Registry
    → Registry × Result RegistryError SchemaMetadata
register hash disk now [] format raw root r = (r, err RegistryError.empty_name)
register none disk now (b ∷ bs) format raw root r = (r, err RegistryError.marshal_failed)
register (some h) disk now (b ∷ bs) format raw root r = elim (already_active (b ∷ bs) h r) [
  | some m ↦ (r, ok m)
  | none ↦ add_version disk now (b ∷ bs) format raw root h r
]

abbrev pub is_found : {A : Type 0} → Option A → Bool
is_found none = false
is_found (some a) = true

-- One entry under Activate.
abbrev pub activate_entry : Text → SchemaMetadata → SchemaMetadata
activate_entry v m =
    if text_eq m.version v
    then record m { active = true; deprecated = false }
    else record m { active = false }

-- Writes the list of a name back, where the name is in the map: the entries are shared pointers.
abbrev pub write_back : Text → List SchemaMetadata → Registry → Registry
write_back name vs r = record r {
  schemas = elim (find name r.schemas) [ none ↦ r.schemas | some old ↦ put name vs r.schemas ];
}

abbrev pub save_result : Bool → Registry → Option RegistryError
save_result disk r = if saves disk r then none else some RegistryError.persistence_failed

-- Activate. The loop writes the flags of every entry before it is known whether one was found.
unfoldable pub activate : Bool → Text → Text → Registry → Registry × Option RegistryError
activate disk name version r =
    let flagged = write_back name (map (activate_entry version) (versions name r)) r in
    if is_found (with_version version (versions name r))
    then (record flagged { active = put name version r.active }, save_result disk r)
    else (flagged, some RegistryError.version_not_found)

-- Marks the first entry with the version.
unfoldable pub deprecate_first : Text → List SchemaMetadata → List SchemaMetadata
deprecate_first v [] = []
deprecate_first v (m ∷ ms) =
    if text_eq m.version v then record m { deprecated = true } ∷ ms else m ∷ deprecate_first v ms

unfoldable pub deprecate : Bool → Text → Text → Registry → Registry × Option RegistryError
deprecate disk name version r =
    if is_found (with_version version (versions name r))
    then (write_back name (deprecate_first version (versions name r)) r, save_result disk r)
    else (r, some RegistryError.version_not_found)

unfoldable pub without : Text → List SchemaMetadata → List SchemaMetadata
without v [] = []
without v (m ∷ ms) = let rest = without v ms in if text_eq m.version v then rest else m ∷ rest

-- `out[len(out)-1].Active = true`
unfoldable pub activate_last : List SchemaMetadata → List SchemaMetadata
activate_last [] = []
activate_last (m ∷ []) = set_active true m ∷ []
activate_last (m ∷ n ∷ ms) = m ∷ activate_last (n ∷ ms)

-- The version of the last entry of `m ∷ ms`.
unfoldable pub last_version : SchemaMetadata → List SchemaMetadata → Text
last_version m [] = m.version
last_version m (n ∷ ms) = last_version n ms

abbrev is_version : Text → Option Text → Bool
is_version v none = is_empty v
is_version v (some w) = text_eq w v

-- The three ways out of DeleteVersion's filter.
unfoldable pub keep_rest : Text → Text → List SchemaMetadata → Registry → Registry
keep_rest name version [] r = record r {
  schemas = remove name r.schemas;
  active = remove name r.active;
}
keep_rest name version (m ∷ ms) r =
    if is_version version (find name r.active)
    then record r {
      schemas = put name (activate_last (m ∷ ms)) r.schemas;
      active = put name (last_version m ms) r.active;
    }
    else record r { schemas = put name (m ∷ ms) r.schemas }

unfoldable pub delete_version : Bool → Text → Text → Registry → Registry × Option RegistryError
delete_version disk name version r =
    (keep_rest name version (without version (versions name r)) r, save_result disk r)
