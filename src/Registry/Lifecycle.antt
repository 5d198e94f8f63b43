-- ===== src/Registry/Lifecycle.antt =====
-- The registry of internal/registry/registry.go as a state machine: one step is one locked method.
use omni_schema.Prelude.{ℕ, ◌≡◌, refl, arith, Bool, false, ◌↔◌}
use omni_schema.Prelude.{List, [], ◌∷◌, Option, none, some}
use omni_schema.Prelude.Bytes.{Text}
use omni_schema.Prelude.Maps.{find}
use omni_schema.Uir.Node.{Node}
use omni_schema.Registry.{
  SchemaMetadata, Registry, versions, with_version, new_registry, get_active,
}
use omni_schema.Registry.{register, activate, deprecate, delete_version, is_found}
use omni_schema.Registry.Invariant.{
  IsSound, Backed, register-IsSound, activate-IsSound, deprecate-IsSound, delete_version-IsSound,
}

-- One call, whatever its arguments, the hash, the clock and the disk are.
pub data Step : Registry → Registry → Type 0 where
  registered :
      (hash : Option Text) (disk : Bool) (now : ℕ) (k format : Text) (raw : List ℕ) (root : Node)
      (r : Registry)
      → Step r (register hash disk now k format raw root r).0
  activated : (disk : Bool) (k v : Text) (r : Registry) → Step r (activate disk k v r).0
  deprecated : (disk : Bool) (k v : Text) (r : Registry) → Step r (deprecate disk k v r).0
  deleted : (disk : Bool) (k v : Text) (r : Registry) → Step r (delete_version disk k v r).0

-- The states that calls lead to from NewRegistry, with any storage path set on it.
pub data Reachable : Registry → Type 0 where
  started : (path : Text) → Reachable (record new_registry { storage_path = path })
  stepped : {r s : Registry} → Reachable r → Step r s → Reachable s

pub Step-IsSound : {r s : Registry} → Step r s → IsSound r → IsSound s
Step-IsSound (registered hash disk now k format raw root r) sound =
    register-IsSound hash disk now k format raw root r sound
Step-IsSound (activated disk k v r) sound = activate-IsSound disk k v r sound
Step-IsSound (deprecated disk k v r) sound = deprecate-IsSound disk k v r sound
Step-IsSound (deleted disk k v r) sound = delete_version-IsSound disk k v r sound

-- In every state that calls of Register, Activate, Deprecate and DeleteVersion lead to from an empty
-- registry, failed writes to disk included, the active map names for each schema one of its versions,
-- and names none exactly where the schema has no versions.
pub Reachable-IsSound : {r : Registry} → Reachable r → IsSound r
unfolding new_registry versions find
Reachable-IsSound (started path) n = refl
Reachable-IsSound (stepped reached step) n = Step-IsSound step (Reachable-IsSound reached) n

-- In every such state GetActive finds an entry exactly for the names that have versions.
pub get_active-Reachable :
    {r : Registry}
    → Reachable r
    → (n : Text) → (is_found (get_active n r) ≡ false) ↔ (versions n r ≡ [])
unfolding get_active with_version
get_active-Reachable {r} reached n =
    on (find n r.active) (versions n r) (Reachable-IsSound reached n)
  where
    on :
        (o : Option Text) (vs : List SchemaMetadata)
        → Backed o vs
        → (is_found (elim o [ none ↦ none | some v ↦ with_version v vs ]) ≡ false) ↔ (vs ≡ [])
    on none vs backed = (λ e. backed, λ e. refl)
    on (some v) [] backed = ground arith
    on (some v) (m ∷ ms) backed = ground (arith, backed)
