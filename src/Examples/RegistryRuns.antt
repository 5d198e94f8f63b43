-- ===== src/Examples/RegistryRuns.antt =====
-- Runs of internal/registry.
use omni_schema.Prelude.{ℕ, ◌≡◌, refl, Bool, true, false, List, [], ◌∷◌, some, ◌↔◌}
use omni_schema.Prelude.{if◌then◌else◌, ◌&&◌}
use omni_schema.Prelude.Bytes.{Text, codes, text_eq}
use omni_schema.Prelude.Maps.{find, put}
use omni_schema.Uir.Types.{UirType}
use omni_schema.Uir.Node.{Node, new_node, Any}
use omni_schema.Registry.{Registry, SchemaMetadata, RegistryError, new_registry, register, activate}
use omni_schema.Registry.{
  versions, get_active, get_version, is_found, delete_version, already_active,
}
use omni_schema.Registry.{add_version, tenant_of, with_version}
use omni_schema.Registry.Lifecycle.{Step, Reachable, Reachable-IsSound, get_active-Reachable}
use omni_schema.Registry.Invariant.{IsSound}
use omni_schema.Registry.Shelf.{
  Call, shelf, run_all, next_all, empty_shelf, shelve, discard, dropped, last_text,
}
use omni_schema.Registry.Refines.{run_all-next_all}
use omni_schema.Registry.Outcome.{Serves, Restores, register-Serves, register-Restores}
use omni_schema.Registry.Change.{Activated, activate-Activated, get_version-delete_version}

abbrev stored : Registry
stored = record new_registry { storage_path = codes "r.json" }

abbrev root : Node
root = new_node UirType.string (codes "Root") Any.nil

abbrev one : Registry
one = (register (some (codes "h1")) true 1 (codes "t/a") (codes "json") [] root stored).0

abbrev two : Registry
two = (register (some (codes "h2")) true 2 (codes "t/a") (codes "json") [] root one).0

one-Reachable : Reachable one
one-Reachable =
    Reachable.stepped (Reachable.started (codes "r.json"))
      (Step.registered (some (codes "h1")) true 1 (codes "t/a") (codes "json") [] root stored)

Reachable-IsSound_example : IsSound one
Reachable-IsSound_example = Reachable-IsSound one-Reachable

get_active-Reachable_example :
    (is_found (get_active (codes "t/b") one) ≡ false) ↔ (versions (codes "t/b") one ≡ [])
get_active-Reachable_example = get_active-Reachable one-Reachable (codes "t/b")

abbrev entry : Text → Bool → ℕ → SchemaMetadata
entry v active now = record {
  tenant = codes "t";
  name = codes "t/a";
  version = v;
  format = codes "json";
  raw_content = [];
  root = root;
  timestamp = now;
  deprecated = false;
  active = active;
}

register-Serves_example : Serves (codes "t/a") (codes "h2") two
unfolding register add_version already_active find tenant_of text_eq new_registry versions put
register-Serves_example =
    register-Serves (codes "h2") true 2 (codes "t/a") (codes "json") [] root one
      (entry (codes "h2") true 2) refl

register-Restores_example :
    Restores (register (some (codes "h2")) false 2 (codes "t/a") (codes "json") [] root one).0 one
unfolding register add_version already_active find tenant_of text_eq new_registry versions put
register-Restores_example =
    register-Restores (some (codes "h2")) false 2 (codes "t/a") (codes "json") [] root one
      RegistryError.persistence_failed refl

activate-Activated_example :
    Activated (codes "t/a") (codes "h1") (activate true (codes "t/a") (codes "h1") two).0
unfolding activate versions with_version register add_version already_active find tenant_of text_eq
    put new_registry
activate-Activated_example = activate-Activated true (codes "t/a") (codes "h1") two refl

get_version-delete_version_example :
    is_found (
      get_version (codes "t/a") (codes "h1") (delete_version true (codes "t/a") (codes "h2") two).0)
    ≡ (if text_eq (codes "t/a") (codes "t/a") && text_eq (codes "h2") (codes "h1")
        then false
        else is_found (get_version (codes "t/a") (codes "h1") two))
get_version-delete_version_example =
    get_version-delete_version true (codes "t/a") (codes "h1") (codes "t/a") (codes "h2") two

-- Two versions, a third that cannot be written, and the second deleted again.
abbrev calls : List Call
calls =
    Call.registration (some (codes "h1")) true 1 (codes "t/a") (codes "json") [] root
    ∷ Call.registration (some (codes "h2")) true 2 (codes "t/a") (codes "json") [] root
    ∷ Call.registration (some (codes "h3")) false 3 (codes "t/a") (codes "json") [] root
    ∷ Call.deletion true (codes "t/a") (codes "h2")
    ∷ []

next_all_run :
    next_all false calls (codes "t/a") empty_shelf
    ≡ record { order = codes "h1" ∷ []; active = some (codes "h1") }
unfolding shelve discard dropped last_text text_eq
next_all_run = refl

run_all-next_all_example :
    shelf (codes "t/a") (run_all calls (record new_registry { storage_path = codes "r.json" }))
    ≡ next_all false calls (codes "t/a") empty_shelf
run_all-next_all_example = run_all-next_all calls (codes "t/a") (codes "r.json")
