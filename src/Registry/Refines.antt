-- ===== src/Registry/Refines.antt =====
-- The registry of internal/registry/registry.go against what it keeps of a name: the versions in the
-- order of their registration, and the active one.
use omni_schema.Prelude.{◌≡◌, refl, ap, ◌∙◌, arith}
use omni_schema.Prelude.{List, [], ◌∷◌, none, some}
use omni_schema.Prelude.Bytes.{Text, is_empty}
use omni_schema.Prelude.Maps.{find}
use omni_schema.Registry.{
  SchemaMetadata, Registry, versions, without, new_registry, register, activate, deprecate,
  delete_version, keep_rest, add_version,
}
use omni_schema.Registry.Invariant.{IsSound}
use omni_schema.Registry.Lifecycle.{Step, Step-IsSound}
use omni_schema.Registry.Shelf.{shelf, empty_shelf, Call, run, run_all, next, next_all}
use omni_schema.Registry.Kept.{register-shelf, activate-shelf, deprecate-shelf, keep_rest-shelf}

run-shelf :
    (c : Call) (n : Text) (r : Registry)
    → IsSound r
    → shelf n (run c r) ≡ next (is_empty r.storage_path) c n (shelf n r)
unfolding delete_version
run-shelf (Call.registration hash disk now k format raw root) n r sound =
    register-shelf hash disk now k format raw root n r sound
run-shelf (Call.activation disk k v) n r sound = activate-shelf disk k v n r
run-shelf (Call.deprecation disk k v) n r sound = deprecate-shelf disk k v n r
run-shelf (Call.deletion disk k v) n r sound =
    keep_rest-shelf k v n (without v (versions k r)) r refl sound

run-Step : (c : Call) (r : Registry) → Step r (run c r)
run-Step (Call.registration hash disk now k format raw root) r =
    Step.registered hash disk now k format raw root r
run-Step (Call.activation disk k v) r = Step.activated disk k v r
run-Step (Call.deprecation disk k v) r = Step.deprecated disk k v r
run-Step (Call.deletion disk k v) r = Step.deleted disk k v r

run-storage_path : (c : Call) (r : Registry) → (run c r).storage_path ≡ r.storage_path
unfolding register add_version activate deprecate delete_version keep_rest
run-storage_path (Call.registration none disk now [] format raw root) r = refl
run-storage_path (Call.registration (some h) disk now [] format raw root) r = refl
run-storage_path (Call.registration none disk now (b ∷ bs) format raw root) r = refl
run-storage_path (Call.registration (some h) disk now (b ∷ bs) format raw root) r = ground arith
run-storage_path (Call.activation disk k v) r = ground arith
run-storage_path (Call.deprecation disk k v) r = ground arith
run-storage_path (Call.deletion disk k v) r = on (without v (versions k r))
  where
    on : (rest : List SchemaMetadata) → (keep_rest k v rest r).storage_path ≡ r.storage_path
    on [] = refl
    on (m ∷ ms) = ground arith

run_all-shelf :
    (cs : List Call) (n : Text) (r : Registry)
    → IsSound r
    → shelf n (run_all cs r) ≡ next_all (is_empty r.storage_path) cs n (shelf n r)
run_all-shelf [] n r sound = refl
run_all-shelf (c ∷ cs) n r sound =
    run_all-shelf cs n (run c r) (Step-IsSound (run-Step c r) sound)
    ∙ ap (λ path. next_all (is_empty path) cs n (shelf n (run c r))) (run-storage_path c r)
    ∙ ap (next_all (is_empty r.storage_path) cs n) (run-shelf c n r sound)

-- Whatever calls of Register, Activate, Deprecate and DeleteVersion were made on a new registry, with
-- any storage path and any failed writes: the versions that it has of a name, in their order, and the
-- one that is active are what the same calls make of the empty list. A registered version goes to the
-- end and is active, unless it is active already or could not be written, an activated one is active if
-- it is there, Deprecate changes neither, and where the active one is deleted the last one becomes it.
pub run_all-next_all :
    (cs : List Call) (n path : Text)
    → shelf n (run_all cs (record new_registry { storage_path = path }))
      ≡ next_all (is_empty path) cs n empty_shelf
unfolding new_registry versions find
run_all-next_all cs n path =
    run_all-shelf cs n (record new_registry { storage_path = path }) (λ k. refl)
