-- ===== src/Registry/Shelf.antt =====
-- What internal/registry/registry.go promises for a name: its versions, in the order of their
-- registration, and the active one.
use omni_schema.Prelude.{ℕ, ◌≡◌, refl, arith, Bool, false, if◌then◌else◌}
use omni_schema.Prelude.{List, [], ◌∷◌, ◌++◌, map, Option, none, some, ◌||◌, not}
use omni_schema.Prelude.Bytes.{Text, text_eq, mem_text}
use omni_schema.Prelude.Maps.{find}
use omni_schema.Uir.Node.{Node}
use omni_schema.Registry.{
  SchemaMetadata, Registry, versions, with_version, without, register, activate, deprecate,
  delete_version, activate_last, last_version, is_found, deprecate_first,
}

-- What is kept of one name.
pub record Shelf : Type 0 where
  pub order : List Text
  pub active : Option Text

abbrev pub empty_shelf : Shelf
empty_shelf = record { order = []; active = none }

abbrev pub entry_version : SchemaMetadata → Text
entry_version m = m.version

abbrev pub shelf : Text → Registry → Shelf
shelf n r = record { order = map entry_version (versions n r); active = find n r.active }

-- The calls that change a registry, with what the hash, the disk and the clock say.
pub data Call : Type 0 where
  registration : Option Text → Bool → ℕ → Text → Text → List ℕ → Node → Call
  activation deprecation deletion : Bool → Text → Text → Call

abbrev pub run : Call → Registry → Registry
run (Call.registration hash disk now k format raw root) r =
    (register hash disk now k format raw root r).0
run (Call.activation disk k v) r = (activate disk k v r).0
run (Call.deprecation disk k v) r = (deprecate disk k v r).0
run (Call.deletion disk k v) r = (delete_version disk k v r).0

abbrev pub run_all : List Call → Registry → Registry
run_all [] r = r
run_all (c ∷ cs) r = run_all cs (run c r)

abbrev pub is_active : Text → Option Text → Bool
is_active v none = false
is_active v (some w) = text_eq w v

-- Register: a version goes to the end and becomes the active one, unless it is the active one
-- already, or has no name, no hash or no place on the disk.
unfoldable pub shelve : Option Text → Bool → Text → Shelf → Shelf
shelve hash saved [] s = s
shelve none saved (b ∷ bs) s = s
shelve (some h) saved (b ∷ bs) s =
    if is_active h s.active || not saved
    then s
    else record { order = s.order ++ (h ∷ []); active = some h }

-- Activate: a version that is there becomes the active one.
unfoldable pub choose : Text → Shelf → Shelf
choose v s = record s { active = if mem_text v s.order then some v else s.active }

unfoldable pub dropped : Text → List Text → List Text
dropped v [] = []
dropped v (w ∷ ws) = let rest = dropped v ws in if text_eq w v then rest else w ∷ rest

unfoldable pub last_text : Text → List Text → Text
last_text w [] = w
last_text w (u ∷ us) = last_text u us

abbrev pub shelf_of : Text → Option Text → List Text → Shelf
shelf_of v o [] = empty_shelf
shelf_of v o (w ∷ ws) = record {
  order = w ∷ ws;
  active = if is_active v o then some (last_text w ws) else o;
}

-- DeleteVersion: the version goes, and if it was the active one the last of the others becomes so.
unfoldable pub discard : Text → Shelf → Shelf
unfolding dropped last_text
discard v s = shelf_of v s.active (dropped v s.order)

abbrev pub on_name : Text → Text → (Shelf → Shelf) → Shelf → Shelf
on_name k n f s = if text_eq k n then f s else s

-- One call, for the name n of a registry that is in memory only or not.
abbrev pub next : Bool → Call → Text → Shelf → Shelf
next memory (Call.registration hash disk now k format raw root) n s =
    on_name k n (shelve hash (memory || disk) k) s
next memory (Call.activation disk k v) n s = on_name k n (choose v) s
next memory (Call.deprecation disk k v) n s = s
next memory (Call.deletion disk k v) n s = on_name k n (discard v) s

abbrev pub next_all : Bool → List Call → Text → Shelf → Shelf
next_all memory [] n s = s
next_all memory (c ∷ cs) n s = next_all memory cs n (next memory c n s)

pub map-versions :
    (f : SchemaMetadata → SchemaMetadata)
    → ((m : SchemaMetadata) → (f m).version ≡ m.version)
    → (vs : List SchemaMetadata) → map entry_version (map f vs) ≡ map entry_version vs
map-versions f keeps [] = refl
map-versions f keeps (m ∷ ms) = rw (keeps m, map-versions f keeps ms) refl

pub map-append :
    (vs : List SchemaMetadata) (m : SchemaMetadata)
    → map entry_version (vs ++ (m ∷ [])) ≡ map entry_version vs ++ (m.version ∷ [])
map-append [] m = refl
map-append (v ∷ vs) m = rw (map-append vs m) refl

pub deprecate_first-versions :
    (v : Text) (vs : List SchemaMetadata)
    → map entry_version (deprecate_first v vs) ≡ map entry_version vs
unfolding deprecate_first
deprecate_first-versions v [] = refl
deprecate_first-versions v (m ∷ ms) = ground (arith, deprecate_first-versions v ms)

pub activate_last-versions :
    (vs : List SchemaMetadata) → map entry_version (activate_last vs) ≡ map entry_version vs
unfolding activate_last
activate_last-versions [] = refl
activate_last-versions (m ∷ []) = refl
activate_last-versions (m ∷ n ∷ ms) = rw (activate_last-versions (n ∷ ms)) refl

pub without-dropped :
    (v : Text) (vs : List SchemaMetadata)
    → map entry_version (without v vs) ≡ dropped v (map entry_version vs)
unfolding without dropped
without-dropped v [] = refl
without-dropped v (m ∷ ms) = ground (arith, without-dropped v ms)

pub last_version-last_text :
    (m : SchemaMetadata) (ms : List SchemaMetadata)
    → last_version m ms ≡ last_text m.version (map entry_version ms)
unfolding last_version last_text
last_version-last_text m [] = refl
last_version-last_text m (n ∷ ms) = last_version-last_text n ms

pub is_found-mem_text :
    (v : Text) (vs : List SchemaMetadata)
    → is_found (with_version v vs) ≡ mem_text v (map entry_version vs)
unfolding with_version mem_text
is_found-mem_text v [] = refl
is_found-mem_text v (m ∷ ms) = ground (arith, is_found-mem_text v ms)
