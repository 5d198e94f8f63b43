-- ===== src/Registry/Outcome.antt =====
-- What the caller of internal/registry/registry.go can rely on after each call.
use omni_schema.Prelude.Bytes.{is_empty}
use omni_schema.Prelude.{ℕ, ◌≡◌, refl, ap, ◌∙◌, arith, Bool, true, false, if◌then◌else◌, ◌||◌}
use omni_schema.Prelude.{List, [], ◌∷◌, map, Option, none, some, Option-cases, Bool-cases, inl, inr}
use omni_schema.Prelude.Bytes.{Text, text_eq, text_eq_iff}
use omni_schema.Prelude.Result.{Result, ok, err}
use omni_schema.Prelude.Maps.{find, put, remove, find-put, find-remove}
use omni_schema.Uir.Node.{Node}
use omni_schema.Registry.{SchemaMetadata, Registry, RegistryError, versions, with_version}
use omni_schema.Registry.{register, get_active}
use omni_schema.Registry.{is_found, set_active, add_version}
use omni_schema.Registry.{already_active}
use omni_schema.Registry.Versions.{
  versions-put, versions-put_same, is_found-append, with_version-version,
}

-- A registry in which GetActive of the name finds an entry with the version.
abbrev pub Serves : Text → Text → Registry → Type 0
Serves k v s = (m : SchemaMetadata) × (get_active k s ≡ some m) × (m.version ≡ v)

Serves-intro :
    (k v : Text) (s : Registry)
    → find k s.active ≡ some v
    → is_found (with_version v (versions k s)) ≡ true
    → Serves k v s
unfolding get_active
Serves-intro k v s named found = elim (Option-cases (with_version v (versions k s))) [
  | inl missing ↦ ground (arith, found, missing)
  | inr (m, here) ↦
      (m, rw (get_active, named, here) refl, with_version-version v (versions k s) m here)
]

-- The two ways on from the comparison with the active version.
abbrev reuse :
    Registry × Result RegistryError SchemaMetadata
    → Registry
    → Option SchemaMetadata
    → Registry × Result RegistryError SchemaMetadata
reuse added r none = added
reuse added r (some a) = (r, ok a)

add_version-Serves :
    (disk : Bool) (now : ℕ) (k format : Text) (raw : List ℕ) (root : Node) (h : Text) (r : Registry)
    (m : SchemaMetadata)
    → (add_version disk now k format raw root h r).1 ≡ ok m
    → Serves k h (add_version disk now k format raw root h r).0
unfolding add_version
add_version-Serves disk now k format raw root h r m done =
    elim (Bool-cases (is_empty r.storage_path || disk)) [
      | inl saved ↦ rw saved (
          Serves-intro k h _ (ground (arith, find-put k k h r.active, text_eq_iff k k)) (
            ap (λ vs. is_found (with_version h vs)) (versions-put_same k _ r (put k h r.active))
            ∙ is_found-append h (map (set_active false) (versions k r)) _ refl))
      | inr failed ↦ cc
    ]

already_active-Serves :
    (k h : Text) (r : Registry) (m : SchemaMetadata) → already_active k h r ≡ some m → Serves k h r
unfolding already_active
already_active-Serves k h r m same = on (find k r.active) refl same
  where
    on :
        (o : Option Text)
        → find k r.active ≡ o
        → elim o [
          | none ↦ none
          | some v ↦ if text_eq v h then with_version h (versions k r) else none
        ]
          ≡ some m
        → Serves k h r
    on none unnamed found = cc
    on (some v) named found =
        let agree : v ≡ h = ground (arith, text_eq_iff v h, found) in
        let first : with_version h (versions k r) ≡ some m = ground (arith, found) in
        Serves-intro k h r (named ∙ ap some agree) (ap is_found first)

-- Where Register succeeds for a root whose semantic hash is h, whether or not the version was there
-- before, GetActive of the name then finds an entry and its version is h.
pub register-Serves :
    (h : Text) (disk : Bool) (now : ℕ) (k format : Text) (raw : List ℕ) (root : Node) (r : Registry)
    (m : SchemaMetadata)
    → (register (some h) disk now k format raw root r).1 ≡ ok m
    → Serves k h (register (some h) disk now k format raw root r).0
unfolding register
register-Serves h disk now [] format raw root r m done = cc
register-Serves h disk now (b ∷ bs) format raw root r m done =
    on (already_active (b ∷ bs) h r) refl done
  where
    added : Registry × Result RegistryError SchemaMetadata
    added = add_version disk now (b ∷ bs) format raw root h r

    on :
        (o : Option SchemaMetadata)
        → already_active (b ∷ bs) h r ≡ o
        → (reuse added r o).1 ≡ ok m
        → Serves (b ∷ bs) h (reuse added r o).0
    on none new fine = add_version-Serves disk now (b ∷ bs) format raw root h r m fine
    on (some a) same fine = already_active-Serves (b ∷ bs) h r a same

-- A list of versions but for which of them is marked active.
abbrev pub unmarked : List SchemaMetadata → List SchemaMetadata
unmarked = map (set_active false)

unmarked-unmarked : (vs : List SchemaMetadata) → unmarked (unmarked vs) ≡ unmarked vs
unmarked-unmarked [] = refl
unmarked-unmarked (m ∷ ms) = ap (λ ns. set_active false m ∷ ns) (unmarked-unmarked ms)

-- Two registries that differ at most in the active marks of their entries.
abbrev pub Restores : Registry → Registry → Type 0
Restores s r =
    (n : Text)
    → (find n s.active ≡ find n r.active) × (unmarked (versions n s) ≡ unmarked (versions n r))

add_version-Restores :
    (disk : Bool) (now : ℕ) (k format : Text) (raw : List ℕ) (root : Node) (h : Text) (r : Registry)
    (e : RegistryError)
    → (add_version disk now k format raw root h r).1 ≡ err e
    → Restores (add_version disk now k format raw root h r).0 r
unfolding add_version
add_version-Restores disk now k format raw root h r e failed n =
    elim (Bool-cases (is_empty r.storage_path || disk)) [
      | inl saved ↦ cc
      | inr unsaved ↦ rw unsaved (
        restored (find k r.active) refl,
        rw (versions-put n k (unmarked (versions k r)) r _) (lists (text_eq k n) refl),
      )
    ]
  where
    restored :
        (o : Option Text)
        → find k r.active ≡ o
        → find n (elim o [
          | none ↦ remove k (put k h r.active)
          | some prev ↦ put k prev (put k h r.active)
        ])
          ≡ find n r.active
    restored none before = ground (
      arith,
      before,
      find-remove n k (put k h r.active),
      find-put n k h r.active,
      text_eq_iff k n,
    )
    restored (some prev) before = ground (
      arith,
      before,
      find-put n k prev (put k h r.active),
      find-put n k h r.active,
      text_eq_iff k n,
    )

    lists :
        (b : Bool)
        → text_eq k n ≡ b
        → unmarked (if b then unmarked (versions k r) else versions n r) ≡ unmarked (versions n r)
    lists true same =
        unmarked-unmarked (versions k r)
        ∙ ap (λ j. unmarked (versions j r)) ((text_eq_iff k n).0 same)
    lists false other = refl

-- Where Register returns an error, be it the name, the hash or the write to disk, every name has the
-- active version it had and the list of versions it had, but for the active marks of the entries.
pub register-Restores :
    (hash : Option Text) (disk : Bool) (now : ℕ) (k format : Text) (raw : List ℕ) (root : Node)
    (r : Registry) (e : RegistryError)
    → (register hash disk now k format raw root r).1 ≡ err e
    → Restores (register hash disk now k format raw root r).0 r
unfolding register
register-Restores hash disk now [] format raw root r e failed = λ n. (refl, refl)
register-Restores none disk now (b ∷ bs) format raw root r e failed = λ n. (refl, refl)
register-Restores (some h) disk now (b ∷ bs) format raw root r e failed =
    on (already_active (b ∷ bs) h r) failed
  where
    added : Registry × Result RegistryError SchemaMetadata
    added = add_version disk now (b ∷ bs) format raw root h r

    on : (o : Option SchemaMetadata) → (reuse added r o).1 ≡ err e → Restores (reuse added r o).0 r
    on none bad = add_version-Restores disk now (b ∷ bs) format raw root h r e bad
    on (some a) bad = λ n. (refl, refl)
