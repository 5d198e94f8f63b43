-- ===== src/Registry/Invariant.antt =====
-- The invariant of internal/registry/registry.go over any sequence of its operations: a name with
-- versions has an active one, and it is one of them.
use omni_schema.Prelude.Bytes.{is_empty}
use omni_schema.Prelude.{ℕ, ◌≡◌, refl, ap, ◌∙◌, arith, Bool, true, false, if◌then◌else◌}
use omni_schema.Prelude.{
  List, [], ◌∷◌, map, Option, none, some, Option-cases, Bool-cases, ◌||◌, inl, inr,
}
use omni_schema.Prelude.Bytes.{Text, text_eq, text_eq_iff}
use omni_schema.Prelude.Maps.{find, put, remove, find-put, find-remove}
use omni_schema.Uir.Node.{Node}
use omni_schema.Registry.{SchemaMetadata, Registry, versions, with_version, without}
use omni_schema.Registry.{register, activate, deprecate, delete_version, keep_rest}
use omni_schema.Registry.{activate_last, last_version, is_found, set_active, activate_entry}
use omni_schema.Registry.{add_version, already_active, deprecate_first, is_version}
use omni_schema.Registry.Versions.{
  versions-put, versions-remove, activate_entry-Keeps, is_found-map, is_found-append,
  is_found-deprecate_first, with_version-without, with_version-activate_last, is_found-last_version,
  versions-write_back_map, versions-write_back_deprecate,
}

-- The entry that the map `active` names is in the list; with none named the list is empty.
abbrev pub Backed : Option Text → List SchemaMetadata → Type 0
Backed none vs = vs ≡ []
Backed (some v) vs = is_found (with_version v vs) ≡ true

abbrev pub IsSound : Registry → Type 0
IsSound r = (n : Text) → Backed (find n r.active) (versions n r)

Backed-map :
    (f : SchemaMetadata → SchemaMetadata)
    → ((m : SchemaMetadata) → (f m).version ≡ m.version)
    → (o : Option Text) (vs : List SchemaMetadata) → Backed o vs
    → Backed o (map f vs)
Backed-map f keeps none vs backed = rw backed refl
Backed-map f keeps (some v) vs backed = is_found-map f keeps v vs ∙ backed

Backed-deprecate :
    (w : Text) (o : Option Text) (vs : List SchemaMetadata)
    → Backed o vs
    → Backed o (deprecate_first w vs)
unfolding deprecate_first
Backed-deprecate w none vs backed = rw backed refl
Backed-deprecate w (some v) vs backed = is_found-deprecate_first v w vs ∙ backed

-- One name is given a list and an active version, the others keep theirs.
pub Sound-at :
    (k : Text) (r s : Registry) (o : Option Text) (vs : List SchemaMetadata)
    → ((n : Text) → find n s.active ≡ (if text_eq k n then o else find n r.active))
    → ((n : Text) → versions n s ≡ (if text_eq k n then vs else versions n r))
    → Backed o vs
    → IsSound r
    → IsSound s
Sound-at k r s o vs acts lists backed sound n = rw (acts n, lists n) (choose (text_eq k n))
  where
    choose : (b : Bool) → Backed (if b then o else find n r.active) (if b then vs else versions n r)
    choose true = backed
    choose false = sound n

add_version-IsSound :
    (disk : Bool) (now : ℕ) (k format : Text) (raw : List ℕ) (root : Node) (hash : Text)
    (r : Registry)
    → IsSound r
    → IsSound (add_version disk now k format raw root hash r).0
unfolding add_version
add_version-IsSound disk now k format raw root hash r sound =
    elim (Bool-cases (is_empty r.storage_path || disk)) [
      | inl saved ↦ rw saved (
          Sound-at k r _ (some hash) _ (λ n. find-put n k hash r.active)
            (λ n. versions-put n k _ r _)
            (is_found-append hash (map (set_active false) (versions k r)) _ refl) sound)
      | inr failed ↦ rw failed (
          Sound-at k r _ (find k r.active) (map (set_active false) (versions k r))
            (restored (find k r.active)) (λ n. versions-put n k _ r _)
            (Backed-map (set_active false) (λ m. refl) (find k r.active) (versions k r) (sound k))
            sound)
    ]
  where
    restored :
        (o : Option Text) (n : Text)
        → find n (elim o [
          | none ↦ remove k (put k hash r.active)
          | some prev ↦ put k prev (put k hash r.active)
        ])
          ≡ (if text_eq k n then o else find n r.active)
    restored none n =
        ground (arith, find-remove n k (put k hash r.active), find-put n k hash r.active)
    restored (some prev) n =
        ground (arith, find-put n k prev (put k hash r.active), find-put n k hash r.active)

pub register-IsSound :
    (hash : Option Text) (disk : Bool) (now : ℕ) (k format : Text) (raw : List ℕ) (root : Node)
    (r : Registry)
    → IsSound r
    → IsSound (register hash disk now k format raw root r).0
unfolding register
register-IsSound hash disk now [] format raw root r sound = sound
register-IsSound none disk now (b ∷ bs) format raw root r sound = sound
register-IsSound (some h) disk now (b ∷ bs) format raw root r sound =
    elim (Option-cases (already_active (b ∷ bs) h r)) [
      | inl new ↦
          rw (new, register) (add_version-IsSound disk now (b ∷ bs) format raw root h r sound)
      | inr (m, same) ↦ rw (same, register) sound
    ]

pub activate-IsSound :
    (disk : Bool) (k v : Text) (r : Registry) → IsSound r → IsSound (activate disk k v r).0
unfolding activate
activate-IsSound disk k v r sound = elim (Bool-cases (is_found (with_version v (versions k r)))) [
  | inl found ↦ rw found (
      Sound-at k r _ (some v) (map (activate_entry v) (versions k r)) (λ n. find-put n k v r.active)
        (λ n. versions-write_back_map (activate_entry v) n k r _)
        (is_found-map (activate_entry v) (activate_entry-Keeps v) v (versions k r) ∙ found) sound)
  | inr missing ↦ rw missing (
      Sound-at k r _ (find k r.active) (map (activate_entry v) (versions k r))
        (λ n. ground (arith, text_eq_iff k n))
        (λ n. versions-write_back_map (activate_entry v) n k r _)
        (Backed-map (activate_entry v) (activate_entry-Keeps v) _ (versions k r) (sound k)) sound)
]

pub deprecate-IsSound :
    (disk : Bool) (k v : Text) (r : Registry) → IsSound r → IsSound (deprecate disk k v r).0
unfolding deprecate
deprecate-IsSound disk k v r sound = elim (Bool-cases (is_found (with_version v (versions k r)))) [
  | inl found ↦ rw found (
      Sound-at k r _ (find k r.active) (deprecate_first v (versions k r))
        (λ n. ground (arith, text_eq_iff k n)) (λ n. versions-write_back_deprecate v n k r)
        (Backed-deprecate v _ (versions k r) (sound k)) sound)
  | inr missing ↦ rw missing sound
]

-- What is left after the filter is still backed, unless the version was the active one.
Backed-without :
    (v : Text) (o : Option Text) (vs : List SchemaMetadata) (m : SchemaMetadata)
    (ms : List SchemaMetadata)
    → Backed o vs
    → without v vs ≡ m ∷ ms
    → is_version v o ≡ false
    → Backed o (m ∷ ms)
unfolding without
Backed-without v none vs m ms backed left other = ground (arith, ap (without v) backed ∙ refl)
Backed-without v (some w) vs m ms backed left other =
    rw (← left) (ground (arith, with_version-without w v vs, text_eq_iff v w, text_eq_iff w v))

keep_rest-IsSound :
    (k v : Text) (rest : List SchemaMetadata) (r : Registry)
    → without v (versions k r) ≡ rest
    → IsSound r
    → IsSound (keep_rest k v rest r)
unfolding keep_rest
keep_rest-IsSound k v [] r left sound =
    Sound-at k r _ none [] (λ n. find-remove n k r.active) (λ n. versions-remove n k r _) refl sound
keep_rest-IsSound k v (m ∷ ms) r left sound = elim (Bool-cases (is_version v (find k r.active))) [
  | inl current ↦ rw current (
      Sound-at k r _ (some (last_version m ms)) (activate_last (m ∷ ms))
        (λ n. find-put n k (last_version m ms) r.active) (λ n. versions-put n k _ r _)
        (with_version-activate_last (last_version m ms) (m ∷ ms) ∙ is_found-last_version m ms)
        sound)
  | inr other ↦ rw other (
      Sound-at k r _ (find k r.active) (m ∷ ms) (λ n. ground (arith, text_eq_iff k n))
        (λ n. versions-put n k _ r _)
        (Backed-without v (find k r.active) (versions k r) m ms (sound k) left other) sound)
]

pub delete_version-IsSound :
    (disk : Bool) (k v : Text) (r : Registry) → IsSound r → IsSound (delete_version disk k v r).0
unfolding delete_version
delete_version-IsSound disk k v r sound = keep_rest-IsSound k v _ r refl sound
