-- ===== src/Registry/Change.antt =====
-- What Activate and DeleteVersion of internal/registry/registry.go change, seen by the lookups.
use omni_schema.Prelude.{◌≡◌, refl, ap, ◌∙◌, arith, Bool, true, false, if◌then◌else◌, ◌&&◌}
use omni_schema.Prelude.{List, [], ◌∷◌, map, none, some, Option-cases, Bool-cases, inl, inr, All}
use omni_schema.Prelude.Bytes.{Text, text_eq, text_eq_iff}
use omni_schema.Prelude.Maps.{find, put, remove, find-put}
use omni_schema.Registry.{SchemaMetadata, Registry, versions, with_version, without}
use omni_schema.Registry.{activate, delete_version, keep_rest, get_active, get_version}
use omni_schema.Registry.{activate_last, is_found, activate_entry, is_version}
use omni_schema.Registry.Versions.{
  versions-put, versions-remove, activate_entry-Keeps, with_version-map, with_version-version,
  with_version-without, with_version-activate_last, versions-write_back_map,
}

-- The loop of Activate leaves the flag on exactly the entries with the version.
activate_entry-flags :
    (v : Text) (vs : List SchemaMetadata)
    → All (λ m. m.active ≡ text_eq m.version v) (map (activate_entry v) vs)
activate_entry-flags v [] = tt
activate_entry-flags v (m ∷ ms) = (ground arith, activate_entry-flags v ms)

-- The entry that GetActive finds is the version asked for, active and no longer deprecated, and in
-- the whole list of the name the active mark is on exactly the entries of that version.
abbrev pub Activated : Text → Text → Registry → Type 0
Activated k v s =
    ((m : SchemaMetadata) × (get_active k s ≡ some m)
      × (m.version ≡ v)
      × (m.active ≡ true)
      × (m.deprecated ≡ false))
    × All (λ m. m.active ≡ text_eq m.version v) (versions k s)

Activated-intro :
    (k v : Text) (r s : Registry)
    → find k s.active ≡ some v
    → versions k s ≡ map (activate_entry v) (versions k r)
    → is_found (with_version v (versions k r)) ≡ true
    → Activated k v s
unfolding get_active
Activated-intro k v r s named flagged found = elim (Option-cases (with_version v (versions k r))) [
  | inl missing ↦ ground (arith, found, missing)
  | inr (m, here) ↦
      let same = with_version-version v (versions k r) m here in
      let looked = with_version-map (activate_entry v) (activate_entry-Keeps v) v (versions k r) in
      (
        (
          activate_entry v m,
          rw (get_active, named, flagged, looked, here) refl,
          activate_entry-Keeps v m ∙ same,
          ground (arith, text_eq_iff m.version v, same),
          ground (arith, text_eq_iff m.version v, same),
        ),
        rw flagged (activate_entry-flags v (versions k r)),
      )
]

-- Where Activate returns no error, GetActive then finds the version that was asked for, marked active
-- and not deprecated, and no entry of another version is marked active.
pub activate-Activated :
    (disk : Bool) (k v : Text) (r : Registry)
    → (activate disk k v r).1 ≡ none
    → Activated k v (activate disk k v r).0
unfolding activate
activate-Activated disk k v r fine = elim (Bool-cases (is_found (with_version v (versions k r)))) [
  | inl found ↦ rw found (
      Activated-intro k v r _ (ground (arith, find-put k k v r.active, text_eq_iff k k))
        (versions-write_back_map (activate_entry v) k k r (put k v r.active)
          ∙ ground (arith, text_eq_iff k k))
        found)
  | inr missing ↦ ground (arith, missing, fine)
]

found-if :
    (w : Text) (b : Bool) (us vs : List SchemaMetadata)
    → is_found (with_version w (if b then us else vs))
      ≡ (if b then is_found (with_version w us) else is_found (with_version w vs))
found-if w true us vs = refl
found-if w false us vs = refl

get_version-keep_rest :
    (n w k v : Text) (rest : List SchemaMetadata) (r : Registry)
    → is_found (get_version n w (keep_rest k v rest r))
      ≡ (if text_eq k n then is_found (with_version w rest) else is_found (get_version n w r))
unfolding get_version keep_rest with_version
get_version-keep_rest n w k v [] r =
    ap (λ vs. is_found (with_version w vs)) (versions-remove n k r (remove k r.active))
    ∙ found-if w (text_eq k n) [] (versions n r)
get_version-keep_rest n w k v (m ∷ ms) r = elim (Bool-cases (is_version v (find k r.active))) [
  | inl current ↦ rw current (
      ap (λ vs. is_found (with_version w vs)) (versions-put n k (activate_last (m ∷ ms)) r _)
      ∙ found-if w (text_eq k n) (activate_last (m ∷ ms)) (versions n r)
      ∙ ap (λ b. if text_eq k n then b else is_found (with_version w (versions n r)))
          (with_version-activate_last w (m ∷ ms)))
  | inr other ↦ rw other (
      ap (λ vs. is_found (with_version w vs)) (versions-put n k (m ∷ ms) r r.active)
      ∙ found-if w (text_eq k n) (m ∷ ms) (versions n r))
]

-- After DeleteVersion of a version of a name, whatever the disk says, GetVersion does not find that
-- version of that name any more, and finds every other version of every name exactly where it found
-- it before.
pub get_version-delete_version :
    (disk : Bool) (n w k v : Text) (r : Registry)
    → is_found (get_version n w (delete_version disk k v r).0)
      ≡ (if text_eq k n && text_eq v w then false else is_found (get_version n w r))
unfolding delete_version get_version
get_version-delete_version disk n w k v r =
    get_version-keep_rest n w k v (without v (versions k r)) r ∙ elim (Bool-cases (text_eq k n)) [
      | inr other ↦ ground (arith, other)
      | inl same ↦
          let names : k ≡ n = (text_eq_iff k n).0 same in
          let left = with_version-without w v (versions k r) in
          let list : versions k r ≡ versions n r = ap (λ j. versions j r) names in
          ground (arith, same, left, list)
    ]
