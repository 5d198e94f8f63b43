-- ===== src/Registry/Kept.antt =====
-- internal/registry/registry.go: what each method makes of the versions of a name.
use omni_schema.Prelude.{ℕ, ◌≡◌, refl, sym, ap, ◌∙◌, arith, Bool, true, false, if◌then◌else◌}
use omni_schema.Prelude.{List, [], ◌∷◌, map, Option, none, some, Option-cases, Bool-cases, inl, inr}
use omni_schema.Prelude.Bytes.{Text, text_eq, text_eq_iff}
use omni_schema.Prelude.Maps.{find, put, remove, find-put, find-remove}
use omni_schema.Uir.Node.{Node}
use omni_schema.Registry.{
  SchemaMetadata, Registry, versions, with_version, without, register, activate, deprecate,
  keep_rest, activate_last, last_version, is_found, set_active, activate_entry, add_version,
  already_active, deprecate_first, is_version, saves,
}
use omni_schema.Registry.Versions.{
  versions-put, versions-remove, versions-write_back_map, versions-write_back_deprecate,
  activate_entry-Keeps,
}
use omni_schema.Registry.Invariant.{IsSound, Backed}
use omni_schema.Registry.Shelf.{
  Shelf, shelf, entry_version, is_active, shelve, choose, discard, dropped, on_name, map-versions,
  map-append, deprecate_first-versions, activate_last-versions, without-dropped,
  last_version-last_text, is_found-mem_text,
}

-- A registry in which one name has other versions and another active one.
abbrev ChangesAt : Text → Registry → Registry → Option Text → List SchemaMetadata → Type 0
ChangesAt k r s o vs =
    ((n : Text) → find n s.active ≡ (if text_eq k n then o else find n r.active))
    × ((n : Text) → versions n s ≡ (if text_eq k n then vs else versions n r))

shelf-ChangesAt :
    (k n : Text) (r s : Registry) (o : Option Text) (vs : List SchemaMetadata) (f : Shelf → Shelf)
    → ChangesAt k r s o vs
    → record { order = map entry_version vs; active = o } ≡ f (shelf k r)
    → shelf n s ≡ on_name k n f (shelf n r)
shelf-ChangesAt k n r s o vs f (acts, lists) e = elim (Bool-cases (text_eq k n)) [
  | inl same ↦ rw (acts n, lists n, same) (e ∙ ap (λ j. f (shelf j r)) ((text_eq_iff k n).0 same))
  | inr other ↦ rw (acts n, lists n, other) refl
]

shelf-Unchanged :
    (k n : Text) (r : Registry) (f : Shelf → Shelf)
    → shelf k r ≡ f (shelf k r)
    → shelf n r ≡ on_name k n f (shelf n r)
shelf-Unchanged k n r f e = elim (Bool-cases (text_eq k n)) [
  | inl same ↦ let names : k ≡ n = (text_eq_iff k n).0 same in rw same (rw names at e)
  | inr other ↦ rw other refl
]

already_active-is_active :
    (k h : Text) (r : Registry)
    → IsSound r
    → is_found (already_active k h r) ≡ is_active h (find k r.active)
unfolding already_active
already_active-is_active k h r sound = on (find k r.active) (sound k)
  where
    on :
        (o : Option Text)
        → Backed o (versions k r)
        → is_found (elim o [
          | none ↦ none
          | some v ↦ if text_eq v h then with_version h (versions k r) else none
        ])
          ≡ is_active h o
    on none backed = refl
    on (some v) backed = ground (arith, backed, text_eq_iff v h)

-- The rollback of the active map.
find-restored :
    (k hash : Text) (m : List (Text × Text)) (o : Option Text) (n : Text)
    → find n (elim o [ none ↦ remove k (put k hash m) | some prev ↦ put k prev (put k hash m) ])
      ≡ (if text_eq k n then o else find n m)
find-restored k hash m none n = ground (arith, find-remove n k (put k hash m), find-put n k hash m)
find-restored k hash m (some prev) n =
    ground (arith, find-put n k prev (put k hash m), find-put n k hash m)

add_version-shelf :
    (disk : Bool) (now : ℕ) (b : ℕ) (bs format : Text) (raw : List ℕ) (root : Node) (h : Text)
    (n : Text) (r : Registry)
    → is_active h (find (b ∷ bs) r.active) ≡ false
    → shelf n (add_version disk now (b ∷ bs) format raw root h r).0
      ≡ on_name (b ∷ bs) n (shelve (some h) (saves disk r) (b ∷ bs)) (shelf n r)
unfolding add_version shelve
add_version-shelf disk now b bs format raw root h n r fresh =
    let k = b ∷ bs in
    let cleared = map-versions (set_active false) (λ m. refl) (versions k r) in
    elim (Bool-cases (saves disk r)) [
      | inl saved ↦ rw saved (
          shelf-ChangesAt k n r _ (some h) _ (shelve (some h) true k)
            (λ j. find-put j k h r.active, λ j. versions-put j k _ r _)
            (rw (fresh, map-append (map (set_active false) (versions k r)) _, cleared) refl))
      | inr failed ↦ rw failed (
          shelf-ChangesAt k n r _ (find k r.active) _ (shelve (some h) false k)
            (find-restored k h r.active (find k r.active), λ j. versions-put j k _ r _)
            (rw (fresh, cleared) refl))
    ]

pub register-shelf :
    (hash : Option Text) (disk : Bool) (now : ℕ) (k format : Text) (raw : List ℕ) (root : Node)
    (n : Text) (r : Registry)
    → IsSound r
    → shelf n (register hash disk now k format raw root r).0
      ≡ on_name k n (shelve hash (saves disk r) k) (shelf n r)
unfolding register shelve
register-shelf hash disk now [] format raw root n r sound =
    shelf-Unchanged [] n r (shelve hash (saves disk r) []) refl
register-shelf none disk now (b ∷ bs) format raw root n r sound =
    shelf-Unchanged (b ∷ bs) n r (shelve none (saves disk r) (b ∷ bs)) refl
register-shelf (some h) disk now (b ∷ bs) format raw root n r sound =
    let test : is_active h (find (b ∷ bs) r.active) ≡ is_found (already_active (b ∷ bs) h r) =
      sym (already_active-is_active (b ∷ bs) h r sound) in
    elim (Option-cases (already_active (b ∷ bs) h r)) [
      | inl new ↦
          rw (register, new)
            (add_version-shelf disk now b bs format raw root h n r (rw new at test))
      | inr (m, same) ↦
          let active : is_active h (find (b ∷ bs) r.active) ≡ true = rw same at test in
          rw (register, same)
            (shelf-Unchanged (b ∷ bs) n r (shelve (some h) (saves disk r) (b ∷ bs))
              (rw active refl))
    ]

pub activate-shelf :
    (disk : Bool) (k v n : Text) (r : Registry)
    → shelf n (activate disk k v r).0 ≡ on_name k n (choose v) (shelf n r)
unfolding activate choose
activate-shelf disk k v n r =
    let vs = versions k r in
    let flagged = map-versions (activate_entry v) (activate_entry-Keeps v) vs in
    let found = is_found-mem_text v vs in
    elim (Bool-cases (is_found (with_version v vs))) [
      | inl there ↦ rw there (
          shelf-ChangesAt k n r _ (some v) (map (activate_entry v) vs) (choose v)
            (λ j. find-put j k v r.active, λ j. versions-write_back_map (activate_entry v) j k r _)
            (rw (flagged, ← found, there) refl))
      | inr missing ↦ rw missing (
          shelf-ChangesAt k n r _ (find k r.active) (map (activate_entry v) vs) (choose v)
            (
              λ j. ground (arith, text_eq_iff k j),
              λ j. versions-write_back_map (activate_entry v) j k r _,
            )
            (rw (flagged, ← found, missing) refl))
    ]

pub deprecate-shelf :
    (disk : Bool) (k v n : Text) (r : Registry) → shelf n (deprecate disk k v r).0 ≡ shelf n r
unfolding deprecate
deprecate-shelf disk k v n r = elim (Bool-cases (is_found (with_version v (versions k r)))) [
  | inl there ↦ rw there (
      shelf-ChangesAt k n r _ (find k r.active) (deprecate_first v (versions k r)) (λ s. s)
        (λ j. ground (arith, text_eq_iff k j), λ j. versions-write_back_deprecate v j k r)
        (rw (deprecate_first-versions v (versions k r)) refl)
      ∙ ground arith)
  | inr missing ↦ rw missing refl
]

-- The test of DeleteVersion, which takes a name without an active version for the empty version.
is_version-is_active :
    (v : Text) (o : Option Text) (vs : List SchemaMetadata) (m : SchemaMetadata)
    (ms : List SchemaMetadata)
    → Backed o vs
    → without v vs ≡ m ∷ ms
    → is_version v o ≡ is_active v o
unfolding without
is_version-is_active v none vs m ms backed left = ground (arith, ap (without v) backed ∙ refl)
is_version-is_active v (some w) vs m ms backed left =
    ground (arith, text_eq_iff v w, text_eq_iff w v)

pub keep_rest-shelf :
    (k v n : Text) (rest : List SchemaMetadata) (r : Registry)
    → without v (versions k r) ≡ rest
    → IsSound r
    → shelf n (keep_rest k v rest r) ≡ on_name k n (discard v) (shelf n r)
unfolding keep_rest discard
keep_rest-shelf k v n [] r left sound =
    let kept : dropped v (map entry_version (versions k r)) ≡ [] =
      sym (without-dropped v (versions k r)) ∙ ap (map entry_version) left in
    shelf-ChangesAt k n r _ none [] (discard v)
      (λ j. find-remove j k r.active, λ j. versions-remove j k r _) (rw kept refl)
keep_rest-shelf k v n (m ∷ ms) r left sound =
    let kept : dropped v (map entry_version (versions k r)) ≡ m.version ∷ map entry_version ms =
      sym (without-dropped v (versions k r)) ∙ ap (map entry_version) left in
    let test = is_version-is_active v (find k r.active) (versions k r) m ms (sound k) left in
    elim (Bool-cases (is_version v (find k r.active))) [
      | inl current ↦ rw current (
          shelf-ChangesAt k n r _ (some (last_version m ms)) (activate_last (m ∷ ms)) (discard v)
            (λ j. find-put j k (last_version m ms) r.active, λ j. versions-put j k _ r _)
            (rw
              (activate_last-versions (m ∷ ms), kept, ← test, current, last_version-last_text m ms)
              refl))
      | inr other ↦ rw other (
          shelf-ChangesAt k n r _ (find k r.active) (m ∷ ms) (discard v)
            (λ j. ground (arith, text_eq_iff k j), λ j. versions-put j k _ r _)
            (rw (kept, ← test, other) refl))
    ]
