-- ===== src/Uir/Schema/Same.antt =====
-- internal/uir/schema.go: DiffRecursive of a graph with itself.
use omni_schema.Prelude.{ℕ, zero, suc, ◌≤◌, ◌≡◌, refl, ap, ◌∙◌, true, arith, Bool-cases}
use omni_schema.Prelude.{inl, inr, none, some, List, [], ◌∷◌, All}
use omni_schema.Prelude.Bytes.{Text, text_eq, text_eq_refl, text_eq_iff, codes}
use omni_schema.Prelude.Maps.{find, put, find-put}
use omni_schema.Prelude.Result.{ok, ok-injective}
use omni_schema.Uir.Types.Tags.{type_eq_refl}
use omni_schema.Uir.Node.{Node, Nodes, Head, lookup}
use omni_schema.Uir.Coerce.{Host}
use omni_schema.Uir.Project.{index_into, index_data_children}
use omni_schema.Uir.Project.Walk.{depth, depths}
use omni_schema.Uir.Project.Below.{RangesOverEntries}
use omni_schema.Uir.Schema.Diff.{
  Walk, differs, own_change, new_field, new_fields, old_fields, is_seen, diff_body, diff_indexed,
  diff_walk, diff_recursive, join_path, Class, compatibility_class, class_of, class_of_changes,
}

-- A graph without nil pointers.
unfoldable mutual
  pub IsWhole : Node → Type 0
  IsWhole Node.nil = ⊥
  IsWhole (Node.node h ns) = AreWhole ns

  pub AreWhole : Nodes → Type 0
  AreWhole Nodes.none = Unit {0}
  AreWhole (Nodes.more n ns) = IsWhole n × AreWhole ns

own_change-same : (path : Text) (h : Head) → own_change path h h ≡ []
unfolding own_change differs
own_change-same path h =
    rw
      (
        type_eq_refl h.type,
        text_eq_refl (lookup (codes "gql_type") h.annotations),
        text_eq_refl (lookup (codes "proto_type") h.annotations),
      )
      refl

-- Each key once.
abbrev Single : List (Text × Node) → Type 0
Single [] = Unit {0}
Single ((k, n) ∷ m) = (find k m ≡ none) × Single m

put-Single : (k : Text) (n : Node) (m : List (Text × Node)) → Single m → Single (put k n m)
unfolding put find
put-Single k n [] s = (refl, tt)
put-Single k n ((j, w) ∷ m) (absent, s) = elim (Bool-cases (text_eq j k)) [
  | inl e ↦ rw e (rw ((text_eq_iff j k).0 e) at absent, s)
  | inr e ↦
      rw e (ground (arith, find-put j k n m, text_eq_iff j k, text_eq_iff k j), put-Single k n m s)
]

index_into-Single :
    (ns : Nodes) (idx : List (Text × Node))
    → AreWhole ns
    → Single idx
    → (out : List (Text × Node)) × (index_into ns idx ≡ ok out) × Single out
unfolding index_into AreWhole
index_into-Single Nodes.none idx w s = (idx, refl, s)
index_into-Single (Nodes.more Node.nil ns) idx (w, ws) s = elim w [ ]
index_into-Single (Nodes.more (Node.node h cs) ns) idx (w, ws) s =
    index_into-Single ns _ ws (put-Single h.key (Node.node h cs) idx s)

-- An entry that the map finds under its key.
abbrev Found : List (Text × Node) → Text × Node → Type 0
Found idx (k, n) = find k idx ≡ some n

All-map :
    {P Q : Text × Node → Type 0} (m : List (Text × Node))
    → ((e : Text × Node) → P e → Q e)
    → All P m
    → All Q m
All-map [] f h = tt
All-map (e ∷ m) f (h, hs) = (f e h, All-map m f hs)

All-both :
    (P Q : Text × Node → Type 0) (m : List (Text × Node))
    → All P m
    → All Q m
    → All (λ e. P e × Q e) m
All-both P Q [] h k = tt
All-both P Q (e ∷ m) (h, hs) (k, ks) = ((h, k), All-both P Q m hs ks)

still-Found :
    (j : Text) (w : Node) (m : List (Text × Node)) (e : Text × Node)
    → find j m ≡ none
    → Found m e
    → Found ((j, w) ∷ m) e
unfolding find
still-Found j w m (k, n) absent found = elim (Bool-cases (text_eq j k)) [
  | inl e ↦ cc (rw ((text_eq_iff j k).0 e) at absent)
  | inr e ↦ rw e found
]

All-Found : (m : List (Text × Node)) → Single m → All (Found m) m
unfolding find
All-Found [] s = tt
All-Found ((j, w) ∷ m) (absent, s) =
    (rw (text_eq_refl j) refl, All-map m (λ e f. still-Found j w m e absent f) (All-Found m s))

-- A graph without nil pointers of at most so many levels.
abbrev Small : ℕ → Text × Node → Type 0
Small l (k, n) = IsWhole n × (depth n ≤ l)

put-Small :
    (l : ℕ) (k : Text) (n : Node) (m : List (Text × Node))
    → IsWhole n × (depth n ≤ l)
    → All (Small l) m
    → All (Small l) (put k n m)
unfolding put
put-Small l k n [] h hs = (h, tt)
put-Small l k n ((j, w) ∷ m) h (hw, hs) = elim (Bool-cases (text_eq j k)) [
  | inl e ↦ rw e (h, hs)
  | inr e ↦ rw e (hw, put-Small l k n m h hs)
]

index_into-Small :
    (l : ℕ) (ns : Nodes) (idx out : List (Text × Node))
    → AreWhole ns
    → depths ns ≤ l
    → All (Small l) idx
    → index_into ns idx ≡ ok out
    → All (Small l) out
unfolding index_into AreWhole depths
index_into-Small l Nodes.none idx out w d hs e = rw (← ok-injective e) hs
index_into-Small l (Nodes.more Node.nil ns) idx out (w, ws) d hs e = elim w [ ]
index_into-Small l (Nodes.more (Node.node h cs) ns) idx out (w, ws) d hs e =
    index_into-Small l ns _ out ws (omega arith)
      (put-Small l h.key (Node.node h cs) idx (w, omega arith) hs) e

module _ (rec : Walk) (l : ℕ)
    (same : (path : Text) (n : Node) → IsWhole n → depth n ≤ l → rec path n n ≡ some []) where
  new_fields-same :
      (path : Text) (ai m : List (Text × Node))
      → All (λ e. Found ai e × Small l e) m
      → new_fields rec path ai m ≡ some []
  unfolding new_fields new_field
  new_fields-same path ai [] h = refl
  new_fields-same path ai ((k, v) ∷ m) ((found, (whole, below)), hs) =
      rw (found, same (join_path path k) v whole below, new_fields-same path ai m hs) refl

  seen-Found :
      (k : Text) (v : Node) (bi : List (Text × Node)) → Found bi (k, v) → is_seen k bi ≡ true
  unfolding is_seen
  seen-Found k v bi found = rw (is_seen, found) refl

  old_fields-same :
      (path : Text) (bi m : List (Text × Node))
      → All (Found bi) m
      → old_fields rec path bi m ≡ some []
  unfolding old_fields
  old_fields-same path bi [] h = refl
  old_fields-same path bi ((k, v) ∷ m) (found, hs) =
      rw (seen-Found k v bi found, old_fields-same path bi m hs) refl

  diff_body-same :
      (host : Host) (path : Text) (h : Head) (ns : Nodes)
      → RangesOverEntries host
      → AreWhole ns
      → depths ns ≤ l
      → diff_body rec host path (Node.node h ns) (Node.node h ns) ≡ some []
  unfolding diff_body diff_indexed index_data_children
  diff_body-same host path h ns over whole below =
      let (idx, indexed, single) = index_into-Single ns [] whole tt in
      let small = index_into-Small l ns [] idx whole below tt indexed in
      let found = All-Found idx single in
      let ranged =
        over (λ e. Found idx e × Small l e) idx (All-both (Found idx) (Small l) idx found small) in
      ap (λ r. diff_indexed rec host path h h r r) indexed
      ∙ rw
          (
            own_change-same path h,
            new_fields-same path idx (host.ranged idx) ranged,
            old_fields-same path idx (host.ranged idx) (over (Found idx) idx found),
          )
          refl

diff_walk-same :
    (l : ℕ) (host : Host) (path : Text) (n : Node)
    → RangesOverEntries host
    → IsWhole n
    → depth n ≤ l
    → diff_walk l host path n n ≡ some []
unfolding diff_walk depth IsWhole
diff_walk-same l host path Node.nil over w d = elim w [ ]
diff_walk-same zero host path (Node.node h ns) over w d = absurd (omega arith)
diff_walk-same (suc l) host path (Node.node h ns) over w d =
    diff_body-same (diff_walk l host) l (λ path n w d. diff_walk-same l host path n over w d) host
      path h ns over w (omega arith)

-- A graph without nil pointers does not differ from itself, whatever the order in which a loop meets
-- the entries of a map, and its class with itself is full.
pub diff_recursive-same :
    (host : Host) (n : Node)
    → RangesOverEntries host
    → IsWhole n
    → (diff_recursive host n n ≡ some []) × (compatibility_class host n n ≡ some Class.full)
unfolding diff_recursive compatibility_class class_of
diff_recursive-same host n over w =
    let same = diff_walk-same (suc (depth n)) host [] n over w (omega arith) in
    (same, ap class_of_changes same)
