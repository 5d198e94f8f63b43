-- ===== src/Stream/Selection/Filter.antt =====
-- internal/stream/broker_filter.go: the filtered graph against what the client selected.
use omni_schema.Prelude.{
  ◌↔◌, ℕ, suc, ◌<◌, ◌≡◌, ◌⊎◌, inl, inr, refl, sym, ap, Bool, true, false, not, ◌&&◌,
}
use omni_schema.Prelude.{if◌then◌else◌, some, List, Option, Option-cases, Bool-cases}
use omni_schema.Prelude.Bytes.{Text, is_empty}
use omni_schema.Prelude.Result.{ok}
use omni_schema.Uir.Types.{UirType, type_eq}
use omni_schema.Uir.Node.{Any, Node, Nodes, Head, new_head}
use omni_schema.Uir.Schema.Same.{IsWhole, AreWhole}
use omni_schema.Stream.Selection.{
  Selections, Field, Fragments, requested, no_selections, aliased, filter_node, filter_children,
  filter_by_selection, expand_selections,
}
use omni_schema.Stream.Selection.Selects.{Selects, In, expand_selections-Selects}
use omni_schema.Stream.Selection.Last.{
  SelectsLast, unrequested, requested-In, requested-SelectsLast,
}
use omni_schema.Stream.Selection.Expand.{IsRanked, Ends, expand_selections-Ends, Below-all}

-- The key under which a field is answered.
abbrev pub response_key : Field → Text
response_key f = if is_empty f.alias then f.name else f.alias

module _ (fragments : Fragments) where
  -- What the filter makes of the children of a map, for the selections of a client: a child whose key
  -- no selected field names is left out. Any other is kept in its place, as the answer to the last
  -- selected field of its key and under that field's response key: with its children filtered, if it is a map
  -- and the field has selections, and as it is otherwise.
  unfoldable pub Answers : Selections → Nodes → Nodes → Type 0
  Answers s Nodes.none out = out ≡ Nodes.none
  Answers s (Nodes.more Node.nil ns) out = ⊥
  Answers s (Nodes.more (Node.node h cs) ns) out =
      (((f : Field) → Selects fragments f s → ¬ (f.name ≡ h.key)) × Answers s ns out)
      ⊎ ((f : Field) × (rest : Nodes) × SelectsLast fragments h.key f s
          × (f.name ≡ h.key)
          × (((type_eq h.type UirType.map ≡ true)
                × (no_selections f.selections ≡ false)
                × (inner : Nodes) × Answers f.selections cs inner
                × (out
                    ≡ Nodes.more (Node.node (new_head UirType.map (response_key f) Any.nil) inner)
                        rest))
              ⊎ (((type_eq h.type UirType.map && not (no_selections f.selections)) ≡ false)
                  × (out ≡ Nodes.more (Node.node (record h { key = response_key f }) cs) rest)))
          × Answers s ns rest)

-- A child under the alias of a field, where that is the field of its key.
aliased-key :
    (f : Field) (h : Head) (cs : Nodes)
    → f.name ≡ h.key
    → aliased f.alias (Node.node h cs) ≡ Node.node (record h { key = response_key f }) cs
aliased-key f h cs named =
    ap (λ (k : Text). Node.node (record h { key = if is_empty f.alias then k else f.alias }) cs)
      (sym named)

&&-both : (a b : Bool) → (a && not b) ≡ true → (a ≡ true) × (b ≡ false)
&&-both true false h = (refl, refl)
&&-both true true h = cc
&&-both false b h = cc

module _ (fragments : Fragments) (expand : Selections → Option (List Field))
    (ends : (s : Selections) → Ends (expand s))
    (selects : (s : Selections) (fields : List Field) (f : Field)
      → expand s ≡ some fields
      → In f fields ↔ Selects fragments f s)
    (last : (s : Selections) (fields : List Field) (key : Text) (f : Field)
      → expand s ≡ some fields
      → requested key fields ≡ some f
      → SelectsLast fragments key f s) where
  abbrev Filtered : Selections → List Field → Nodes → Type 0
  Filtered s fields ns =
      (out : Nodes) × (filter_children expand fields ns ≡ ok out) × Answers fragments s ns out

  filter_map :
      (h : Head) (ns : Nodes) (s : Selections) (fields : List Field) (kept : Nodes)
      → type_eq h.type UirType.map ≡ true
      → expand s ≡ some fields
      → filter_children expand fields ns ≡ ok kept
      → filter_node expand (Node.node h ns) s
        ≡ ok (Node.node (new_head UirType.map h.key Any.nil) kept)
  unfolding filter_node
  filter_map h ns s fields kept is_map expanded run = rw (is_map, expanded, run) refl

  filter_children-Answers :
      (s : Selections) (fields : List Field) (ns : Nodes)
      → expand s ≡ some fields
      → AreWhole ns
      → Filtered s fields ns
  unfolding filter_children Answers IsWhole AreWhole new_head
  filter_children-Answers s fields Nodes.none e whole = (Nodes.none, refl, refl)
  filter_children-Answers s fields (Nodes.more Node.nil ns) e (w, ws) = elim w [ ]
  filter_children-Answers s fields (Nodes.more (Node.node h cs) ns) e (w, ws) =
      let (kept, run, all) = filter_children-Answers s fields ns e ws in
      elim (Option-cases (requested h.key fields)) [
        | inl absent ↦ (
          kept,
          rw (absent) run,
          inl (
            λ f chosen. unrequested h.key fields absent f ((selects s fields f e).1 chosen),
            all,
          ),
        )
        | inr (f, found) ↦
            let (member, named) = requested-In h.key fields f found in
            let chosen = last s fields h.key f e found in
            elim (Bool-cases (type_eq h.type UirType.map && not (no_selections f.selections))) [
              | inl both ↦
                  let (is_map, has_own) = &&-both _ _ both in
                  let (deeper, expanded) = ends f.selections in
                  let (inner, made, deep) =
                    filter_children-Answers f.selections deeper cs expanded w in
                  let child = new_head UirType.map h.key Any.nil in
                  let node_made = filter_map h cs f.selections deeper inner is_map expanded made in
                  let renamed = ap (λ n. Nodes.more n kept) (aliased-key f child inner named) in
                  (
                    Nodes.more (aliased f.alias (Node.node child inner)) kept,
                    rw (found, both, node_made, run) refl,
                    inr (f, kept, chosen, named, inl (is_map, has_own, inner, deep, renamed), all),
                  )
              | inr neither ↦
                  let renamed = ap (λ n. Nodes.more n kept) (aliased-key f h cs named) in
                  (
                    Nodes.more (aliased f.alias (Node.node h cs)) kept,
                    rw (found, neither, run) refl,
                    inr (f, kept, chosen, named, inr (neither, renamed), all),
                  )
            ]
      ]

-- Where the fragments have ranks below the fuel that fall along their spreads, so that no fragment
-- spreads itself: filterBySelection of a map without nil pointers ends with a map. Of the children of
-- the data it has, in their order, those whose key is the name of a field that the client selected,
-- directly, in an inline fragment or in a fragment that is spread, and no other. A child stands under
-- the alias of the last such field, or under its name where it has none; if the child is a map and that
-- field has selections of its own the child is treated so in turn, and otherwise it is as it was.
pub filter_by_selection-Answers :
    (fuel : ℕ) (fragments : Fragments) (rank : Text → ℕ) (h : Head) (ns : Nodes) (s : Selections)
    → IsRanked rank fragments
    → ((name : Text) → rank name < fuel)
    → AreWhole ns
    → type_eq h.type UirType.map ≡ true
    → (out : Nodes) × (filter_by_selection (suc fuel) fragments (Node.node h ns) s
        ≡ ok (Node.node (new_head UirType.map h.key Any.nil) out))
      × Answers fragments s ns out
unfolding filter_by_selection
filter_by_selection-Answers fuel fragments rank h ns s ranked below whole m =
    let expand = expand_selections (suc fuel) fragments in
    let ends = λ (t : Selections).
      expand_selections-Ends fuel fragments rank t ranked (Below-all rank fuel below t) in
    let selects = expand_selections-Selects fuel fragments in
    let last = requested-SelectsLast fuel fragments in
    let (fields, expanded) = ends s in
    let (out, run, all) =
      filter_children-Answers fragments expand ends selects last s fields ns expanded whole in
    (out, filter_map fragments expand ends selects last h ns s fields out m expanded run, all)
