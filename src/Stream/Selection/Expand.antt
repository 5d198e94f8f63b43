-- ===== src/Stream/Selection/Expand.antt =====
-- internal/stream/broker_filter.go: when the expansion of fragments ends.
use omni_schema.Prelude.{ℕ, zero, suc, ◌≤◌, ◌<◌, ◌≡◌, ◌⊎◌, inl, inr, refl, arith}
use omni_schema.Prelude.{Option, none, some, List, [], ◌∷◌, ◌++◌, Option-cases, Bool-cases, All}
use omni_schema.Prelude.Bytes.{Text, text_eq, text_eq_iff}
use omni_schema.Prelude.Maps.{find}
use omni_schema.Stream.Selection.{
  Selection, Selections, Field, Fragments, appended, expand_all, spread_of, expand_selections,
}

-- A selection that spreads the fragment at its own level: not inside the selections of a field.
abbrev pub Spreads : Text → Selections → Type 0
Spreads name Selections.nil = ⊥
Spreads name (Selections.cons (Selection.field a n s) rest) = Spreads name rest
Spreads name (Selections.cons (Selection.fragment_spread other) rest) =
    (other ≡ name) ⊎ Spreads name rest
Spreads name (Selections.cons (Selection.inline_fragment s) rest) =
    Spreads name s ⊎ Spreads name rest

-- The fragments that it spreads at its own level have a rank below r.
unfoldable pub Below : (Text → ℕ) → ℕ → Selections → Type 0
Below rank r Selections.nil = Unit {0}
Below rank r (Selections.cons (Selection.field a n s) rest) = Below rank r rest
Below rank r (Selections.cons (Selection.fragment_spread name) rest) =
    (rank name < r) × Below rank r rest
Below rank r (Selections.cons (Selection.inline_fragment s) rest) =
    Below rank r s × Below rank r rest

-- Each fragment spreads at its own level only fragments of a lower rank.
abbrev pub IsRanked : (Text → ℕ) → Fragments → Type 0
IsRanked rank = All (λ f. Below rank (rank f.0) f.1)

appended_none : {A : Type 0} (xs : Option (List A)) → appended xs none ≡ none
appended_none none = refl
appended_none (some xs) = refl

module _ (spread : Text → Option (List Field)) (name : Text) (endless : spread name ≡ none) where
  expand_all-Spreads : (s : Selections) → Spreads name s → expand_all spread s ≡ none
  unfolding expand_all
  expand_all-Spreads Selections.nil h = elim h [ ]
  expand_all-Spreads (Selections.cons (Selection.field a n s) rest) h =
      rw (expand_all-Spreads rest h) refl
  expand_all-Spreads (Selections.cons (Selection.fragment_spread other) rest) (inl e) =
      rw (e, endless) refl
  expand_all-Spreads (Selections.cons (Selection.fragment_spread other) rest) (inr h) =
      rw (expand_all-Spreads rest h) (appended_none (spread other))
  expand_all-Spreads (Selections.cons (Selection.inline_fragment s) rest) (inl h) =
      rw (expand_all-Spreads s h) refl
  expand_all-Spreads (Selections.cons (Selection.inline_fragment s) rest) (inr h) =
      rw (expand_all-Spreads rest h) (appended_none (expand_all spread s))

-- A fragment that spreads itself at its own level makes the expansion endless for each selection that
-- spreads it at its own level: no number of nested calls is enough.
pub expand_selections-Spreads :
    (fuel : ℕ) (fragments : Fragments) (name : Text) (own s : Selections)
    → find name fragments ≡ some own
    → Spreads name own
    → Spreads name s
    → expand_selections fuel fragments s ≡ none
unfolding expand_selections
expand_selections-Spreads zero fragments name own s found cyclic h = refl
expand_selections-Spreads (suc fuel) fragments name own s found cyclic h =
    let deeper = expand_selections-Spreads fuel fragments name own own found cyclic cyclic in
    expand_all-Spreads (spread_of (expand_selections fuel fragments) fragments) name
      (rw (spread_of, found) deeper) s h

Below-mono : (rank : Text → ℕ) (r q : ℕ) (s : Selections) → r ≤ q → Below rank r s → Below rank q s
unfolding Below
Below-mono rank r q Selections.nil le h = tt
Below-mono rank r q (Selections.cons (Selection.field a n s) rest) le h =
    Below-mono rank r q rest le h
Below-mono rank r q (Selections.cons (Selection.fragment_spread name) rest) le (h, hs) =
    (omega arith, Below-mono rank r q rest le hs)
Below-mono rank r q (Selections.cons (Selection.inline_fragment s) rest) le (h, hs) =
    (Below-mono rank r q s le h, Below-mono rank r q rest le hs)

pub Below-all :
    (rank : Text → ℕ) (r : ℕ) → ((name : Text) → rank name < r) → (s : Selections) → Below rank r s
unfolding Below
Below-all rank r low Selections.nil = tt
Below-all rank r low (Selections.cons (Selection.field a n s) rest) = Below-all rank r low rest
Below-all rank r low (Selections.cons (Selection.fragment_spread name) rest) =
    (low name, Below-all rank r low rest)
Below-all rank r low (Selections.cons (Selection.inline_fragment s) rest) =
    (Below-all rank r low s, Below-all rank r low rest)

abbrev pub Ends : Option (List Field) → Type 0
Ends r = (fields : List Field) × (r ≡ some fields)

appended-Ends : (xs ys : Option (List Field)) → Ends xs → Ends ys → Ends (appended xs ys)
appended-Ends xs ys (fs, e) (gs, d) = (fs ++ gs, rw (e, d) refl)

expand_all-Ends :
    (spread : Text → Option (List Field)) (rank : Text → ℕ) (r : ℕ) (s : Selections)
    → ((name : Text) → rank name < r → Ends (spread name))
    → Below rank r s
    → Ends (expand_all spread s)
unfolding expand_all Below
expand_all-Ends spread rank r Selections.nil ends h = ([], refl)
expand_all-Ends spread rank r (Selections.cons (Selection.field a n s) rest) ends h =
    appended-Ends (some (record { alias = a; name = n; selections = s } ∷ [])) _ (_, refl)
      (expand_all-Ends spread rank r rest ends h)
expand_all-Ends spread rank r (Selections.cons (Selection.fragment_spread name) rest) ends (h, hs) =
    appended-Ends _ _ (ends name h) (expand_all-Ends spread rank r rest ends hs)
expand_all-Ends spread rank r (Selections.cons (Selection.inline_fragment s) rest) ends (h, hs) =
    appended-Ends _ _ (expand_all-Ends spread rank r s ends h)
      (expand_all-Ends spread rank r rest ends hs)

find-Below :
    (rank : Text → ℕ) (fragments : Fragments) (name : Text) (s : Selections)
    → IsRanked rank fragments
    → find name fragments ≡ some s
    → Below rank (rank name) s
unfolding find
find-Below rank [] name s ranked found = cc
find-Below rank ((k, own) ∷ m) name s (h, hs) found = elim (Bool-cases (text_eq k name)) [
  | inl e ↦
      let same : own ≡ s = cc (rw e at found) in rw (← same) (rw (← (text_eq_iff k name).0 e) h)
  | inr e ↦ find-Below rank m name s hs (rw e at found)
]

spread_of-Ends :
    (rec : Selections → Option (List Field)) (fragments : Fragments) (name : Text)
    → ((own : Selections) → find name fragments ≡ some own → Ends (rec own))
    → Ends (spread_of rec fragments name)
spread_of-Ends rec fragments name ends = elim (Option-cases (find name fragments)) [
  | inl e ↦ ([], rw (spread_of, e) refl)
  | inr (own, e) ↦ let (fields, d) = ends own e in (fields, rw (spread_of, e) d)
]

-- Ranked fragments expand with one more round than the ranks that the selection may spread.
pub expand_selections-Ends :
    (fuel : ℕ) (fragments : Fragments) (rank : Text → ℕ) (s : Selections)
    → IsRanked rank fragments
    → Below rank fuel s
    → Ends (expand_selections (suc fuel) fragments s)
unfolding expand_selections
expand_selections-Ends zero fragments rank s ranked h =
    expand_all-Ends _ rank zero s (λ name lt. absurd (omega arith)) h
expand_selections-Ends (suc fuel) fragments rank s ranked h =
    expand_all-Ends (spread_of (expand_selections (suc fuel) fragments) fragments) rank (suc fuel) s
      (λ name lt.
        spread_of-Ends (expand_selections (suc fuel) fragments) fragments name λ own found.
          expand_selections-Ends fuel fragments rank own ranked (
            Below-mono rank (rank name) fuel own (omega arith)
              (find-Below rank fragments name own ranked found)))
      h
