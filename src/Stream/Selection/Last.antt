-- ===== src/Stream/Selection/Last.antt =====
-- internal/stream/broker_filter.go: the map of the requested fields has the last one of each name.
use omni_schema.Prelude.{ℕ, zero, suc, ◌≡◌, inl, inr, refl, sym, ap, ◌∙◌, Bool-cases, true}
use omni_schema.Prelude.{Option, none, some, List, [], ◌∷◌, ◌++◌, Option-cases, if◌then◌else◌}
use omni_schema.Prelude.Bytes.{Text, text_eq, text_eq_iff}
use omni_schema.Prelude.Maps.{find}
use omni_schema.Stream.Selection.{
  Selection, Selections, Field, Fragments, appended, expand_all, spread_of, expand_selections,
  requested, later_or,
}
use omni_schema.Stream.Selection.Selects.{
  Selects, In, expanded, appended-Parts, complete, some-injective,
}

-- No field of the name is selected.
abbrev pub Unselected : Fragments → Text → Selections → Type 0
Unselected fragments key s = (g : Field) → Selects fragments g s → ¬ (g.name ≡ key)

-- The field is the last one of the name that is selected at the level of some selections.
pub data SelectsLast (fragments : Fragments) (key : Text) (f : Field) : Selections → Type 0 where
  here :
      (alias name : Text) (s rest : Selections)
      → f ≡ record { alias = alias; name = name; selections = s }
      → f.name ≡ key
      → Unselected fragments key rest
      → SelectsLast fragments key f (Selections.cons (Selection.field alias name s) rest)
  inline :
      (s rest : Selections)
      → SelectsLast fragments key f s
      → Unselected fragments key rest
      → SelectsLast fragments key f (Selections.cons (Selection.inline_fragment s) rest)
  spread :
      (name : Text) (own rest : Selections)
      → find name fragments ≡ some own
      → SelectsLast fragments key f own
      → Unselected fragments key rest
      → SelectsLast fragments key f (Selections.cons (Selection.fragment_spread name) rest)
  later :
      (s : Selection) (rest : Selections)
      → SelectsLast fragments key f rest
      → SelectsLast fragments key f (Selections.cons s rest)

last-In :
    (key : Text) (g : Field) (gs : List Field) (f : Field)
    → (if text_eq g.name key then some g else none) ≡ some f
    → In f (g ∷ gs) × (f.name ≡ key)
last-In key g gs f e = elim (Bool-cases (text_eq g.name key)) [
  | inl named ↦
      let same : g ≡ f = cc (rw named at e) in
      (inl (sym same), rw (← same) ((text_eq_iff g.name key).0 named))
  | inr other ↦ cc (rw other at e)
]

pub unrequested :
    (key : Text) (fields : List Field)
    → requested key fields ≡ none
    → (f : Field) → In f fields
    → ¬ (f.name ≡ key)
unfolding requested
unrequested key [] e f member same = member
unrequested key (g ∷ gs) e f member same = elim (Option-cases (requested key gs)) [
  | inl absent ↦ elim member [
    | inl head ↦
        let named : text_eq g.name key ≡ true =
          (text_eq_iff g.name key).1 (ap (λ (x : Field). x.name) (sym head) ∙ same) in
        cc (rw (absent, named) at e)
    | inr behind ↦ unrequested key gs absent f behind same
  ]
  | inr (k, found) ↦ cc (rw found at e)
]

pub requested-In :
    (key : Text) (fields : List Field) (f : Field)
    → requested key fields ≡ some f
    → In f fields × (f.name ≡ key)
unfolding requested
requested-In key [] f e = cc
requested-In key (g ∷ gs) f e = elim (Option-cases (requested key gs)) [
  | inl absent ↦ last-In key g gs f (rw absent at e)
  | inr (k, found) ↦
      let same : k ≡ f = cc (rw found at e) in
      let (member, named) = requested-In key gs f (found ∙ ap some same) in (inr member, named)
]

later_or-none : (o : Option Field) → later_or o none ≡ o
later_or-none none = refl
later_or-none (some g) = refl

later_or_assoc : (x y z : Option Field) → later_or (later_or x y) z ≡ later_or x (later_or y z)
later_or_assoc none y z = refl
later_or_assoc (some g) y z = refl

requested-append :
    (key : Text) (xs ys : List Field)
    → requested key (xs ++ ys) ≡ later_or (requested key ys) (requested key xs)
unfolding requested
requested-append key [] ys = sym (later_or-none (requested key ys))
requested-append key (x ∷ xs) ys =
    ap (λ o. later_or o (if text_eq x.name key then some x else none)) (requested-append key xs ys)
    ∙ later_or_assoc (requested key ys) (requested key xs) _

-- The last field of an expansion that is put together from two.
last-parts :
    (key : Text) (f : Field) (xs ys : Option (List Field)) (fields : List Field) (P : Type 0)
    → appended xs ys ≡ some fields
    → requested key fields ≡ some f
    → ((left right : List Field)
        → xs ≡ some left
        → ys ≡ some right
        → requested key left ≡ some f
        → requested key right ≡ none
        → P)
    → ((right : List Field) → ys ≡ some right → requested key right ≡ some f → P)
    → P
last-parts key f xs ys fields P e found at_first after =
    let (left, right, run, rest, whole) = appended-Parts xs ys fields e in
    let joined : later_or (requested key right) (requested key left) ≡ some f =
      sym (requested-append key left right) ∙ ap (requested key) whole ∙ found in
    elim (Option-cases (requested key right)) [
      | inl absent ↦ at_first left right run rest (rw absent at joined) absent
      | inr (g, there) ↦ after right rest (there ∙ rw there at joined)
    ]

module _ (fragments : Fragments) (key : Text) (f : Field) where
  unselected :
      (fuel : ℕ) (s : Selections) (fields : List Field)
      → expanded fuel fragments s ≡ some fields
      → requested key fields ≡ none
      → Unselected fragments key s
  unselected fuel s fields e absent g chosen =
      unrequested key fields absent g (complete fragments g fuel s fields e chosen)

  last :
      (fuel : ℕ) (s : Selections) (fields : List Field)
      → expanded fuel fragments s ≡ some fields
      → requested key fields ≡ some f
      → SelectsLast fragments key f s
  unfolding expand_all expand_selections requested
  last fuel Selections.nil fields e found = absurd (cc (rw (← some-injective [] fields e) at found))
  last fuel (Selections.cons (Selection.field a n s) rest) fields e found =
      let g : Field = record { alias = a; name = n; selections = s } in
      last-parts key f (some (g ∷ [])) (expanded fuel fragments rest) fields _ e found
        (λ left right run after one absent.
          let (member, named) =
            requested-In key (g ∷ []) f (rw (← some-injective (g ∷ []) left run) at one) in
          elim member [
            | inl same ↦
                SelectsLast.here a n s rest same named (unselected fuel rest right after absent)
            | inr none_left ↦ elim none_left [ ]
          ])
        (λ right after there. SelectsLast.later _ rest (last fuel rest right after there))
  last fuel (Selections.cons (Selection.inline_fragment s) rest) fields e found =
      last-parts key f (expanded fuel fragments s) (expanded fuel fragments rest) fields _ e found
        (λ left right run after one absent.
          SelectsLast.inline s rest (last fuel s left run one)
            (unselected fuel rest right after absent))
        (λ right after there. SelectsLast.later _ rest (last fuel rest right after there))
  last zero (Selections.cons (Selection.fragment_spread n) rest) fields e found =
      last-parts key f (spread_of (expand_selections zero fragments) fragments n)
        (expanded zero fragments rest) fields _ e found
        (λ left right run after one absent. elim (Option-cases (find n fragments)) [
          | inl missing ↦
              let empty = some-injective [] left (rw (spread_of, missing) at run) in
              absurd (cc (rw (← empty) at one))
          | inr (own, there) ↦ absurd (cc (rw (spread_of, there) at run))
        ])
        (λ right after there. SelectsLast.later _ rest (last zero rest right after there))
  last (suc fuel) (Selections.cons (Selection.fragment_spread n) rest) fields e found =
      last-parts key f (spread_of (expand_selections (suc fuel) fragments) fragments n)
        (expanded (suc fuel) fragments rest) fields _ e found
        (λ left right run after one absent. elim (Option-cases (find n fragments)) [
          | inl missing ↦
              let empty = some-injective [] left (rw (spread_of, missing) at run) in
              absurd (cc (rw (← empty) at one))
          | inr (own, there) ↦
              SelectsLast.spread n own rest there
                (last fuel own left (rw (spread_of, there) at run) one)
                (unselected (suc fuel) rest right after absent)
        ])
        (λ right after there. SelectsLast.later _ rest (last (suc fuel) rest right after there))

-- The requested field of a name, if there is one, is the last one selected.
pub requested-SelectsLast :
    (fuel : ℕ) (fragments : Fragments) (s : Selections) (fields : List Field) (key : Text)
    (f : Field)
    → expand_selections (suc fuel) fragments s ≡ some fields
    → requested key fields ≡ some f
    → SelectsLast fragments key f s
unfolding expand_selections
requested-SelectsLast fuel fragments s fields key f run found =
    last fragments key f fuel s fields run found
