-- ===== src/Stream/Selection/Selects.antt =====
-- internal/stream/broker_filter.go: the fields that a client selects, and that expandSelections finds
-- these and no others.
use omni_schema.Prelude.{ℕ, zero, suc, ◌↔◌, ◌≡◌, ◌⊎◌, inl, inr, refl}
use omni_schema.Prelude.{Option, none, some, List, [], ◌∷◌, ◌++◌, Option-cases}
use omni_schema.Prelude.Bytes.{Text}
use omni_schema.Prelude.Maps.{find}
use omni_schema.Stream.Selection.{
  Selection, Selections, Field, Fragments, appended, expand_all, spread_of, expand_selections,
}

-- A field is selected at the level of some selections: it stands there, or in an inline fragment that
-- does, or in a fragment of the document that is spread there.
pub data Selects (fragments : Fragments) (f : Field) : Selections → Type 0 where
  here :
      (alias name : Text) (s rest : Selections)
      → f ≡ record { alias = alias; name = name; selections = s }
      → Selects fragments f (Selections.cons (Selection.field alias name s) rest)
  inline :
      (s rest : Selections)
      → Selects fragments f s
      → Selects fragments f (Selections.cons (Selection.inline_fragment s) rest)
  spread :
      (name : Text) (own rest : Selections)
      → find name fragments ≡ some own
      → Selects fragments f own
      → Selects fragments f (Selections.cons (Selection.fragment_spread name) rest)
  later :
      (s : Selection) (rest : Selections)
      → Selects fragments f rest
      → Selects fragments f (Selections.cons s rest)

abbrev pub In : Field → List Field → Type 0
In f [] = ⊥
In f (g ∷ gs) = (f ≡ g) ⊎ In f gs

In-append : (f : Field) (xs ys : List Field) → In f xs ⊎ In f ys → In f (xs ++ ys)
In-append f [] ys (inl member) = elim member [ ]
In-append f [] ys (inr member) = member
In-append f (x ∷ xs) ys (inl (inl same)) = inl same
In-append f (x ∷ xs) ys (inl (inr member)) = inr (In-append f xs ys (inl member))
In-append f (x ∷ xs) ys (inr member) = inr (In-append f xs ys (inr member))

append-In : (f : Field) (xs ys : List Field) → In f (xs ++ ys) → In f xs ⊎ In f ys
append-In f [] ys member = inr member
append-In f (x ∷ xs) ys (inl same) = inl (inl same)
append-In f (x ∷ xs) ys (inr member) = elim (append-In f xs ys member) [
  | inl left ↦ inl (inr left)
  | inr right ↦ inr right
]

-- The two lists that an expansion is put together from.
abbrev pub Parts : Option (List Field) → Option (List Field) → List Field → Type 0
Parts xs ys zs =
    (left : List Field) × (right : List Field) × (xs ≡ some left)
    × (ys ≡ some right)
    × (left ++ right ≡ zs)

pub appended-Parts :
    (xs ys : Option (List Field)) (zs : List Field) → appended xs ys ≡ some zs → Parts xs ys zs
appended-Parts none ys zs e = cc
appended-Parts (some left) none zs e = cc
appended-Parts (some left) (some right) zs e = (left, right, refl, refl, cc)

-- Whatever the fuel: an expansion that comes back has all that is selected.
abbrev pub expanded : ℕ → Fragments → Selections → Option (List Field)
expanded fuel fragments s = expand_all (spread_of (expand_selections fuel fragments) fragments) s

pub some-injective : (xs ys : List Field) → some xs ≡ some ys → xs ≡ ys
some-injective xs ys e = cc

complete-later :
    (f : Field) (xs ys : Option (List Field)) (fields : List Field)
    → appended xs ys ≡ some fields
    → ((right : List Field) → ys ≡ some right → In f right)
    → In f fields
complete-later f xs ys fields e member =
    let (left, right, first, second, whole) = appended-Parts xs ys fields e in
    rw (← whole) (In-append f left right (inr (member right second)))

complete-first :
    (f : Field) (xs ys : Option (List Field)) (fields : List Field)
    → appended xs ys ≡ some fields
    → ((left : List Field) → xs ≡ some left → In f left)
    → In f fields
complete-first f xs ys fields e member =
    let (left, right, first, second, whole) = appended-Parts xs ys fields e in
    rw (← whole) (In-append f left right (inl (member left first)))

pub complete :
    (fragments : Fragments) (f : Field) (fuel : ℕ) (s : Selections) (fields : List Field)
    → expanded fuel fragments s ≡ some fields
    → Selects fragments f s
    → In f fields
unfolding expand_all expand_selections
complete fragments f fuel _ fields e (Selects.here alias name s rest same) =
    let g : Field = record { alias = alias; name = name; selections = s } in
    complete-first f (some (g ∷ [])) (expanded fuel fragments rest) fields e
      (λ left one. rw (← some-injective (g ∷ []) left one) (inl same))
complete fragments f fuel _ fields e (Selects.inline s rest chosen) =
    complete-first f _ (expanded fuel fragments rest) fields e
      λ left run. complete fragments f fuel s left run chosen
complete fragments f zero _ fields e (Selects.spread name own rest found chosen) =
    complete-first f _ (expanded zero fragments rest) fields e
      λ left run. absurd (cc (rw (spread_of, found) at run))
complete fragments f (suc fuel) _ fields e (Selects.spread name own rest found chosen) =
    complete-first f _ (expanded (suc fuel) fragments rest) fields e
      λ left run. complete fragments f fuel own left (rw (spread_of, found) at run) chosen
complete fragments f fuel _ fields e (Selects.later (Selection.field a n s) rest chosen) =
    complete-later f (some (record { alias = a; name = n; selections = s } ∷ []))
      (expanded fuel fragments rest) fields e
      λ right run. complete fragments f fuel rest right run chosen
complete fragments f fuel _ fields e (Selects.later (Selection.inline_fragment s) rest chosen) =
    complete-later f (expanded fuel fragments s) (expanded fuel fragments rest) fields e
      λ right run. complete fragments f fuel rest right run chosen
complete fragments f fuel _ fields e (Selects.later (Selection.fragment_spread n) rest chosen) =
    complete-later f (spread_of (expand_selections fuel fragments) fragments n)
      (expanded fuel fragments rest) fields e
      λ right run. complete fragments f fuel rest right run chosen

sound-parts :
    (f : Field) (xs ys : Option (List Field)) (fields : List Field) (P : Type 0)
    → appended xs ys ≡ some fields
    → In f fields
    → ((left : List Field) → xs ≡ some left → In f left → P)
    → ((right : List Field) → ys ≡ some right → In f right → P)
    → P
sound-parts f xs ys fields P e member at_first after =
    let (left, right, run, rest, whole) = appended-Parts xs ys fields e in
    elim (append-In f left right (rw (← whole) at member)) [
      | inl near ↦ at_first left run near
      | inr far ↦ after right rest far
    ]

-- And it has nothing else.
sound :
    (fragments : Fragments) (f : Field) (fuel : ℕ) (s : Selections) (fields : List Field)
    → expanded fuel fragments s ≡ some fields
    → In f fields
    → Selects fragments f s
unfolding expand_all expand_selections
sound fragments f fuel Selections.nil fields e member =
    absurd (rw (← some-injective [] fields e) at member)
sound fragments f fuel (Selections.cons (Selection.field a n s) rest) fields e member =
    let g : Field = record { alias = a; name = n; selections = s } in
    sound-parts f (some (g ∷ [])) (expanded fuel fragments rest) fields _ e member
      (λ left run near. elim (rw (← some-injective (g ∷ []) left run) at near) [
        | inl same ↦ Selects.here a n s rest same
        | inr none_left ↦ elim none_left [ ]
      ])
      (λ right run far. Selects.later _ rest (sound fragments f fuel rest right run far))
sound fragments f fuel (Selections.cons (Selection.inline_fragment s) rest) fields e member =
    sound-parts f _ (expanded fuel fragments rest) fields _ e member
      (λ left run near. Selects.inline s rest (sound fragments f fuel s left run near))
      (λ right run far. Selects.later _ rest (sound fragments f fuel rest right run far))
sound fragments f zero (Selections.cons (Selection.fragment_spread n) rest) fields e member =
    sound-parts f _ (expanded zero fragments rest) fields _ e member
      (λ left run near. elim (Option-cases (find n fragments)) [
        | inl absent ↦
            absurd (rw (← some-injective [] left (rw (spread_of, absent) at run)) at near)
        | inr (own, found) ↦ absurd (cc (rw (spread_of, found) at run))
      ])
      (λ right run far. Selects.later _ rest (sound fragments f zero rest right run far))
sound fragments f (suc fuel) (Selections.cons (Selection.fragment_spread n) rest) fields e member =
    sound-parts f _ (expanded (suc fuel) fragments rest) fields _ e member
      (λ left run near. elim (Option-cases (find n fragments)) [
        | inl absent ↦
            absurd (rw (← some-injective [] left (rw (spread_of, absent) at run)) at near)
        | inr (own, found) ↦
            Selects.spread n own rest found
              (sound fragments f fuel own left (rw (spread_of, found) at run) near)
      ])
      (λ right run far. Selects.later _ rest (sound fragments f (suc fuel) rest right run far))

-- An expansion that comes back has the fields that are selected, and no others.
pub expand_selections-Selects :
    (fuel : ℕ) (fragments : Fragments) (s : Selections) (fields : List Field) (f : Field)
    → expand_selections (suc fuel) fragments s ≡ some fields
    → In f fields ↔ Selects fragments f s
unfolding expand_selections
expand_selections-Selects fuel fragments s fields f run =
    (sound fragments f fuel s fields run, complete fragments f fuel s fields run)
