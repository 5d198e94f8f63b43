-- ===== src/Uir/Schema/Class.antt =====
-- internal/uir/schema.go: CompatibilityClass against the kinds of the changes.
use omni_schema.Prelude.{
  ℕ, zero, suc, ◌≡◌, refl, sym, ap, ◌∙◌, false, ◌&&◌, ◌==◌, if◌then◌else◌, arith, ◌≢◌,
}
use omni_schema.Prelude.{List, [], ◌∷◌, All, length, some}
use omni_schema.Uir.Node.{Node}
use omni_schema.Uir.Coerce.{Host}
use omni_schema.Uir.Schema.Diff.{
  ChangeKind, FieldChange, Class, tally, count, class_of, diff_recursive, compatibility_class,
  class_of_changes,
}

abbrev pub IsAdded : FieldChange → Type 0
IsAdded c = c.kind ≡ ChangeKind.added

abbrev pub IsRemoved : FieldChange → Type 0
IsRemoved c = c.kind ≡ ChangeKind.removed

only_added_kind :
    (k : ChangeKind)
    → tally ChangeKind.removed k ≡ 0
    → tally ChangeKind.changed k ≡ 0
    → k ≡ ChangeKind.added
unfolding tally
only_added_kind ChangeKind.added h g = refl
only_added_kind ChangeKind.removed h g = absurd (omega arith)
only_added_kind ChangeKind.changed h g = absurd (omega arith)

only_removed_kind :
    (k : ChangeKind)
    → tally ChangeKind.added k ≡ 0
    → tally ChangeKind.changed k ≡ 0
    → k ≡ ChangeKind.removed
unfolding tally
only_removed_kind ChangeKind.added h g = absurd (omega arith)
only_removed_kind ChangeKind.removed h g = refl
only_removed_kind ChangeKind.changed h g = absurd (omega arith)

only-IsAdded :
    (cs : List FieldChange)
    → count ChangeKind.removed cs ≡ 0
    → count ChangeKind.changed cs ≡ 0
    → All IsAdded cs
unfolding count
only-IsAdded [] h k = tt
only-IsAdded (c ∷ cs) h k = (
  only_added_kind c.kind (omega arith) (omega arith),
  only-IsAdded cs (omega arith) (omega arith),
)

only-IsRemoved :
    (cs : List FieldChange)
    → count ChangeKind.added cs ≡ 0
    → count ChangeKind.changed cs ≡ 0
    → All IsRemoved cs
unfolding count
only-IsRemoved [] h k = tt
only-IsRemoved (c ∷ cs) h k = (
  only_removed_kind c.kind (omega arith) (omega arith),
  only-IsRemoved cs (omega arith) (omega arith),
)

counts_added :
    (cs : List FieldChange)
    → All IsAdded cs
    → (count ChangeKind.removed cs ≡ 0)
      × (count ChangeKind.changed cs ≡ 0)
      × (count ChangeKind.added cs ≡ length cs)
unfolding count tally
counts_added [] h = (refl, refl, refl)
counts_added (c ∷ cs) (h, hs) =
    let (r, g, a) = counts_added cs hs in rw h (omega arith, omega arith, omega arith)

counts_removed :
    (cs : List FieldChange)
    → All IsRemoved cs
    → (count ChangeKind.added cs ≡ 0)
      × (count ChangeKind.changed cs ≡ 0)
      × (count ChangeKind.removed cs ≡ length cs)
unfolding count tally
counts_removed [] h = (refl, refl, refl)
counts_removed (c ∷ cs) (h, hs) =
    let (r, g, a) = counts_removed cs hs in rw h (omega arith, omega arith, omega arith)

some-injective : {a b : Class} → some a ≡ some b → a ≡ b
some-injective h = cc

-- What a class says of a list of changes.
pub Says : Class → List FieldChange → Type 0
Says Class.full cs = cs ≡ []
Says Class.backward cs = (cs ≢ []) × All IsAdded cs
Says Class.forward cs = (cs ≢ []) × All IsRemoved cs
Says Class.breaking cs = ¬ (All IsAdded cs) × ¬ (All IsRemoved cs)

some_added : (cs : List FieldChange) → count ChangeKind.added cs ≢ 0 → cs ≢ []
unfolding count
some_added [] h e = h refl
some_added (c ∷ cs) h e = cc

some_removed : (cs : List FieldChange) → count ChangeKind.removed cs ≢ 0 → cs ≢ []
unfolding count
some_removed [] h e = h refl
some_removed (c ∷ cs) h e = cc

none_at_all :
    (cs : List FieldChange)
    → count ChangeKind.added cs ≡ 0
    → count ChangeKind.removed cs ≡ 0
    → count ChangeKind.changed cs ≡ 0
    → cs ≡ []
none_at_all [] a r g = refl
none_at_all (c ∷ cs) a r g =
    let (_, _, all) = counts_added (c ∷ cs) (only-IsAdded (c ∷ cs) r g) in absurd (omega arith)

not-IsAdded :
    (cs : List FieldChange)
    → (count ChangeKind.removed cs ≡ 0 → count ChangeKind.changed cs ≢ 0)
    → ¬ (All IsAdded cs)
not-IsAdded cs h all = let (r, g, a) = counts_added cs all in h r g

not-IsRemoved :
    (cs : List FieldChange)
    → (count ChangeKind.added cs ≡ 0 → count ChangeKind.changed cs ≢ 0)
    → ¬ (All IsRemoved cs)
not-IsRemoved cs h all = let (a, g, r) = counts_removed cs all in h a g

not_zero : (n : ℕ) → (suc n == 0) ≡ false
not_zero n = ground arith

by_counts :
    (cs : List FieldChange) (a r g : ℕ)
    → count ChangeKind.added cs ≡ a
    → count ChangeKind.removed cs ≡ r
    → count ChangeKind.changed cs ≡ g
    → Says
        (if r == 0 && g == 0
          then (if a == 0 then Class.full else Class.backward)
          else if a == 0 && g == 0
          then Class.forward
          else Class.breaking)
        cs
unfolding Says
by_counts cs zero zero zero ea er eg = none_at_all cs ea er eg
by_counts cs (suc a) zero zero ea er eg =
    rw (not_zero a) (some_added cs (λ z. absurd (omega arith)), only-IsAdded cs er eg)
by_counts cs zero (suc r) zero ea er eg =
    rw (not_zero r) (some_removed cs (λ z. absurd (omega arith)), only-IsRemoved cs ea eg)
by_counts cs (suc a) (suc r) zero ea er eg =
    rw (not_zero r, not_zero a)
      (not-IsAdded cs (λ z k. absurd (omega arith)), not-IsRemoved cs (λ z k. absurd (omega arith)))
by_counts cs zero zero (suc g) ea er eg =
    rw (not_zero g)
      (not-IsAdded cs (λ z k. absurd (omega arith)), not-IsRemoved cs (λ z k. absurd (omega arith)))
by_counts cs (suc a) zero (suc g) ea er eg =
    rw (not_zero g, not_zero a)
      (not-IsAdded cs (λ z k. absurd (omega arith)), not-IsRemoved cs (λ z k. absurd (omega arith)))
by_counts cs zero (suc r) (suc g) ea er eg =
    rw (not_zero r, not_zero g)
      (not-IsAdded cs (λ z k. absurd (omega arith)), not-IsRemoved cs (λ z k. absurd (omega arith)))
by_counts cs (suc a) (suc r) (suc g) ea er eg =
    rw (not_zero r, not_zero a)
      (not-IsAdded cs (λ z k. absurd (omega arith)), not-IsRemoved cs (λ z k. absurd (omega arith)))

class_of-Says : (cs : List FieldChange) → Says (class_of cs) cs
unfolding class_of
class_of-Says cs = by_counts cs _ _ _ refl refl refl

-- The class of two schemas is full if nothing changed, backward if there are only additions,
-- forward if there are only removals, and breaking if there is a change that is no addition and one
-- that is no removal.
pub compatibility_class-Says :
    (host : Host) (a b : Node) (cs : List FieldChange) (c : Class)
    → diff_recursive host a b ≡ some cs
    → compatibility_class host a b ≡ some c
    → Says c cs
unfolding compatibility_class
compatibility_class-Says host a b cs c d e =
    let same = some-injective (sym (ap class_of_changes d) ∙ e) in rw (← same) (class_of-Says cs)
