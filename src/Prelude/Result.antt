-- ===== src/Prelude/Result.antt =====
-- Go's (value, error) pairs: a value, or an error of the component's own type.
use mathlib.Core.Path.{◌≡◌, refl}
use mathlib.Core.Bool.{Bool, true, false}
use omni_schema.Prelude.Tests.{if◌then◌else◌}

pub data Result (E A : Type 0) : Type 0 where
  ok : A → Result E A
  err : E → Result E A

pub ok-injective : {E A : Type 0} {a b : A} → ◌≡◌ {A = Result E A} (ok a) (ok b) → a ≡ b
ok-injective h = cc

-- `if !b { return e }`
abbrev pub guard : {E : Type 0} → Bool → E → Result E (Unit {0})
guard b e = if b then ok tt else err e

pub guard-ok : {E : Type 0} (b : Bool) (e : E) → guard b e ≡ ok tt → b ≡ true
guard-ok true e h = refl
guard-ok false e h = cc

-- `x, err := r; if err != nil { return err }`, then `k`.
infixl 5 ◌>>=◌ ◌>>◌
abbrev pub ◌>>=◌ : {E A B : Type 0} → Result E A → (A → Result E B) → Result E B
r >>= k = elim r [ err e ↦ err e | ok a ↦ k a ]

abbrev pub ◌>>◌ : {E B : Type 0} → Result E (Unit {0}) → Result E B → Result E B
r >> s = elim r [ err e ↦ err e | ok u ↦ s ]

-- Where the whole returns a value, the first step did and the second went on from it.
pub >>=-ok :
    {E A B : Type 0} {b : B} (r : Result E A) (k : A → Result E B)
    → (r >>= k) ≡ ok b
    → (a : A) × (r ≡ ok a) × (k a ≡ ok b)
>>=-ok (err e) k whole = cc
>>=-ok (ok a) k whole = (a, refl, whole)

-- Where both of two steps have to pass.
pub >>-both :
    {E A : Type 0} {a : A} (r : Result E (Unit {0})) (s : Result E A)
    → (r >> s) ≡ ok a
    → (r ≡ ok tt) × (s ≡ ok a)
>>-both (ok u) s whole = (refl, whole)
>>-both (err e) s whole = cc
