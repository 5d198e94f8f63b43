-- ===== src/Uir/Types/Tags.antt =====
-- internal/uir/types.go: a law of all types or of all pairs of types is checked by running through them.
use omni_schema.Prelude.{ℕ, zero, suc, ◌≡◌, refl, Bool, true, ◌&&◌, ==_iff, arith}
use omni_schema.Prelude.{List, [], ◌∷◌, Option, none, some}
use omni_schema.Uir.Types.{UirType, iota, type_eq}

pub all_types : List UirType
all_types =
    UirType.unknown ∷ UirType.null ∷ UirType.string ∷ UirType.bytes ∷ UirType.int32 ∷ UirType.int64
    ∷ UirType.uint32 ∷ UirType.uint64 ∷ UirType.sint32 ∷ UirType.sint64 ∷ UirType.fixed32
    ∷ UirType.fixed64 ∷ UirType.sfixed32 ∷ UirType.sfixed64 ∷ UirType.float32 ∷ UirType.float64
    ∷ UirType.boolean ∷ UirType.array ∷ UirType.map ∷ UirType.enum ∷ UirType.union
    ∷ UirType.interface ∷ UirType.definition ∷ UirType.ref ∷ UirType.timestamp ∷ UirType.date
    ∷ UirType.time ∷ UirType.duration ∷ UirType.decimal ∷ []

nth : List UirType → ℕ → Option UirType
nth [] k = none
nth (t ∷ ts) zero = some t
nth (t ∷ ts) (suc k) = nth ts k

nth-iota : (t : UirType) → nth all_types (iota t) ≡ some t
unfolding nth all_types
nth-iota UirType.unknown = refl
nth-iota _ = refl

pub type_eq_refl : (a : UirType) → type_eq a a ≡ true
type_eq_refl a = (==_iff _ _).1 refl

for_all : List UirType → (UirType → Bool) → Bool
for_all [] p = true
for_all (t ∷ ts) p = p t && for_all ts p

for_all_sound :
    (ts : List UirType) (k : ℕ) (t : UirType) (p : UirType → Bool)
    → nth ts k ≡ some t
    → for_all ts p ≡ true
    → p t ≡ true
unfolding nth for_all
for_all_sound [] k t p e h = cc
for_all_sound (u ∷ ts) zero t p e h = ground arith
for_all_sound (u ∷ ts) (suc k) t p e h = ground (arith, for_all_sound ts k t p)

-- A test that holds at each listed type holds at every type.
unfoldable pub every_type : (UirType → Bool) → Bool
unfolding for_all all_types
every_type p = for_all all_types p

pub every_type_sound : (p : UirType → Bool) → every_type p ≡ true → (t : UirType) → p t ≡ true
unfolding every_type
every_type_sound p h t = for_all_sound all_types (iota t) t p (nth-iota t) h

pub every_pair_sound :
    (p : UirType → UirType → Bool)
    → every_type (λ a. every_type (p a)) ≡ true
    → (a b : UirType) → p a b ≡ true
every_pair_sound p h a b = every_type_sound (p a) (every_type_sound (λ t. every_type (p t)) h a) b
