-- ===== src/Uir/Types/Compat/Laws.antt =====
-- internal/uir/compat.go: what the compatibility matrix promises.
use omni_schema.Prelude.{ℕ, ◌^◌, ◌≤◌, ◌<◌, ◌≡◌, refl, Bool, true, false, not, ◌&&◌, ◌||◌}
use omni_schema.Prelude.{arith, Bool-cases, inl, inr, leb, leb→le, ltb, ltb→lt, ◌==◌}
use omni_schema.Prelude.Int.{ℤ, pos, negsuc}
use omni_schema.Uir.Types.{UirType}
use omni_schema.Uir.Types.Tags.{every_type, every_pair_sound}
use omni_schema.Uir.Types.Compat.{CompatEntry, lookup_compat}

abbrev implies : Bool → Bool → Bool
implies a b = not a || b

implies_sound : (a b : Bool) → implies a b ≡ true → a ≡ true → b ≡ true
implies_sound a b h k = ground arith

&&_parts : (a b : Bool) → a && b ≡ true → (a ≡ true) × (b ≡ true)
&&_parts a b h = ground arith

abbrev graded : CompatEntry → Bool
graded e = implies e.lossless e.safe && implies e.safe e.allowed

graded_all : every_type (λ a. every_type (λ b. graded (lookup_compat a b))) ≡ true
unfolding every_type lookup_compat
graded_all = refl

-- For every pair of types, an entry that is lossless is safe, and one that is safe is allowed.
pub lookup_compat_graded :
    (src dst : UirType)
    → ((lookup_compat src dst).lossless ≡ true → (lookup_compat src dst).safe ≡ true)
      × ((lookup_compat src dst).safe ≡ true → (lookup_compat src dst).allowed ≡ true)
lookup_compat_graded src dst =
    let e = lookup_compat src dst in
    let (l, s) =
      &&_parts _ _ (every_pair_sound (λ a b. graded (lookup_compat a b)) graded_all src dst) in
    (implies_sound e.lossless e.safe l, implies_sound e.safe e.allowed s)

-- What a number of an integer type may be, by the meaning of the type's name: how many numbers there
-- are below zero, and which number is the first that is too large.
abbrev pub below_zero : UirType → ℕ
below_zero UirType.int32 = 2 ^ 31
below_zero UirType.sint32 = 2 ^ 31
below_zero UirType.sfixed32 = 2 ^ 31
below_zero UirType.int64 = 2 ^ 63
below_zero UirType.sint64 = 2 ^ 63
below_zero UirType.sfixed64 = 2 ^ 63
below_zero _ = 0

abbrev pub limit : UirType → ℕ
limit UirType.int32 = 2 ^ 31
limit UirType.sint32 = 2 ^ 31
limit UirType.sfixed32 = 2 ^ 31
limit UirType.int64 = 2 ^ 63
limit UirType.sint64 = 2 ^ 63
limit UirType.sfixed64 = 2 ^ 63
limit UirType.uint32 = 2 ^ 32
limit UirType.fixed32 = 2 ^ 32
limit UirType.uint64 = 2 ^ 64
limit UirType.fixed64 = 2 ^ 64
limit _ = 0

abbrev pub InRange : UirType → ℤ → Type 0
InRange t (pos n) = n < limit t
InRange t (negsuc n) = n < below_zero t

-- The types that have numbers in range.
abbrev pub has_numbers : UirType → Bool
has_numbers t = ltb 0 (limit t)

abbrev both_integer : UirType → UirType → Bool
both_integer a b = has_numbers a && has_numbers b

abbrev widens : UirType → UirType → Bool
widens a b =
    implies (both_integer a b && (lookup_compat a b).lossless)
      (leb (below_zero a) (below_zero b) && leb (limit a) (limit b))

widens_all : every_type (λ a. every_type (λ b. widens a b)) ≡ true
unfolding every_type lookup_compat
widens_all = refl

InRange-mono :
    (a b : UirType) (v : ℤ)
    → below_zero a ≤ below_zero b
    → limit a ≤ limit b
    → InRange a v
    → InRange b v
InRange-mono a b (pos n) h k r = omega arith
InRange-mono a b (negsuc n) h k r = omega arith

&&_join : (a b c : Bool) → a ≡ true → b ≡ true → c ≡ true → (a && b) && c ≡ true
&&_join a b c h k l = ground arith

-- Between integer types, a conversion that the matrix calls lossless keeps every value of the source
-- in the range of the target.
pub lookup_compat-InRange :
    (src dst : UirType) (v : ℤ)
    → has_numbers src ≡ true
    → has_numbers dst ≡ true
    → (lookup_compat src dst).lossless ≡ true
    → InRange src v
    → InRange dst v
lookup_compat-InRange src dst v hs hd hl r =
    let w =
      implies_sound _ _ (every_pair_sound widens widens_all src dst) (&&_join _ _ _ hs hd hl) in
    let (lo, hi) = &&_parts _ _ w in InRange-mono src dst v (leb→le _ _ lo) (leb→le _ _ hi) r

-- From an unsigned type to a signed one.
abbrev pub signs : UirType → UirType → Bool
signs a b = below_zero a == 0 && not (below_zero b == 0)

abbrev narrows : UirType → UirType → Bool
narrows a b =
    implies (both_integer a b && not (signs a b) && not (lookup_compat a b).lossless)
      (ltb (limit b) (limit a) || ltb (below_zero b) (below_zero a))

narrows_all : every_type (λ a. every_type (λ b. narrows a b)) ≡ true
unfolding every_type lookup_compat
narrows_all = refl

&&_join₄ :
    (a b c d : Bool)
    → a ≡ true
    → b ≡ true
    → c ≡ false
    → d ≡ false
    → (a && b) && not c && not d ≡ true
&&_join₄ a b c d h k l m = ground arith

-- Between integer types, but not from an unsigned one to a signed one: a conversion that the matrix
-- does not call lossless has a value of the source that is out of the range of the target.
pub lookup_compat-not-InRange :
    (src dst : UirType)
    → has_numbers src ≡ true
    → has_numbers dst ≡ true
    → signs src dst ≡ false
    → (lookup_compat src dst).lossless ≡ false
    → (v : ℤ) × InRange src v × ¬ InRange dst v
lookup_compat-not-InRange src dst hs hd hu hl =
    let w =
      implies_sound _ _ (every_pair_sound narrows narrows_all src dst)
        (&&_join₄ _ _ _ _ hs hd hu hl) in
    elim (Bool-cases (ltb (limit dst) (limit src))) [
      | inl above ↦ (pos (limit dst), ltb→lt _ _ above, λ r. absurd (omega arith))
      | inr not_above ↦
          let below : ltb (below_zero dst) (below_zero src) ≡ true = rw not_above at w in
          (negsuc (below_zero dst), ltb→lt _ _ below, λ r. absurd (omega arith))
    ]
