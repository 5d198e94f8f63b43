-- ===== src/Prelude/Bytes.antt =====
-- Go strings and byte slices as lists of bytes: equality, order, big-endian words, UTF-8.
use Prim.Native.Char.{code}
use Prim.Native.String.{String}
use Prim.Native.Nat.{ℕ, zero, suc, ◌+◌, ◌-◌, ◌*◌, ◌/◌, ◌%◌, ◌^◌, ◌<◌}
use mathlib.Core.Path.{◌≡◌, refl, ap}
use mathlib.Core.Logic.{◌↔◌}
use mathlib.Core.Bool.{Bool, true, false, ◌&&◌}
use mathlib.Core.Option.{Option, none, some}
use mathlib.Core.List.{List, [], ◌∷◌}
use native.Mathlib.Omega.{arith}
use omni_schema.Prelude.Lists.{length}
use omni_schema.Prelude.Tests.{ltb, leb, ◌==◌, if◌then◌else◌}

-- A Go string is its bytes.
abbrev pub Text : Type 0
Text = List ℕ

abbrev pub IsByte : ℕ → Type 0
IsByte b = b < 256

-- The bytes of an ASCII literal.
abbrev pub codes : String → Text
codes String.[] = []
codes (String.◌∷◌ c s) = code c ∷ codes s

-- s == t on strings.
unfoldable pub text_eq : Text → Text → Bool
text_eq [] [] = true
text_eq [] (y ∷ ys) = false
text_eq (x ∷ xs) [] = false
text_eq (x ∷ xs) (y ∷ ys) = x == y && text_eq xs ys

pub text_eq_sound : (s t : Text) → text_eq s t ≡ true → s ≡ t
unfolding text_eq
text_eq_sound [] [] h = refl
text_eq_sound [] (y ∷ ys) h = cc
text_eq_sound (x ∷ xs) [] h = cc
text_eq_sound (x ∷ xs) (y ∷ ys) h = ground (arith, text_eq_sound xs ys)

pub text_eq_refl : (s : Text) → text_eq s s ≡ true
unfolding text_eq
text_eq_refl [] = refl
text_eq_refl (x ∷ xs) = ground (arith, text_eq_refl xs)

-- s < t on strings: the first differing byte decides, and a proper prefix is smaller.
unfoldable pub text_lt : Text → Text → Bool
text_lt xs [] = false
text_lt [] (y ∷ ys) = true
text_lt (x ∷ xs) (y ∷ ys) = if x == y then text_lt xs ys else ltb x y

pub text_eq_iff : (s t : Text) → (text_eq s t ≡ true) ↔ (s ≡ t)
text_eq_iff s t = (text_eq_sound s t, λ e. rw (← e) (text_eq_refl s))

-- `s == ""`
abbrev pub is_empty : Text → Bool
is_empty [] = true
is_empty (b ∷ bs) = false

-- `seen[k]`, for a set of strings as a list.
unfoldable pub mem_text : Text → List Text → Bool
mem_text k [] = false
mem_text k (x ∷ xs) = if text_eq x k then true else mem_text k xs

-- utf8.Valid as an automaton: how many continuation bytes are due, and the range of the next.
pub record Utf8 : Type 0 where
  pub due : ℕ
  pub low : ℕ
  pub high : ℕ

abbrev utf8_start : ℕ → Option Utf8
utf8_start b =
    if ltb b 0x80
    then some (record { due = 0; low = 0; high = 0 })
    else if ltb b 0xc2
    then none
    else if ltb b 0xe0
    then some (record { due = 1; low = 0x80; high = 0xbf })
    else if b == 0xe0
    then some (record { due = 2; low = 0xa0; high = 0xbf })
    else if b == 0xed
    then some (record { due = 2; low = 0x80; high = 0x9f })
    else if ltb b 0xf0
    then some (record { due = 2; low = 0x80; high = 0xbf })
    else if b == 0xf0
    then some (record { due = 3; low = 0x90; high = 0xbf })
    else if ltb b 0xf4
    then some (record { due = 3; low = 0x80; high = 0xbf })
    else if b == 0xf4
    then some (record { due = 3; low = 0x80; high = 0x8f })
    else none

abbrev utf8_next : Utf8 → ℕ → Option Utf8
utf8_next s b =
    if s.due == 0
    then utf8_start b
    else if leb s.low b && leb b s.high
    then some (record { due = s.due - 1; low = 0x80; high = 0xbf })
    else none

utf8_run : Utf8 → Text → Bool
utf8_run s [] = s.due == 0
utf8_run s (b ∷ bs) = elim (utf8_next s b) [ none ↦ false | some t ↦ utf8_run t bs ]

unfoldable pub valid_utf8 : Text → Bool
unfolding utf8_run
valid_utf8 s = utf8_run (record { due = 0; low = 0; high = 0 }) s

-- The k low bytes of v, the highest first.
unfoldable pub big_endian : ℕ → ℕ → List ℕ
big_endian zero v = []
big_endian (suc k) v = (v / 256 ^ k % 256) ∷ big_endian k v

-- The number that the bytes spell, the highest first.
unfoldable pub from_big_endian : ℕ → List ℕ → ℕ
from_big_endian acc [] = acc
from_big_endian acc (d ∷ ds) = from_big_endian (acc * 256 + d) ds

pub length-big_endian : (k v : ℕ) → length (big_endian k v) ≡ k
unfolding big_endian
length-big_endian zero v = refl
length-big_endian (suc k) v = ap suc (length-big_endian k v)

-- The widths of a machine word.
pub from-big_endian_2 : (v : ℕ) → v < 2 ^ 16 → from_big_endian 0 (big_endian 2 v) ≡ v
unfolding big_endian from_big_endian
from-big_endian_2 v h = omega arith

pub from-big_endian_4 : (v : ℕ) → v < 2 ^ 32 → from_big_endian 0 (big_endian 4 v) ≡ v
unfolding big_endian from_big_endian
from-big_endian_4 v h = omega arith

pub from-big_endian_8 : (v : ℕ) → v < 2 ^ 64 → from_big_endian 0 (big_endian 8 v) ≡ v
unfolding big_endian from_big_endian
from-big_endian_8 v h = omega arith

-- strconv.FormatUint(n, 10). A digit is taken each round, so n + 1 rounds are enough.
decimal_loop : ℕ → ℕ → Text → Text
decimal_loop zero n out = out
decimal_loop (suc f) n out =
    let more = decimal_loop f (n / 10) ((48 + n % 10) ∷ out) in
    if ltb n 10 then (48 + n) ∷ out else more

unfoldable pub decimal : ℕ → Text
unfolding decimal_loop
decimal n = decimal_loop (suc n) n []
