-- ===== src/Base/Text.antt =====
-- Text as lists of bytes.
use Prim.Native.Nat.{ℕ, zero, suc, ◌<◌}
use Prim.Native.Char.{code}
use Prim.Native.String.{String}
use mathlib.Core.List.{List, [], ◌∷◌}
use mathlib.Core.Path.{◌≡◌, refl, sym, subst}
use mathlib.Core.Logic.{inl, inr}
use mathlib.Core.Bool.{Bool, true, false, ◌&&◌}
use native.Mathlib.Omega.{arith}
use cuore_os.Base.Tests.{leb, ◌==◌, ==_iff, Bool-cases}

-- The bytes of a literal.
abbrev pub bytes : String → List ℕ
bytes String.[] = []
bytes (String.◌∷◌ c s) = code c ∷ bytes s

-- `c >= '0' && c <= '9'`
abbrev pub is_digit : ℕ → Bool
is_digit c = leb b'0' c && leb c b'9'

-- A test for all numbers below a bound.
abbrev pub all_below : (n : ℕ) → (ℕ → Bool) → Bool
all_below zero f = true
all_below (suc n) f = all_below n f && f n

pub and-parts : (a b : Bool) → (a && b) ≡ true → (a ≡ true) × (b ≡ true)
and-parts true b h = (refl, h)
and-parts false b h = ground (arith, h)

pub all_below-test : (n : ℕ) (f : ℕ → Bool) → all_below n f ≡ true → (i : ℕ) → i < n → f i ≡ true
all_below-test zero f h i k = ground (arith, k)
all_below-test (suc n) f h i k = elim (Bool-cases (i == n)) [
  | inl e ↦ subst (λ j. f j ≡ true) (sym ((==_iff i n).0 e)) (and-parts (all_below n f) (f n) h).1
  | inr e ↦ all_below-test n f (and-parts (all_below n f) (f n) h).0 i (ground (arith, e, k))
]
