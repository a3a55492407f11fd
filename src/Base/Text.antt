-- ===== src/Base/Text.antt =====
-- C strings: the bytes before the terminating NUL.
use Prim.Native.Nat.{ℕ}
use Prim.Native.Char.{code}
use Prim.Native.String.{String}
use mathlib.Core.Path.{◌≡◌, refl, sym}
use mathlib.Core.Logic.{inl, inr}
use mathlib.Core.Bool.{Bool, true, false, ◌&&◌}
use mathlib.Core.List.{List, [], ◌∷◌}
use native.Mathlib.Omega.{arith}
use on_demand_routing.Base.Tests.{ltb, ◌==◌, Bool-cases}
use on_demand_routing.Base.Lists.{length}

abbrev pub CStr : Type 0
CStr = List ℕ

-- The bytes of an ASCII literal.
abbrev pub codes : String → CStr
codes String.[] = []
codes (String.◌∷◌ c s) = code c ∷ codes s

-- `strcmp (s, t) == 0`.
unfoldable pub str_eq : CStr → CStr → Bool
str_eq [] [] = true
str_eq [] (y ∷ t) = false
str_eq (x ∷ s) [] = false
str_eq (x ∷ s) (y ∷ t) = x == y && str_eq s t

-- Whether a string and its NUL fit into a `char` array of `size` elements.
abbrev pub fits : ℕ → CStr → Bool
fits size s = ltb (length s) size

pub str_eq→eq : (s t : CStr) → str_eq s t ≡ true → s ≡ t
unfolding str_eq
str_eq→eq [] [] h = refl
str_eq→eq [] (y ∷ t) h = ground arith
str_eq→eq (x ∷ s) [] h = ground arith
str_eq→eq (x ∷ s) (y ∷ t) h = ground (arith, str_eq→eq s t)

pub str_eq_refl : (s : CStr) → str_eq s s ≡ true
unfolding str_eq
str_eq_refl [] = refl
str_eq_refl (x ∷ s) = ground (arith, str_eq_refl s)

pub eq→str_eq : (s t : CStr) → s ≡ t → str_eq s t ≡ true
eq→str_eq s t e = rw e (str_eq_refl t)

-- Texts that differ do so in either order.
pub str_eq_comm : (s t : CStr) → str_eq s t ≡ false → str_eq t s ≡ false
str_eq_comm s t differ = elim (Bool-cases (str_eq t s)) [
  | inl same ↦ let equal : str_eq s t ≡ true = eq→str_eq s t (sym (str_eq→eq t s same)) in cc
  | inr other ↦ other
]
