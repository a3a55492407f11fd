-- ===== src/Word.antt =====
-- The C type `int` of assign3/odr.h: a bit pattern below 2 ^ 32, read in two's complement where
-- the code compares, and its wrap-around written out where the code adds.
pub mod Order
pub mod Swap
use on_demand_routing.Base.{ℕ, ◌+◌, ◌-◌, ◌%◌, ◌^◌, ◌<◌, Bool, ltb}

abbrev pub word_mod : ℕ
word_mod = 2 ^ 32

abbrev pub IsWord : ℕ → Type 0
IsWord a = a < word_mod

-- The pattern of -1.
abbrev pub minus_one : ℕ
minus_one = word_mod - 1

-- The place of a pattern in the signed order.
unfoldable pub rank : ℕ → ℕ
rank a = (a + 2 ^ 31) % word_mod

-- `a < b` and `a > b` on ints.
abbrev pub slt : ℕ → ℕ → Bool
slt a b = ltb (rank a) (rank b)

abbrev pub sgt : ℕ → ℕ → Bool
sgt a b = slt b a

-- `a + 1`, as the compiled code computes it.
unfoldable pub inc : ℕ → ℕ
inc a = (a + 1) % word_mod
