-- ===== src/Decimal.antt =====
-- `%d` of `sprintf`, and `atoi`.
pub mod Numbers
use on_demand_routing.Base.{
  ℕ, zero, suc, ◌+◌, ◌-◌, ◌*◌, ◌/◌, ◌%◌, ◌^◌, Bool, ◌&&◌, ◌||◌, Option, none, some, [], ◌∷◌, CStr,
  ltb, leb, ◌==◌, if◌then◌else◌,
}
use on_demand_routing.Word.{word_mod}

-- The digits of `n` in front of `acc`; ten rounds are enough for 32 bits.
unfoldable pub digits : ℕ → ℕ → CStr → CStr
digits zero n acc = acc
digits (suc fuel) n acc =
    let rest = digits fuel (n / 10) ((b'0' + n % 10) ∷ acc) in
    if ltb n 10 then (b'0' + n) ∷ acc else rest

unfoldable pub print_int : ℕ → CStr
print_int a = if ltb a (2 ^ 31) then digits 10 a [] else b'-' ∷ digits 10 (word_mod - a) []

abbrev pub is_space : ℕ → Bool
is_space c = c == b' ' || leb 9 c && leb c 13

abbrev pub is_digit : ℕ → Bool
is_digit c = leb b'0' c && leb c b'9'

unfoldable pub skip_space : CStr → CStr
skip_space [] = []
skip_space (c ∷ s) = let rest = skip_space s in if is_space c then rest else c ∷ s

-- The digits at the front of a string, after a number that was read already.
unfoldable pub read_digits : ℕ → CStr → ℕ
read_digits k [] = k
read_digits k (c ∷ s) =
    let rest = read_digits (k * 10 + (c - b'0')) s in if is_digit c then rest else k

-- A number and its sign as an `int`; the language leaves one that does not fit undefined.
unfoldable pub positive : ℕ → Option ℕ
positive k = if ltb k (2 ^ 31) then some k else none

unfoldable pub negative : ℕ → Option ℕ
negative k = if leb k (2 ^ 31) then some ((word_mod - k) % word_mod) else none

unfoldable pub signed : CStr → Option ℕ
signed [] = some 0
signed (c ∷ s) =
    if c == b'-'
    then negative (read_digits 0 s)
    else positive (read_digits 0 (if c == b'+' then s else c ∷ s))

unfoldable pub atoi : CStr → Option ℕ
atoi s = signed (skip_space s)
