-- ===== src/Decimal/Numbers.antt =====
-- `atoi` on the texts of `%d`.
use on_demand_routing.Base.{
  ℕ, zero, suc, ◌+◌, ◌-◌, ◌*◌, ◌/◌, ◌%◌, ◌^◌, ◌<◌, ◌≤◌, length, ◌≡◌, ◌≢◌, refl, ap, ◌⊎◌, inl, inr,
  some, [], ◌∷◌, CStr, ltb, lt→ltb, arith, Bool-cases, All,
}
use on_demand_routing.Word.{word_mod}
use on_demand_routing.Decimal.{
  digits, print_int, skip_space, read_digits, positive, negative, signed, atoi,
}

-- Ten times as many for each round.
abbrev bound : ℕ → ℕ
bound zero = 1
bound (suc fuel) = 10 * bound fuel

read_digits-digits :
    (fuel n : ℕ) (acc : CStr)
    → n < bound fuel
    → read_digits 0 (digits fuel n acc) ≡ read_digits n acc
unfolding digits read_digits
read_digits-digits zero n acc h = ap (λ k. read_digits k acc) (omega (arith, h))
read_digits-digits (suc fuel) n acc h =
    let ih = read_digits-digits fuel (n / 10) ((b'0' + n % 10) ∷ acc) (omega (arith, h)) in
    ground (arith, ih)

-- A printed number has only digits after its first character.
abbrev pub IsPlain : ℕ → Type 0
IsPlain c = (c ≡ b'-') ⊎ ((b'0' ≤ c) × (c ≤ b'9'))

digits-IsPlain : (fuel n : ℕ) (acc : CStr) → All IsPlain acc → All IsPlain (digits fuel n acc)
unfolding digits
digits-IsPlain zero n acc h = h
digits-IsPlain (suc fuel) n acc h = elim (Bool-cases (ltb n 10)) [
  | inl e ↦ rw e (inr (omega arith, ground (arith, e)), h)
  | inr e ↦ rw e (digits-IsPlain fuel (n / 10) _ (inr (omega arith, omega arith), h))
]

pub print_int-IsPlain : (a : ℕ) → All IsPlain (print_int a)
unfolding print_int
print_int-IsPlain a = elim (Bool-cases (ltb a (2 ^ 31))) [
  | inl e ↦ rw e (digits-IsPlain 10 a [] tt)
  | inr e ↦ rw e (inl refl, digits-IsPlain 10 (word_mod - a) [] tt)
]

-- A string whose first character is a digit.
abbrev StartsDigit : CStr → Type 0
StartsDigit [] = ⊥
StartsDigit (c ∷ s) = (b'0' ≤ c) × (c ≤ b'9')

digits-StartsDigit : (fuel n : ℕ) (acc : CStr) → StartsDigit acc → StartsDigit (digits fuel n acc)
unfolding digits
digits-StartsDigit zero n acc h = h
digits-StartsDigit (suc fuel) n acc h = elim (Bool-cases (ltb n 10)) [
  | inl e ↦ rw e (omega arith, ground (arith, e))
  | inr e ↦ rw e (digits-StartsDigit fuel (n / 10) _ (omega arith, omega arith))
]

digits_start : (n : ℕ) → StartsDigit (digits 10 n [])
unfolding digits
digits_start n = elim (Bool-cases (ltb n 10)) [
  | inl e ↦ rw e (omega arith, ground (arith, e))
  | inr e ↦ rw e (digits-StartsDigit 9 (n / 10) _ (omega arith, omega arith))
]

atoi_digit : (s : CStr) → StartsDigit s → atoi s ≡ positive (read_digits 0 s)
unfolding atoi signed skip_space
atoi_digit [] h = absurd h
atoi_digit (c ∷ s) h = ground (arith, h)

atoi_minus : (s : CStr) → atoi (b'-' ∷ s) ≡ negative (read_digits 0 s)
unfolding atoi signed skip_space
atoi_minus s = refl

read_all : (n : ℕ) → n < word_mod → read_digits 0 (digits 10 n []) ≡ n
unfolding read_digits
read_all n h = read_digits-digits 10 n [] (omega (arith, h))

-- Numbers.
pub atoi-print_int : (a : ℕ) → a < word_mod → atoi (print_int a) ≡ some a
unfolding print_int positive negative
atoi-print_int a h = elim (Bool-cases (ltb a (2 ^ 31))) [
  | inl e ↦ rw (e, atoi_digit _ (digits_start a), read_all a h, e) refl
  | inr e ↦
      rw (e, atoi_minus (digits 10 (word_mod - a) []), read_all (word_mod - a) (ground (arith, e)))
        (ground (arith, h, e))
]

cons_not_nil : (c : ℕ) (s : CStr) → (c ∷ s) ≢ []
cons_not_nil c s e = ground (arith, e)

start_not_nil : (s : CStr) → StartsDigit s → s ≢ []
start_not_nil [] h = absurd h
start_not_nil (c ∷ s) h = cons_not_nil c s

pub print_int_not_nil : (a : ℕ) → print_int a ≢ []
unfolding print_int
print_int_not_nil a = elim (Bool-cases (ltb a (2 ^ 31))) [
  | inl e ↦ rw e (start_not_nil (digits 10 a []) (digits_start a))
  | inr e ↦ rw e (cons_not_nil b'-' (digits 10 (word_mod - a) []))
]

-- At most as many digits as the bound has zeros.
pub length-digits :
    (fuel k n : ℕ) (acc : CStr)
    → n < bound (suc k)
    → length (digits fuel n acc) ≤ suc k + length acc
unfolding digits
length-digits zero k n acc h = omega arith
length-digits (suc fuel) zero n acc h = ground (arith, h)
length-digits (suc fuel) (suc k) n acc h =
    let ih = length-digits fuel k (n / 10) ((b'0' + n % 10) ∷ acc) (omega (arith, h)) in
    ground (arith, ih)

pub length-print_int : (a : ℕ) → a < word_mod → length (print_int a) ≤ 11
unfolding print_int
length-print_int a h =
    let positive_digits = length-digits 10 9 a [] (omega (arith, h)) in
    elim (Bool-cases (ltb a (2 ^ 31))) [
      | inl e ↦ rw e (omega (arith, positive_digits))
      | inr e ↦ rw e (
          let negative_digits = length-digits 10 9 (word_mod - a) [] (ground (arith, e)) in
          omega (arith, negative_digits))
    ]

pub length-print_int_small : (a : ℕ) → a < 10 ^ 9 → length (print_int a) ≤ 9
unfolding print_int
length-print_int_small a h =
    let few = length-digits 10 8 a [] (omega (arith, h)) in
    rw (lt→ltb a (2 ^ 31) (omega (arith, h))) (omega (arith, few))
