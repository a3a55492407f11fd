-- ===== src/Wire/Memory.antt =====
-- Strings and arrays in the bytes of a frame.
use on_demand_routing.Base.{
  ℕ, zero, suc, ◌+◌, ◌-◌, ◌<◌, ◌≤◌, ◌≡◌, refl, ap, sym, ◌∙◌, Bool, true, false, inl, inr, List, [],
  ◌∷◌, ◌++◌, length, take, drop, Bool-cases, ◌==◌, if◌then◌else◌, arith,
}
use on_demand_routing.Wire.{string_at}

-- A NUL is among the bytes.
abbrev pub has_nul : List ℕ → Bool
has_nul [] = false
has_nul (b ∷ bs) = if b == 0 then true else has_nul bs

drop-nil : (n : ℕ) → drop {A = ℕ} n [] ≡ []
drop-nil zero = refl
drop-nil (suc n) = refl

pub drop-drop : (m n : ℕ) (xs : List ℕ) → drop m (drop n xs) ≡ drop (n + m) xs
drop-drop m zero xs = ap (λ k. drop k xs) (omega arith)
drop-drop m (suc n) [] = drop-nil m ∙ sym (drop-nil (suc n + m))
drop-drop m (suc n) (x ∷ xs) =
    let same : suc (n + m) ≡ suc n + m = omega arith in
    drop-drop m n xs ∙ ap (λ k. drop k (x ∷ xs)) same

pub length-drop : (n : ℕ) (xs : List ℕ) → length (drop n xs) ≡ length xs - n
length-drop zero xs = omega arith
length-drop (suc n) [] = omega arith
length-drop (suc n) (x ∷ xs) = omega (arith, length-drop n xs)

-- What follows a buffer does not matter inside it.
take_within : (n : ℕ) (xs ys : List ℕ) → n ≤ length xs → take n (xs ++ ys) ≡ take n xs
take_within zero xs ys h = refl
take_within (suc n) [] ys h = absurd (omega (arith, h))
take_within (suc n) (x ∷ xs) ys h = ap (λ z. x ∷ z) (take_within n xs ys (omega (arith, h)))

pub window :
    (k n : ℕ) (xs ys : List ℕ) → k + n ≤ length xs → take n (drop k (xs ++ ys)) ≡ take n (drop k xs)
window zero n xs ys h = take_within n xs ys (omega (arith, h))
window (suc k) n [] ys h = absurd (omega (arith, h))
window (suc k) n (x ∷ xs) ys h = window k n xs ys (omega (arith, h))

-- A string is shorter than its array if and only if there is a NUL in the array.
pub length-string_at :
    (n : ℕ) (bs : List ℕ)
    → n ≤ length bs
    → (length (string_at bs) < n → has_nul (take n bs) ≡ true)
      × (has_nul (take n bs) ≡ true → length (string_at bs) < n)
unfolding string_at
length-string_at zero bs h =
    (λ less. absurd (omega (arith, less)), λ never. absurd (ground (arith, never)))
length-string_at (suc n) [] h = absurd (omega (arith, h))
length-string_at (suc n) (b ∷ bs) h =
    let (forth, back) = length-string_at n bs (omega (arith, h)) in
    elim (Bool-cases (b == 0)) [
      | inl nul ↦ rw nul (λ _. refl, λ _. omega arith)
      | inr char ↦ rw char (λ less. forth (omega (arith, less)), λ has. omega (arith, back has))
    ]
