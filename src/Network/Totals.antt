-- ===== src/Network/Totals.antt =====
-- Sums over the nodes and over lists.
use native.Mathlib.Decide.{dec_lt}
use on_demand_routing.Base.{
  ℕ, zero, suc, ◌+◌, ◌*◌, ◌≤◌, ◌<◌, ◌≡◌, List, [], ◌∷◌, ◌++◌, length, All, subst, arith,
}

unfoldable pub total : ℕ → (ℕ → ℕ) → ℕ
total zero f = 0
total (suc n) f = total n f + f n

pub total_mono : (n : ℕ) (f g : ℕ → ℕ) → ((i : ℕ) → i < n → f i ≤ g i) → total n f ≤ total n g
unfolding total
total_mono zero f g h = omega arith
total_mono (suc n) f g h =
    omega (arith, total_mono n f g (λ i lt. h i (omega (arith, lt))), h n (omega arith))

-- One term that grows makes the sum grow.
pub total_grows :
    (n : ℕ) (f g : ℕ → ℕ) (j : ℕ)
    → j < n
    → f j + 1 ≤ g j
    → ((i : ℕ) → i < n → f i ≤ g i)
    → total n f + 1 ≤ total n g
unfolding total
total_grows zero f g j lt more h = absurd (omega (arith, lt))
total_grows (suc n) f g j lt more h = elim (dec_lt j n) [
  | yes below ↦
      omega
        (arith, total_grows n f g j below more (λ i l. h i (omega (arith, l))), h n (omega arith))
  | no last ↦
      let same : j ≡ n = omega (arith, lt, last) in
      omega (
        arith,
        total_mono n f g (λ i l. h i (omega (arith, l))),
        subst (λ z. f z + 1 ≤ g z) same more,
      )
]

pub total-le : (n : ℕ) (f : ℕ → ℕ) → ((i : ℕ) → f i ≤ 1) → total n f ≤ n
unfolding total
total-le zero f h = omega arith
total-le (suc n) f h = omega (arith, total-le n f h, h n)

module _ {A : Type 0} (cost : A → ℕ) where
  unfoldable pub sum : List A → ℕ
  sum [] = 0
  sum (x ∷ xs) = cost x + sum xs

  pub sum-append : (xs ys : List A) → sum (xs ++ ys) ≡ sum xs + sum ys
  unfolding sum
  sum-append [] ys = omega arith
  sum-append (x ∷ xs) ys = omega (arith, sum-append xs ys)

  -- So many of the same cost.
  pub sum-const : (c : ℕ) (xs : List A) → All (λ x. cost x ≡ c) xs → sum xs ≡ length xs * c
  unfolding sum
  sum-const c [] h = omega arith
  sum-const c (x ∷ xs) (h, hs) = grind (arith, h, sum-const c xs hs)
