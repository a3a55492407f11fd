-- ===== src/Network/Measures.antt =====
-- How many nodes a request has reached, and what a frame in the air may still cause.
use on_demand_routing.Base.{
  ℕ, zero, suc, ◌+◌, ◌-◌, ◌*◌, ◌≤◌, ◌<◌, ◌≡◌, ap, inl, inr, Bool-cases, if◌then◌else◌, leb, ◌==◌,
  ==_iff, ==_refl, arith,
}
use on_demand_routing.Odr.{Odr}
use on_demand_routing.Network.{update}
use on_demand_routing.Network.Node.{Request, distance}
use on_demand_routing.Network.Totals.{total, total_mono, total_grows, total-le}

abbrev at_most : ℕ → ℕ → ℕ
at_most x d = if leb d x then 1 else 0

at_most-le : (x d : ℕ) → at_most x d ≤ 1
at_most-le x d = ground arith

at_most_below : (x d e : ℕ) → e ≤ d → at_most x d ≤ at_most x e
at_most_below x d e h = ground (arith, h)

at_most_above : (x d : ℕ) → at_most x d ≤ at_most (x + 1) d
at_most_above x d = ground arith

at_most_reached : (x d : ℕ) → x + 1 ≤ d → at_most x d + 1 ≤ at_most (x + 1) (x + 1)
at_most_reached x d h = ground (arith, h)

module _ (nodes : ℕ) (q : Request) where
  -- How many nodes the request reached within so many hops.
  unfoldable pub near : (ℕ → Odr) → ℕ → ℕ
  near node x = total nodes (λ i. at_most x (distance q (node i)))

  pub near-le : (node : ℕ → Odr) (x : ℕ) → near node x ≤ nodes
  unfolding near
  near-le node x = total-le nodes _ (λ i. at_most-le x (distance q (node i)))

  pub distance-update :
      (node : ℕ → Odr) (j : ℕ) (t : Odr)
      → distance q t ≤ distance q (node j)
      → (i : ℕ) → distance q (update node j t i) ≤ distance q (node i)
  distance-update node j t h i = elim (Bool-cases (i == j)) [
    | inl same ↦ rw (same, (==_iff i j).0 same) h
    | inr other ↦ rw other (omega arith)
  ]

  pub near_grows :
      (node : ℕ → Odr) (j : ℕ) (t : Odr)
      → distance q t ≤ distance q (node j)
      → (x : ℕ) → near node x ≤ near (update node j t) x
  unfolding near
  near_grows node j t h x =
      total_mono nodes _ _ (λ i lt. at_most_below x _ _ (distance-update node j t h i))

  -- A node that the request reached in one more hop than `x` counts.
  pub near_reached :
      (node : ℕ → Odr) (j : ℕ) (t : Odr) (x : ℕ)
      → j < nodes
      → x + 1 ≤ distance q (node j)
      → distance q t ≡ x + 1
      → near node x + 1 ≤ near (update node j t) (x + 1)
  unfolding near
  near_reached node j t x lt further at =
      total_grows nodes _ _ j lt
        (rw (==_refl j, at) (at_most_reached x (distance q (node j)) further))
        (λ i l.
          let below = distance-update node j t (omega (arith, further, at)) i in
          omega (arith, at_most_above x (distance q (node i)), at_most_below (x + 1) _ _ below))

-- What a frame in the air may still cause, with so many hops to go.
module _ (width : ℕ) where
  unfoldable pub weight : ℕ → ℕ
  weight zero = 1
  weight (suc k) = 1 + width * weight k

  pub weight_pos : (k : ℕ) → 1 ≤ weight k
  unfolding weight
  weight_pos zero = omega arith
  weight_pos (suc k) = omega arith

  pub weight_step : (n h : ℕ) → h + 1 ≤ n → weight (n - h) ≡ 1 + width * weight (n - (h + 1))
  unfolding weight
  weight_step n h below =
      let next : n - h ≡ suc (n - (h + 1)) = omega (arith, below) in ap weight next
