-- ===== src/Network/Covering.antt =====
-- Which nodes a flood must still reach: paths over the links, and what a node or a frame in the air
-- promises to its neighbours.
use on_demand_routing.Base.{
  ℕ, ◌≡◌, refl, sym, subst, ◌⊎◌, inl, inr, Bool, true, false, not, ◌&&◌, List, [], ◌∷◌, ◌++◌, map,
  All, All-mono, codes, str_eq, ◌==◌, Bool-cases, arith,
}
use on_demand_routing.Frame.{Frame}
use on_demand_routing.Odr.{Mac, Hwa, Sent, raw}
use on_demand_routing.System.{before_colon, convert_to_mac}
use on_demand_routing.Transmit.{broadcast_mac, is_flooded}
use on_demand_routing.Transmit.Delivery.{copies, onto}
use on_demand_routing.Network.{Packet, Wiring, spread, spread_all}

-- A frame is on its way to the node.
abbrev pub Bound : ℕ → List Packet → Type 0
Bound j [] = ⊥
Bound j (p ∷ ps) = (p.to ≡ j) ⊎ Bound j ps

-- The node is among those that hear.
abbrev pub Hears : ℕ → List (ℕ × ℕ) → Type 0
Hears j [] = ⊥
Hears j (r ∷ rs) = (r.0 ≡ j) ⊎ Hears j rs

-- An interface that requests are flooded on.
abbrev pub is_link : Hwa → Bool
is_link h =
    not (str_eq (before_colon h.if_name) (codes "lo"))
    && not (str_eq (before_colon h.if_name) (codes "eth0"))

pub link_flooded :
    (i : ℕ) (h : Hwa) → is_link h ≡ true → (h.if_index == i) ≡ false → is_flooded i h ≡ true
unfolding is_flooded
link_flooded i h link other = ground (arith, link, other)

module _ (j : ℕ) where
  pub Bound-left : (xs ys : List Packet) → Bound j xs → Bound j (xs ++ ys)
  Bound-left [] ys b = absurd b
  Bound-left (x ∷ xs) ys (inl e) = inl e
  Bound-left (x ∷ xs) ys (inr b) = inr (Bound-left xs ys b)

  pub Bound-right : (xs ys : List Packet) → Bound j ys → Bound j (xs ++ ys)
  Bound-right [] ys b = b
  Bound-right (x ∷ xs) ys b = inr (Bound-right xs ys b)

  pub Bound-split : (xs ys : List Packet) → Bound j (xs ++ ys) → Bound j xs ⊎ Bound j ys
  Bound-split [] ys b = inr b
  Bound-split (x ∷ xs) ys (inl e) = inl (inl e)
  Bound-split (x ∷ xs) ys (inr b) = elim (Bound-split xs ys b) [
    | inl l ↦ inl (inr l)
    | inr r ↦ inr r
  ]

-- What broadcasts are sent to.
abbrev pub all_ones : Mac
all_ones = convert_to_mac broadcast_mac

module _ (heard : Wiring) (i : ℕ) where
  -- Who hears a broadcast on an interface of the node.
  abbrev pub hearers : ℕ → List (ℕ × ℕ)
  hearers if_index = heard i if_index all_ones

  map-Bound :
      (j : ℕ) (p : ℕ × ℕ → Packet) (rs : List (ℕ × ℕ))
      → ((r : ℕ × ℕ) → (p r).to ≡ r.0)
      → Hears j rs
      → Bound j (map p rs)
  map-Bound j p [] to h = absurd h
  map-Bound j p (r ∷ rs) to (inl e) = inl (rw (to r) e)
  map-Bound j p (r ∷ rs) to (inr h) = inr (map-Bound j p rs to h)

  spread-Bound :
      (j : ℕ) (src dst : Mac) (if_index : ℕ) (f : Frame)
      → Hears j (heard i if_index dst)
      → Bound j (spread heard i (raw src dst if_index f))
  unfolding spread
  spread-Bound j src dst if_index f h = map-Bound j _ (heard i if_index dst) (λ r. refl) h

  pub onto-Bound :
      (j : ℕ) (ms acc : List Sent)
      → Bound j (spread_all heard i ms) ⊎ Bound j (spread_all heard i acc)
      → Bound j (spread_all heard i (onto ms acc))
  unfolding spread_all
  onto-Bound j [] acc (inl b) = absurd b
  onto-Bound j [] acc (inr b) = b
  onto-Bound j (m ∷ ms) acc (inl b) =
      elim (Bound-split j (spread heard i m) (spread_all heard i ms) b) [
        | inl l ↦ onto-Bound j ms (m ∷ acc) (inr (Bound-left j _ (spread_all heard i acc) l))
        | inr r ↦ onto-Bound j ms (m ∷ acc) (inl r)
      ]
  onto-Bound j (m ∷ ms) acc (inr b) =
      onto-Bound j ms (m ∷ acc) (inr (Bound-right j (spread heard i m) _ b))

  -- Who hears a copy of the request has it in the air.
  pub copies-Bound :
      (x : ℕ) (f : Frame) (hs : List Hwa)
      → All
          (λ h.
            is_flooded x h ≡ true
            → (j : ℕ) → Hears j (hearers h.if_index)
            → Bound j (spread_all heard i (copies x f hs)))
          hs
  unfolding copies spread_all
  copies-Bound x f [] = tt
  copies-Bound x f (h ∷ hs) = elim (Bool-cases (is_flooded x h)) [
    | inl out ↦
        let m = raw (convert_to_mac h.if_haddr) all_ones h.if_index f in
        let first : copies x f (h ∷ hs) ≡ m ∷ copies x f hs = rw out refl in
        (
          (λ _ j heard_by.
              subst (λ ms. Bound j (spread_all heard i ms)) (sym first)
                (Bound-left j (spread heard i m) _
                  (spread-Bound j _ all_ones h.if_index f heard_by))),
          All-mono hs
              (λ g b o j heard_by.
                subst (λ ms. Bound j (spread_all heard i ms)) (sym first)
                  (Bound-right j (spread heard i m) _ (b o j heard_by)))
              (copies-Bound x f hs),
        )
    | inr in_or_local ↦
        let same : copies x f (h ∷ hs) ≡ copies x f hs = rw in_or_local refl in
        (
          (λ o. absurd (ground (arith, in_or_local, o))),
          All-mono hs
              (λ g b o j heard_by.
                subst (λ ms. Bound j (spread_all heard i ms)) (sym same) (b o j heard_by))
              (copies-Bound x f hs),
        )
  ]
