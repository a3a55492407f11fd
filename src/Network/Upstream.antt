-- ===== src/Network/Upstream.antt =====
-- Where a node got the request from: the neighbour that its route to the source leads over.
use on_demand_routing.Base.{
  ℕ, ◌≡◌, refl, sym, subst, ◌⊎◌, inl, inr, List, [], ◌∷◌, map, All, All-mono, All-append,
  Bool-cases,
}
use on_demand_routing.Frame.{Frame}
use on_demand_routing.Odr.{World, Mac, Hwa, Sent, raw, local}
use on_demand_routing.System.{convert_to_mac}
use on_demand_routing.Transmit.{is_flooded}
use on_demand_routing.Transmit.Delivery.{copies, onto}
use on_demand_routing.Network.{Packet, Wiring, spread, spread_all}
use on_demand_routing.Network.Spread.{All-map, All-onto, Among}
use on_demand_routing.Network.Covering.{all_ones, hearers}

-- The node hears on its interface `k`.
abbrev pub HearsOn : ℕ → ℕ → List (ℕ × ℕ) → Type 0
HearsOn i k [] = ⊥
HearsOn i k (r ∷ rs) = ((r.0 ≡ i) × (r.1 ≡ k)) ⊎ HearsOn i k rs

each_hears : (rs : List (ℕ × ℕ)) → All (λ r. HearsOn r.0 r.1 rs) rs
each_hears [] = tt
each_hears (r ∷ rs) = (inl (refl, refl), All-mono rs (λ x h. inr h) (each_hears rs))

module _ (world : ℕ → World) (heard : Wiring) where
  -- Node `i` hears on its interface `k` what node `j` broadcasts, from the address `m`, on a link.
  pub record IsNeighbour (i k : ℕ) (m : Mac) (j : ℕ) : Type 0 where
    pub link : Hwa
    pub among : Among link (world j).interfaces
    pub address : convert_to_mac link.if_haddr ≡ m
    pub hears : HearsOn i k (hearers heard j link.if_index)

  -- A packet that carries the frame and that its receiver hears from node `j`.
  abbrev pub ComesFrom : ℕ → Frame → Packet → Type 0
  ComesFrom j f p = IsNeighbour p.to p.if_index p.hop j × (p.frame ≡ f)

  module _ (j : ℕ) (f : Frame) where
    -- A broadcast of the frame on an interface of the node.
    abbrev IsBroadcast : Sent → Type 0
    IsBroadcast (raw src dst if_index g) =
        (g ≡ f)
        × (dst ≡ all_ones)
        × (h : Hwa) × Among h (world j).interfaces
        × (convert_to_mac h.if_haddr ≡ src)
        × (h.if_index ≡ if_index)
    IsBroadcast (local path text) = ⊥

    copies-IsBroadcast :
        (x : ℕ) (hs : List Hwa)
        → ((h : Hwa) → Among h hs → Among h (world j).interfaces)
        → All IsBroadcast (copies x f hs)
    unfolding copies
    copies-IsBroadcast x [] own = tt
    copies-IsBroadcast x (h ∷ hs) own =
        let rest = copies-IsBroadcast x hs (λ g among. own g (inr among)) in
        elim (Bool-cases (is_flooded x h)) [
          | inl out ↦ rw out ((refl, refl, h, own h (inl refl), refl, refl), rest)
          | inr other ↦ rw other rest
        ]

    spread-ComesFrom : (m : Sent) → IsBroadcast m → All (ComesFrom j f) (spread heard j m)
    unfolding spread
    spread-ComesFrom (raw src dst if_index g) (same, to, h, among, address, index) =
        subst
          (λ d. All (ComesFrom j f) (
            map (λ r. record { to = r.0; if_index = r.1; hop = src; frame = g })
              (heard j if_index d)))
          (sym to)
          (All-map (ComesFrom j f) _ (hearers heard j if_index) (
            All-mono (hearers heard j if_index)
              (λ r on. (
                record {
                  link = h;
                  among = among;
                  address = address;
                  hears = subst (λ x. HearsOn r.0 r.1 (hearers heard j x)) (sym index) on;
                },
                same,
              ))
              (each_hears (hearers heard j if_index))))
    spread-ComesFrom (local path text) never = absurd never

    spread_all-ComesFrom :
        (ms : List Sent) → All IsBroadcast ms → All (ComesFrom j f) (spread_all heard j ms)
    unfolding spread_all
    spread_all-ComesFrom [] h = tt
    spread_all-ComesFrom (m ∷ ms) (h, hs) =
        All-append (ComesFrom j f) (spread heard j m) (spread_all heard j ms) (spread-ComesFrom m h)
          (spread_all-ComesFrom ms hs)

    -- All who hear a copy hear it from the node.
    pub copies-ComesFrom :
        (x : ℕ)
        → All (ComesFrom j f) (spread_all heard j (onto (copies x f (world j).interfaces) []))
    copies-ComesFrom x =
        let ms = copies x f (world j).interfaces in
        spread_all-ComesFrom (onto ms []) (
          All-onto IsBroadcast ms [] (copies-IsBroadcast x (world j).interfaces (λ h in_it. in_it))
            tt)
