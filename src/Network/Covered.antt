-- ===== src/Network/Covered.antt =====
-- A flood that loses no frame reaches every node that a path of links leads to.
use on_demand_routing.Base.{
  ℕ, ◌<◌, ◌≡◌, refl, sym, subst, ◌⊎◌, inl, inr, true, List, [], ◌∷◌, map, All, All-mono, All-append,
  Bool-cases,
}
use on_demand_routing.Frame.{Frame}
use on_demand_routing.Odr.{Odr, Hwa, Sent, raw, local}
use on_demand_routing.Transmit.{is_flooded}
use on_demand_routing.Transmit.Delivery.{copies}
use on_demand_routing.Network.{Packet, Net, Wiring, spread, spread_all}
use on_demand_routing.Network.Node.{Request, far, distance}
use on_demand_routing.Network.Spread.{All-map}
use on_demand_routing.Network.Covering.{Bound, Hears, is_link, all_ones, hearers}

-- Who hears a node that heard a broadcast on the same link heard the broadcast too, or made it.
abbrev pub IsShared : Wiring → Type 0
IsShared heard =
    (i if_index : ℕ)
    → All
        (λ r.
          (k : ℕ) → Hears k (hearers heard r.0 r.1) → (k ≡ i) ⊎ Hears k (hearers heard i if_index))
        (hearers heard i if_index)

module _ (q : Request) where
  -- The request has reached the node: it has an entry for the source by this request.
  abbrev pub Reached : Odr → Type 0
  Reached s = distance q s < far

  abbrev pub Covers : Net → ℕ → Type 0
  Covers s k = Reached (s.node k) ⊎ Bound k s.air

  module _ (heard : Wiring) where
    -- All who hear the node on the interface are reached, or a frame is on its way to them.
    abbrev pub Promised : Net → ℕ → ℕ → Type 0
    Promised s i if_index = (k : ℕ) → Hears k (hearers heard i if_index) → Covers s k

    abbrev pub LinksPromised : Net → ℕ → List Hwa → Type 0
    LinksPromised s i hs = All (λ h. is_link h ≡ true → Promised s i h.if_index) hs

    abbrev pub FramesPromised : Net → List Packet → Type 0
    FramesPromised s ps = All (λ p. Promised s p.to p.if_index) ps

    -- A message that a node broadcasts on a link whose hearers are covered.
    abbrev pub Fulfils : Net → ℕ → Sent → Type 0
    Fulfils s i (raw src dst if_index g) = (dst ≡ all_ones) × Promised s i if_index
    Fulfils s i (local path text) = ⊥

    pub copies-Fulfils :
        (s : Net) (i x : ℕ) (f : Frame) (hs : List Hwa)
        → All (λ h. is_flooded x h ≡ true → Promised s i h.if_index) hs
        → All (Fulfils s i) (copies x f hs)
    unfolding copies
    copies-Fulfils s i x f [] p = tt
    copies-Fulfils s i x f (h ∷ hs) (p, ps) = elim (Bool-cases (is_flooded x h)) [
      | inl out ↦ rw out ((refl, p out), copies-Fulfils s i x f hs ps)
      | inr other ↦ rw other (copies-Fulfils s i x f hs ps)
    ]

    module _ (shared : IsShared heard) (s : Net) (i : ℕ) (covered : Covers s i) where
      spread-FramesPromised : (m : Sent) → Fulfils s i m → FramesPromised s (spread heard i m)
      unfolding spread
      spread-FramesPromised (raw src dst if_index g) (to, p) =
          subst
            (λ d. FramesPromised s (
              map (λ r. record { to = r.0; if_index = r.1; hop = src; frame = g })
                (heard i if_index d)))
            (sym to)
            (All-map (λ p. Promised s p.to p.if_index) _ (hearers heard i if_index)
              (All-mono (hearers heard i if_index)
                (λ r near k h. elim (near k h) [
                  | inl back ↦ subst (Covers s) (sym back) covered
                  | inr on_link ↦ p k on_link
                ])
                (shared i if_index)))
      spread-FramesPromised (local path text) never = absurd never

      pub spread_all-FramesPromised :
          (ms : List Sent) → All (Fulfils s i) ms → FramesPromised s (spread_all heard i ms)
      unfolding spread_all
      spread_all-FramesPromised [] p = tt
      spread_all-FramesPromised (m ∷ ms) (p, ps) =
          All-append (λ p. Promised s p.to p.if_index) (spread heard i m) (spread_all heard i ms)
            (spread-FramesPromised m p) (spread_all-FramesPromised ms ps)
