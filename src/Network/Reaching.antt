-- ===== src/Network/Reaching.antt =====
-- The steps of a flood that loses no frame.
use on_demand_routing.Base.{
  ℕ, ◌<◌, ◌≤◌, ◌≡◌, refl, sym, subst, inl, inr, true, false, List, [], ◌∷◌, ◌++◌, All, All-mono,
  All-append, ◌==◌, ==_iff, ==_refl, Bool-cases, arith,
}
use on_demand_routing.Frame.{Frame}
use on_demand_routing.Odr.{Odr, World}
use on_demand_routing.Transmit.{is_flooded}
use on_demand_routing.Transmit.Delivery.{copies, onto}
use on_demand_routing.Network.{Packet, Net, Wiring, update, flushed, spread_all}
use on_demand_routing.Network.Node.{Request, distance}
use on_demand_routing.Network.Measures.{distance-update}
use on_demand_routing.Network.Spread.{All-middle, All-onto}
use on_demand_routing.Network.Covering.{
  Bound, link_flooded, Bound-left, Bound-right, Bound-split, onto-Bound, copies-Bound,
}
use on_demand_routing.Network.Covered.{
  IsShared, Reached, Covers, Promised, LinksPromised, FramesPromised, Fulfils, copies-Fulfils,
  spread_all-FramesPromised,
}

-- Reached nodes and frames in the air have promised that the neighbours are covered.
pub record IsCovering (nodes : ℕ) (world : ℕ → World) (heard : Wiring) (q : Request) (s : Net)
    : Type 0 where
  pub links :
      (i : ℕ) → i < nodes → Reached q (s.node i) → LinksPromised q heard s i (world i).interfaces
  pub frames : FramesPromised q heard s s.air

module _ (nodes : ℕ) (world : ℕ → World) (heard : Wiring) (q : Request) (s : Net)
    (before : List Packet) (p : Packet) (after : List Packet) (t : Odr)
    (air : s.air ≡ before ++ (p ∷ after))
    (nearer : distance q (flushed t) ≤ distance q (s.node p.to))
    (arrived : Reached q (flushed t)) where
  abbrev pub now : Net
  now = record {
    node = update s.node p.to (flushed t);
    air = before ++ (after ++ spread_all heard p.to t.sent);
  }

  pub here-Reached : Reached q (now.node p.to)
  here-Reached = rw (==_refl p.to) arrived

  pub still_covered : (k : ℕ) → Covers q s k → Covers q now k
  still_covered k (inl reached) =
      inl (omega (arith, reached, distance-update nodes q s.node p.to (flushed t) nearer k))
  still_covered k (inr bound) =
      elim (Bound-split k before (p ∷ after) (subst (Bound k) air bound)) [
        | inl b ↦ inr (Bound-left k before _ b)
        | inr (inl to) ↦ inl (subst (λ z. Reached q (now.node z)) to here-Reached)
        | inr (inr b) ↦ inr (Bound-right k before _ (Bound-left k after _ b))
      ]

  pub still-Promised :
      (i if_index : ℕ) → Promised q heard s i if_index → Promised q heard now i if_index
  still-Promised i if_index promised k hears = still_covered k (promised k hears)

  unchanged : (i : ℕ) → (i == p.to) ≡ false → now.node i ≡ s.node i
  unchanged i other = rw other refl

  -- The other nodes keep their promises.
  pub IsCovering-after :
      IsCovering nodes world heard q s
      → LinksPromised q heard now p.to (world p.to).interfaces
      → FramesPromised q heard now (spread_all heard p.to t.sent)
      → IsCovering nodes world heard q now
  IsCovering-after c mine more =
      let old =
        All-middle (λ p. Promised q heard s p.to p.if_index) before p after
          (subst (FramesPromised q heard s) air c.frames) in
      let Holds_now = λ (p : Packet). Promised q heard now p.to p.if_index in
      record {
        links = λ i lt reached. elim (Bool-cases (i == p.to)) [
          | inl same ↦
              subst (λ z. LinksPromised q heard now z (world z).interfaces)
                (sym ((==_iff i p.to).0 same)) mine
          | inr other ↦
              All-mono (world i).interfaces (λ h kept link. still-Promised i h.if_index (kept link))
                (c.links i lt (subst (Reached q) (unchanged i other) reached))
        ];
        frames =
            All-append Holds_now before _
              (All-mono before (λ p kept. still-Promised p.to p.if_index kept) old.0)
              (All-append Holds_now after _
                (All-mono after (λ p kept. still-Promised p.to p.if_index kept) old.2) more);
      }

  -- A node that ignores the frame was reached before.
  pub IsCovering-ignored :
      IsCovering nodes world heard q s
      → p.to < nodes
      → Reached q (s.node p.to)
      → t.sent ≡ []
      → IsCovering nodes world heard q now
  unfolding spread_all
  IsCovering-ignored c lt reached none_sent =
      IsCovering-after c
        (All-mono (world p.to).interfaces
          (λ h kept link. still-Promised p.to h.if_index (kept link)) (c.links p.to lt reached))
        (rw none_sent tt)

  -- A node that floods the request on has a copy in the air for all who hear it, but for those on
  -- the link that the frame came in on, and they were covered already.
  pub IsCovering-flooded :
      (f : Frame)
      → IsShared heard
      → IsCovering nodes world heard q s
      → t.sent ≡ onto (copies p.if_index f (world p.to).interfaces) []
      → IsCovering nodes world heard q now
  IsCovering-flooded f shared c sent =
      let hs = (world p.to).interfaces in
      let ms = copies p.if_index f hs in
      let came_in : Promised q heard s p.to p.if_index =
        (All-middle (λ p. Promised q heard s p.to p.if_index) before p after
          (subst (FramesPromised q heard s) air c.frames)).1 in
      let in_air : (k : ℕ) → Bound k (spread_all heard p.to ms) → Covers q now k = λ k b. inr (
        Bound-right k before _ (
          Bound-right k after _ (
            subst (λ l. Bound k (spread_all heard p.to l)) (sym sent)
              (onto-Bound heard p.to k ms [] (inl b))))) in
      let promised : All
          (λ h. is_flooded p.if_index h ≡ true → Promised q heard now p.to h.if_index) hs =
        All-mono hs (λ h b out k hears. in_air k (b out k hears))
          (copies-Bound heard p.to p.if_index f hs) in
      IsCovering-after c
        (All-mono hs
          (λ h flooding link. elim (Bool-cases (h.if_index == p.if_index)) [
            | inl same ↦
                subst (Promised q heard now p.to) (sym ((==_iff h.if_index p.if_index).0 same))
                  (still-Promised p.to p.if_index came_in)
            | inr other ↦ flooding (link_flooded p.if_index h link other)
          ])
          promised)
        (subst (λ l. FramesPromised q heard now (spread_all heard p.to l)) (sym sent)
          (spread_all-FramesPromised q heard shared now p.to (inl here-Reached) (onto ms []) (
            All-onto (Fulfils q heard now p.to) ms []
              (copies-Fulfils q heard now p.to p.if_index f hs promised) tt)))
