-- ===== src/Network/Coverage.antt =====
-- At the end of a flood that lost no frame: the nodes that paths of links lead to.
use on_demand_routing.Base.{
  ℕ, ◌+◌, ◌<◌, ◌≤◌, ◌≡◌, ap, ◌∙◌, subst, inl, inr, true, List, [], ◌∷◌, ◌++◌, All, CStr, arith,
}
use on_demand_routing.Frame.{convert_host_net_order}
use on_demand_routing.Odr.{Odr, World, Hwa}
use on_demand_routing.Odr.Ensures.{Returns}
use on_demand_routing.Transmit.Delivery.{copies, onto}
use on_demand_routing.Network.{
  IsLossless, Packet, Net, Wiring, update, flushed, spread_all, deliver, lose, Run, here, stepped,
}
use on_demand_routing.Network.Node.{Request, IsRequest, after_hops, far, distance, ignored, flooded}
use on_demand_routing.Network.Spread.{All-middle}
use on_demand_routing.Network.Flood.{
  IsNetwork, IsFlying, IsFlood, Reacted, reacted, hops_of, flying-small,
}
use on_demand_routing.Network.Ending.{flood_terminates}
use on_demand_routing.Network.Covering.{Bound, Hears, is_link, hearers}
use on_demand_routing.Network.Spread.{Among, All-Among}
use on_demand_routing.Network.Covered.{IsShared, Reached, Covers, Promised}
use on_demand_routing.Network.Reaching.{
  IsCovering, still_covered, IsCovering-ignored, IsCovering-flooded,
}

module _ (nodes : ℕ) (world : ℕ → World) (heard : Wiring) where
  -- From a node to one that hears it on a link, and so on.
  pub data Trail (i : ℕ) : ℕ → Type 0 where
    stay : Trail i i
    along_link :
        {k j : ℕ}
        → Trail i k
        → k < nodes
        → (h : Hwa) → Among h (world k).interfaces
        → is_link h ≡ true
        → Hears j (hearers heard k h.if_index)
        → Trail i j

module _ (nodes links degree stale : ℕ) (world : ℕ → World) (heard : Wiring) (self : ℕ → CStr)
    (q : Request) (r : IsRequest q) (net : IsNetwork nodes links degree stale world heard self q)
    (shared : IsShared heard) (plain : q.route_disc_flag ≡ 0) where
  abbrev Covering : Net → Type 0
  Covering = IsCovering nodes world heard q

  -- With nothing in the air, who is covered is reached.
  landed : (t : Net) → t.air ≡ [] → (j : ℕ) → Covers q t j → Reached q (t.node j)
  landed t over j (inl reached) = reached
  landed t over j (inr bound) = absurd (subst (Bound j) over bound)

  follow :
      (t : Net)
      → Covering t
      → t.air ≡ []
      → (i j : ℕ) → Reached q (t.node i)
      → Trail nodes world heard i j
      → Reached q (t.node j)
  follow t c over i _ reached stay = reached
  follow t c over i _ reached (along_link {k = k} {j = j} path lt h among link hears) =
      let there = follow t c over i k reached path in
      landed t over j (
        All-Among (λ h. is_link h ≡ true → Promised q heard t k h.if_index) h (world k).interfaces
          (c.links k lt there) among link j hears)

  handled-Covers :
      (s : Net) (before : List Packet) (p : Packet) (after : List Packet) (t : Odr)
      → Covering s
      → p.to < nodes
      → hops_of p + 1 < far
      → s.air ≡ before ++ (p ∷ after)
      → Reacted nodes links degree stale world heard self q r net p (s.node p.to) t
      → let now : Net = record {
        node = update s.node p.to (flushed t);
        air = before ++ (after ++ spread_all heard p.to t.sent);
      } in
        (s.node p.to).sent ≡ [] → Covering now × ((k : ℕ) → Covers q s k → Covers q now k)
  unfolding distance
  handled-Covers s before p after t c lt small eq (calm, ignored same _ none_sent had) quiet =
      let reached = had plain in
      let nearer : distance q (flushed t) ≤ distance q (s.node p.to) = omega (arith, same) in
      let arrived : Reached q (flushed t) = omega (arith, same, reached) in
      (
        IsCovering-ignored nodes world heard q s before p after t eq nearer arrived c lt reached
            (none_sent ∙ quiet),
        still_covered nodes world heard q s before p after t eq nearer arrived,
      )
  handled-Covers s before p after t c lt small eq (calm, flooded further at _ sent) quiet =
      let nearer : distance q (flushed t) ≤ distance q (s.node p.to) = omega (arith, further, at) in
      let arrived : Reached q (flushed t) = omega (arith, at, small) in
      let f = convert_host_net_order (after_hops q (hops_of p + 1)) in
      (
        IsCovering-flooded nodes world heard q s before p after t eq nearer arrived f shared c
            (sent ∙ ap (onto (copies p.if_index f (world p.to).interfaces)) quiet),
        still_covered nodes world heard q s before p after t eq nearer arrived,
      )

  run-Covers :
      (s t : Net) (k : ℕ)
      → IsFlood nodes stale world q s
      → Covering s
      → (run : Run nodes world heard s k t) → IsLossless nodes world heard run
      → Covering t × ((j : ℕ) → Covers q s j → Covers q t j)
  run-Covers s _ _ fl c here whole = (c, λ j covered. covered)
  run-Covers s _ _ fl c (stepped {t = u} run (lose before p after eq)) whole = absurd whole
  run-Covers s _ _ fl c (stepped {t = u} run (deliver before p after t eq to ran)) whole =
      let (mid, kept) = run-Covers s u _ fl c run whole in
      let now =
        (flood_terminates nodes links degree stale world heard self q r net s u _ fl run).0 in
      let Flies = IsFlying nodes stale world q u.node in
      let fly = (All-middle Flies before p after (subst (All Flies) eq now.flying)).1 in
      let (covering, still) =
        handled-Covers u before p after t mid to
          (flying-small nodes links degree stale world heard self q r net u.node p fly) eq
          (subst (Returns _) ran
            (reacted nodes links degree stale world heard self q r net u p now fly))
          (now.quiet p.to to) in
      (covering, λ j covered. still j (kept j covered))

  -- A network of healthy nodes floods a request, whose destination none of them is and which does
  -- not ask for a new route, under the conditions of `IsNetwork` and `IsFlood`; who hears a node
  -- on a link on which it heard a broadcast made that broadcast or heard it too; and at the start,
  -- those who hear a reached node on a link, or the receiver of a frame on the interface of that
  -- frame, are reached or have a frame on the way. If the frames are delivered in any order, none
  -- is lost, and none is left in the air, then the request has reached every node that a path of
  -- links leads to from a node that was reached at the start or had a frame on the way: its table
  -- has an entry for the source by this request.
  pub flood_reaches :
      (s t : Net) (k : ℕ)
      → IsFlood nodes stale world q s
      → Covering s
      → (run : Run nodes world heard s k t) → IsLossless nodes world heard run
      → t.air ≡ []
      → (i j : ℕ) → Covers q s i
      → Trail nodes world heard i j
      → Reached q (t.node j)
  flood_reaches s t k fl c run whole over i j covered path =
      let (mid, kept) = run-Covers s t k fl c run whole in
      follow t mid over i j (landed t over i (kept i covered)) path
