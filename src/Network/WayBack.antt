-- ===== src/Network/WayBack.antt =====
-- The routes that a flood leaves lead back to its source.
use on_demand_routing.Base.{
  ℕ, zero, suc, ◌+◌, ◌≤◌, ◌<◌, ◌≡◌, ap, subst, ◌∙◌, inl, inr, some, List, [], ◌∷◌, ◌++◌, All,
  All-append, CStr, arith,
}
use on_demand_routing.Odr.{Odr, World, Mac}
use on_demand_routing.Odr.Ensures.{Returns}
use on_demand_routing.Transmit.Delivery.{copies, onto}
use on_demand_routing.Network.{
  Packet, Net, Wiring, update, flushed, spread_all, deliver, lose, Run, here, stepped,
}
use on_demand_routing.Network.Node.{Request, IsRequest, distance, way, ignored, flooded}
use on_demand_routing.Network.Spread.{All-middle}
use on_demand_routing.Network.Flood.{
  IsNetwork, IsFlying, IsFlood, Reacted, reacted, hops_of, flying-small, onward, onward-hops,
}
use on_demand_routing.Network.Ending.{flood_terminates}
use on_demand_routing.Network.Covered.{Reached}
use on_demand_routing.Network.Upstream.{IsNeighbour}
use on_demand_routing.Network.Backed.{Upstream, IsBacked, IsBacked-ignored, IsBacked-flooded}

module _ (nodes : ℕ) (world : ℕ → World) (heard : Wiring) (source : ℕ) (q : Request) (s : Net) where
  -- From a node to the next one on its route to the source, and so on, over so many relays, each
  -- nearer to the source than the one before.
  pub data WayBack : ℕ → ℕ → Type 0 where
    straight :
        {i : ℕ} (k : ℕ) (m : Mac)
        → way q (s.node i) ≡ some (k, m)
        → IsNeighbour world heard i k m source
        → WayBack i zero
    over :
        {i n : ℕ} (k : ℕ) (m : Mac) (j : ℕ)
        → way q (s.node i) ≡ some (k, m)
        → IsNeighbour world heard i k m j
        → j < nodes
        → distance q (s.node j) < distance q (s.node i)
        → WayBack j n
        → WayBack i (suc n)

  follow_back :
      (fuel i : ℕ)
      → i < nodes
      → IsBacked nodes world heard source q s
      → Reached q (s.node i)
      → distance q (s.node i) ≤ fuel
      → (n : ℕ) × (n + 1 ≤ distance q (s.node i)) × WayBack i n
  follow_back zero i lt b reached le =
      let (k, m, d, leads, less, up) = b.routes i lt reached in absurd (omega (arith, less, le))
  follow_back (suc fuel) i lt b reached le =
      let (k, m, d, leads, less, (j, j_lt, near, end)) = b.routes i lt reached in
      elim end [
        | inl origin ↦ (
          zero,
          omega (arith, less),
          straight k m leads (subst (IsNeighbour world heard i k m) origin near),
        )
        | inr closer ↦
            let (n, short, rest) =
              follow_back fuel j j_lt b (omega (arith, closer, less, reached))
                (omega (arith, closer, less, le)) in
            (
              suc n,
              omega (arith, short, closer, less),
              over k m j leads near j_lt (omega (arith, closer, less)) rest,
            )
      ]

module _ (nodes links degree stale : ℕ) (world : ℕ → World) (heard : Wiring) (self : ℕ → CStr)
    (q : Request) (r : IsRequest q) (net : IsNetwork nodes links degree stale world heard self q)
    (source : ℕ) where
  abbrev Backed : Net → Type 0
  Backed = IsBacked nodes world heard source q

  handled-Backed :
      (s : Net) (before : List Packet) (p : Packet) (after : List Packet) (t : Odr)
      → (eq : s.air ≡ before ++ (p ∷ after)) → Backed s
      → IsFlying nodes stale world q s.node p
      → (s.node p.to).sent ≡ []
      → Reacted nodes links degree stale world heard self q r net p (s.node p.to) t
      → Backed (record {
        node = update s.node p.to (flushed t);
        air = before ++ (after ++ spread_all heard p.to t.sent);
      })
  unfolding distance
  handled-Backed s before p after t eq b fly quiet (calm, ignored same same_way none_sent _) =
      IsBacked-ignored nodes world heard source q s before p after t eq (omega (arith, same)) b
        fly.0 same same_way (none_sent ∙ quiet)
  handled-Backed s before p after t eq b fly quiet (calm, flooded further at leads sent) =
      let small = flying-small nodes links degree stale world heard self q r net s.node p fly in
      let f = onward nodes links degree stale world heard self q r net (hops_of p + 1) in
      IsBacked-flooded nodes world heard source q s before p after t eq (omega (arith, further, at))
        b fly.0 f
        (onward-hops nodes links degree stale world heard self q r net (hops_of p + 1) small) at
        leads (sent ∙ ap (onto (copies p.if_index f (world p.to).interfaces)) quiet)

  run-Backed :
      (s t : Net) (k : ℕ)
      → IsFlood nodes stale world q s
      → Backed s
      → Run nodes world heard s k t
      → Backed t
  run-Backed s _ _ fl b here = b
  run-Backed s _ _ fl b (stepped {t = u} run (lose before p after eq)) =
      let mid = run-Backed s u _ fl b run in
      let Up = λ (p : Packet).
        Upstream nodes world heard source q u.node p.to p.if_index p.hop (hops_of p) in
      let parts = All-middle Up before p after (subst (All Up) eq mid.frames) in
      record { routes = mid.routes; frames = All-append Up before after parts.0 parts.2 }
  run-Backed s _ _ fl b (stepped {t = u} run (deliver before p after t eq to ran)) =
      let mid = run-Backed s u _ fl b run in
      let now =
        (flood_terminates nodes links degree stale world heard self q r net s u _ fl run).0 in
      let Flies = IsFlying nodes stale world q u.node in
      let fly = (All-middle Flies before p after (subst (All Flies) eq now.flying)).1 in
      handled-Backed u before p after t eq mid fly (now.quiet p.to to) (
        subst (Returns _) ran
          (reacted nodes links degree stale world heard self q r net u p now fly))

  -- A network of healthy nodes floods a request whose destination none of them is, under the
  -- conditions of `IsNetwork` and `IsFlood`, and at the start every frame in the air, and the
  -- route to the source of every node that this request reached, comes from a neighbour which is
  -- the source or is at most as far from it as the frame or the route tells. Whatever has been
  -- delivered and lost, in whatever order, the route of every node that the request has reached
  -- leads to a neighbour that is the source or that the request has reached in fewer hops, and so
  -- on: after fewer relays than the hop count of the route it ends at the source, and no relay
  -- comes twice.
  pub routes_lead_back :
      (s t : Net) (k : ℕ)
      → IsFlood nodes stale world q s
      → IsBacked nodes world heard source q s
      → Run nodes world heard s k t
      → (i : ℕ) → i < nodes
      → Reached q (t.node i)
      → (n : ℕ) × (n + 1 ≤ distance q (t.node i)) × WayBack nodes world heard source q t i n
  routes_lead_back s t k fl b run i lt reached =
      follow_back nodes world heard source q t (distance q (t.node i)) i lt
        (run-Backed s t k fl b run) reached (omega arith)
