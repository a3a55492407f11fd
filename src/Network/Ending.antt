-- ===== src/Network/Ending.antt =====
-- A flood ends: the theorems on its steps and runs.
use on_demand_routing.Base.{
  ℕ, zero, suc, ◌+◌, ◌-◌, ◌*◌, ◌≤◌, ◌<◌, ◌≡◌, refl, subst, List, [], ◌∷◌, All, All-append, All-mono,
  CStr, arith,
}
use on_demand_routing.Odr.{Odr, World}
use on_demand_routing.Odr.Outcome.{Outcome, done, failed, crashed}
use on_demand_routing.Odr.Ensures.{Returns}
use on_demand_routing.Network.{
  Handles, IsLossless, Packet, Net, Wiring, Step, deliver, lose, Run, here, stepped,
}
use on_demand_routing.Network.Node.{Request, IsRequest}
use on_demand_routing.Network.Measures.{near-le, weight, weight_pos}
use on_demand_routing.Network.Spread.{All-middle}
use on_demand_routing.Network.Totals.{sum, sum-append}
use on_demand_routing.Network.Settling.{handled, handled-Settled}
use on_demand_routing.Network.Flood.{
  IsNetwork, IsFlying, IsFlood, hops_of, cost, potential, reacted,
}

-- A call that returns is done with some state.
Returns-done :
    (P : Unit → Odr → Type 0) (o : Outcome Unit)
    → Returns P o
    → (t : Odr) × (o ≡ done tt t) × P tt t
Returns-done P (done a t) h = (t, refl, h)
Returns-done P (failed t) h = absurd h
Returns-done P crashed h = absurd h

module _ (nodes links degree stale : ℕ) (world : ℕ → World) (heard : Wiring) (self : ℕ → CStr)
    (q : Request) (r : IsRequest q)
    (net : IsNetwork nodes links degree stale world heard self q) where
  abbrev IsFlooding : Net → Type 0
  IsFlooding = IsFlood nodes stale world q

  abbrev energy : Net → ℕ
  energy = potential nodes links degree stale world heard self q r net

  Step-lowers :
      (s t : Net)
      → Step nodes world heard s t
      → IsFlooding s
      → IsFlooding t × (energy t + 1 ≤ energy s)
  unfolding potential weight sum
  Step-lowers s _ (deliver before p after t eq to ran) fl =
      let Flies = IsFlying nodes stale world q s.node in
      let fly = (All-middle Flies before p after (subst (All Flies) eq fl.flying)).1 in
      handled-Settled nodes links degree stale world heard self q r net s before p after t fl eq fly
        (subst (Returns _) ran
          (reacted nodes links degree stale world heard self q r net s p fl fly))
  Step-lowers s _ (lose before p after eq) fl =
      let Flies = IsFlying nodes stale world q s.node in
      let parts = All-middle Flies before p after (subst (All Flies) eq fl.flying) in
      (
        record {
          quiet = fl.quiet;
          calm = fl.calm;
          flying = All-append Flies before after parts.0 parts.2;
        },
        rw eq (
            omega (
              arith,
              weight_pos (links * degree) (nodes - hops_of p),
              sum-append (cost nodes links degree stale world heard self q r net) before
                  (p ∷ after),
              sum-append (cost nodes links degree stale world heard self q r net) before after,
            )),
      )

  -- A network of healthy nodes floods a request whose destination none of them is: each node has
  -- sent what it had to send, its table has no route to the destination, and its entry for the
  -- source, if it has one, is not newer than the request; each frame in the air is the request
  -- after some number of hops, and at least that many nodes lie at that distance or nearer by
  -- their tables. No clock goes on by as much as the staleness, there are fewer than 2 ^ 31 - 1
  -- nodes, each with at most `links` interfaces, and each frame is heard at most `degree` times.
  -- Then whatever frames are delivered, in whatever order, and whatever frames are lost, every
  -- step lowers the potential of the network by at least one and the same holds of the nodes and
  -- frames afterwards: no flood goes on for ever.
  pub flood_terminates :
      (s t : Net) (k : ℕ)
      → IsFlooding s
      → Run nodes world heard s k t
      → IsFlooding t × (k + energy t ≤ energy s)
  flood_terminates s _ _ fl here = (fl, omega arith)
  flood_terminates s t _ fl (stepped {t = u} run step) =
      let (mid, spent) = flood_terminates s u _ fl run in
      let (fl', less) = Step-lowers u t step mid in (fl', omega (arith, spent, less))

  -- A network of healthy nodes floods a request whose destination none of them is, under the
  -- conditions of `IsNetwork` and `IsFlood`. After any number of deliveries and losses, in any
  -- order, every frame in the air is on its way to one of the nodes, and its hop count is at most
  -- the number of nodes.
  pub flood_hops :
      (s t : Net) (k : ℕ)
      → IsFlooding s
      → Run nodes world heard s k t
      → All (λ p. (p.to < nodes) × (hops_of p ≤ nodes)) t.air
  flood_hops s t k fl run =
      All-mono t.air (λ p fly. (fly.0, omega (arith, fly.2, near-le nodes q t.node (hops_of p))))
        (flood_terminates s t k fl run).0.flying

  -- A node can handle every packet in the air.
  handles :
      (s : Net) (p : Packet)
      → IsFlooding s
      → IsFlying nodes stale world q s.node p
      → Handles world s p
  handles s p fl fly =
      let (z, ran, _) =
        Returns-done _ _ (reacted nodes links degree stale world heard self q r net s p fl fly) in
      (z, ran)

  -- What is in the air can be delivered, one packet after the other, until nothing is left.
  drain :
      (n j : ℕ) (t u : Net) (air : List Packet)
      → IsFlooding t
      → (run : Run nodes world heard t j u) → IsLossless nodes world heard run
      → u.air ≡ air
      → energy u ≤ n
      → (m : ℕ) × (v : Net) × (rest : Run nodes world heard t m v) × IsLossless nodes world heard
          rest
        × (v.air ≡ [])
  drain n j t u [] fl run whole eq le = (j, u, run, whole, eq)
  drain zero j t u (p ∷ after) fl run whole eq le =
      let now = (flood_terminates t u j fl run).0 in
      let fly = (subst (All (IsFlying nodes stale world q u.node)) eq now.flying).0 in
      let (z, ran) = handles u p now fly in
      absurd (
        omega (
          arith,
          le,
          (Step-lowers u (handled nodes links degree stale world heard self q r net u [] p after z)
              (deliver [] p after z eq fly.0 ran) now).1,
        ))
  drain (suc n) j t u (p ∷ after) fl run whole eq le =
      let now = (flood_terminates t u j fl run).0 in
      let fly = (subst (All (IsFlying nodes stale world q u.node)) eq now.flying).0 in
      let (z, ran) = handles u p now fly in
      let v = handled nodes links degree stale world heard self q r net u [] p after z in
      drain n (suc j) t v v.air fl (stepped run (deliver [] p after z eq fly.0 ran)) whole refl
        (omega (arith, le, (Step-lowers u v (deliver [] p after z eq fly.0 ran) now).1))

  -- A network of healthy nodes floods a request whose destination none of them is, under the
  -- conditions of `IsNetwork` and `IsFlood`. Whatever has been delivered and lost so far, the node
  -- that a frame in the air is for returns when it is given that frame, whichever frame this is,
  -- and from this state on there are steps which deliver frames only, lose none, and leave no
  -- frame in the air, at most as many in all, with those taken so far, as the potential at the
  -- start.
  pub flood_progress :
      (s t : Net) (k : ℕ)
      → IsFlooding s
      → Run nodes world heard s k t
      → All (Handles world t) t.air
        × (m : ℕ) × (u : Net) × (rest : Run nodes world heard t m u) × IsLossless nodes world heard
            rest
        × (u.air ≡ [])
        × (k + m ≤ energy s)
  flood_progress s t k fl run =
      let (now, spent) = flood_terminates s t k fl run in
      let (m, u, rest, whole, over) =
        drain (energy t) zero t t t.air now here tt refl (omega arith) in
      (
        All-mono t.air (λ p fly. handles t p now fly) now.flying,
        m,
        u,
        rest,
        whole,
        over,
        omega (arith, spent, (flood_terminates t u m now rest).1),
      )
