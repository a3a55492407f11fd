-- ===== src/Network/Answered.antt =====
-- The way of an answer from a node that a flood reached to the source of the flood.
use on_demand_routing.Base.{ℕ, zero, suc, ◌+◌, ◌≤◌, ◌<◌, ◌≡◌, refl, ap, false, CStr, str_eq, arith}
use on_demand_routing.Frame.{Frame}
use on_demand_routing.Odr.{World}
use on_demand_routing.Handler.Relay.{relayed}
use on_demand_routing.Network.{Net, Wiring, Run}
use on_demand_routing.Network.Node.{Request, IsRequest, far, distance}
use on_demand_routing.Network.Flood.{IsNetwork, IsFlood}
use on_demand_routing.Network.WayBack.{routes_lead_back}
use on_demand_routing.Network.Backed.{IsBacked}
use on_demand_routing.Network.Ending.{flood_terminates}
use on_demand_routing.Network.Taught.{IsAnswer}
use on_demand_routing.Network.Handing.{IsMirrored}
use on_demand_routing.Network.Relays.{AloneFor}
use on_demand_routing.Network.Returning.{at_end, returns}

module _ (nodes links degree stale : ℕ) (world : ℕ → World) (heard : Wiring) (self : ℕ → CStr)
    (q : Request) (r : IsRequest q) (net : IsNetwork nodes links degree stale world heard self q)
    (source : ℕ) (mirrored : IsMirrored nodes world heard self source q) where
  -- A request was flooded, under the conditions of `routes_lead_back`, through a network in which
  -- links carry frames for one address both ways, each node has the interfaces on which it hears
  -- and is heard, and the source and no other node has the source's address. If afterwards a reply
  -- or data from the request's destination to its source, without the flag for route discovery, is
  -- the only frame in the air, on its way to a node that the request has reached and that is not
  -- the source, then there are steps in which that node and the next ones pass it on, one after
  -- the other, until it is on its way to the source: after at most as many relays as the hop count
  -- of that node's route, with the hop count raised by one at each relay; data is otherwise
  -- unchanged, and a reply is built anew with the same broadcast id, addresses and ports.
  pub answer_returns :
      (s t u : Net) (k : ℕ)
      → IsFlood nodes stale world q s
      → IsBacked nodes world heard source q s
      → Run nodes world heard s k t
      → u.node ≡ t.node
      → (i : ℕ) → i < nodes
      → distance q (t.node i) < far
      → str_eq q.src_ip (self i) ≡ false
      → (f : Frame) → IsAnswer q f
      → f.hop_count + distance q (t.node i) < far
      → AloneFor i f u.air
      → (m : ℕ) × (v : Net) × (m + 1 ≤ distance q (t.node i))
        × Run nodes world heard u (suc m) v
        × AloneFor source (relayed f (f.hop_count + (m + 1))) v.air
  answer_returns s t u k fl b run same i lt reached here_not f a small (k_in, hop, air) =
      let (n, short, path) =
        routes_lead_back nodes links degree stale world heard self q r net source s t k fl b run i
          lt reached in
      let now =
        (flood_terminates nodes links degree stale world heard self q r net s t k fl run).0 in
      let (m, v, few, passed, (k_home, hop_home, arrives, _), _) =
        returns nodes links degree stale world heard self q r net source mirrored t now i k_in hop u
          f zero path lt (λ x le. ap (λ node. node x) same) here_not a (omega (arith, short, small))
          (k_in, hop, air, at_end refl refl refl) in
      (m, v, omega (arith, few, short), passed, (k_home, hop_home, arrives))
