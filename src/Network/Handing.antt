-- ===== src/Network/Handing.antt =====
-- One relay hands a frame on to the next, and knows afterwards where the frame came from.
use on_demand_routing.Base.{
  ℕ, ◌+◌, ◌<◌, ◌≡◌, refl, sym, subst, ◌⊎◌, true, false, some, [], ◌∷◌, ◌++◌, CStr, str_eq, ◌==◌,
  ==_refl,
}
use on_demand_routing.Frame.{Frame, convert_host_net_order}
use on_demand_routing.Odr.{Odr, World, Mac}
use on_demand_routing.Odr.Outcome.{done}
use on_demand_routing.System.{get_hwaddr_from_int, convert_to_mac}
use on_demand_routing.Handler.Ether.{handle_ethernet_msg}
use on_demand_routing.Handler.Relay.{relayed}
use on_demand_routing.Network.{
  Packet, Net, Wiring, update, flushed, spread, spread_all, Step, deliver,
}
use on_demand_routing.Network.Node.{Request, IsRequest, far, way}
use on_demand_routing.Network.Flood.{IsNetwork, IsFlood}
use on_demand_routing.Network.Upstream.{IsNeighbour}
use on_demand_routing.Network.Taught.{IsAnswer, IsTaught}
use on_demand_routing.Network.Relays.{sends_on}

-- Links carry frames for one address both ways, each node has the interfaces that it hears on and
-- is heard on, and the source and no other node has its address.
pub record IsMirrored (nodes : ℕ) (world : ℕ → World) (heard : Wiring) (self : ℕ → CStr)
    (source : ℕ) (q : Request) : Type 0 where
  pub unicast :
      (i k : ℕ) (m : Mac) (j : ℕ) (b : IsNeighbour world heard i k m j)
      → heard i k (convert_to_mac m) ≡ (j, b.link.if_index) ∷ []
  pub owned :
      (i k : ℕ) (m : Mac) (j : ℕ)
      → IsNeighbour world heard i k m j
      → (mac : Mac) × (get_hwaddr_from_int (world i).interfaces k ≡ some mac)
  pub reverse :
      (i k : ℕ) (m : Mac) (j : ℕ) (b : IsNeighbour world heard i k m j) (mac : Mac)
      → get_hwaddr_from_int (world i).interfaces k ≡ some mac
      → heard j b.link.if_index (convert_to_mac (convert_to_mac mac)) ≡ (i, k) ∷ []
  pub sending :
      (i k : ℕ) (m : Mac) (j : ℕ) (b : IsNeighbour world heard i k m j)
      → (mac : Mac) × (get_hwaddr_from_int (world j).interfaces b.link.if_index ≡ some mac)
  pub at_source : str_eq q.src_ip (self source) ≡ true
  pub between : (i : ℕ) → i < nodes → (i ≡ source) ⊎ (str_eq q.src_ip (self i) ≡ false)

module _ (nodes links degree stale : ℕ) (world : ℕ → World) (heard : Wiring) (self : ℕ → CStr)
    (q : Request) (r : IsRequest q) (net : IsNetwork nodes links degree stale world heard self q)
    (source : ℕ) (mirrored : IsMirrored nodes world heard self source q) (t : Net)
    (fl : IsFlood nodes stale world q t) where
  abbrev pub Knows : ℕ → Odr → ℕ → Mac → Type 0
  Knows i s k m = IsTaught (world i) q stale s.routes k m × (s.stale_param ≡ stale) × (s.sent ≡ [])

  -- A relay that is as the flood left it passes the frame to the next node.
  pub handed_on :
      (u : Net) (i : ℕ) (f : Frame)
      → i < nodes
      → u.node i ≡ t.node i
      → str_eq q.src_ip (self i) ≡ false
      → IsAnswer q f
      → f.hop_count + 1 < far
      → (k_in : ℕ) (hop : Mac)
      → u.air ≡ record { to = i; if_index = k_in; hop = hop; frame = convert_host_net_order f } ∷ []
      → (k : ℕ) (m : Mac) (j : ℕ) → way q (t.node i) ≡ some (k, m)
      → (near : IsNeighbour world heard i k m j)
      → (v : Net) × (mac : Mac) × Step nodes world heard u v
        × (get_hwaddr_from_int (world i).interfaces k ≡ some mac)
        × (v.air
            ≡ record {
              to = j;
              if_index = near.link.if_index;
              hop = convert_to_mac mac;
              frame = convert_host_net_order (relayed f (f.hop_count + 1));
            }
              ∷ [])
        × Knows i (v.node i) k_in hop
        × ((x : ℕ) → (x == i) ≡ false → v.node x ≡ u.node x)
  unfolding spread spread_all
  handed_on u i f lt as_before here_not a small k_in hop alone k m j leads near =
      let (mac, linked) = mirrored.owned i k m j near in
      let (z, ran, sent, taught, same_stale) =
        sends_on (world i) (self i) (net.healthy i lt) q r stale (net.steady i lt) here_not f a
          small k_in hop (t.node i) (fl.calm i lt) k m mac leads (fl.quiet i lt) linked in
      let p : Packet = record {
        to = i;
        if_index = k_in;
        hop = hop;
        frame = convert_host_net_order f;
      } in
      (
        record {
          node = update u.node i (flushed z);
          air = [] ++ ([] ++ spread_all heard i z.sent);
        },
        mac,
        deliver [] p [] z alone lt (
            subst
              (λ s. handle_ethernet_msg (world i) (convert_host_net_order f) k_in hop s ≡ done tt z)
              (sym as_before) ran),
        linked,
        rw (sent, mirrored.unicast i k m j near) refl,
        rw (==_refl i) (taught, same_stale, refl),
        λ x other. rw other refl,
      )
