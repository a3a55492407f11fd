-- ===== src/Network/Journey.antt =====
-- A message that waits at the source of a request crosses the network once the reply is back.
use on_demand_routing.Base.{
  ℕ, zero, suc, ◌+◌, ◌*◌, ◌≤◌, ◌<◌, ◌≡◌, refl, sym, ap, subst, ◌∙◌, inl, inr, true, false, some, [],
  ◌∷◌, ◌++◌, CStr, str_eq, ◌==◌, arith,
}
use on_demand_routing.Frame.{Frame, convert_host_net_order, type_data, type_rrep}
use on_demand_routing.Odr.{Odr, World, Mac, raw}
use on_demand_routing.Odr.Outcome.{done}
use on_demand_routing.System.{get_hwaddr_from_int, convert_to_mac}
use on_demand_routing.Handler.Ether.{handle_ethernet_msg}
use on_demand_routing.Handler.Discovery.{parked}
use on_demand_routing.Handler.Relay.{relayed}
use on_demand_routing.Network.{
  Packet, Net, Wiring, update, flushed, spread, spread_all, Step, deliver, Run,
}
use on_demand_routing.Network.Node.{Request, IsRequest, far, distance, IsCalmNode}
use on_demand_routing.Network.Flood.{IsNetwork, IsFlood}
use on_demand_routing.Network.WayBack.{routes_lead_back}
use on_demand_routing.Network.Backed.{IsBacked}
use on_demand_routing.Network.Ending.{flood_terminates}
use on_demand_routing.Network.Taught.{IsAnswer, relayed-IsAnswer}
use on_demand_routing.Network.Outward.{back}
use on_demand_routing.Word.{IsWord}
use on_demand_routing.Network.WayOut.{
  LeavesEnd, Run-append, first_step, apart_of_lt, WayOut-kept, goes_out,
}
use on_demand_routing.Network.Handing.{IsMirrored}
use on_demand_routing.Network.Release.{sends_waiting}
use on_demand_routing.Network.Returning.{rank, Behind, at_end, Behind-cases, returns}

module _ (nodes links degree stale : ℕ) (world : ℕ → World) (heard : Wiring) (self : ℕ → CStr)
    (q : Request) (r : IsRequest q) (net : IsNetwork nodes links degree stale world heard self q)
    (source : ℕ) (exists : source < nodes) (mirrored : IsMirrored nodes world heard self source q)
    (t : Net) (fl : IsFlood nodes stale world q t) (g : Frame) (b : IsAnswer (back q) g)
    (is_data : g.frame_type ≡ type_data) (s : Odr)
    (waits : t.node source ≡ parked q.dest_ip g s) where
  calm_source : IsCalmNode (world source) q stale s
  calm_source = subst (IsCalmNode (world source) q stale) waits (fl.calm source exists)

  quiet_source : s.sent ≡ []
  quiet_source = subst (λ x. x.sent ≡ []) waits (fl.quiet source exists)

  -- The source gets the reply from a relay, and sends it the message.
  sent_out :
      (v : Net) (f : Frame)
      → IsAnswer q f
      → f.frame_type ≡ type_rrep
      → v.node source ≡ t.node source
      → (k : ℕ) (hop : Mac)
      → v.air
        ≡ record { to = source; if_index = k; hop = hop; frame = convert_host_net_order f } ∷ []
      → (mac : Mac) → get_hwaddr_from_int (world source).interfaces k ≡ some mac
      → (p x : ℕ) → heard source k (convert_to_mac hop) ≡ (p, x) ∷ []
      → (z : Net) × Step nodes world heard v z
        × (z.air
            ≡ record {
              to = p;
              if_index = x;
              hop = convert_to_mac mac;
              frame = convert_host_net_order g;
            }
              ∷ [])
        × ((y : ℕ) → (y == source) ≡ false → z.node y ≡ v.node y)
  unfolding spread spread_all
  sent_out v f a reply same k hop alone mac linked p x to_next =
      let (z, ran, sent) =
        sends_waiting (world source) (self source) (net.healthy source exists) q r stale
          mirrored.at_source f a reply k hop s calm_source g mac is_data quiet_source linked in
      let packet : Packet = record {
        to = source;
        if_index = k;
        hop = hop;
        frame = convert_host_net_order f;
      } in
      (
        record {
          node = update v.node source (flushed z);
          air = [] ++ ([] ++ spread_all heard source z.sent);
        },
        deliver [] packet [] z alone exists (
            subst
              (λ x.
                handle_ethernet_msg (world source) (convert_host_net_order f) k hop x ≡ done tt z)
              (sym (same ∙ waits)) ran),
        rw (sent, to_next) refl,
        λ y other. rw other refl,
      )

  module _ (end k_end : ℕ) (m_end : Mac) where
    abbrev place : ℕ → ℕ
    place =
        rank nodes links degree stale world heard self q r net source mirrored t fl end k_end m_end

    abbrev Leaves : Mac → Net → Type 0
    Leaves mac v =
        LeavesEnd nodes links degree stale world heard self q r net place end k_end m_end g mac v

    -- With the reply back at the source, the message goes out to the end.
    crosses :
        (v : Net) (f : Frame) (c : ℕ)
        → IsAnswer q f
        → f.frame_type ≡ type_rrep
        → v.node source ≡ t.node source
        → (source ≡ end → ⊥)
        → (k : ℕ) (hop : Mac)
        → v.air
          ≡ record { to = source; if_index = k; hop = hop; frame = convert_host_net_order f } ∷ []
        → Behind nodes links degree stale world heard self q r net source mirrored t fl end k_end
            m_end v.node source k hop c
        → (mac : Mac) → get_hwaddr_from_int (world end).interfaces k_end ≡ some mac
        → (steps : ℕ) × (z : Net) × (steps ≡ c) × Run nodes world heard v steps z × Leaves mac z
    crosses v f c a reply same apart k hop alone behind mac linked =
        elim (Behind-cases nodes links degree stale world heard self q r net source mirrored t fl
          end k_end m_end v.node source k hop c behind) [
            | inl never ↦ absurd (apart never)
            | inr (n, p, x, mac_s, count, linked_s, to_next, lt, less, out) ↦
                let (z, step, sent, others) =
                  sent_out v f a reply same k hop alone mac_s linked_s p x to_next in
                let still =
                  WayOut-kept nodes links degree stale world heard self q r net place end k_end
                    m_end v.node z.node out
                    (λ y le. others y (apart_of_lt place source y (omega (arith, less, le)))) in
                let (y, run, leaves) =
                  goes_out nodes links degree stale world heard self q r net place end k_end m_end n
                    z g still lt b (x, convert_to_mac mac_s, sent) mac linked in
                (_, y, omega (arith, count), first_step nodes world heard step run, leaves)
          ]

module _ (nodes links degree stale : ℕ) (world : ℕ → World) (heard : Wiring) (self : ℕ → CStr)
    (q : Request) (r : IsRequest q) (net : IsNetwork nodes links degree stale world heard self q)
    (source : ℕ) (exists : source < nodes)
    (mirrored : IsMirrored nodes world heard self source q) where
  -- A request was flooded, under the conditions of `routes_lead_back`, through a network in which
  -- links carry frames for one address both ways, each node has the interfaces on which it hears
  -- and is heard, and the source and no other node has the source's address; the source is one of
  -- the nodes, and the newest frame that waits there is data for the request's destination. If
  -- afterwards a reply from the destination to the source, without the flag for route discovery,
  -- is the only frame in the air, on its way to a node that the request has reached, which is not
  -- the source and has the interface on which the reply comes in, then there are steps, at most
  -- twice the hop count of that node's route, after which one frame is in the air, for that node:
  -- given it, the node returns, and sends the data, unchanged but for the hop count, on that
  -- interface to the address that the reply came from, and nothing else.
  pub message_crosses :
      (s t u : Net) (k : ℕ)
      → IsFlood nodes stale world q s
      → IsBacked nodes world heard source q s
      → Run nodes world heard s k t
      → u.node ≡ t.node
      → (i : ℕ) → i < nodes
      → distance q (t.node i) < far
      → str_eq q.src_ip (self i) ≡ false
      → (f : Frame) → IsAnswer q f
      → f.frame_type ≡ type_rrep
      → f.hop_count + distance q (t.node i) < far
      → (k_in : ℕ) (hop : Mac)
      → u.air ≡ record { to = i; if_index = k_in; hop = hop; frame = convert_host_net_order f } ∷ []
      → (mac : Mac) → get_hwaddr_from_int (world i).interfaces k_in ≡ some mac
      → (g : Frame) → IsAnswer (back q) g
      → g.frame_type ≡ type_data
      → (w : Odr) → t.node source ≡ parked q.dest_ip g w
      → (steps : ℕ) × (v : Net) × (steps ≤ 2 * distance q (t.node i))
        × Run nodes world heard u steps v
        × (p : Packet) × (z : Odr) × (hops : ℕ) × IsWord hops
        × (v.air ≡ p ∷ [])
        × (p.to ≡ i)
        × (handle_ethernet_msg (world i) p.frame p.if_index p.hop (v.node i) ≡ done tt z)
        × (z.sent
            ≡ raw
                (convert_to_mac mac)
                (convert_to_mac hop)
                k_in
                (convert_host_net_order (relayed g hops))
              ∷ [])
  message_crosses s t u k fl run_backed run same i lt reached here_not f a reply small k_in hop
        alone mac linked g b is_data w waits =
      let (n, short, path) =
        routes_lead_back nodes links degree stale world heard self q r net source s t k fl
          run_backed run i lt reached in
      let now =
        (flood_terminates nodes links degree stale world heard self q r net s t k fl run).0 in
      let (m, v, few, back_run, (k_home, hop_home, arrived, behind), kept) =
        returns nodes links degree stale world heard self q r net source mirrored t now i k_in hop u
          f zero path lt (λ x le. ap (λ node. node x) same) here_not a (omega (arith, short, small))
          (k_in, hop, alone, at_end refl refl refl) in
      let home = relayed f (f.hop_count + (m + 1)) in
      let (out_steps, z, count, out_run, (p, y, hops, word, left, at, ran, sent)) =
        crosses nodes links degree stale world heard self q r net source exists mirrored t now g b
          is_data w waits i k_in hop v home (suc zero + m)
          (relayed-IsAnswer q f a (f.hop_count + (m + 1)) (omega (arith, few, short, small)))
          (ground (arith, reply)) (kept ∙ ap (λ node. node source) same)
          (λ e. let at = subst (λ z. str_eq q.src_ip (self z) ≡ true) e mirrored.at_source in cc)
          k_home hop_home arrived behind mac linked in
      let (steps, all, whole) = Run-append nodes world heard back_run out_run in
      (
        steps,
        z,
        omega (arith, all, count, few, short),
        whole,
        p,
        y,
        hops,
        word,
        left,
        at,
        ran,
        sent,
      )
