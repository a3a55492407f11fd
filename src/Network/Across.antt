-- ===== src/Network/Across.antt =====
-- A message from the source of a request, over the nodes that flooded it, to a process of the
-- destination, which is linked to one of them.
use on_demand_routing.Base.{
  ℕ, ◌+◌, ◌*◌, ◌≤◌, ◌<◌, ◌≡◌, refl, true, false, some, [], ◌∷◌, CStr, str_eq, arith,
}
use on_demand_routing.Word.{IsWord}
use on_demand_routing.Frame.{Frame, convert_host_net_order, type_data}
use on_demand_routing.Odr.{Odr, World, Mac, MapEntry, raw, local}
use on_demand_routing.Odr.Outcome.{done}
use on_demand_routing.System.{get_hwaddr_from_int, convert_to_mac}
use on_demand_routing.Ports.{fetch_entry_port}
use on_demand_routing.Routes.{is_nil, learned}
use on_demand_routing.Transmit.{peer_text}
use on_demand_routing.Handler.Ether.{handle_ethernet_msg}
use on_demand_routing.Handler.Discovery.{parked}
use on_demand_routing.Handler.Relay.{relayed}
use on_demand_routing.Network.{Packet, Net, Wiring, Run}
use on_demand_routing.Network.Node.{Request, IsRequest, after_hops, far, distance}
use on_demand_routing.Network.Messages.{IsStation}
use on_demand_routing.Network.Flood.{IsNetwork, IsFlood}
use on_demand_routing.Network.Backed.{IsBacked}
use on_demand_routing.Network.Taught.{IsAnswer}
use on_demand_routing.Network.Outward.{back}
use on_demand_routing.Network.Handing.{IsMirrored}
use on_demand_routing.Network.Destination.{
  reply_frame, replied, replies, reply_frame-IsAnswer, handed_over,
}
use on_demand_routing.Network.Journey.{message_crosses}

module _ (nodes links degree stale : ℕ) (world : ℕ → World) (heard : Wiring) (self : ℕ → CStr)
    (q : Request) (r : IsRequest q) (net : IsNetwork nodes links degree stale world heard self q)
    (source : ℕ) (exists : source < nodes) (mirrored : IsMirrored nodes world heard self source q)
    (there : World) (intf_there : ℕ) (mac_there : Mac)
    (b : IsStation there q.dest_ip intf_there mac_there) (other : Odr)
    (none_there : is_nil other.routes.order ≡ true) (hops : ℕ) (word : IsWord hops)
    (mac : Mac) where
  -- The address of the node that the destination is linked to, as a frame has it.
  abbrev near_hop : Mac
  near_hop = convert_to_mac mac

  abbrev answer : Frame
  answer = reply_frame q r there intf_there mac_there b other none_there hops word near_hop

  abbrev destination : Odr
  destination = replied q r there intf_there mac_there b other none_there hops word near_hop

  -- The nodes after the flood, and the reply on its way to the node `i`.
  abbrev answering : Net → ℕ → ℕ → Net
  answering t i k_in = record {
    node = t.node;
    air =
        record {
          to = i;
          if_index = k_in;
          hop = convert_to_mac mac_there;
          frame = convert_host_net_order answer;
        }
        ∷ [];
  }

  -- A request was flooded, under the conditions of `routes_lead_back`, through a network in which
  -- links carry frames for one address both ways, each node has the interfaces on which it hears
  -- and is heard, and the source and no other node has the source's address; the source is one of
  -- the nodes, and the newest frame that waits there is data for the request's destination. The
  -- destination is a healthy node that is linked to a node which the request has reached and which
  -- is not the source; its table is empty, and no reading of its clock finds an entry stale that
  -- it makes now. Given the request, after any number of hops, from that node, it sends one reply
  -- to it and returns. With this reply as the only frame in the air there are steps, at most twice
  -- the hop count of that node's route, after which one frame is left, for that node: given it,
  -- that node sends one frame to the destination and returns; and given that, the destination
  -- hands to the process on the data's port the text of its payload with the address and port that
  -- it came from, and returns.
  -- The destination replies to the node `i`, the message goes out to it over that node, and the
  -- process on the port gets it.
  abbrev pub Arrives : Net → ℕ → ℕ → Frame → MapEntry → Type 0
  Arrives t i k_in g server =
      (handle_ethernet_msg there (convert_host_net_order (after_hops q hops)) intf_there near_hop
          other
        ≡ done tt destination)
      × (destination.sent
          ≡ raw (convert_to_mac mac_there) (convert_to_mac near_hop) intf_there
              (convert_host_net_order answer)
            ∷ other.sent)
      × (steps : ℕ) × (v : Net) × (steps ≤ 2 * distance q (t.node i))
      × Run nodes world heard (answering t i k_in) steps v
      × (p : Packet) × (z : Odr) × (payload : Frame) × (v.air ≡ p ∷ [])
      × (p.to ≡ i)
      × (handle_ethernet_msg (world i) p.frame p.if_index p.hop (v.node i) ≡ done tt z)
      × (z.sent ≡ raw near_hop (convert_to_mac (convert_to_mac mac_there)) k_in payload ∷ [])
      × (end : Odr) × (handle_ethernet_msg there payload intf_there near_hop destination
          ≡ done tt end)
      × (end.sent
          ≡ local server.sun_path (peer_text g.src_ip g.src_port g.payload) ∷ destination.sent)

  pub message-Arrives :
      (s t : Net) (k : ℕ)
      → IsFlood nodes stale world q s
      → IsBacked nodes world heard source q s
      → Run nodes world heard s k t
      → (i : ℕ) → i < nodes
      → distance q (t.node i) < far
      → str_eq q.src_ip (self i) ≡ false
      → (k_in : ℕ) → get_hwaddr_from_int (world i).interfaces k_in ≡ some mac
      → (g : Frame) → IsAnswer (back q) g
      → g.frame_type ≡ type_data
      → (w : Odr) → t.node source ≡ parked q.dest_ip g w
      → (server : MapEntry) → fetch_entry_port other.ports g.dst_port ≡ some server
      → ((m : ℕ) → there.clock m < there.clock other.clock_reads + other.stale_param)
      → Arrives t i k_in g server
  unfolding learned
  message-Arrives s t k fl run_backed run i lt reached here_not k_in linked g a is_data w waits
        server bound steady =
      let reply =
        reply_frame-IsAnswer q r there intf_there mac_there b other none_there hops word near_hop in
      let (steps, v, few, out_run, p, z, n, small, left, at, ran, sent) =
        message_crosses nodes links degree stale world heard self q r net source exists mirrored s t
          (answering t i k_in) k fl run_backed run refl i lt reached here_not answer reply refl
          (omega (arith, reached)) k_in (convert_to_mac mac_there) refl mac linked g a is_data w
          waits in
      let (end, end_ran, delivered) =
        handed_over q r there intf_there mac_there b other none_there hops word near_hop g n server
          a is_data small bound steady in
      (
        replies q r there intf_there mac_there b other none_there hops word near_hop,
        refl,
        steps,
        v,
        few,
        out_run,
        p,
        z,
        convert_host_net_order (relayed g n),
        left,
        at,
        ran,
        sent,
        end,
        end_ran,
        delivered,
      )
