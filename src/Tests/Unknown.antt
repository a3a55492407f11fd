-- ===== src/Tests/Unknown.antt =====
-- A request for the node and data for another one, from a node that it has no entry for.
use on_demand_routing.Base.{◌<◌, ◌≡◌, refl, inl, false, [], ◌∷◌, map, All, codes, str_eq, arith}
use on_demand_routing.Word.{minus_one}
use on_demand_routing.Frame.{
  Frame, IsFrame, convert_host_net_order, type_rreq, type_rrep, type_data,
}
use on_demand_routing.Odr.{Odr, raw}
use on_demand_routing.Odr.Outcome.{done}
use on_demand_routing.System.{convert_to_mac}
use on_demand_routing.Transmit.Delivery.{onto}
use on_demand_routing.Handler.Ether.{handle_ethernet_msg}
use on_demand_routing.Handler.Unknown.{
  GainsEntry, only, is_other_link, broadcast, request_answered, stranger_waits,
}
use on_demand_routing.Machine.{machine}
use on_demand_routing.Tests.Node.{
  node, node-IsHealthy, self, carol, hwa, hop_a, request_here, routed,
}

-- The table has an entry for `alice`, and `carol` asks for the node.
abbrev asks_here : Frame
asks_here = record request_here { src_ip = carol }

asks_here-IsFrame : IsFrame asks_here
asks_here-IsFrame = omega arith

asks_here_unknown :
    All
      (λ p.
        (p < routed.routes.fresh)
        × (str_eq (routed.routes.entry p).destip carol ≡ false)
        × (str_eq (routed.routes.entry p).destip self ≡ false))
      routed.routes.order
unfolding str_eq
asks_here_unknown = ((omega arith, refl, refl), tt)

request_answered_example :
    (t : Odr) × (handle_ethernet_msg node (convert_host_net_order asks_here) 3 hop_a routed
      ≡ done tt t)
    × (t.sent
        ≡ raw (convert_to_mac (hwa [] 3 []).if_haddr) (convert_to_mac hop_a) 3 (
            convert_host_net_order (record {
              frame_type = type_rrep;
              broadcast_id = 11;
              hop_count = 0;
              payload_len = 0;
              route_disc_flag = 0;
              src_port = 5500;
              dst_port = 909;
              dest_ip = carol;
              src_ip = self;
              payload = [];
            }))
          ∷ [])
    × GainsEntry node self node-IsHealthy asks_here asks_here-IsFrame 3 hop_a routed
        asks_here_unknown t
    × (t.broadcast_id ≡ 11)
    × (t.pending ≡ routed.pending)
    × (t.ports ≡ routed.ports)
unfolding machine
request_answered_example =
    request_answered node self node-IsHealthy asks_here asks_here-IsFrame 3 hop_a routed
      asks_here_unknown (hwa [] 3 []).if_haddr refl refl refl

-- Data of `carol` for a node that is not in the table.
abbrev for_dave : Frame
for_dave = record asks_here { frame_type = type_data; dest_ip = codes "10.0.0.9" }

for_dave-IsFrame : IsFrame for_dave
for_dave-IsFrame = omega arith

for_dave_unknown :
    All
      (λ p.
        (p < routed.routes.fresh)
        × (str_eq (routed.routes.entry p).destip carol ≡ false)
        × (str_eq (routed.routes.entry p).destip (codes "10.0.0.9") ≡ false))
      routed.routes.order
unfolding str_eq
for_dave_unknown = ((omega arith, refl, refl), tt)

stranger_waits_example :
    (t : Odr) × (handle_ethernet_msg node (convert_host_net_order for_dave) 3 hop_a routed
      ≡ done tt t)
    × (t.pending ≡ record { destip = codes "10.0.0.9"; odrframe = for_dave } ∷ routed.pending)
    × (t.sent
        ≡ onto
            (map
              (broadcast (
                convert_host_net_order (record {
                  frame_type = type_rreq;
                  broadcast_id = 11;
                  hop_count = 0;
                  payload_len = 0;
                  route_disc_flag = 0;
                  src_port = minus_one;
                  dst_port = 5500;
                  dest_ip = codes "10.0.0.9";
                  src_ip = self;
                  payload = [];
                })))
              (only (is_other_link 3) node.interfaces))
            [])
    × GainsEntry node self node-IsHealthy for_dave for_dave-IsFrame 3 hop_a routed for_dave_unknown
        t
    × (t.broadcast_id ≡ 11)
    × (t.ports ≡ routed.ports)
unfolding machine
stranger_waits_example =
    stranger_waits node self node-IsHealthy for_dave for_dave-IsFrame 3 hop_a routed
      for_dave_unknown (inl refl) refl refl
