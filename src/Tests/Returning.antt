-- ===== src/Tests/Returning.antt =====
-- A request that goes down a line of three nodes, and the reply that comes back.
use on_demand_routing.Base.{ℕ, suc, ◌+◌, ◌≤◌, ◌≡◌, refl, inr, [], ◌∷◌, arith}
use on_demand_routing.Frame.{Frame, convert_host_net_order, type_rrep}
use on_demand_routing.Odr.{Odr}
use on_demand_routing.Handler.Ether.{handle_ethernet_msg}
use on_demand_routing.Handler.Relay.{relayed}
use on_demand_routing.Machine.{machine}
use on_demand_routing.Network.{
  Packet, Net, update, flushed, spread, spread_all, deliver, Run, here, stepped,
}
use on_demand_routing.Network.Node.{after_hops, distance}
use on_demand_routing.Network.Taught.{IsAnswer}
use on_demand_routing.Network.Relays.{AloneFor}
use on_demand_routing.Network.WayBack.{WayBack, routes_lead_back}
use on_demand_routing.Network.Answered.{answer_returns}
use on_demand_routing.Routes.Found.{find}
use on_demand_routing.Tests.Node.{self, carol}
use on_demand_routing.Tests.Ring.{state_of}
use on_demand_routing.Tests.Line.{
  line_self, line_world, line_heard, sought, sought-IsRequest, line-IsNetwork, line-IsMirrored,
  line, line-IsFlood, line-IsBacked, to_second, right_mac, waiting,
}

abbrev second_after : Odr
second_after = state_of (handle_ethernet_msg (line_world 1) to_second.frame 3 to_second.hop waiting)

abbrev to_third : Packet
to_third = record {
  to = 2;
  if_index = 3;
  hop = right_mac;
  frame = convert_host_net_order (after_hops sought 1);
}

abbrev line_then : Net
line_then = record { node = update line.node 1 (flushed second_after); air = to_third ∷ [] }

abbrev third_after : Odr
third_after = state_of (handle_ethernet_msg (line_world 2) to_third.frame 3 to_third.hop waiting)

abbrev line_over : Net
line_over = record { node = update line_then.node 2 (flushed third_after); air = [] }

abbrev down_the_line : Run 3 line_world line_heard line 2 line_over
unfolding machine spread spread_all
down_the_line =
    stepped (stepped here (deliver [] to_second [] second_after refl (omega arith) refl))
      (deliver [] to_third [] third_after refl (omega arith) refl)

third_reached : distance sought (line_over.node 2) ≡ 2
unfolding machine distance find
third_reached = refl

routes_lead_back_example :
    (n : ℕ) × (n + 1 ≤ distance sought (line_over.node 2))
    × WayBack 3 line_world line_heard 0 sought line_over 2 n
routes_lead_back_example =
    routes_lead_back 3 3 1 5 line_world line_heard line_self sought sought-IsRequest line-IsNetwork
      0 line line_over 2 line-IsFlood line-IsBacked down_the_line 2 (omega arith)
      (omega (arith, third_reached))

-- The reply of `carol`, which is linked to the third node.
abbrev answer : Frame
answer = record {
  frame_type = type_rrep;
  broadcast_id = 1;
  hop_count = 0;
  payload_len = 0;
  route_disc_flag = 0;
  src_port = 5500;
  dst_port = 909;
  dest_ip = self;
  src_ip = carol;
  payload = [];
}

answer-IsAnswer : IsAnswer sought answer
answer-IsAnswer = record {
  well_formed = omega arith;
  kind = inr refl;
  unflagged = refl;
  to_source = refl;
  from_dest = refl;
}

abbrev answered : Net
answered = record {
  node = line_over.node;
  air =
      record { to = 2; if_index = 4; hop = right_mac; frame = convert_host_net_order answer } ∷ [];
}

answer_returns_example :
    (m : ℕ) × (v : Net) × (m + 1 ≤ distance sought (line_over.node 2))
    × Run 3 line_world line_heard answered (suc m) v
    × AloneFor 0 (relayed answer (0 + (m + 1))) v.air
unfolding machine
answer_returns_example =
    answer_returns 3 3 1 5 line_world line_heard line_self sought sought-IsRequest line-IsNetwork 0
      line-IsMirrored line line_over answered 2 line-IsFlood line-IsBacked down_the_line refl 2
      (omega arith) (omega (arith, third_reached)) refl answer answer-IsAnswer
      (omega (arith, third_reached)) (4, right_mac, refl)
