-- ===== src/Tests/EndToEnd.antt =====
-- A message from a process of the first of three nodes in a line to one of a fourth, beyond the
-- third.
use on_demand_routing.Base.{◌≡◌, refl, [], ◌∷◌, arith}
use on_demand_routing.Frame.{convert_host_net_order}
use on_demand_routing.Word.{minus_one}
use on_demand_routing.Odr.{Odr}
use on_demand_routing.Odr.Outcome.{done}
use on_demand_routing.Transmit.Delivery.{copies, onto}
use on_demand_routing.Handler.Ether.{handle_ethernet_msg}
use on_demand_routing.Handler.Peer.{handle_peer_msg}
use on_demand_routing.Machine.{machine}
use on_demand_routing.Network.{
  Packet, Net, Run, here, stepped, deliver, update, flushed, spread, spread_all,
}
use on_demand_routing.Network.Node.{after_hops, distance}
use on_demand_routing.Network.Sending.{wanted, letter, IsReady, asked, begun}
use on_demand_routing.Network.Across.{Arrives}
use on_demand_routing.Network.EndToEnd.{message_goes_through}
use on_demand_routing.Routes.Found.{find}
use on_demand_routing.Tests.Node.{hwa, started, server, client}
use on_demand_routing.Tests.Ring.{state_of}
use on_demand_routing.Tests.Exchange.{neighbour, link_mac, neighbour-IsStation, to_carol, known}
use on_demand_routing.Tests.Line.{
  line_self, line_world, line_heard, sought, sought-IsRequest, line-IsNetwork, line-IsMirrored,
  to_second, right_mac,
}

-- No node knows of the others.
abbrev idle : Odr
idle = record known { broadcast_id = 10 }

abbrev beginning : Net
beginning = begun line_self 0 to_carol client (λ _. idle) 3 3 1 5 line_world line_heard

idle-IsReady : IsReady line_self 0 to_carol client (λ _. idle) 3 3 1 5 line_world line_heard
unfolding distance find
idle-IsReady = record { quiet = λ i lt. refl; calm = λ i lt. (refl, tt); unknown = λ i lt. refl }

wanted-sought : wanted line_self 0 to_carol client (λ _. idle) ≡ sought
unfolding machine
wanted-sought = refl

abbrev second_after : Odr
second_after = state_of (handle_ethernet_msg (line_world 1) to_second.frame 3 to_second.hop idle)

abbrev to_third : Packet
to_third = record {
  to = 2;
  if_index = 3;
  hop = right_mac;
  frame = convert_host_net_order (after_hops sought 1);
}

abbrev after_second : Net
after_second = record { node = update beginning.node 1 (flushed second_after); air = to_third ∷ [] }

abbrev third_after : Odr
third_after = state_of (handle_ethernet_msg (line_world 2) to_third.frame 3 to_third.hop idle)

abbrev after_third : Net
after_third = record { node = update after_second.node 2 (flushed third_after); air = [] }

abbrev two_hops : Run 3 line_world line_heard beginning 2 after_third
unfolding machine spread spread_all copies
two_hops =
    stepped (stepped here (deliver [] to_second [] second_after refl (omega arith) refl))
      (deliver [] to_third [] third_after refl (omega arith) refl)

third_reached : distance sought (after_third.node 2) ≡ 2
unfolding machine distance find
third_reached = refl

abbrev first_asked : Odr
first_asked = asked line_self 0 to_carol client (λ _. idle) 3 3 1 5 line_world line_heard

message_goes_through_example :
    let ms =
      copies minus_one (convert_host_net_order (after_hops sought 0)) (line_world 0).interfaces in
    (handle_peer_msg (line_world 0) to_carol idle ≡ done tt first_asked)
    × (first_asked.sent ≡ onto ms [])
    × Arrives 3 3 1 5 line_world line_heard line_self sought sought-IsRequest line-IsNetwork 0
        (omega arith)
        line-IsMirrored
        neighbour
        3
        link_mac
        neighbour-IsStation
        started
        refl
        2
        (omega arith)
        (hwa [] 4 []).if_haddr
        after_third
        2
        4
        (letter line_self 0 to_carol client (λ _. idle))
        server
unfolding machine
message_goes_through_example =
    message_goes_through line_self 0 to_carol client (λ _. idle) 3 3 1 5 line_world line_heard
      sought-IsRequest line-IsNetwork idle-IsReady (omega arith) refl line-IsMirrored neighbour 3
      link_mac neighbour-IsStation started refl 2 (omega arith) (hwa [] 4 []).if_haddr idle refl
      after_third 2 two_hops 2 (omega arith) (omega (arith, third_reached)) refl 4 refl server refl
      (λ m. omega arith)
