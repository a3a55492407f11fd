-- ===== src/Tests/Handlers.antt =====
-- The theorems on the handlers and on what is sent, at concrete states.
use on_demand_routing.Base.{◌≡◌, refl, inl, some, [], ◌∷◌, codes, arith}
use on_demand_routing.Frame.{
  Frame, IsFrame, convert_host_net_order, type_rrep, type_data, payload_size,
}
use on_demand_routing.Odr.Outcome.{done}
use on_demand_routing.Transmit.Delivery.{frame_of}
use on_demand_routing.Transmit.Replies.{along}
use on_demand_routing.Handler.Ether.{handle_ethernet_msg}
use on_demand_routing.Handler.Peer.{send_or_discover}
use on_demand_routing.Handler.Knowing.{EndsKnowing}
use on_demand_routing.Handler.Invariant.{handle_ethernet_msg-EndsKnowing}
use on_demand_routing.Handler.Discovery.{send_or_discover-along}
use on_demand_routing.Odr.{Odr, Mac}
use on_demand_routing.Routes.Found.{find}
use on_demand_routing.Handler.Relay.{onward_frame, frame_relayed}
use on_demand_routing.Machine.{machine}
use on_demand_routing.Tests.Node.{
  node, node-IsHealthy, self, alice, carol, hop_a, hwa, request, payload_frame, client, started,
  routed, to_alice, hello,
}

handle_ethernet_msg-EndsKnowing_example :
    EndsKnowing alice (handle_ethernet_msg node (convert_host_net_order request) 3 hop_a started)
unfolding machine
handle_ethernet_msg-EndsKnowing_example =
    handle_ethernet_msg-EndsKnowing node (convert_host_net_order request) 3 hop_a started tt refl

send_or_discover-along_example :
    send_or_discover node self client hello (some 0) routed
    ≡ done tt (
        along
          (hwa [] 3 []).if_haddr
          to_alice
          (frame_of type_data 11 0 payload_size 0 909 5500 alice self (codes "hello world"))
          routed)
unfolding machine
send_or_discover-along_example =
    send_or_discover-along node self node-IsHealthy client hello 0 (hwa [] 3 []).if_haddr routed
      refl refl refl refl

-- The reply that the node waits for.
abbrev answer_frame : Frame
answer_frame = record request { frame_type = type_rrep; dest_ip = self }

-- Data of `carol` for `alice`.
abbrev passing : Frame
passing = record payload_frame { src_ip = carol }

abbrev hop_c : Mac
hop_c = 10 ∷ 0 ∷ 0 ∷ 0 ∷ 0 ∷ 3 ∷ []

passing-IsFrame : IsFrame passing
passing-IsFrame = omega arith

frame_relayed_example :
    (t : Odr) × (handle_ethernet_msg node (convert_host_net_order passing) 4 hop_c routed
      ≡ done tt t)
    × (t.sent ≡ onward_frame (hwa [] 3 []).if_haddr to_alice passing 1 ∷ [])
unfolding machine find
frame_relayed_example =
    frame_relayed node self node-IsHealthy passing passing-IsFrame 4 hop_c refl refl routed 0
      (hwa [] 3 []).if_haddr refl (inl refl) refl refl refl (ground arith) refl (λ _. refl, tt)
      (λ _. refl, tt)
