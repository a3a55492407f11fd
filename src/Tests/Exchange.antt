-- ===== src/Tests/Exchange.antt =====
-- A message from one of two neighbours to the other.
use on_demand_routing.Base.{◌≡◌, refl, ◌∷◌, [], codes, str_eq, false, arith}
use on_demand_routing.Frame.{Frame, convert_host_net_order}
use on_demand_routing.Word.{IsWord, minus_one}
use on_demand_routing.Odr.{World, Odr, Mac, raw, local}
use on_demand_routing.Odr.Outcome.{done}
use on_demand_routing.System.{convert_to_mac}
use on_demand_routing.Transmit.{peer_text}
use on_demand_routing.Transmit.Delivery.{copies, onto}
use on_demand_routing.Handler.Peer.{SendParams, handle_peer_msg}
use on_demand_routing.Handler.Ether.{handle_ethernet_msg}
use on_demand_routing.Machine.{machine}
use on_demand_routing.Network.Exchange
use on_demand_routing.Network.Messages.{IsStation, IsMessage}
use on_demand_routing.Network.Exchange.{message_delivered}
use on_demand_routing.Tests.Node.{
  node, node-IsHealthy, self, carol, hwa, hop_a, started, server, client,
}

abbrev pub neighbour : World
neighbour = record node {
  clock = λ _. 7;
  interfaces = hwa (codes "eth0") 2 carol ∷ hwa (codes "eth1") 3 (codes "192.168.1.3") ∷ [];
}

abbrev pub link_mac : Mac
link_mac = 0 ∷ 12 ∷ 41 ∷ 0 ∷ 0 ∷ 3 ∷ []

abbrev pub to_carol : SendParams
to_carol = record {
  destip = carol;
  filename = codes "/tmp/a";
  msg = codes "hello world";
  destport = 5500;
  route_disc_flag = 0;
}

abbrev pub known : Odr
known = record started { ports = client ∷ server ∷ [] }

node-IsStation : IsStation node self 3 link_mac
unfolding machine
node-IsStation = record { healthy = node-IsHealthy; address_fits = refl; linked = refl }

pub neighbour-IsStation : IsStation neighbour carol 3 link_mac
unfolding machine
neighbour-IsStation = record {
  healthy = record { own = refl; named = λ ip. (codes "vm", refl, refl); sends = λ n. refl };
  address_fits = refl;
  linked = refl;
}

to_carol-IsMessage : IsMessage to_carol
to_carol-IsMessage = record { msg = refl; destport = omega arith; route_disc_flag = omega arith }

client-IsWord : IsWord client.portno
client-IsWord = omega arith

self-carol : str_eq self carol ≡ false
unfolding str_eq
self-carol = refl

-- The frames of the exchange, and the states between them.
abbrev first_request : Frame
first_request =
    Exchange.first_request node neighbour self to_carol 3 3 link_mac link_mac node-IsStation
      neighbour-IsStation to_carol-IsMessage self-carol client client-IsWord known

abbrev waiting_data : Frame
waiting_data =
    Exchange.waiting_data node neighbour self to_carol 3 3 link_mac link_mac node-IsStation
      neighbour-IsStation to_carol-IsMessage self-carol client client-IsWord known

abbrev asked : Odr
asked =
    Exchange.asked node neighbour self to_carol 3 3 link_mac link_mac node-IsStation
      neighbour-IsStation to_carol-IsMessage self-carol client client-IsWord known

abbrev reply_frame : Frame
reply_frame =
    Exchange.reply_frame node neighbour self to_carol 3 3 link_mac link_mac node-IsStation
      neighbour-IsStation to_carol-IsMessage self-carol client client-IsWord known started refl
      hop_a

abbrev replied : Odr
replied =
    Exchange.replied node neighbour self to_carol 3 3 link_mac link_mac node-IsStation
      neighbour-IsStation to_carol-IsMessage self-carol client client-IsWord known started refl
      hop_a

abbrev released : Odr
released =
    Exchange.released node neighbour self to_carol 3 3 link_mac link_mac node-IsStation
      neighbour-IsStation to_carol-IsMessage self-carol client client-IsWord known started refl
      hop_a hop_a refl

message_delivered_example :
    let request = convert_host_net_order first_request in
    let reply = convert_host_net_order reply_frame in
    let payload = convert_host_net_order waiting_data in
    ((handle_peer_msg node to_carol known ≡ done tt asked)
      × (asked.sent ≡ onto (copies minus_one request node.interfaces) known.sent))
    × ((handle_ethernet_msg neighbour request 3 hop_a started ≡ done tt replied)
        × (replied.sent
            ≡ raw (convert_to_mac link_mac) (convert_to_mac hop_a) 3 reply ∷ started.sent))
    × ((handle_ethernet_msg node reply 3 hop_a asked ≡ done tt released)
        × (released.sent
            ≡ raw (convert_to_mac link_mac) (convert_to_mac hop_a) 3 payload ∷ asked.sent))
    × ((end : Odr) × (handle_ethernet_msg neighbour payload 3 hop_a replied ≡ done tt end)
        × (end.sent
            ≡ local server.sun_path (peer_text self 909 (codes "hello world")) ∷ replied.sent))
unfolding machine
message_delivered_example =
    message_delivered node neighbour self to_carol 3 3 link_mac link_mac node-IsStation
      neighbour-IsStation to_carol-IsMessage self-carol client client-IsWord known started refl
      hop_a hop_a refl known server refl refl (λ n. omega arith)
