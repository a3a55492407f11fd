-- ===== src/Tests/Node.antt =====
-- A node with two links beside its own network, states of its daemon, and what it does with a
-- request.
use on_demand_routing.Base.{ℕ, ◌≡◌, refl, true, Option, none, some, [], ◌∷◌, CStr, codes}
use on_demand_routing.Frame.{Frame, convert_host_net_order, type_rreq, type_data}
use on_demand_routing.Odr.{World, Hwa, Mac, Odr, Route, Table, MapEntry}
use on_demand_routing.Odr.Outcome.{done, failed, crashed, Outcome}
use on_demand_routing.Transmit.Delivery.{IsHealthy}
use on_demand_routing.Handler.Peer.{SendParams}
use on_demand_routing.Daemon.{main, ether, boot}
use on_demand_routing.Machine.{machine}

abbrev pub hwa : CStr → ℕ → CStr → Hwa
hwa name index ip = record {
  if_name = name;
  if_haddr = 0 ∷ 12 ∷ 41 ∷ 0 ∷ 0 ∷ index ∷ [];
  if_index = index;
  ip_alias = 0;
  ip_addr = ip;
}

abbrev pub self : CStr
self = codes "10.0.0.2"

abbrev pub alice : CStr
alice = codes "10.0.0.1"

abbrev pub carol : CStr
carol = codes "10.0.0.3"

abbrev pub node : World
node = record {
  clock = λ n. n;
  send_ok = λ _. true;
  host_name = λ _. some (codes "vm");
  interfaces =
      hwa (codes "lo") 1 (codes "127.0.0.1")
      ∷ hwa (codes "eth0") 2 self
      ∷ hwa (codes "eth1:1") 3 (codes "192.168.1.2")
      ∷ hwa (codes "eth2") 4 (codes "192.168.2.2")
      ∷ [];
}

pub node-IsHealthy : IsHealthy node self
unfolding machine
node-IsHealthy = record { own = refl; named = λ ip. (codes "vm", refl, refl); sends = λ n. refl }

abbrev pub hop_a : Mac
hop_a = 10 ∷ 0 ∷ 0 ∷ 0 ∷ 0 ∷ 1 ∷ []

-- A request of `alice` for `carol`, and one for this node.
abbrev pub request : Frame
request = record {
  frame_type = type_rreq;
  broadcast_id = 11;
  hop_count = 0;
  payload_len = 0;
  route_disc_flag = 0;
  src_port = 909;
  dst_port = 5500;
  dest_ip = carol;
  src_ip = alice;
  payload = [];
}

abbrev pub request_here : Frame
request_here = record request { dest_ip = self }

abbrev pub payload_frame : Frame
payload_frame = record request { frame_type = type_data; src_ip = self; dest_ip = alice }

abbrev pub server : MapEntry
server = record { ts = 0; portno = 5500; sun_path = codes "servpathfile" }

abbrev pub client : MapEntry
client = record { ts = 1; portno = 909; sun_path = codes "/tmp/a" }

abbrev pub started : Odr
started = record boot { ports = server ∷ []; stale_param = 5; clock_reads = 1 }

abbrev pub to_alice : Route
to_alice = record {
  destip = alice;
  next_hop = hop_a;
  if_no = 3;
  no_hops = 1;
  broadcast_id = 11;
  timestamp = 0;
}

abbrev pub one_route : Table
one_route = record { entry = λ _. to_alice; order = 0 ∷ []; fresh = 1 }

abbrev pub routed : Odr
routed = record started { routes = one_route }

abbrev pub hello : SendParams
hello = record {
  destip = alice;
  filename = codes "/tmp/a";
  msg = codes "hello world";
  destport = 5500;
  route_disc_flag = 0;
}

abbrev sends_of : {A : Type 0} → Outcome A → Option ℕ
sends_of (done _ s) = some s.sends
sends_of (failed s) = none
sends_of crashed = none

-- The request for `carol` is flooded on the one link that it did not come in on.
request_flooded :
    sends_of (main node none (ether (convert_host_net_order request) 3 hop_a ∷ [])) ≡ some 1
unfolding machine
request_flooded = refl
