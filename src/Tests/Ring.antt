-- ===== src/Tests/Ring.antt =====
-- Two nodes in a ring: what the first sends on its last link the second hears, and the other way
-- round.
use on_demand_routing.Base.{
  ℕ, zero, suc, ◌+◌, ◌-◌, ◌≤◌, ◌<◌, ◌≡◌, refl, false, str_eq, [], ◌∷◌, CStr, codes, All,
  if◌then◌else◌, ◌==◌, Bool-cases, inl, inr, length, arith,
}
use on_demand_routing.Frame.{convert_host_net_order, convert_net_host_order}
use on_demand_routing.Word.Swap.{ntohl}
use on_demand_routing.Odr.{World, Odr, Mac}
use on_demand_routing.Odr.Outcome.{Outcome, done, failed, crashed}
use on_demand_routing.Transmit.Delivery.{IsHealthy}
use on_demand_routing.Handler.Ether.{handle_ethernet_msg}
use on_demand_routing.Machine.{machine}
use on_demand_routing.Network.{
  Packet, Net, Wiring, update, flushed, spread_all, deliver, Run, here, stepped,
}
use on_demand_routing.Network.Node.{Request, IsRequest, after_hops}
use on_demand_routing.Network.Flood.{IsNetwork, IsFlood}
use on_demand_routing.Tests.Node.{hwa, node, self, alice, carol, started, hop_a}

abbrev pub ring_self : ℕ → CStr
ring_self zero = self
ring_self (suc i) = codes "10.0.0.4"

abbrev pub ring_world : ℕ → World
ring_world zero = record node { clock = λ _. 7 }
ring_world (suc i) = record node {
  clock = λ _. 7;
  interfaces =
      hwa (codes "eth0") 2 (codes "10.0.0.4")
      ∷ hwa (codes "eth1") 3 (codes "192.168.2.4")
      ∷ hwa (codes "eth2") 4 (codes "192.168.3.4")
      ∷ [];
}

abbrev pub ring_heard : Wiring
ring_heard i if_index dst = if if_index == 4 then (1 - i, 3) ∷ [] else []

abbrev pub wanted : Request
wanted = record {
  src_ip = alice;
  dest_ip = carol;
  broadcast_id = 11;
  src_port = 909;
  dst_port = 5500;
  route_disc_flag = 0;
}

pub wanted-IsRequest : IsRequest wanted
unfolding str_eq
wanted-IsRequest = record {
  broadcast_id = omega arith;
  src_port = omega arith;
  dst_port = omega arith;
  route_disc_flag = omega arith;
  src_fits = refl;
  dest_fits = refl;
  apart = refl;
}

pub ring-IsHealthy : (i : ℕ) → i < 2 → IsHealthy (ring_world i) (ring_self i)
unfolding machine
ring-IsHealthy zero lt = record {
  own = refl;
  named = λ ip. (codes "vm", refl, refl);
  sends = λ n. refl;
}
ring-IsHealthy (suc i) lt = record {
  own = refl;
  named = λ ip. (codes "vm", refl, refl);
  sends = λ n. refl;
}

pub ring_wired : (i if_index : ℕ) (dst : Mac) → All (λ r. r.0 < 2) (ring_heard i if_index dst)
ring_wired i if_index dst = elim (Bool-cases (if_index == 4)) [
  | inl joined ↦ rw joined (omega arith, tt)
  | inr open_end ↦ rw open_end tt
]

ring_few : (i if_index : ℕ) (dst : Mac) → length (ring_heard i if_index dst) ≤ 1
ring_few i if_index dst = ground arith

ring_steady : (i : ℕ) → i < 2 → (m n : ℕ) → (ring_world i).clock n < (ring_world i).clock m + 5
ring_steady zero lt m n = omega arith
ring_steady (suc i) lt m n = omega arith

ring_links : (i : ℕ) → i < 2 → length (ring_world i).interfaces ≤ 4
ring_links zero lt = omega arith
ring_links (suc i) lt = omega arith

pub ring_elsewhere : (i : ℕ) → i < 2 → str_eq wanted.dest_ip (ring_self i) ≡ false
unfolding str_eq
ring_elsewhere zero lt = refl
ring_elsewhere (suc i) lt = refl

pub ring-IsNetwork : IsNetwork 2 4 1 5 ring_world ring_heard ring_self wanted
ring-IsNetwork = record {
  healthy = ring-IsHealthy;
  elsewhere = ring_elsewhere;
  steady = ring_steady;
  interfaces = ring_links;
  wired = ring_wired;
  few = ring_few;
  countable = omega arith;
}

abbrev asked : Packet
asked = record {
  to = 0;
  if_index = 3;
  hop = hop_a;
  frame = convert_host_net_order (after_hops wanted 0);
}

abbrev pub ring : Net
ring = record { node = λ _. started; air = asked ∷ [] }

pub ring-IsFlood : IsFlood 2 5 ring_world wanted ring
unfolding convert_host_net_order convert_net_host_order ntohl
ring-IsFlood = record {
  quiet = λ i lt. refl;
  calm = λ i lt. (refl, tt);
  flying = ((omega arith, refl, omega arith), tt);
}

abbrev pub state_of : {A : Type 0} → Outcome A → Odr
state_of (done a s) = s
state_of (failed s) = s
state_of crashed = started

-- The first node has handled the request.
abbrev pub after_first : Odr
after_first = state_of (handle_ethernet_msg (ring_world 0) asked.frame 3 hop_a started)

abbrev pub ring_then : Net
ring_then = record {
  node = update ring.node 0 (flushed after_first);
  air = spread_all ring_heard 0 after_first.sent;
}

abbrev pub first_step : Run 2 ring_world ring_heard ring 1 ring_then
unfolding machine
first_step = stepped here (deliver [] asked [] after_first refl (omega arith) refl)
