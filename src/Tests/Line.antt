-- ===== src/Tests/Line.antt =====
-- Three nodes in a line, the first of which asks for a route: the last interface of a node is wired
-- to the last but one of the next.
use on_demand_routing.Base.{
  ℕ, zero, suc, ◌+◌, ◌≤◌, ◌<◌, ◌≡◌, refl, ◌⊎◌, false, ◌&&◌, str_eq, List, [], ◌∷◌, CStr, codes, All,
  if◌then◌else◌, ◌==◌, ==_iff, Bool-cases, inl, inr, length, some, arith,
}
use on_demand_routing.Frame.{Frame, convert_host_net_order, convert_net_host_order, type_data}
use on_demand_routing.Word.Swap.{ntohl}
use on_demand_routing.Odr.{Odr, World, Mac, Hwa}
use on_demand_routing.System.{get_hwaddr_from_int, convert_to_mac}
use on_demand_routing.Transmit.Delivery.{IsHealthy}
use on_demand_routing.Machine.{machine}
use on_demand_routing.Network.{Packet, Net, Wiring}
use on_demand_routing.Network.Node.{Request, IsRequest, after_hops, distance, far}
use on_demand_routing.Network.Flood.{IsNetwork, IsFlood}
use on_demand_routing.Network.Covering.{all_ones}
use on_demand_routing.Network.Upstream.{HearsOn, IsNeighbour}
use on_demand_routing.Network.Backed.{IsBacked}
use on_demand_routing.Network.Handing.{IsMirrored}
use on_demand_routing.Handler.Discovery.{parked}
use on_demand_routing.Routes.Found.{find}
use on_demand_routing.Tests.Node.{hwa, node, self, carol, started}

abbrev pub line_self : ℕ → CStr
line_self zero = self
line_self (suc zero) = codes "10.0.0.4"
line_self (suc (suc i)) = codes "10.0.0.5"

abbrev links_of : CStr → List Hwa
links_of ip =
    hwa (codes "eth0") 2 ip
    ∷ hwa (codes "eth1") 3 (codes "192.168.2.4")
    ∷ hwa (codes "eth2") 4 (codes "192.168.3.4")
    ∷ []

abbrev pub line_world : ℕ → World
line_world zero = record node { clock = λ _. 7; interfaces = links_of self }
line_world (suc zero) = record node { clock = λ _. 7; interfaces = links_of (codes "10.0.0.4") }
line_world (suc (suc i)) = record node { clock = λ _. 7; interfaces = links_of (codes "10.0.0.5") }

abbrev pub line_heard : Wiring
line_heard i if_index dst =
    if i == 0 && if_index == 4
    then (1, 3) ∷ []
    else if i == 1 && if_index == 3
    then (0, 4) ∷ []
    else if i == 1 && if_index == 4
    then (2, 3) ∷ []
    else if i == 2 && if_index == 3
    then (1, 4) ∷ []
    else []

line_back :
    (j idx i k : ℕ) (d e : Mac)
    → HearsOn i k (line_heard j idx d)
    → line_heard i k e ≡ (j, idx) ∷ []
line_back j idx i k d e h = ground (arith, h)

abbrev pub sought : Request
sought = record {
  src_ip = self;
  dest_ip = carol;
  broadcast_id = 11;
  src_port = 909;
  dst_port = 5500;
  route_disc_flag = 0;
}

pub sought-IsRequest : IsRequest sought
unfolding str_eq
sought-IsRequest = record {
  broadcast_id = omega arith;
  src_port = omega arith;
  dst_port = omega arith;
  route_disc_flag = omega arith;
  src_fits = refl;
  dest_fits = refl;
  apart = refl;
}

line-IsHealthy : (i : ℕ) → i < 3 → IsHealthy (line_world i) (line_self i)
unfolding machine
line-IsHealthy zero lt = record {
  own = refl;
  named = λ ip. (codes "vm", refl, refl);
  sends = λ n. refl;
}
line-IsHealthy (suc zero) lt = record {
  own = refl;
  named = λ ip. (codes "vm", refl, refl);
  sends = λ n. refl;
}
line-IsHealthy (suc (suc i)) lt = record {
  own = refl;
  named = λ ip. (codes "vm", refl, refl);
  sends = λ n. refl;
}

line_wired : (i if_index : ℕ) (dst : Mac) → All (λ r. r.0 < 3) (line_heard i if_index dst)
line_wired i if_index dst = ground arith

line_few : (i if_index : ℕ) (dst : Mac) → length (line_heard i if_index dst) ≤ 1
line_few i if_index dst = ground arith

line_steady : (i : ℕ) → i < 3 → (m n : ℕ) → (line_world i).clock n < (line_world i).clock m + 5
line_steady zero lt m n = omega arith
line_steady (suc zero) lt m n = omega arith
line_steady (suc (suc i)) lt m n = omega arith

line_links : (i : ℕ) → i < 3 → length (line_world i).interfaces ≤ 3
line_links zero lt = omega arith
line_links (suc zero) lt = omega arith
line_links (suc (suc i)) lt = omega arith

line_elsewhere : (i : ℕ) → i < 3 → str_eq sought.dest_ip (line_self i) ≡ false
unfolding str_eq
line_elsewhere zero lt = refl
line_elsewhere (suc zero) lt = refl
line_elsewhere (suc (suc i)) lt = refl

pub line-IsNetwork : IsNetwork 3 3 1 5 line_world line_heard line_self sought
line-IsNetwork = record {
  healthy = line-IsHealthy;
  elsewhere = line_elsewhere;
  steady = line_steady;
  interfaces = line_links;
  wired = line_wired;
  few = line_few;
  countable = omega arith;
}

line_between : (i : ℕ) → i < 3 → (i ≡ 0) ⊎ (str_eq sought.src_ip (line_self i) ≡ false)
unfolding str_eq
line_between zero lt = inl refl
line_between (suc zero) lt = inr refl
line_between (suc (suc i)) lt = inr refl

line_ends : (j idx i k : ℕ) (d : Mac) → HearsOn i k (line_heard j idx d) → (k == 3) ≡ false → k ≡ 4
line_ends j idx i k d h other = ground (arith, h, other)

line_macs :
    (i : ℕ)
    → (get_hwaddr_from_int (line_world i).interfaces 3 ≡ some (hwa [] 3 []).if_haddr)
      × (get_hwaddr_from_int (line_world i).interfaces 4 ≡ some (hwa [] 4 []).if_haddr)
unfolding get_hwaddr_from_int
line_macs zero = (refl, refl)
line_macs (suc zero) = (refl, refl)
line_macs (suc (suc i)) = (refl, refl)

line_owned :
    (i k : ℕ) (m : Mac) (j : ℕ)
    → IsNeighbour line_world line_heard i k m j
    → (mac : Mac) × (get_hwaddr_from_int (line_world i).interfaces k ≡ some mac)
line_owned i k m j b = elim (Bool-cases (k == 3)) [
  | inl left ↦ ((hwa [] 3 []).if_haddr, rw ((==_iff k 3).0 left) (line_macs i).0)
  | inr other ↦ (
    (hwa [] 4 []).if_haddr,
    rw (line_ends j b.link.if_index i k all_ones b.hears other) (line_macs i).1,
  )
]

line_forth :
    (j idx i k : ℕ) (d e : Mac)
    → HearsOn i k (line_heard j idx d)
    → line_heard j idx e ≡ (i, k) ∷ []
line_forth j idx i k d e h = ground (arith, h)

line_starts :
    (j idx i k : ℕ) (d : Mac) → HearsOn i k (line_heard j idx d) → (idx == 3) ≡ false → idx ≡ 4
line_starts j idx i k d h other = ground (arith, h, other)

line_sending :
    (i k : ℕ) (m : Mac) (j : ℕ) (b : IsNeighbour line_world line_heard i k m j)
    → (mac : Mac) × (get_hwaddr_from_int (line_world j).interfaces b.link.if_index ≡ some mac)
line_sending i k m j b = elim (Bool-cases (b.link.if_index == 3)) [
  | inl left ↦ ((hwa [] 3 []).if_haddr, rw ((==_iff b.link.if_index 3).0 left) (line_macs j).0)
  | inr other ↦ (
    (hwa [] 4 []).if_haddr,
    rw (line_starts j b.link.if_index i k all_ones b.hears other) (line_macs j).1,
  )
]

pub line-IsMirrored : IsMirrored 3 line_world line_heard line_self 0 sought
unfolding str_eq
line-IsMirrored = record {
  unicast = λ i k m j b. line_back j b.link.if_index i k all_ones (convert_to_mac m) b.hears;
  owned = line_owned;
  reverse = λ i k m j b mac linked. line_forth j b.link.if_index i k all_ones all_ones b.hears;
  sending = line_sending;
  at_source = refl;
  between = line_between;
}

abbrev pub right_mac : Mac
right_mac = convert_to_mac (0 ∷ 12 ∷ 41 ∷ 0 ∷ 0 ∷ 4 ∷ [])

abbrev pub to_second : Packet
to_second = record {
  to = 1;
  if_index = 3;
  hop = right_mac;
  frame = convert_host_net_order (after_hops sought 0);
}

-- A message for `carol`, and a node where it waits.
abbrev pub letter : Frame
letter = record {
  frame_type = type_data;
  broadcast_id = 0;
  hop_count = 0;
  payload_len = 5;
  route_disc_flag = 0;
  src_port = 909;
  dst_port = 5500;
  dest_ip = carol;
  src_ip = self;
  payload = codes "hello";
}

abbrev pub waiting : Odr
waiting = parked carol letter started

-- The first node has sent its request.
abbrev pub line : Net
line = record { node = λ _. waiting; air = to_second ∷ [] }

pub line-IsFlood : IsFlood 3 5 line_world sought line
unfolding convert_host_net_order convert_net_host_order ntohl
line-IsFlood = record {
  quiet = λ i lt. refl;
  calm = λ i lt. (refl, tt);
  flying = ((omega arith, refl, omega arith), tt);
}

line_unreached : (i : ℕ) → distance sought (line.node i) ≡ far
unfolding distance find
line_unreached i = refl

pub line-IsBacked : IsBacked 3 line_world line_heard 0 sought line
line-IsBacked = record {
  routes = λ i lt reached. absurd (omega (arith, reached, line_unreached i));
  frames = (
    (
      0,
      omega arith,
      record {
        link = hwa (codes "eth2") 4 (codes "192.168.3.4");
        among = inr (inr (inl refl));
        address = refl;
        hears = inl (refl, refl);
      },
      inl refl,
    ),
    tt,
  );
}
