-- ===== src/Tests/Storm.antt =====
-- The two nodes in a ring, started with a staleness of 0, at a request for a node beyond them.
use on_demand_routing.Base.{
  ℕ, zero, suc, ◌<◌, ◌≤◌, ◌-◌, ◌≡◌, refl, inl, inr, true, [], ◌∷◌, codes, arith,
}
use on_demand_routing.Frame.{convert_host_net_order}
use on_demand_routing.Odr.{Odr, Hwa, Mac}
use on_demand_routing.Handler.Ether.{handle_ethernet_msg}
use on_demand_routing.System.{convert_to_mac}
use on_demand_routing.Transmit.{is_flooded}
use on_demand_routing.Machine.{machine}
use on_demand_routing.Network.{
  IsLossless, Packet, Net, Step, deliver, here, stepped, update, flushed, spread_all,
}
use on_demand_routing.Network.Node.{after_hops}
use on_demand_routing.Network.Spread.{Among}
use on_demand_routing.Network.Covering.{Hears, hearers}
use on_demand_routing.Network.Upstream.{HearsOn}
use on_demand_routing.Network.Storm.{IsEndless, IsStorm, goes_on_for_ever}
use on_demand_routing.Tests.Node.{hwa, started}
use on_demand_routing.Tests.Ring.{
  ring_self, ring_world, ring_heard, wanted, wanted-IsRequest, ring-IsHealthy, ring_wired,
  ring_elsewhere, state_of,
}

-- What a node sends on its last link arrives on interface 3.
heard_on_three : (j idx i k : ℕ) (d : Mac) → HearsOn i k (ring_heard j idx d) → k ≡ 3
heard_on_three j idx i k d h = ground (arith, h)

ring_forward : (i : ℕ) → i < 2 → (m n : ℕ) → m ≤ n → (ring_world i).clock m ≤ (ring_world i).clock n
ring_forward zero lt m n le = omega arith
ring_forward (suc i) lt m n le = omega arith

last_link :
    (i : ℕ)
    → i < 2
    → (h : Hwa) × Among h (ring_world i).interfaces
      × (is_flooded 3 h ≡ true)
      × (n : ℕ) × Hears n (hearers ring_heard i h.if_index)
unfolding machine
last_link zero lt =
    (hwa (codes "eth2") 4 (codes "192.168.2.2"), inr (inr (inr (inl refl))), refl, 1, inl refl)
last_link (suc i) lt =
    (hwa (codes "eth2") 4 (codes "192.168.3.4"), inr (inr (inl refl)), refl, 1 - suc i, inl refl)

on_any_link :
    (i k : ℕ)
    → i < 2
    → k ≡ 3
    → (h : Hwa) × Among h (ring_world i).interfaces
      × (is_flooded k h ≡ true)
      × (n : ℕ) × Hears n (hearers ring_heard i h.if_index)
on_any_link i k lt three = rw three (last_link i lt)

ring-IsEndless : IsEndless 2 ring_world ring_heard ring_self wanted
ring-IsEndless = record {
  healthy = ring-IsHealthy;
  elsewhere = ring_elsewhere;
  forward = ring_forward;
  wired = ring_wired;
  onward = λ i k m j lt near.
      on_any_link i k lt (heard_on_three j near.link.if_index i k (codes "") near.hears);
}

abbrev mac_four : Mac
mac_four = convert_to_mac (0 ∷ 12 ∷ 41 ∷ 0 ∷ 0 ∷ 4 ∷ [])

abbrev asked : Packet
asked = record {
  to = 0;
  if_index = 3;
  hop = mac_four;
  frame = convert_host_net_order (after_hops wanted 0);
}

abbrev forgetful_ring : Net
forgetful_ring = record { node = λ _. record started { stale_param = 0 }; air = asked ∷ [] }

-- The first node has handled the request.
abbrev after_first : Odr
after_first =
    state_of (handle_ethernet_msg (ring_world 0) asked.frame 3 mac_four (forgetful_ring.node 0))

abbrev forgetful_then : Net
forgetful_then = record {
  node = update forgetful_ring.node 0 (flushed after_first);
  air = spread_all ring_heard 0 after_first.sent;
}

first_step : Step 2 ring_world ring_heard forgetful_ring forgetful_then
unfolding machine
first_step = deliver [] asked [] after_first refl (omega arith) refl

ring-IsStorm : IsStorm 2 ring_world ring_heard wanted forgetful_ring
unfolding machine
ring-IsStorm = record {
  forgets = λ i lt. (refl, tt);
  quiet = λ i lt. refl;
  on_way = (
    (
      omega arith,
      0,
      omega arith,
      refl,
      1,
      record {
        link = hwa (codes "eth2") 4 (codes "192.168.3.4");
        among = inr (inr (inl refl));
        address = refl;
        hears = inl (refl, refl);
      },
    ),
    tt,
  );
  some_left = (0, inl refl);
}

goes_on_for_ever_example :
    IsStorm 2 ring_world ring_heard wanted forgetful_then
    × ((t : Net) × (step : Step 2 ring_world ring_heard forgetful_then t) × IsLossless 2 ring_world
          ring_heard
          (stepped here step))
unfolding first_step
goes_on_for_ever_example =
    goes_on_for_ever 2 ring_world ring_heard ring_self wanted wanted-IsRequest refl ring-IsEndless
      forgetful_ring forgetful_then 1 ring-IsStorm (stepped here first_step) tt
