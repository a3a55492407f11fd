-- ===== src/Tests/Network.antt =====
-- The theorems on floods, in a ring of two nodes.
use on_demand_routing.Base.{
  ℕ, ◌+◌, ◌≤◌, ◌<◌, ◌≡◌, refl, str_eq, [], ◌∷◌, codes, All, ◌==◌, Bool-cases, inl, inr, arith,
}
use on_demand_routing.Frame.{convert_host_net_order}
use on_demand_routing.Odr.{Odr}
use on_demand_routing.Handler.Ether.{handle_ethernet_msg}
use on_demand_routing.Machine.{machine}
use on_demand_routing.System.{convert_to_mac}
use on_demand_routing.Network.{
  Handles, IsLossless, spread, Packet, Net, update, flushed, spread_all, deliver, Run, stepped,
}
use on_demand_routing.Network.Node.{after_hops}
use on_demand_routing.Network.Flood.{IsFlood, hops_of, potential}
use on_demand_routing.Network.Node.{far, distance}
use on_demand_routing.Routes.Found.{find}
use on_demand_routing.System.{before_colon}
use on_demand_routing.Network.Covered.{IsShared, Reached}
use on_demand_routing.Network.Reaching.{IsCovering}
use on_demand_routing.Network.Coverage.{Trail, stay, along_link, flood_reaches}
use on_demand_routing.Network.Ending.{flood_terminates, flood_hops, flood_progress}
use on_demand_routing.Tests.Node.{hwa, started}
use on_demand_routing.Tests.Ring.{
  ring_self, ring_world, ring_heard, wanted, wanted-IsRequest, ring-IsNetwork, ring, ring-IsFlood,
  state_of, after_first, ring_then, first_step,
}

flood_terminates_example :
    IsFlood 2 5 ring_world wanted ring_then
    × (1
          + potential 2 4 1 5 ring_world ring_heard ring_self wanted wanted-IsRequest ring-IsNetwork
              ring_then
        ≤ potential 2 4 1 5 ring_world ring_heard ring_self wanted wanted-IsRequest ring-IsNetwork
            ring)
flood_terminates_example =
    flood_terminates 2 4 1 5 ring_world ring_heard ring_self wanted wanted-IsRequest ring-IsNetwork
      ring ring_then 1 ring-IsFlood first_step

flood_hops_example : All (λ p. (p.to < 2) × (hops_of p ≤ 2)) ring_then.air
flood_hops_example =
    flood_hops 2 4 1 5 ring_world ring_heard ring_self wanted wanted-IsRequest ring-IsNetwork ring
      ring_then 1 ring-IsFlood first_step

flood_progress_example :
    All (Handles ring_world ring_then) ring_then.air
    × (m : ℕ) × (u : Net) × (rest : Run 2 ring_world ring_heard ring_then m u) × IsLossless 2
        ring_world ring_heard rest
    × (u.air ≡ [])
    × (1 + m
        ≤ potential 2 4 1 5 ring_world ring_heard ring_self wanted wanted-IsRequest ring-IsNetwork
            ring)
flood_progress_example =
    flood_progress 2 4 1 5 ring_world ring_heard ring_self wanted wanted-IsRequest ring-IsNetwork
      ring ring_then 1 ring-IsFlood first_step

-- The second node hears the request from the first, and sends it back, and the first ignores that.
abbrev first_copy : Packet
first_copy = record {
  to = 1;
  if_index = 3;
  hop = convert_to_mac (0 ∷ 12 ∷ 41 ∷ 0 ∷ 0 ∷ 4 ∷ []);
  frame = convert_host_net_order (after_hops wanted 1);
}

abbrev after_second : Odr
after_second =
    state_of (handle_ethernet_msg (ring_world 1) first_copy.frame 3 first_copy.hop started)

abbrev second_copy : Packet
second_copy = record {
  to = 0;
  if_index = 3;
  hop = convert_to_mac (0 ∷ 12 ∷ 41 ∷ 0 ∷ 0 ∷ 4 ∷ []);
  frame = convert_host_net_order (after_hops wanted 2);
}

abbrev after_third : Odr
after_third =
    state_of
      (handle_ethernet_msg (ring_world 0) second_copy.frame 3 second_copy.hop (flushed after_first))

abbrev ring_after_two : Net
ring_after_two = record {
  node = update ring_then.node 1 (flushed after_second);
  air = second_copy ∷ [];
}

abbrev ring_over : Net
ring_over = record { node = update ring_after_two.node 0 (flushed after_third); air = [] }

abbrev whole_run : Run 2 ring_world ring_heard ring 3 ring_over
unfolding machine spread spread_all
whole_run =
    stepped (stepped first_step (deliver [] first_copy [] after_second refl (omega arith) refl))
      (deliver [] second_copy [] after_third refl (omega arith) refl)

far_start : (i : ℕ) → distance wanted (ring.node i) ≡ far
unfolding distance find
far_start i = refl

ring-IsCovering : IsCovering 2 ring_world ring_heard wanted ring
ring-IsCovering = record {
  links = λ i lt reached. absurd (omega (arith, reached, far_start i));
  frames = (λ k never. absurd never, tt);
}

ring-IsShared : IsShared ring_heard
ring-IsShared i if_index = elim (Bool-cases (if_index == 4)) [
  | inl joined ↦ rw joined (λ k never. absurd never, tt)
  | inr open_end ↦ rw open_end tt
]

ring-Trail : Trail 2 ring_world ring_heard 0 1
unfolding str_eq before_colon
ring-Trail =
    along_link stay (omega arith) (hwa (codes "eth2") 4 (codes "192.168.2.2"))
      (inr (inr (inr (inl refl)))) refl (inl refl)

flood_reaches_example : Reached wanted (ring_over.node 1)
unfolding machine spread spread_all
flood_reaches_example =
    flood_reaches 2 4 1 5 ring_world ring_heard ring_self wanted wanted-IsRequest ring-IsNetwork
      ring-IsShared refl ring ring_over 3 ring-IsFlood ring-IsCovering whole_run tt refl 0 1
      (inr (inl refl)) ring-Trail
