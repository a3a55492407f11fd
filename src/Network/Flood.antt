-- ===== src/Network/Flood.antt =====
-- A request that is flooded through a network: what holds after every step, and a measure that
-- every step lowers.
use native.Mathlib.Nat.{mul-le-mul_right}
use on_demand_routing.Base.{
  ℕ, ◌+◌, ◌-◌, ◌*◌, ◌≤◌, ◌<◌, ◌≡◌, refl, sym, ap, subst, ◌∙◌, [], length, All, All-mono, inl, inr,
  Bool-cases, ◌==◌, ==_iff, false, CStr, str_eq, arith,
}
use on_demand_routing.Frame.{Frame, convert_net_host_order, convert_host_net_order}
use on_demand_routing.Frame.Conversion.{convert_net_host_order-convert_host_net_order}
use on_demand_routing.Odr.{Odr, World, Mac}
use on_demand_routing.Odr.Ensures.{Returns}
use on_demand_routing.Transmit.Delivery.{IsHealthy, copies, onto}
use on_demand_routing.Handler.Ether.{handle_ethernet_msg}
use on_demand_routing.Network.{Packet, Net, Wiring, update, spread_all, flushed}
use on_demand_routing.Network.Node.{
  Request, IsRequest, after_hops, far, IsCalmNode, distance, Reaction,
}
use on_demand_routing.Network.Tables.{after_hops-IsFrame}
use on_demand_routing.Network.Reaction.{handle_ethernet_msg-Reacts}
use on_demand_routing.Network.Measures.{near, near-le, near_grows, weight, weight_step}
use on_demand_routing.Network.Spread.{
  IsCopy, copies-Carries, length-copies, All-onto, Carries, length-onto, spread_all-IsCopy,
  length-spread_all,
}
use on_demand_routing.Network.Totals.{sum, sum-const}

-- How many hops a packet has made.
abbrev pub hops_of : Packet → ℕ
hops_of p = (convert_net_host_order p.frame).hop_count

-- The nodes are healthy, no address of theirs is the destination, and no clock goes on by as much
-- as the staleness; fewer nodes than hop counts, and each frame is heard by a few nodes.
pub record IsNetwork (nodes links degree stale : ℕ) (world : ℕ → World) (heard : Wiring)
    (self : ℕ → CStr) (q : Request) : Type 0 where
  pub healthy : (i : ℕ) → i < nodes → IsHealthy (world i) (self i)
  pub elsewhere : (i : ℕ) → i < nodes → str_eq q.dest_ip (self i) ≡ false
  pub steady : (i : ℕ) → i < nodes → (m n : ℕ) → (world i).clock n < (world i).clock m + stale
  pub interfaces : (i : ℕ) → i < nodes → length (world i).interfaces ≤ links
  pub wired : (i if_index : ℕ) (dst : Mac) → All (λ r. r.0 < nodes) (heard i if_index dst)
  pub few : (i if_index : ℕ) (dst : Mac) → length (heard i if_index dst) ≤ degree
  pub countable : nodes + 1 < far

module _ (nodes stale : ℕ) (world : ℕ → World) (q : Request) where
  -- A packet is the request, and the request reached a node per hop that it made.
  abbrev pub IsFlying : (ℕ → Odr) → Packet → Type 0
  IsFlying node p =
      (p.to < nodes)
      × (p.frame ≡ convert_host_net_order (after_hops q (hops_of p)))
      × (hops_of p ≤ near nodes q node (hops_of p))

  -- Every node has sent what it had to send and has calm tables, and every packet is flying.
  pub record IsFlood (s : Net) : Type 0 where
    pub quiet : (i : ℕ) → i < nodes → (s.node i).sent ≡ []
    pub calm : (i : ℕ) → i < nodes → IsCalmNode (world i) q stale (s.node i)
    pub flying : All (IsFlying s.node) s.air

  pub IsFlying-mono :
      (node : ℕ → Odr) (j : ℕ) (t : Odr)
      → distance q t ≤ distance q (node j)
      → (p : Packet) → IsFlying node p
      → IsFlying (update node j t) p
  IsFlying-mono node j t h p (to, frame, hops) =
      (to, frame, omega (arith, hops, near_grows nodes q node j t h (hops_of p)))

module _ (nodes links degree stale : ℕ) (world : ℕ → World) (heard : Wiring) (self : ℕ → CStr)
    (q : Request) (r : IsRequest q)
    (net : IsNetwork nodes links degree stale world heard self q) where
  abbrev pub cost : Packet → ℕ
  cost p = weight (links * degree) (nodes - hops_of p)

  unfoldable pub potential : Net → ℕ
  potential s = sum cost s.air

  pub flying-small :
      (node : ℕ → Odr) (p : Packet) → IsFlying nodes stale world q node p → hops_of p + 1 < far
  flying-small node p (to, frame, hops) =
      omega (arith, hops, near-le nodes q node (hops_of p), net.countable)

  -- The nodes other than the one that handled a packet are as before.
  pub updated-quiet :
      (s : Net) (j : ℕ) (t : Odr)
      → IsFlood nodes stale world q s
      → (i : ℕ) → i < nodes
      → (update s.node j (flushed t) i).sent ≡ []
  updated-quiet s j t fl i lt = elim (Bool-cases (i == j)) [
    | inl same ↦ rw same refl
    | inr other ↦ rw other (fl.quiet i lt)
  ]

  pub updated-calm :
      (s : Net) (j : ℕ) (t : Odr)
      → IsFlood nodes stale world q s
      → IsCalmNode (world j) q stale t
      → (i : ℕ) → i < nodes
      → IsCalmNode (world i) q stale (update s.node j (flushed t) i)
  updated-calm s j t fl c i lt = elim (Bool-cases (i == j)) [
    | inl same ↦ rw (same, (==_iff i j).0 same) c
    | inr other ↦ rw other (fl.calm i lt)
  ]

  abbrev pub onward : ℕ → Frame
  onward hops = convert_host_net_order (after_hops q hops)

  pub onward-hops :
      (hops : ℕ) → hops < far → (p : Packet) → p.frame ≡ onward hops → hops_of p ≡ hops
  onward-hops hops small p same =
      ap (λ f. (convert_net_host_order f).hop_count) same
      ∙ ap (λ f. f.hop_count)
          (convert_net_host_order-convert_host_net_order (after_hops q hops)
            (after_hops-IsFrame q r hops (omega (arith, small))))

  copy-hops :
      (hops : ℕ) → hops < far → (p : Packet) → IsCopy nodes (onward hops) p → hops_of p ≡ hops
  copy-hops hops small p c = onward-hops hops small p c.same_frame

  pub copy-IsFlying :
      (node : ℕ → Odr) (hops : ℕ)
      → hops < far
      → hops ≤ near nodes q node hops
      → (p : Packet) → IsCopy nodes (onward hops) p
      → IsFlying nodes stale world q node p
  copy-IsFlying node hops small reached p c =
      rw (copy-hops hops small p c) (c.node_exists, c.same_frame, reached)

  -- What the copies that a node makes may cause, against what the frame that it got might.
  pub copies-cost :
      (j intf hops : ℕ)
      → j < nodes
      → hops + 1 < far
      → hops + 1 ≤ nodes
      → sum cost
            (spread_all heard j (onto (copies intf (onward (hops + 1)) (world j).interfaces) []))
          + 1
        ≤ weight (links * degree) (nodes - hops)
  copies-cost j intf hops lt small below =
      let ms = copies intf (onward (hops + 1)) (world j).interfaces in
      let ps = spread_all heard j (onto ms []) in
      let c = weight (links * degree) (nodes - (hops + 1)) in
      let made = spread_all-IsCopy nodes heard net.wired j (onward (hops + 1)) (onto ms []) (
        All-onto (Carries (onward (hops + 1))) ms []
          (copies-Carries intf (onward (hops + 1)) (world j).interfaces) tt) in
      let each : sum cost ps ≡ length ps * c =
        sum-const cost c ps (All-mono ps (λ p k. rw (copy-hops (hops + 1) small p k) refl) made) in
      let many = length-spread_all degree heard net.few j (onto ms []) in
      let sent : length (onto ms []) ≤ links = omega (
        arith,
        length-onto ms [],
        length-copies intf (onward (hops + 1)) (world j).interfaces,
        net.interfaces j lt,
      ) in
      let fan : length ps ≤ links * degree = omega (arith, many, mul-le-mul_right degree sent) in
      omega (arith, each, mul-le-mul_right c fan, weight_step (links * degree) nodes hops below)

  -- The handler returns, and the node ignored the packet or flooded it on.
  abbrev pub Reacted : Packet → Odr → Odr → Type 0
  Reacted p s t =
      IsCalmNode (world p.to) q stale t × Reaction (world p.to) q (hops_of p) p.if_index p.hop s t

  pub reacted :
      (s : Net) (p : Packet)
      → IsFlood nodes stale world q s
      → IsFlying nodes stale world q s.node p
      → Returns
          (λ _ t. Reacted p (s.node p.to) t)
          (handle_ethernet_msg (world p.to) p.frame p.if_index p.hop (s.node p.to))
  reacted s p fl fly =
      subst
        (λ f.
          Returns (λ _ t. Reacted p (s.node p.to) t)
            (handle_ethernet_msg (world p.to) f p.if_index p.hop (s.node p.to)))
        (sym fly.1)
        (handle_ethernet_msg-Reacts (world p.to) (self p.to) (net.healthy p.to fly.0) q r
          (net.elsewhere p.to fly.0) stale (net.steady p.to fly.0) (hops_of p)
          (flying-small s.node p fly) p.if_index p.hop (s.node p.to) (fl.calm p.to fly.0))
